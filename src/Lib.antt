-- ===== src/Lib.antt =====
-- BUS/RT, an inter-process message broker: what its code does with clients and frames, as
-- functions, and theorems about them.
--
-- The parts and their files (paths from the repository's root):
--   Protocol/     src/lib.rs: error kinds and codes (Error), operations, QoS and frame kinds (Codes),
--                 names of secondary clients (Name), text fields (Text), FrameData (Frame). Beside
--                 them, what several parts use: how an operation on shared state ends (Outcome), a
--                 conversation over a connection (Talk), and those who wait for answers (Waiting).
--   Ipc/          src/ipc.rs, the client over a socket: the frames that it writes (Encode: the
--                 macros prepare_frame_buf!, send_frame!, send_zc_frame!), the payload of bulk
--                 requests (Bulk), what one round of handle_read reads (Decode), the handshake
--                 (Chat), Config, connect and register_secondary (Connect), and the connection over
--                 time (Client): send_frame_and_confirm! with its guard, the awaited
--                 acknowledgements, ping.
--   Broker/       src/broker.rs: the state (Db: BrokerDb, BusRtClient), the maps that it uses
--                 (Maps), insert_client, drop_client, trigger_disconnect (Registry), register_client
--                 (Register), the macros safe_send_frame!, send!, send_broadcast!, publish!, and
--                 announce and unregister_client (Send), the calls of clients in the broker's
--                 process (Calls), access rights (Aaa), one round of handle_reader: reading a packet
--                 (Packet, Target) and handling it (Dispatch), and one frame of handle_writer
--                 (Writer), the servers (Server), the handshake of handle_peer (Peer), the pinger
--                 and the end of a connection (Connection), the broker's RPC methods (Rpc) and a
--                 line of its fifo with str_to_params_map of src/common.rs (Fifo); Broker::announce
--                 of any event (Send/Event). History is the broker over time.
--   Rpc/          src/rpc/mod.rs: events (Event) and errors (Error); src/rpc/async_client.rs: the
--                 headers (Message), the calls and the processor (Client).
--   Sync/         src/sync/ipc.rs: what the reader reads (Incoming), the client with its Reader over
--                 time (Client), how it connects (Connect); src/sync/rpc.rs: the calls, the
--                 processor and the threads of requests (Rpc). What is the same text as in
--                 src/ipc.rs is used from Ipc/: the bytes of the frames and chat.
--   Tools/        src/tools/pubsub.rs (TopicBroker), src/comm.rs (TtlBufWriter) and src/cursors.rs
--                 (Cursors).
--   Daemon        src/server.rs: what a path of the command line binds, the start and the
--                 termination (Stop: theorems).
--   Transport/    both ends of a connection: what the client writes and the broker reads (Uplink),
--                 the other way round (Downlink), acknowledgements (Confirm) and the handshake.
--   Wire/         bytes: little endian numbers, splitting at zero bytes, UTF-8, streams.
--   Base/, Tests/ shared names and lemmas; concrete inputs.
--
-- How the state corresponds. A client is a shared object (Arc<BusRtClient>): the broker, its maps
-- and the tasks hold its number, and `objects` says what it is. The channel of a client is its
-- queue, with its size. Operations run one after the other, as a step each; the only waiting inside
-- of one is for room in a queue, which Env.makes_room decides, and for the lock of the RPC client.
-- An operation that is left by `?` inside of a macro is `returned`. The maps of the crate submap are
-- an interface (Maps) with the laws that the broker relies on (MapsLaws); a client's name stands for
-- its digest, and the masks of the maps are theirs. The encoding of events by rmp_serde is
-- Env.encode_event. The build is the one with the feature broker-rpc. A stream is a list of bytes
-- and what is behind it: closed, silent for longer than a timeout, or an error (Source). A slice out
-- of range, which is a panic, is `none`. u32 and u64 wrap around.
--
-- Bounds: drop_client goes from a primary client to its secondaries and no further, so the
-- recursion is given the depth 2 (drop_depth). There is no other fuel.
--
-- What a write of the client's writer comes to (taken, broken, timed out or cancelled after so many
-- bytes), what the buffer of tokio passes on, and what a zc_send under an RPC call gives are given
-- with each step (WriteEnd, WriteAll, Sending). Channels of confirmations and calls are numbered in
-- the order in which they are made.
--
-- The threads of a synchronous RPC client are steps on one state, each as far as its next use of the
-- mutexes: `holder` says which call has that of the bus client, and a thread that finds it taken is
-- blocked. A socket that was shut down takes nothing more (Obeys): this is a premise of the steps that
-- write. Opening a socket gives a line or an error; the options set on it are a part of that. The
-- asynchronous client connects under one timeout: whether all of it is over in time is given.
--
-- A subscription is held under the client's name and stands for the client that is registered under
-- it: that submap keeps the Arc that subscribed, and so would keep one whose name has gone to another
-- client by a forced registration, is not represented.
--
-- Not modelled: what opens sockets and files, tasks and their pool, logging, the options of the
-- daemon and the command line client, which are input and output.
pub mod Base
pub mod Wire
pub mod Protocol
pub mod Ipc
pub mod Broker
pub mod Transport
pub mod Rpc
pub mod Tools
pub mod Sync
pub mod Daemon
pub mod Tests
