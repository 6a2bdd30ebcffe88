-- ===== src/Broker.antt =====
-- src/broker.rs: the broker.
pub mod Writer
pub mod Packet
pub mod Target
pub mod Maps
pub mod Db
pub mod Registry
pub mod Send
pub mod Register
pub mod Calls
pub mod History
pub mod Aaa
pub mod Peer
pub mod Server
pub mod Connection
pub mod Rpc
pub mod Fifo
pub mod Dispatch
