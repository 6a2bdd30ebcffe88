-- ===== src/Broker/Server.antt =====
-- src/broker.rs: the servers of the broker and the connections that they hand to `handle_peer`. What
-- comes of an accepted stream, the options that are set on it and the handshakes of TLS and web
-- sockets are given.
pub mod Hosts
use busrt.Protocol.Error.{Result, ok, err, Error}
use busrt.Broker.Maps.{Maps}
use busrt.Broker.Db.{ClientKind, local_ipc, tcp, web_socket}
use busrt.Broker.Aaa.{ClientAaa}
use busrt.Broker.Peer.{PeerHandlerParams}
use busrt.Ipc.Connect.{default_timeout, default_buf_ttl, default_buf_size}
use busrt.Base.{
  Table, get, put, del, get-del, get-del_other, get-put, get-put_other, byte_at, ℕ, zero, suc, ◌+◌,
  ◌-◌, ◌*◌, ◌/◌, ◌%◌, ◌^◌, ◌≤◌, ◌<◌, bit_and, bit_or, String, ◌≡◌, refl, sym, ap, ◌∙◌, subst, ◌≢◌,
  ◌↔◌, ◌⊎◌, inl, inr, Bool, true, false, not, ◌&&◌, ◌||◌, Option, none, some, List, [], ◌∷◌, ◌++◌,
  map, append-nil, append_assoc, arith, ltb, leb, ◌==◌, if◌then◌else◌, ltb→lt, lt→ltb, leb→le,
  le→leb, lt→leb, le→ltb, ==_iff, Bool-cases, Option-cases, Bytes, codes, bytes_eq, bytes_eq_iff,
  length, take, drop, is_empty, length-append, length-drop, take-append, drop-append,
  take-append-drop, slice_from, slice,
}

pub record ServerConfig (m : Maps) (Network : Type 0) : Type 0 where
  pub buf_size : ℕ
  pub buf_ttl : ℕ
  pub timeout : ℕ
  pub payload_size_limit : Option ℕ
  pub aaa_map : Option (Bytes → Option (ClientAaa m Network))

module _ {Network : Type 0} {m : Maps} where
  abbrev pub default_config : ServerConfig m Network
  default_config = record {
    buf_size = default_buf_size;
    buf_ttl = default_buf_ttl;
    timeout = default_timeout;
    payload_size_limit = none;
    aaa_map = none;
  }

  module _ (c : ServerConfig m Network) where
    abbrev pub with_buf_size : ℕ → ServerConfig m Network
    with_buf_size size = record c { buf_size = size }

    abbrev pub with_buf_ttl : ℕ → ServerConfig m Network
    with_buf_ttl ttl = record c { buf_ttl = ttl }

    abbrev pub with_timeout : ℕ → ServerConfig m Network
    with_timeout t = record c { timeout = t }

    abbrev pub with_aaa_map : (Bytes → Option (ClientAaa m Network)) → ServerConfig m Network
    with_aaa_map aaa_map = record c { aaa_map = some aaa_map }

    abbrev pub with_payload_size_limit : ℕ → ServerConfig m Network
    with_payload_size_limit size = record c { payload_size_limit = some size }

-- What the broker gives to its servers.
pub record Broker : Type 0 where
  pub queue_size : ℕ
  pub direct_alloc_limit : Option ℕ

-- A connection that was handed to `handle_peer`, with what its reader and writer get.
pub record Peer (m : Maps) (Network Addr Stream : Type 0) : Type 0 where
  pub stream : Stream
  pub params : PeerHandlerParams m Network Addr
  pub buf_size : ℕ
  pub buf_ttl : ℕ
  pub timeout : ℕ
  pub payload_size_limit : Option ℕ
  pub direct_alloc_limit : Option ℕ

-- What `accept` gives.
pub data Arrival (Addr Stream : Type 0) : Type 0 where
  arrived : Stream → Addr → Arrival Addr Stream
  refused : Error → Arrival Addr Stream

-- A handshake under the server's timeout
pub data Shake (Stream : Type 0) : Type 0 where
  shaken : Stream → Shake Stream
  broken : Error → Shake Stream
  timed_out : Shake Stream

module _ {Network Addr Stream : Type 0} {m : Maps} (b : Broker)
    (config : ServerConfig m Network) where
  unfoldable pub handle_connection :
      Bytes → Option Addr → ClientKind → Option Bytes → Stream → Peer m Network Addr Stream
  handle_connection path ip kind source stream = record {
    stream = stream;
    params = record {
      aaa_map = config.aaa_map;
      ip = ip;
      queue_size = b.queue_size;
      kind = kind;
      source = source;
      source_port = some path;
    };
    buf_size = config.buf_size;
    buf_ttl = config.buf_ttl;
    timeout = config.timeout;
    payload_size_limit = config.payload_size_limit;
    direct_alloc_limit = b.direct_alloc_limit;
  }

  -- One round of the loop of `spawn_server!`, by what is set on the stream and what its address
  -- stands for; an error is logged, and the loop goes on.
  unfoldable pub spawn_if :
      Bytes
      → ClientKind
      → Option Addr
      → Option Bytes
      → Stream
      → Result (Unit {0})
      → Option (Peer m Network Addr Stream)
  unfolding handle_connection
  spawn_if path kind ip source stream (err e) = none
  spawn_if path kind ip source stream (ok _) = some (handle_connection path ip kind source stream)

  unfoldable pub serve_unix : Bytes → Arrival Addr Stream → Option (Peer m Network Addr Stream)
  unfolding spawn_if
  serve_unix path (refused e) = none
  serve_unix path (arrived stream addr) = spawn_if path local_ipc none none stream (ok tt)

  module _ (set_nodelay : Stream → Result (Unit {0})) (addr_text : Addr → Bytes) where
    unfoldable pub serve_tcp : Bytes → Arrival Addr Stream → Option (Peer m Network Addr Stream)
    unfolding spawn_if
    serve_tcp path (refused e) = none
    serve_tcp path (arrived stream addr) =
        spawn_if path tcp (some addr) (some (addr_text addr)) stream (set_nodelay stream)

    unfoldable pub after_websocket :
        Bytes → Addr → Shake Stream → Option (Peer m Network Addr Stream)
    unfolding handle_connection
    after_websocket path addr (shaken stream) =
        some (handle_connection path (some addr) web_socket (some (addr_text addr)) stream)
    after_websocket path addr (broken e) = none
    after_websocket path addr timed_out = none

    module _ (accept_websocket : Stream → Shake Stream)
        (accept_tls : Option (Stream → Shake Stream)) where
      unfoldable pub after_tls : Bytes → Addr → Shake Stream → Option (Peer m Network Addr Stream)
      unfolding after_websocket
      after_tls path addr (shaken stream) = after_websocket path addr (accept_websocket stream)
      after_tls path addr (broken e) = none
      after_tls path addr timed_out = none

      -- `prepare_and_handle!`, behind TLS if the server has it
      unfoldable pub shake :
          Bytes
          → Addr
          → Stream
          → Option (Stream → Shake Stream)
          → Option (Peer m Network Addr Stream)
      unfolding after_tls
      shake path addr stream none = after_websocket path addr (accept_websocket stream)
      shake path addr stream (some tls) = after_tls path addr (tls stream)

      unfoldable pub shake_if :
          Bytes → Addr → Stream → Result (Unit {0}) → Option (Peer m Network Addr Stream)
      unfolding shake
      shake_if path addr stream (err e) = none
      shake_if path addr stream (ok _) = shake path addr stream accept_tls

      unfoldable pub serve_websocket :
          Bytes → Arrival Addr Stream → Option (Peer m Network Addr Stream)
      unfolding shake_if
      serve_websocket path (refused e) = none
      serve_websocket path (arrived stream addr) = shake_if path addr stream (set_nodelay stream)

  -- A connection that is there already; its client has no port's path but the empty one.
  unfoldable pub spawn_server_connection : Stream → Peer m Network Addr Stream
  unfolding handle_connection
  spawn_server_connection stream = handle_connection [] none local_ipc none stream

-- The loop of a server: the peers that it has spawned, in order, after these arrivals
unfoldable pub serve :
    {Addr Stream P : Type 0}
    → (Arrival Addr Stream → Option P)
    → List (Arrival Addr Stream)
    → List P
serve accept [] = []
serve accept (a ∷ rest) =
    let peers = serve accept rest in elim (accept a) [ none ↦ peers | some p ↦ p ∷ peers ]
