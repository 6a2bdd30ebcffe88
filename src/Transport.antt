-- ===== src/Transport.antt =====
-- Both ends of a connection together: what a client of src/ipc.rs writes and the broker of
-- src/broker.rs reads, and the other way round.
pub mod Uplink
pub mod Downlink
pub mod Confirm
pub mod Handshake
