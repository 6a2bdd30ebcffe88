-- ===== src/Rpc.antt =====
-- src/rpc: the RPC layer over frames.
pub mod Event
pub mod Message
pub mod Error
pub mod Client
