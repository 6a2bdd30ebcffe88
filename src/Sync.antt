-- ===== src/Sync.antt =====
-- The synchronous clients: src/sync/ipc.rs and src/sync/rpc.rs.
pub mod Incoming
pub mod Client
pub mod Connect
pub mod Rpc
