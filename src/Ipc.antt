-- ===== src/Ipc.antt =====
-- src/ipc.rs: the client of the broker over a socket.
pub mod Encode
pub mod Decode
pub mod Bulk
pub mod Chat
pub mod Client
pub mod Connect
