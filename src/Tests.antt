-- ===== src/Tests.antt =====
-- Concrete inputs: a broker with exact names for masks, clients, frames, and what the theorems say
-- of them.
pub mod Maps
pub mod Protocol
pub mod Handshake
pub mod Client
pub mod Tools
pub mod Writer
pub mod BrokerRpc
pub mod Transport
pub mod Rpc
pub mod Broker
pub mod Deliveries
pub mod Sync
pub mod SyncRpc
pub mod Connect
pub mod Daemon
pub mod Servers
