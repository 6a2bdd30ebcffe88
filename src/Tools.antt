-- ===== src/Tools.antt =====
-- src/tools/pubsub.rs, src/comm.rs and src/cursors.rs: helpers beside the protocol.
pub mod TopicBroker
pub mod TtlBufWriter
pub mod Cursors
