-- ===== src/Protocol.antt =====
-- src/lib.rs: the constants, codes, errors and frames that all parts share.
pub mod Error
pub mod Codes
pub mod Text
pub mod Name
pub mod Frame
pub mod Outcome
pub mod Talk
pub mod Waiting
