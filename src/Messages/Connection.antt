-- ===== src/Messages/Connection.antt =====
-- crates/aura-net/src/messages/connection.rs: the handshake of a connection.
pub mod Validation
pub mod Validated
