-- ===== src/Runtime.antt =====
-- crates/aura-net/src/runtime: the session of a connection.
pub mod Delta
pub mod Layout
