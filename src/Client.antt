-- ===== src/Client.antt =====
-- crates/aura-net/src/client: the state of connections to servers.
pub mod Connection
