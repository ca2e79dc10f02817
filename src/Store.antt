-- ===== src/Store.antt =====
-- crates/aura-store: what is kept until it is written to the database.
pub mod SharedBuffer
