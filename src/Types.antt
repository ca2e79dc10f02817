-- ===== src/Types.antt =====
-- crates/aura-net/src/types: the values that a message carries.
pub mod PvaValue
