-- ===== src/Codec.antt =====
-- crates/aura-net/src/codec: the wire format of PVAccess.
pub mod ByteOrder
pub mod PvData
pub mod Header
pub mod Framing
pub mod FieldDesc
pub mod BitSet
