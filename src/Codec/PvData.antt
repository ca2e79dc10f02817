-- ===== src/Codec/PvData.antt =====
-- crates/aura-net/src/codec/pvdata.rs: the reader and the writer of pvData.
pub mod Utf8
pub mod Reader
pub mod Writer
pub mod Reads
pub mod RoundTrip
pub mod Inverse
pub mod Arrays
pub mod Writes
pub mod Bounds
mod Tests
