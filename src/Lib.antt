-- ===== src/Lib.antt =====
-- AURA-EPICS archives the process variables of an EPICS control system: it reads PVAccess messages
-- from TCP streams, decodes them by their introspection data, and hands values to the writers of
-- a time-series database. This library models, as functions, the parts below of the Rust sources.
--
-- crates/aura-net/src/codec/header.rs
--   Codec/ByteOrder.antt: `ByteOrder` and its reads and writes of integers (`read_word` is read_u16,
--   read_i32, ..., read_f64, which differ in their width alone). Codec/Header.antt: `PvaHeader`.
-- crates/aura-net/src/codec/pvdata.rs
--   Codec/PvData: Reader.antt (`PvaReader`) and Writer.antt (`PvaWriter`), method by method.
--   `read_number` stands for read_i16, ..., read_f64, and `write_number` for their writes.
-- crates/aura-net/src/codec/framing.rs
--   Codec/Framing.antt: `PvaCodec`. `decode_frame` is its loop; `round` is one turn of it.
-- crates/aura-net/src/codec/field_desc.rs
--   Codec/FieldDesc.antt: `FieldDesc` with `encode`, `decode_full`, `decode_type_code` and
--   `decode_complex_type`; Codec/FieldDesc/Registry.antt: `IntrospectionRegistry` and `decode`.
-- crates/aura-net/src/messages
--   Messages/Status.antt, Messages/Channel, Messages/Connection, Messages/Monitor and
--   Messages/Search: the messages of status.rs, channel.rs, connection.rs, monitor.rs and of
--   search.rs the request, each with `decode` and `encode`.
-- crates/aura-net/src/types/pva_value.rs
--   Types/PvaValue.antt: `PvaValue` and `decode_from`, by recursion on the description. Values.antt
--   beside it says which values a description allows; `PvaValue` has none for an array of
--   structures, unions or variants.
-- crates/aura-net/src/codec/bitset.rs
--   Codec/BitSet.antt: `PvaBitSet`, two words within the object and a vector of others, and its
--   `decode`. Codec/BitSet/Encode.antt: its `encode`.
-- crates/aura-net/src/runtime/session.rs
--   Runtime/Delta.antt: `decode_delta_structure`, `skip_flat_indices`, and the choice of
--   `handle_monitor_update` between the whole value and the changed fields (`decode_update`).
--   Runtime/Layout.antt: `detect` of FastScalarLayout, FastArrayLayout and FastEnumLayout.
-- crates/aura-net/src/client/connection.rs
--   Client/Connection.antt: `ConnectionState` and its channels; Steps.antt beside it runs any
--   sequence of its operations, and PerId.antt follows the channel of one id through it.
-- crates/aura-store/src/writer/shared_buf.rs
--   Store/SharedBuffer.antt: `SharedBuffer`; Steps.antt beside it runs any sequence of its calls.
--
-- crates/aura-discover/src
--   Discover/ConfigPoller.antt (config_poller.rs, with `PvConfig` of crates/aura-core/src/pv.rs),
--   Discover/Reconciler.antt (reconciler.rs), and Discover/Orchestrator.antt (orchestrator.rs, with
--   the commands of command_publisher.rs).
--
-- The framing codec cuts a byte stream into headers and payloads with `PvaHeader::decode`; the
-- payloads are read by `PvaReader`, and `PvaWriter` builds those that are sent. A server describes
-- the values of a channel by a `FieldDesc`, and `PvaValue::decode_from` reads them by it. An update
-- brings a `PvaBitSet` of the fields that changed, and the session decodes these fields alone. Which
-- channels are archived is the matter of the orchestrator: each cycle it hands the poller's
-- comparison of two readings of the configuration to the reconciler, and carries out the actions
-- that this returns.
--
-- Bytes are numbers, byte slices are lists. An integer of w bits, signed or not, is its bit
-- pattern below 2 ^ w, a float its IEEE bits; a cast between the signed and the unsigned type of a
-- width keeps the pattern. A `String` is the list of its UTF-8 bytes. A method on `&mut self` that
-- may fail returns its result beside the object it leaves (Prelude/Results.antt). usize has 64
-- bits, and buffers are shorter than 2 ^ 63 bytes, so that positions do not wrap. u64 counters
-- wrap, as in a release build.
--
-- Fuel: `decode_frame` runs its loop on twice the length of the input and two rounds more; a round
-- that goes on either enters a payload or takes eight bytes, so this is enough for every input.
--
-- `FieldDesc::decode` allows as many levels of nesting as bytes lie ahead: each level takes a
-- byte.
--
-- A hash map or a hash set is a list with one entry for a key; its order, which the code does not
-- fix, is that of insertion. What the database answers in a cycle, the time and the printing of
-- socket addresses are arguments.
--
-- Not modelled: search responses, the reads of the session's fast paths, capacities of vectors, the
-- texts of errors, of alerts and of `Display`, the asynchronous sessions, the database writers,
-- Redis, the HTTP interface and the command line.
pub mod Prelude
pub mod Codec
pub mod Messages
pub mod Store
pub mod Client
pub mod Types
pub mod Runtime
pub mod Discover
