-- ===== src/Codec/Framing.antt =====
-- `PvaCodec` of crates/aura-net/src/codec/framing.rs: frames out of a byte stream, with segments
-- put together. `BytesMut` is a list: `advance` drops from its front, `split_to` takes. u64
-- counters wrap, as they do in a release build.
pub mod Total
pub mod Accounting
pub mod Bounds
mod Waiting
pub mod Chunks
mod Steps
pub mod RoundTrip
pub mod Reassembly
mod Tests
use aura_epics.Prelude.{
  ℕ, zero, suc, ◌+◌, ◌*◌, ◌%◌, ◌^◌, List, [], ◌∷◌, ◌++◌, Bool, Option, none, some, Result, ok, err,
  take, drop, length, ltb, if◌then◌else◌,
}
use aura_epics.Codec.ByteOrder
use aura_epics.Codec.ByteOrder.{ByteOrder, is_negative_i32}
use aura_epics.Codec.Header
use aura_epics.Codec.Header.{
  PvaHeader, Segmentation, unsegmented, first, middle, last, header_size, max_payload_size,
  is_control, segmentation, with_segmentation, at,
}

pub record PvaFrame : Type 0 where
  pub header : PvaHeader
  pub payload : List ℕ

unfoldable pub wire_size : PvaFrame → ℕ
wire_size f = header_size + length f.payload

pub data DecodeState : Type 0 where
  header : DecodeState
  payload : PvaHeader → DecodeState

pub record SegmentBuffer : Type 0 where
  pub header : PvaHeader
  pub bytes : List ℕ

pub data CodecError : Type 0 where
  bad_magic : ℕ → CodecError
  negative_payload : ℕ → CodecError
  payload_too_large : ℕ → CodecError
  segment_too_large : CodecError
  unexpected_segment : CodecError

pub record PvaCodec : Type 0 where
  pub state : DecodeState
  pub byte_order : ByteOrder
  pub max_payload : ℕ
  pub segment_buf : Option SegmentBuffer
  pub total_bytes : ℕ
  pub total_frames : ℕ

unfoldable pub new : PvaCodec
new = record {
  state = header;
  byte_order = ByteOrder.little_endian;
  max_payload = max_payload_size;
  segment_buf = none;
  total_bytes = 0;
  total_frames = 0;
}

unfoldable pub with_max_payload : PvaCodec → ℕ → PvaCodec
with_max_payload c m = record c { max_payload = m }

-- `x += n` on a u64
abbrev pub add_u64 : ℕ → ℕ → ℕ
add_u64 x n = (x + n) % 2 ^ 64

abbrev pub Outcome : Type 0
Outcome = Result (Option PvaFrame) CodecError

-- One round of the loop ends the call with a result, or goes on.
pub data Flow : Type 0 where
  return : Outcome → Flow
  again : Flow

pub record Round : Type 0 where
  pub flow : Flow
  pub codec : PvaCodec
  pub src : List ℕ

-- The round in state `Header`, once the eight bytes have decoded.
unfoldable pub header_decoded : PvaCodec → List ℕ → PvaHeader → Round
header_decoded c src h =
    if is_control h
    then record {
      flow = return (ok (some (record { header = h; payload = [] })));
      codec = record c {
        total_bytes = add_u64 c.total_bytes header_size;
        total_frames = add_u64 c.total_frames 1;
      };
      src = drop header_size src;
    }
    else if is_negative_i32 h.payload_size
    then record { flow = return (err (negative_payload h.payload_size)); codec = c; src = src }
    else if ltb c.max_payload h.payload_size
    then record { flow = return (err (payload_too_large h.payload_size)); codec = c; src = src }
    else record { flow = again; codec = record c { state = payload h }; src = src }

-- `PvaHeader::decode(&hdr).ok_or(..)?`
abbrev pub header_or_error : PvaCodec → List ℕ → Option PvaHeader → Round
header_or_error c src none = record {
  flow = return (err (bad_magic (at src 0)));
  codec = c;
  src = src;
}
header_or_error c src (some h) = header_decoded c src h

unfoldable pub header_round : PvaCodec → List ℕ → Round
header_round c src =
    if ltb (length src) header_size
    then record { flow = return (ok none); codec = c; src = src }
    else header_or_error c src (Header.decode (take header_size src))

abbrev pub too_long : PvaCodec → SegmentBuffer → List ℕ → Bool
too_long c seg bytes = ltb (c.max_payload * 4) (length seg.bytes + length bytes)

abbrev pub join : SegmentBuffer → List ℕ → SegmentBuffer
join seg bytes = record seg { bytes = seg.bytes ++ bytes }

-- `final_h` and its frame
unfoldable pub joined_frame : SegmentBuffer → PvaFrame
joined_frame seg = record {
  header =
      with_segmentation (record seg.header { payload_size = length seg.bytes % 2 ^ 32 })
        unsegmented;
  payload = seg.bytes;
}

abbrev pub done : PvaCodec → List ℕ → Outcome → Round
done c src r = record { flow = return r; codec = c; src = src }

-- The arm of a middle segment, by what `segment_buf` holds.
abbrev pub middle_segment : Option SegmentBuffer → PvaCodec → List ℕ → List ℕ → Round
middle_segment none c src bytes = done c src (err unexpected_segment)
middle_segment (some seg) c src bytes =
    if too_long c seg bytes then done c src (err segment_too_large) else record {
      flow = again;
      codec = record c { segment_buf = some (join seg bytes) };
      src = src;
    }

-- The arm of a last segment: `take` empties `segment_buf` first.
abbrev pub last_segment : Option SegmentBuffer → PvaCodec → List ℕ → List ℕ → Round
last_segment none c src bytes = done c src (err unexpected_segment)
last_segment (some seg) c src bytes =
    if too_long c seg bytes
    then done (record c { segment_buf = none }) src (err segment_too_large)
    else done (record c { segment_buf = none; total_frames = add_u64 c.total_frames 1 }) src
        (ok (some (joined_frame (join seg bytes))))

-- `match header.segmentation()`; `c` and `src` are past the payload `bytes`.
unfoldable pub dispatch : Segmentation → PvaHeader → PvaCodec → List ℕ → List ℕ → Round
dispatch unsegmented h c src bytes =
    done (record c { total_frames = add_u64 c.total_frames 1 }) src
      (ok (some (record { header = h; payload = bytes })))
dispatch first h c src bytes = record {
  flow = again;
  codec = record c { segment_buf = some (record { header = h; bytes = bytes }) };
  src = src;
}
dispatch middle h c src bytes = middle_segment c.segment_buf c src bytes
dispatch last h c src bytes = last_segment c.segment_buf c src bytes

-- The state `Payload` is entered with a size that is not negative, so `as usize` keeps it.
unfoldable pub payload_round : PvaHeader → PvaCodec → List ℕ → Round
payload_round h c src =
    if ltb (length src) (header_size + h.payload_size)
    then done c src (ok none)
    else dispatch (segmentation h) h
        (record c {
          state = header;
          total_bytes = add_u64 c.total_bytes (header_size + h.payload_size);
        })
        (drop h.payload_size (drop header_size src)) (take h.payload_size (drop header_size src))

-- `match self.state`
abbrev pub round_in : DecodeState → PvaCodec → List ℕ → Round
round_in header c src = header_round c src
round_in (payload h) c src = payload_round h c src

unfoldable pub round : PvaCodec → List ℕ → Round
round c src = round_in c.state c src

pub record Decoded : Type 0 where
  pub result : Outcome
  pub codec : PvaCodec
  pub src : List ℕ

-- The loop, with fuel: `none` says that the fuel ran out, which it does not (Total.antt).
unfoldable pub decode_loop : ℕ → PvaCodec → List ℕ → Option Decoded
decode_loop zero c src = none
decode_loop (suc fuel) c src =
    let r : Round = round c src in
    elim r.flow [
      | return o ↦ some (record { result = o; codec = r.codec; src = r.src })
      | again ↦ decode_loop fuel r.codec r.src
    ]

-- Every second round takes a header's bytes at least.
unfoldable pub decode_frame : PvaCodec → List ℕ → Option Decoded
decode_frame c src = decode_loop (2 * length src + 2) c src

unfoldable pub encode_frame : PvaFrame → List ℕ → List ℕ
encode_frame f dst = dst ++ (Header.encode f.header ++ f.payload)
