-- ===== src/Codec/Header.antt =====
-- `Segmentation`, `PvaHeader` and `HeaderError` of crates/aura-net/src/codec/header.rs. A byte array
-- is a list; `at` is an index into one. `payload_size` is an i32 by its bit pattern.
pub mod Flags
pub mod RoundTrip
pub mod Validate
mod Tests
use aura_epics.Prelude.{
  ℕ, ◌+◌, ◌*◌, ◌-◌, ◌<◌, bit_and, bit_or, List, [], ◌∷◌, ◌++◌, Bool, true, false, not, ◌&&◌, Option,
  none, some, Result, ok, err, take, drop, get_or, ltb, leb, ◌==◌, if◌then◌else◌,
}
use aura_epics.Codec.ByteOrder.{
  ByteOrder, from_flags, to_bits, read_word, write_word, is_negative_i32, big_endian_flag,
}

abbrev pub pva_magic : ℕ
pva_magic = 0xca

abbrev pub pva_version : ℕ
pva_version = 2

abbrev pub pva_version_min : ℕ
pva_version_min = 1

abbrev pub header_size : ℕ
header_size = 8

abbrev pub max_payload_size : ℕ
max_payload_size = 16 * 1024 * 1024

abbrev pub control_flag : ℕ
control_flag = 0x01

abbrev pub seg_mask : ℕ
seg_mask = 0x30

abbrev pub seg_none : ℕ
seg_none = 0x00

abbrev pub seg_first : ℕ
seg_first = 0x10

abbrev pub seg_last : ℕ
seg_last = 0x20

abbrev pub seg_middle : ℕ
seg_middle = 0x30

abbrev pub from_server_flag : ℕ
from_server_flag = 0x40

-- `!x` of a u8
abbrev pub not_u8 : ℕ → ℕ
not_u8 x = 255 - x

pub data Segmentation : Type 0 where
  unsegmented first last middle : Segmentation

-- the match on `f & SEG_MASK`
abbrev pub segmentation_from_bits : ℕ → Segmentation
segmentation_from_bits bits =
    if bits == seg_none
    then unsegmented
    else if bits == seg_first
    then first
    else if bits == seg_last
    then last
    else if bits == seg_middle
    then middle
    else unsegmented

unfoldable pub segmentation_from_flags : ℕ → Segmentation
segmentation_from_flags f = segmentation_from_bits (bit_and f seg_mask)

unfoldable pub segmentation_to_bits : Segmentation → ℕ
segmentation_to_bits unsegmented = seg_none
segmentation_to_bits first = seg_first
segmentation_to_bits last = seg_last
segmentation_to_bits middle = seg_middle

pub record PvaHeader : Type 0 where
  pub version : ℕ
  pub flags : ℕ
  pub command : ℕ
  pub payload_size : ℕ

unfoldable pub app : ℕ → ℕ → PvaHeader
app command payload_size = record {
  version = pva_version;
  flags = 0;
  command = command;
  payload_size = payload_size;
}

unfoldable pub server : ℕ → ℕ → PvaHeader
server command payload_size = record {
  version = pva_version;
  flags = from_server_flag;
  command = command;
  payload_size = payload_size;
}

unfoldable pub ctrl : ℕ → ℕ → PvaHeader
ctrl command payload_value = record {
  version = pva_version;
  flags = control_flag;
  command = command;
  payload_size = payload_value;
}

unfoldable pub with_byte_order : PvaHeader → ByteOrder → PvaHeader
unfolding to_bits
with_byte_order h order = record h {
  flags = bit_or (bit_and h.flags (not_u8 big_endian_flag)) (to_bits order);
}

unfoldable pub with_segmentation : PvaHeader → Segmentation → PvaHeader
unfolding segmentation_to_bits
with_segmentation h seg = record h {
  flags = bit_or (bit_and h.flags (not_u8 seg_mask)) (segmentation_to_bits seg);
}

unfoldable pub is_control : PvaHeader → Bool
is_control h = not (bit_and h.flags control_flag == 0)

unfoldable pub is_application : PvaHeader → Bool
unfolding is_control
is_application h = not (is_control h)

unfoldable pub is_from_server : PvaHeader → Bool
is_from_server h = not (bit_and h.flags from_server_flag == 0)

unfoldable pub byte_order : PvaHeader → ByteOrder
unfolding from_flags
byte_order h = from_flags h.flags

unfoldable pub segmentation : PvaHeader → Segmentation
unfolding segmentation_from_flags
segmentation h = segmentation_from_flags h.flags

unfoldable pub is_segmented : Segmentation → Bool
is_segmented unsegmented = false
is_segmented first = true
is_segmented last = true
is_segmented middle = true

abbrev pub at : List ℕ → ℕ → ℕ
at buf i = get_or buf i 0

-- The argument is an array of `header_size` bytes.
unfoldable pub decode : List ℕ → Option PvaHeader
decode buf =
    if at buf 0 == pva_magic
    then some (record {
      version = at buf 1;
      flags = at buf 2;
      command = at buf 3;
      payload_size =
          read_word (from_flags (at buf 2)) (at buf 4 ∷ at buf 5 ∷ at buf 6 ∷ at buf 7 ∷ []);
    })
    else none

unfoldable pub encode : PvaHeader → List ℕ
encode h = pva_magic ∷ h.version ∷ h.flags ∷ h.command ∷ write_word (byte_order h) 4 h.payload_size

-- `buf[..HEADER_SIZE].copy_from_slice(&encoded)`; the caller gives at least 8 bytes.
unfoldable pub encode_into : PvaHeader → List ℕ → List ℕ
encode_into h buf = encode h ++ drop header_size buf

pub data HeaderError : Type 0 where
  bad_magic : ℕ → HeaderError
  unsupported_version : ℕ → HeaderError
  negative_payload : ℕ → HeaderError
  payload_too_large : ℕ → HeaderError

unfoldable pub validate : PvaHeader → Result (Unit {0}) HeaderError
unfolding is_application
validate h =
    if ltb h.version pva_version_min
    then err (unsupported_version h.version)
    else if is_negative_i32 h.payload_size && is_application h
    then err (negative_payload h.payload_size)
    else if is_application h && ltb max_payload_size h.payload_size
    then err (payload_too_large h.payload_size)
    else ok tt
