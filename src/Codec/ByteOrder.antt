-- ===== src/Codec/ByteOrder.antt =====
-- `ByteOrder` of crates/aura-net/src/codec/header.rs, with the conversions between integers and
-- bytes that it calls. An integer of w bits, signed or not, is its bit pattern, a number below
-- 2 ^ w: casts between i32 and u32 keep the pattern, and a signed number is negative when its
-- top bit is set. An f32 or f64 is its bit pattern too.
pub mod RoundTrip
use mathlib.Core.List.{reverse}
use aura_epics.Prelude.{
  ℕ, zero, suc, ◌+◌, ◌*◌, ◌/◌, ◌%◌, ◌^◌, ◌<◌, bit_and, List, [], ◌∷◌, Bool, leb, ◌==◌,
  if◌then◌else◌, All,
}

abbrev pub IsByte : ℕ → Type 0
IsByte b = b < 256

pub data ByteOrder : Type 0 where
  little_endian big_endian : ByteOrder

abbrev pub big_endian_flag : ℕ
big_endian_flag = 0x80

unfoldable pub from_flags : ℕ → ByteOrder
from_flags f = if bit_and f big_endian_flag == 0 then little_endian else big_endian

unfoldable pub to_bits : ByteOrder → ℕ
to_bits little_endian = 0
to_bits big_endian = big_endian_flag

-- `to_le_bytes` of an integer of `k` bytes
unfoldable pub to_le_bytes : ℕ → ℕ → List ℕ
to_le_bytes zero n = []
to_le_bytes (suc k) n = n % 256 ∷ to_le_bytes k (n / 256)

-- `from_le_bytes`
unfoldable pub from_le_bytes : List ℕ → ℕ
from_le_bytes [] = 0
from_le_bytes (b ∷ bs) = b + 256 * from_le_bytes bs

unfoldable pub to_be_bytes : ℕ → ℕ → List ℕ
unfolding to_le_bytes
to_be_bytes k n = reverse (to_le_bytes k n)

unfoldable pub from_be_bytes : List ℕ → ℕ
unfolding from_le_bytes
from_be_bytes bs = from_le_bytes (reverse bs)

-- `read_u16`, `read_i32`, ..., `read_f64`: they differ in the width of the array alone.
unfoldable pub read_word : ByteOrder → List ℕ → ℕ
unfolding from_le_bytes from_be_bytes
read_word little_endian bytes = from_le_bytes bytes
read_word big_endian bytes = from_be_bytes bytes

-- `write_i32` and the matches on the order in `PvaWriter`, for `k` bytes
unfoldable pub write_word : ByteOrder → ℕ → ℕ → List ℕ
unfolding to_le_bytes to_be_bytes
write_word little_endian k n = to_le_bytes k n
write_word big_endian k n = to_be_bytes k n

-- the sign of an i32, by its bit pattern
abbrev pub is_negative_i32 : ℕ → Bool
is_negative_i32 n = leb (2 ^ 31) n
