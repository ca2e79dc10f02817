-- ===== src/Codec/PvData/Reader.antt =====
-- `PvaReader` of crates/aura-net/src/codec/pvdata.rs. A read is a method on `&mut self` that may
-- fail: it returns its result beside the reader that it leaves, after an error too.
-- `pos + n` stays below 2 ^ 64: `pos` is within a buffer and `n` comes from an i32 or a byte.
use aura_epics.Prelude.{
  ℕ, zero, suc, ◌+◌, ◌-◌, ◌^◌, List, [], ◌∷◌, Bool, not, Option, none, some, ok, err, Exec, pure,
  raise, ◌>>=◌, ◌>>◌, take, drop, length, get_or, ltb, leb, ◌==◌, if◌then◌else◌,
}
use aura_epics.Codec.ByteOrder.{ByteOrder, read_word, is_negative_i32}
use aura_epics.Codec.PvData.Utf8.{is_utf8}

-- The texts of `Protocol`, by what they report. Error texts themselves are not modelled.
pub data ProtocolError : Type 0 where
  unknown_introspection_id : ℕ → ProtocolError
  null_type_code_nested : ProtocolError
  only_id_nested : ℕ → ProtocolError
  unknown_status_type : ℕ → ProtocolError
  unknown_monitor_sub : ℕ → ProtocolError
  bounded_string_exceeds : ℕ → ℕ → ProtocolError
  union_selector_out_of_range : ℕ → ℕ → ProtocolError

pub data DecodeError : Type 0 where
  unexpected_end : ℕ → ℕ → DecodeError
  unexpected_null : DecodeError
  invalid_size : ℕ → DecodeError
  invalid_utf8 : DecodeError
  unknown_type_code : ℕ → DecodeError
  protocol : ProtocolError → DecodeError

pub record PvaReader : Type 0 where
  pub buf : List ℕ
  pub pos : ℕ
  pub order : ByteOrder

abbrev pub Decoder : Type 0 → Type 0
Decoder A = Exec PvaReader DecodeError A

unfoldable pub new : List ℕ → ByteOrder → PvaReader
new buf order = record { buf = buf; pos = 0; order = order }

unfoldable pub remaining : PvaReader → ℕ
remaining r = length r.buf - r.pos

unfoldable pub is_empty : PvaReader → Bool
is_empty r = leb (length r.buf) r.pos

abbrev pub advance : PvaReader → ℕ → PvaReader
advance r n = record r { pos = r.pos + n }

unfoldable pub peek : Decoder ℕ
peek r =
    if ltb r.pos (length r.buf)
    then (ok (get_or r.buf r.pos 0), r)
    else (err (unexpected_end 1 0), r)

unfoldable pub ensure : ℕ → Decoder (Unit {0})
ensure n r =
    if ltb (length r.buf) (r.pos + n)
    then (err (unexpected_end n (length r.buf - r.pos)), r)
    else (ok tt, r)

-- `&self.buf[self.pos..self.pos + n]` and `self.pos += n`
abbrev pub slice : ℕ → Decoder (List ℕ)
slice n r = (ok (take n (drop r.pos r.buf)), advance r n)

unfoldable pub skip : ℕ → Decoder (Unit {0})
skip n = do ensure n; (λ r. (ok tt, advance r n))

unfoldable pub read_bytes : ℕ → Decoder (List ℕ)
read_bytes n = do ensure n; slice n

unfoldable pub read_u8 : Decoder ℕ
read_u8 = do ensure 1; (λ r. (ok (get_or r.buf r.pos 0), advance r 1))

unfoldable pub read_fixed : ℕ → Decoder (List ℕ)
read_fixed n = do ensure n; slice n

-- `read_i16`, `read_u16`, `read_i32`, ..., `read_f64`: an array of `k` bytes in the reader's order
unfoldable pub read_number : ℕ → Decoder ℕ
read_number k = do bytes ← read_fixed k; (λ r. (ok (read_word r.order bytes), r))

abbrev pub read_i8 : Decoder ℕ
read_i8 = read_u8

unfoldable pub read_bool : Decoder Bool
read_bool = do b ← read_u8; pure (not (b == 0))

abbrev pub read_i16 : Decoder ℕ
read_i16 = read_number 2

abbrev pub read_u16 : Decoder ℕ
read_u16 = read_number 2

abbrev pub read_i32 : Decoder ℕ
read_i32 = read_number 4

abbrev pub read_u32 : Decoder ℕ
read_u32 = read_number 4

abbrev pub read_i64 : Decoder ℕ
read_i64 = read_number 8

abbrev pub read_u64 : Decoder ℕ
read_u64 = read_number 8

abbrev pub read_f32 : Decoder ℕ
read_f32 = read_number 4

abbrev pub read_f64 : Decoder ℕ
read_f64 = read_number 8

abbrev pub size_null : ℕ
size_null = 255

abbrev pub size_extended : ℕ
size_extended = 254

-- `n as i64` of a negative i32: the sign bit fills the upper half.
abbrev sign_extend : ℕ → ℕ
sign_extend n = n + (2 ^ 64 - 2 ^ 32)

unfoldable pub extended_size : Decoder (Option ℕ)
extended_size = do
  n ← read_i32
  if is_negative_i32 n then raise (invalid_size (sign_extend n)) else pure (some n)

-- the match on the tag byte
unfoldable pub size_of_tag : ℕ → Decoder (Option ℕ)
size_of_tag tag =
    if tag == size_null
    then pure none
    else if tag == size_extended
    then extended_size
    else pure (some tag)

unfoldable pub read_size : Decoder (Option ℕ)
read_size = do tag ← read_u8; size_of_tag tag

-- `ok_or(DecodeError::UnexpectedNull)`
abbrev pub non_null : Option ℕ → Decoder ℕ
non_null none = raise unexpected_null
non_null (some n) = pure n

unfoldable pub read_size_non_null : Decoder ℕ
read_size_non_null = do size ← read_size; non_null size

abbrev pub from_utf8 : List ℕ → Decoder (List ℕ)
from_utf8 bytes = if is_utf8 bytes then pure bytes else raise invalid_utf8

-- the part of `read_string` after the size, also the last case of `read_string_opt`
unfoldable pub read_utf8 : ℕ → Decoder (List ℕ)
read_utf8 len = if len == 0 then pure [] else do bytes ← read_bytes len; from_utf8 bytes

unfoldable pub read_string : Decoder (List ℕ)
read_string = do len ← read_size_non_null; read_utf8 len

abbrev pub string_of_size : Option ℕ → Decoder (Option (List ℕ))
string_of_size none = pure none
string_of_size (some len) = do s ← read_utf8 len; pure (some s)

unfoldable pub read_string_opt : Decoder (Option (List ℕ))
read_string_opt = do size ← read_size; string_of_size size

-- `for _ in 0..len { arr.push(read()?) }`
unfoldable pub read_many : {A : Type 0} → ℕ → Decoder A → Decoder (List A)
read_many zero read = pure []
read_many (suc len) read = do x ← read; xs ← read_many len read; pure (x ∷ xs)

unfoldable pub read_f64_array : Decoder (List ℕ)
read_f64_array = do len ← read_size_non_null; read_many len read_f64

unfoldable pub read_i32_array : Decoder (List ℕ)
read_i32_array = do len ← read_size_non_null; read_many len read_i32

unfoldable pub read_byte_array : Decoder (List ℕ)
read_byte_array = do len ← read_size_non_null; read_bytes len

unfoldable pub read_string_array : Decoder (List (List ℕ))
read_string_array = do len ← read_size_non_null; read_many len read_string
