-- ===== src/Codec/PvData/Writer.antt =====
-- `PvaWriter` of crates/aura-net/src/codec/pvdata.rs. A write returns the changed writer. The
-- capacity of the buffer is not modelled.
use aura_epics.Prelude.{
  ℕ, ◌%◌, ◌^◌, List, [], ◌∷◌, ◌++◌, Bool, Option, none, some, length, ltb, if◌then◌else◌,
}
use aura_epics.Codec.ByteOrder.{ByteOrder, write_word}
use aura_epics.Codec.PvData.Reader.{size_null, size_extended}

pub record PvaWriter : Type 0 where
  pub buf : List ℕ
  pub order : ByteOrder

unfoldable pub new : ByteOrder → PvaWriter
new order = record { buf = []; order = order }

unfoldable pub len : PvaWriter → ℕ
len w = length w.buf

unfoldable pub clear : PvaWriter → PvaWriter
clear w = record w { buf = [] }

-- `extend_from_slice`
abbrev pub append : PvaWriter → List ℕ → PvaWriter
append w bytes = record w { buf = w.buf ++ bytes }

unfoldable pub write_u8 : ℕ → PvaWriter → PvaWriter
write_u8 v w = append w (v ∷ [])

abbrev pub write_i8 : ℕ → PvaWriter → PvaWriter
write_i8 = write_u8

unfoldable pub write_bool : Bool → PvaWriter → PvaWriter
write_bool v w = append w ((if v then 1 else 0) ∷ [])

-- `write_i16`, `write_u16`, `write_i32`, ..., `write_f64`, for a number of `k` bytes
unfoldable pub write_number : ℕ → ℕ → PvaWriter → PvaWriter
write_number k v w = append w (write_word w.order k v)

abbrev pub write_i16 : ℕ → PvaWriter → PvaWriter
write_i16 = write_number 2

abbrev pub write_u16 : ℕ → PvaWriter → PvaWriter
write_u16 = write_number 2

abbrev pub write_i32 : ℕ → PvaWriter → PvaWriter
write_i32 = write_number 4

abbrev pub write_u32 : ℕ → PvaWriter → PvaWriter
write_u32 = write_number 4

abbrev pub write_i64 : ℕ → PvaWriter → PvaWriter
write_i64 = write_number 8

abbrev pub write_u64 : ℕ → PvaWriter → PvaWriter
write_u64 = write_number 8

abbrev pub write_f32 : ℕ → PvaWriter → PvaWriter
write_f32 = write_number 4

abbrev pub write_f64 : ℕ → PvaWriter → PvaWriter
write_f64 = write_number 8

-- `size as u8` is under the test, and `size as i32` keeps the low 32 bits.
unfoldable pub write_size : ℕ → PvaWriter → PvaWriter
write_size size w =
    if ltb size size_extended
    then write_u8 (size % 256) w
    else write_i32 (size % 2 ^ 32) (write_u8 size_extended w)

unfoldable pub write_size_null : PvaWriter → PvaWriter
write_size_null w = write_u8 size_null w

unfoldable pub write_raw : List ℕ → PvaWriter → PvaWriter
write_raw bytes w = append w bytes

unfoldable pub write_string : List ℕ → PvaWriter → PvaWriter
write_string s w = append (write_size (length s) w) s

unfoldable pub write_string_opt : Option (List ℕ) → PvaWriter → PvaWriter
write_string_opt none w = write_size_null w
write_string_opt (some s) w = write_string s w

-- `for &v in arr { write(v); }`
unfoldable pub write_many :
    {A : Type 0} → (A → PvaWriter → PvaWriter) → List A → PvaWriter → PvaWriter
write_many write [] w = w
write_many write (v ∷ vs) w = write_many write vs (write v w)

unfoldable pub write_f64_array : List ℕ → PvaWriter → PvaWriter
write_f64_array arr w = write_many write_f64 arr (write_size (length arr) w)

unfoldable pub write_i32_array : List ℕ → PvaWriter → PvaWriter
write_i32_array arr w = write_many write_i32 arr (write_size (length arr) w)

unfoldable pub write_byte_array : List ℕ → PvaWriter → PvaWriter
write_byte_array arr w = append (write_size (length arr) w) arr

unfoldable pub write_string_array : List (List ℕ) → PvaWriter → PvaWriter
write_string_array arr w = write_many write_string arr (write_size (length arr) w)
