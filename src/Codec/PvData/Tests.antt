-- ===== src/Codec/PvData/Tests.antt =====
-- Runs of the reader and the writer, and the theorems at concrete inputs.
use aura_epics.Prelude.{ℕ, ◌≡◌, refl, List, [], ◌∷◌, true, ok, err, ◌>>=◌, length, arith}
use aura_epics.Codec.ByteOrder.{big_endian, write_word, read_word}
use aura_epics.Codec.PvData.Utf8.{is_utf8}
use aura_epics.Codec.PvData.Reader.{
  PvaReader, read_size, size_of_tag, extended_size, read_number, read_u8, read_fixed, ensure,
  read_string, read_string_opt, read_size_non_null, read_utf8, read_bytes, read_byte_array,
  read_string_array, read_i32_array, read_f64_array, invalid_size, invalid_utf8,
}
use aura_epics.Codec.PvData.Writer.{write_u8, PvaWriter, write_number, write_size, write_string}
use aura_epics.Codec.PvData.Inverse.{reading, read_string-write_string}
use aura_epics.Codec.PvData.Bounds.{Moves, reads_stay_within}

-- A writer that already holds a byte.
abbrev begun : PvaWriter
begun = record { buf = 7 ∷ []; order = big_endian }

abbrev hello : List ℕ
hello = 0x68 ∷ 0xc3 ∷ 0xa9 ∷ []

hello-is_utf8 : is_utf8 hello ≡ true
unfolding is_utf8
hello-is_utf8 = refl

abbrev reader_over : List ℕ → PvaReader
reader_over bytes = record { buf = bytes; pos = 0; order = big_endian }

size_300 : write_size 300 begun ≡ record { buf = 7 ∷ 254 ∷ 0 ∷ 0 ∷ 1 ∷ 44 ∷ []; order = big_endian }
unfolding write_size write_number write_word write_u8
size_300 = refl

negative_size :
    (read_size (reader_over (254 ∷ 0xff ∷ 0xff ∷ 0xff ∷ 0xfe ∷ []))).0
    ≡ err (invalid_size 0xffff_ffff_ffff_fffe)
unfolding read_size size_of_tag extended_size read_number read_u8 read_fixed ensure read_word ◌>>=◌
negative_size = refl

surrogate : (read_string (reader_over (3 ∷ 0xed ∷ 0xa0 ∷ 0x80 ∷ []))).0 ≡ err invalid_utf8
unfolding read_string read_size_non_null read_utf8 read_bytes read_size size_of_tag read_u8 ensure
    is_utf8 ◌>>=◌
surrogate = refl

read_hello :
    read_string (reader_over (3 ∷ hello)) ≡ (ok hello, record (reader_over (3 ∷ hello)) { pos = 4 })
unfolding read_string read_size_non_null read_utf8 read_bytes read_size size_of_tag read_u8 ensure
    is_utf8 ◌>>=◌
read_hello = refl

read_string_example : read_string (reading (write_string hello begun) 1 (9 ∷ [])) ≡ (
  ok hello,
  reading (write_string hello begun) (length (write_string hello begun).buf) (9 ∷ []),
)
read_string_example = read_string-write_string hello begun (9 ∷ []) hello-is_utf8 (omega arith)

abbrev garbage : PvaReader
garbage = reader_over (200 ∷ 1 ∷ [])

reads_stay_within_example :
    Moves garbage (read_size garbage).1
    × Moves garbage (read_string garbage).1
    × Moves garbage (read_string_opt garbage).1
    × Moves garbage (read_byte_array garbage).1
    × Moves garbage (read_string_array garbage).1
    × Moves garbage (read_i32_array garbage).1
    × Moves garbage (read_f64_array garbage).1
reads_stay_within_example = reads_stay_within garbage (omega arith)
