-- ===== src/Types/PvaValue/Tests.antt =====
-- A value of a structure with a number and a bounded string.
use aura_epics.Prelude.{ℕ, ◌≡◌, refl, List, [], ◌∷◌, ok, ◌>>=◌}
use aura_epics.Codec.ByteOrder.{big_endian, read_word}
use aura_epics.Codec.PvData.Utf8.{is_utf8}
use aura_epics.Codec.PvData.Reader.{
  PvaReader, read_u8, read_fixed, read_number, ensure, read_string, read_size_non_null, read_size,
  size_of_tag, read_utf8, read_bytes,
}
use aura_epics.Codec.FieldDesc.{
  FieldDesc, field_desc, no_fields, named_field, structure, structure_array, scalar, bounded_string,
  ushort, leaf,
}
use aura_epics.Types.PvaValue.{
  PvaValue, scalar_of, structure_of, no_values, named_value, ushort_value, string_value,
  decode_from, decode_values, decode_scalar, decode_bounded_string,
}
use aura_epics.Types.PvaValue.Values.{HasType, IsHeld, AreHeld}
use aura_epics.Types.PvaValue.Typed.{decode_from-HasType}

abbrev name : List ℕ
name = 0x76 ∷ []

abbrev pair_desc : FieldDesc
pair_desc =
    field_desc structure []
      (named_field name (leaf (scalar ushort)) (named_field [] (leaf (bounded_string 1)) no_fields))

abbrev pair : PvaValue
pair = structure_of (
    named_value name (scalar_of (ushort_value 0x0102))
      (named_value [] (scalar_of (string_value (0x61 ∷ []))) no_values))

abbrev pair_reader : PvaReader
pair_reader = record { buf = 1 ∷ 2 ∷ 1 ∷ 0x61 ∷ []; pos = 0; order = big_endian }

pair_decoded : decode_from pair_desc pair_reader ≡ (ok pair, record pair_reader { pos = 4 })
unfolding decode_from decode_values decode_scalar decode_bounded_string read_string
    read_size_non_null read_size size_of_tag read_utf8 read_bytes read_u8 read_fixed read_number
    ensure read_word is_utf8 ◌>>=◌
pair_decoded = refl

pair_desc-IsHeld : IsHeld pair_desc
unfolding IsHeld AreHeld
pair_desc-IsHeld = (tt, (tt, tt))

decode_from-HasType_example : HasType pair_desc pair
decode_from-HasType_example =
    decode_from-HasType pair_desc pair_reader (record pair_reader { pos = 4 }) pair pair_desc-IsHeld
      pair_decoded

-- An array of structures is read as one structure, without its count.
abbrev array_of_pairs_desc : FieldDesc
array_of_pairs_desc =
    field_desc structure_array []
      (named_field name (leaf (scalar ushort)) (named_field [] (leaf (bounded_string 1)) no_fields))

array_read_as_one :
    decode_from array_of_pairs_desc pair_reader ≡ (ok pair, record pair_reader { pos = 4 })
unfolding decode_from decode_values decode_scalar decode_bounded_string read_string
    read_size_non_null read_size size_of_tag read_utf8 read_bytes read_u8 read_fixed read_number
    ensure read_word is_utf8 ◌>>=◌
array_read_as_one = refl
