-- ===== src/Codec/FieldDesc/Tests.antt =====
-- The theorems on descriptions at a structure within a structure.
use aura_epics.Prelude.{ℕ, ◌+◌, ◌≡◌, refl, List, [], ◌∷◌, true, some, ok, length, arith}
use aura_epics.Codec.ByteOrder.{big_endian}
use aura_epics.Codec.PvData.Utf8.{is_utf8}
use aura_epics.Codec.PvData.Reader.{PvaReader, remaining}
use aura_epics.Codec.PvData.Writer.{PvaWriter}
use aura_epics.Codec.PvData.Inverse.{reading}
use aura_epics.Codec.FieldDesc.{
  FieldDesc, field_desc, no_fields, named_field, structure, scalar, bounded_string, double, leaf,
  encode,
}
use aura_epics.Codec.FieldDesc.Bytes.{IsDesc}
use aura_epics.Codec.FieldDesc.Registry.{
  IntrospectionRegistry, new, register, decode, decode_levels,
}
use aura_epics.Codec.FieldDesc.Decode.{desc-decode-encode, desc_by_id, sent_twice, decode_twice}
use aura_epics.Codec.FieldDesc.Levels.{decode_levels_enough}

abbrev begun : PvaWriter
begun = record { buf = 7 ∷ []; order = big_endian }

abbrev name : List ℕ
name = 0x76 ∷ []

name-is_utf8 : is_utf8 name ≡ true
unfolding is_utf8
name-is_utf8 = refl

abbrev inner : FieldDesc
inner = field_desc structure name (named_field name (leaf (bounded_string 300)) no_fields)

abbrev outer : FieldDesc
outer =
    field_desc structure name
      (named_field name (leaf (scalar double)) (named_field name inner no_fields))

inner-IsDesc : IsDesc inner
inner-IsDesc = (
  (name-is_utf8, omega arith, omega arith),
  ((name-is_utf8, omega arith), (((omega arith, refl, refl), tt), tt)),
)

outer-IsDesc : IsDesc outer
outer-IsDesc = (
  (name-is_utf8, omega arith, omega arith),
  (
    (name-is_utf8, omega arith),
    (((refl, refl), tt), ((name-is_utf8, omega arith), (inner-IsDesc, tt))),
  ),
)

abbrev small : IntrospectionRegistry
small = new 2

desc-decode-encode_example : decode small (reading (encode outer begun) 1 (9 ∷ [])) ≡ (
  ok (some outer, small),
  reading (encode outer begun) (length (encode outer begun).buf) (9 ∷ []),
)
desc-decode-encode_example = desc-decode-encode outer small begun (9 ∷ []) outer-IsDesc

desc_by_id_example : decode_twice small (reading (sent_twice 5 outer begun) 1 (9 ∷ [])) ≡ (
  ok (some outer, (some outer, (register 5 outer small).1)),
  reading (sent_twice 5 outer begun) (length (sent_twice 5 outer begun).buf) (9 ∷ []),
)
desc_by_id_example = desc_by_id 5 outer small begun (9 ∷ []) outer-IsDesc (omega arith) refl

abbrev short_reader : PvaReader
short_reader = record { buf = 0x80 ∷ 0 ∷ 1 ∷ 0 ∷ []; pos = 0; order = big_endian }

decode_levels_enough_example :
    decode_levels (3 + remaining short_reader) small short_reader ≡ decode small short_reader
decode_levels_enough_example = decode_levels_enough 3 small short_reader (omega arith)
