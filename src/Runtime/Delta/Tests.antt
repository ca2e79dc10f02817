-- ===== src/Runtime/Delta/Tests.antt =====
-- Updates of a structure with a number and a structure of a byte and an array of bytes.
use aura_epics.Prelude.{
  ℕ, ◌+◌, ◌≤◌, ◌<◌, ◌≡◌, refl, ◌∙◌, [], ◌∷◌, true, false, ok, pure, ◌>>=◌, ◌==◌, lt→ltb, le→ltb,
  arith,
}
use aura_epics.Codec.ByteOrder.{big_endian}
use aura_epics.Codec.PvData.Reader.{PvaReader, read_u8, ensure}
use aura_epics.Codec.FieldDesc.{
  FieldDesc, NamedFields, field_desc, no_fields, named_field, structure, union, scalar,
  scalar_array, ushort, ubyte, leaf, flat_field_count, flat_fields_count,
}
use aura_epics.Codec.BitSet.{PvaBitSet, new, is_set, set_bit, clear_bit, all_set}
use aura_epics.Codec.BitSet.Indices.{is_set-clear_bit}
use aura_epics.Codec.BitSet.Full.{is_set-all_set, all_set-TwoInline}
use aura_epics.Types.PvaValue.{
  PvaValue, scalar_of, structure_of, null, no_values, named_value, ubyte_value, decode_from,
  decode_scalar,
}
use aura_epics.Runtime.Delta.{
  any_set, skip_flat_indices, skip_fields, decode_delta_structure, decode_delta_fields,
  decode_update,
}
use aura_epics.Runtime.Delta.Walk.{OnlyStructures, AllOnlyStructures, delta_indices, delta_unread}
use aura_epics.Runtime.Delta.Whole.{Plain, AllPlain, delta_whole, update_whole}

abbrev inner : NamedFields
inner =
    named_field (0x73 ∷ []) (leaf (scalar ubyte))
      (named_field (0x6e ∷ []) (leaf (scalar_array ubyte)) no_fields)

abbrev outer : NamedFields
outer =
    named_field (0x76 ∷ []) (leaf (scalar ushort))
      (named_field (0x74 ∷ []) (field_desc structure [] inner) no_fields)

abbrev described : FieldDesc
described = field_desc structure [] outer

abbrev bytes_reader : PvaReader
bytes_reader = record { buf = 1 ∷ 2 ∷ 7 ∷ 1 ∷ 9 ∷ []; pos = 0; order = big_endian }

delta_whole_example :
    decode_delta_structure (all_set 5) described 0 bytes_reader
    ≡ (do v ← decode_from described; pure (v, 0 + flat_field_count described)) bytes_reader
unfolding Plain AllPlain flat_field_count flat_fields_count
delta_whole_example =
    delta_whole (all_set 5) described 0 bytes_reader (refl, ((refl, (refl, tt)), tt))
      (λ i a b. is_set-all_set 5 i ∙ lt→ltb i 5 (omega arith))

marks_all : (i : ℕ) → 1 ≤ i → i < 5 → is_set (clear_bit 0 (all_set 5)) i ≡ true
marks_all i a b =
    let other : (i == 0) ≡ false = ground arith in
    is_set-clear_bit 0 (all_set 5) (all_set-TwoInline 5) i
    ∙ rw other (is_set-all_set 5 i ∙ lt→ltb i 5 (omega arith))

update_whole_example :
    decode_update (clear_bit 0 (all_set 5)) described bytes_reader
    ≡ decode_from described bytes_reader
unfolding Plain AllPlain flat_field_count flat_fields_count
update_whole_example =
    update_whole (clear_bit 0 (all_set 5)) [] outer bytes_reader (refl, ((refl, (refl, tt)), tt))
      marks_all

abbrev byte_changed : PvaBitSet
byte_changed = set_bit 3 new

abbrev byte_value : PvaValue
byte_value = structure_of (
    named_value (0x76 ∷ []) null (
      named_value (0x74 ∷ [])
        (structure_of (
          named_value (0x73 ∷ []) (scalar_of (ubyte_value 1))
            (named_value (0x6e ∷ []) null no_values)))
        no_values))

byte_decoded :
    decode_delta_structure byte_changed described 0 bytes_reader
    ≡ (ok (byte_value, 5), record bytes_reader { pos = 1 })
unfolding decode_delta_structure decode_delta_fields any_set is_set set_bit new flat_field_count
    flat_fields_count decode_scalar read_u8 ensure ◌>>=◌
byte_decoded = refl

delta_indices_example : (5 ≡ 0 + flat_field_count described) × (skip_flat_indices described 0 ≡ 5)
unfolding OnlyStructures AllOnlyStructures
delta_indices_example =
    delta_indices byte_changed described 0 5 bytes_reader (record bytes_reader { pos = 1 })
      byte_value (refl, ((refl, (refl, tt)), tt)) byte_decoded

delta_unread_example :
    decode_delta_structure (all_set 0) described 0 bytes_reader
    ≡ (ok (null, 0 + flat_field_count described), bytes_reader)
unfolding OnlyStructures AllOnlyStructures
delta_unread_example =
    delta_unread (all_set 0) described 0 bytes_reader (refl, ((refl, (refl, tt)), tt))
      (λ i a b. is_set-all_set 0 i ∙ le→ltb i 0 (omega arith))

-- A union with two fields takes three indices where it is skipped, and one where it is decoded.
abbrev union_desc : FieldDesc
union_desc = field_desc union [] inner

union_skipped : skip_flat_indices union_desc 1 ≡ 4
unfolding skip_flat_indices skip_fields
union_skipped = refl

union_decoded : decode_delta_structure new union_desc 1 bytes_reader ≡ (ok (null, 2), bytes_reader)
unfolding decode_delta_structure is_set new
union_decoded = refl
