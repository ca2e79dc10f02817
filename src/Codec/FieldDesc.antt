-- ===== src/Codec/FieldDesc.antt =====
-- crates/aura-net/src/codec/field_desc.rs: descriptions of structures, and their wire format.
pub mod Registry
pub mod Bytes
pub mod RoundTrip
pub mod Decode
pub mod Levels
mod Tests
use aura_epics.Prelude.{
  ℕ, zero, suc, ◌+◌, List, [], bit_and, bit_or, Bool, true, false, not, Option, none, some, pure,
  raise, ◌>>=◌, ◌==◌, if◌then◌else◌,
}
use aura_epics.Codec.PvData.Reader.{
  Decoder, unknown_type_code, protocol, null_type_code_nested, only_id_nested, read_u8, read_i16,
  read_string, read_size_non_null,
}
use aura_epics.Codec.PvData.Writer.{PvaWriter, write_u8, write_size, write_string}

abbrev pub null_type_code : ℕ
null_type_code = 0xff

abbrev pub only_id_type_code : ℕ
only_id_type_code = 0xfe

abbrev pub full_with_id_code : ℕ
full_with_id_code = 0xfd

-- `ScalarType` of crates/aura-core/src/pva/scalars.rs
pub data ScalarType : Type 0 where
  boolean byte short int long ubyte ushort uint ulong float double string : ScalarType

pub data FieldType : Type 0 where
  scalar : ScalarType → FieldType
  scalar_array : ScalarType → FieldType
  bounded_string : ℕ → FieldType
  structure structure_array union union_array variant_union variant_union_array : FieldType

-- The type, the type's id, and the fields, each with its name.
mutual
  pub data FieldDesc : Type 0 where
    field_desc : FieldType → List ℕ → NamedFields → FieldDesc

  pub data NamedFields : Type 0 where
    no_fields : NamedFields
    named_field : List ℕ → FieldDesc → NamedFields → NamedFields

-- `fields.len()`
abbrev pub field_count : NamedFields → ℕ
field_count no_fields = 0
field_count (named_field name d fs) = suc (field_count fs)

unfoldable pub scalar_to_wire : ScalarType → ℕ
scalar_to_wire boolean = 0x00
scalar_to_wire byte = 0x20
scalar_to_wire short = 0x21
scalar_to_wire int = 0x22
scalar_to_wire long = 0x23
scalar_to_wire ubyte = 0x24
scalar_to_wire ushort = 0x25
scalar_to_wire uint = 0x26
scalar_to_wire ulong = 0x27
scalar_to_wire float = 0x42
scalar_to_wire double = 0x43
scalar_to_wire string = 0x60

unfoldable mutual
  pub flat_field_count : FieldDesc → ℕ
  flat_field_count (field_desc ft id fs) = 1 + flat_fields_count fs

  pub flat_fields_count : NamedFields → ℕ
  flat_fields_count no_fields = 0
  flat_fields_count (named_field name d fs) = flat_field_count d + flat_fields_count fs

-- the code of a composite type, its id and the count of its fields
unfoldable pub composite_header : ℕ → List ℕ → ℕ → PvaWriter → PvaWriter
composite_header code id count w = write_size count (write_string id (write_u8 code w))

unfoldable mutual
  pub encode : FieldDesc → PvaWriter → PvaWriter
  encode (field_desc (scalar s) id fs) w = write_u8 (scalar_to_wire s) w
  encode (field_desc (scalar_array s) id fs) w = write_u8 (bit_or (scalar_to_wire s) 0x08) w
  encode (field_desc (bounded_string bound) id fs) w = write_size bound (write_u8 0x86 w)
  encode (field_desc structure id fs) w =
      encode_fields fs (composite_header 0x80 id (field_count fs) w)
  encode (field_desc structure_array id fs) w =
      encode_fields fs (composite_header 0x88 id (field_count fs) w)
  encode (field_desc union id fs) w = encode_fields fs (composite_header 0x82 id (field_count fs) w)
  encode (field_desc union_array id fs) w =
      encode_fields fs (composite_header 0x8a id (field_count fs) w)
  encode (field_desc variant_union id fs) w = write_u8 0x81 w
  encode (field_desc variant_union_array id fs) w = write_u8 0x83 w

  pub encode_fields : NamedFields → PvaWriter → PvaWriter
  encode_fields no_fields w = w
  encode_fields (named_field name d fs) w = encode_fields fs (encode d (write_string name w))

unfoldable pub scalar_of_base : ℕ → Option ScalarType
scalar_of_base base =
    if base == 0x00
    then some boolean
    else if base == 0x20
    then some byte
    else if base == 0x21
    then some short
    else if base == 0x22
    then some int
    else if base == 0x23
    then some long
    else if base == 0x24
    then some ubyte
    else if base == 0x25
    then some ushort
    else if base == 0x26
    then some uint
    else if base == 0x27
    then some ulong
    else if base == 0x42
    then some float
    else if base == 0x43
    then some double
    else if base == 0x60
    then some string
    else none

abbrev pub leaf : FieldType → FieldDesc
leaf ft = field_desc ft [] no_fields

unfoldable pub decode_scalar : ℕ → Option ScalarType → Decoder FieldDesc
decode_scalar code none = raise (unknown_type_code code)
decode_scalar code (some s) =
    if not (bit_and code 0x08 == 0) then pure (leaf (scalar_array s)) else pure (leaf (scalar s))

-- The reads below take the read of a nested description as an argument.
module _ (nested : Decoder FieldDesc) where
  unfoldable pub decode_fields : ℕ → Decoder NamedFields
  decode_fields zero = pure no_fields
  decode_fields (suc count) = do
    name ← read_string
    d ← nested
    fs ← decode_fields count
    pure (named_field name d fs)

  unfoldable pub decode_composite : FieldType → Decoder FieldDesc
  decode_composite ft = do
    id ← read_string
    count ← read_size_non_null
    fs ← decode_fields count
    pure (field_desc ft id fs)

  unfoldable pub decode_bounded : Decoder FieldDesc
  decode_bounded = do bound ← read_size_non_null; pure (leaf (bounded_string bound))

  unfoldable pub decode_complex_type : ℕ → Decoder FieldDesc
  decode_complex_type code =
      if code == 0x80
      then decode_composite structure
      else if code == 0x88
      then decode_composite structure_array
      else if code == 0x82
      then decode_composite union
      else if code == 0x8a
      then decode_composite union_array
      else if code == 0x86
      then decode_bounded
      else if code == 0x81
      then pure (leaf variant_union)
      else if code == 0x83
      then pure (leaf variant_union_array)
      else if code == 0x89
      then pure (leaf variant_union_array)
      else raise (unknown_type_code code)

  -- `type_code & !0x08` keeps the other seven bits.
  unfoldable pub decode_type_code : ℕ → Decoder FieldDesc
  decode_type_code code =
      if not (bit_and code 0x80 == 0)
      then decode_complex_type code
      else decode_scalar code (scalar_of_base (bit_and code 0xf7))

  unfoldable pub decode_full_tag : ℕ → Decoder FieldDesc
  decode_full_tag tag =
      if tag == null_type_code
      then raise (protocol null_type_code_nested)
      else if tag == only_id_type_code
      then (do id ← read_i16; raise (protocol (only_id_nested id)))
      else if tag == full_with_id_code
      then (do id ← read_i16; code ← read_u8; decode_type_code code)
      else decode_type_code tag

-- Every level of nesting takes a byte, so the bytes that lie ahead bound the levels. Without a
-- level left no byte is left, and the read of the tag fails as in the code.
unfoldable pub decode_full : ℕ → Decoder FieldDesc
decode_full zero = do tag ← read_u8; raise (unknown_type_code tag)
decode_full (suc levels) = do tag ← read_u8; decode_full_tag (decode_full levels) tag
