-- ===== src/Types/PvaValue.antt =====
-- crates/aura-net/src/types/pva_value.rs: values, decoded by their description. `ScalarValue` and
-- `from_wire` are of crates/aura-core/src/pva/scalars.rs.
pub mod Values
pub mod Typed
mod Tests
use aura_epics.Prelude.{
  ℕ, zero, suc, List, [], ◌∷◌, map, Bool, true, false, Option, none, some, bit_and, length, leb,
  ltb, ◌==◌, if◌then◌else◌, pure, raise, ◌>>=◌,
}
use aura_epics.Codec.ByteOrder.{is_negative_i32}
use aura_epics.Codec.PvData.Reader.{
  Decoder, protocol, bounded_string_exceeds, union_selector_out_of_range, read_bool, read_i8,
  read_u8, read_i16, read_u16, read_i32, read_u32, read_i64, read_u64, read_f32, read_f64,
  read_string, read_size_non_null, read_bytes, read_many,
}
use aura_epics.Codec.FieldDesc.{
  ScalarType, boolean, byte, short, int, long, ubyte, ushort, uint, ulong, float, double, string,
  FieldType, scalar, scalar_array, bounded_string, structure, structure_array, union, union_array,
  variant_union, variant_union_array, FieldDesc, NamedFields, field_desc, no_fields, named_field,
  field_count,
}

pub data ScalarValue : Type 0 where
  boolean_value : Bool → ScalarValue
  byte_value short_value int_value long_value : ℕ → ScalarValue
  ubyte_value ushort_value uint_value ulong_value : ℕ → ScalarValue
  float_value double_value : ℕ → ScalarValue
  string_value : List ℕ → ScalarValue

unfoldable pub type_tag : ScalarValue → ScalarType
type_tag (boolean_value b) = boolean
type_tag (byte_value n) = byte
type_tag (short_value n) = short
type_tag (int_value n) = int
type_tag (long_value n) = long
type_tag (ubyte_value n) = ubyte
type_tag (ushort_value n) = ushort
type_tag (uint_value n) = uint
type_tag (ulong_value n) = ulong
type_tag (float_value n) = float
type_tag (double_value n) = double
type_tag (string_value s) = string

unfoldable pub from_wire : ℕ → Option ScalarType
from_wire v =
    if v == 0
    then some boolean
    else if v == 1
    then some byte
    else if v == 2
    then some short
    else if v == 3
    then some int
    else if v == 4
    then some long
    else if v == 5
    then some ubyte
    else if v == 6
    then some ushort
    else if v == 7
    then some uint
    else if v == 8
    then some ulong
    else if v == 9
    then some float
    else if v == 10
    then some double
    else if v == 11
    then some string
    else none

unfoldable pub decode_scalar : ScalarType → Decoder ScalarValue
decode_scalar boolean = do b ← read_bool; pure (boolean_value b)
decode_scalar byte = do n ← read_i8; pure (byte_value n)
decode_scalar ubyte = do n ← read_u8; pure (ubyte_value n)
decode_scalar short = do n ← read_i16; pure (short_value n)
decode_scalar ushort = do n ← read_u16; pure (ushort_value n)
decode_scalar int = do n ← read_i32; pure (int_value n)
decode_scalar uint = do n ← read_u32; pure (uint_value n)
decode_scalar long = do n ← read_i64; pure (long_value n)
decode_scalar ulong = do n ← read_u64; pure (ulong_value n)
decode_scalar float = do n ← read_f32; pure (float_value n)
decode_scalar double = do n ← read_f64; pure (double_value n)
decode_scalar string = do s ← read_string; pure (string_value s)

mutual
  pub data PvaValue : Type 0 where
    scalar_of : ScalarValue → PvaValue
    array_of : List ScalarValue → PvaValue
    structure_of : NamedValues → PvaValue
    union_of : List ℕ → PvaValue → PvaValue
    null : PvaValue

  pub data NamedValues : Type 0 where
    no_values : NamedValues
    named_value : List ℕ → PvaValue → NamedValues → NamedValues

abbrev pub is_ubyte : ScalarType → Bool
is_ubyte st = elim st [ ubyte ↦ true | _ ↦ false ]

unfoldable pub decode_bytes : ℕ → Decoder (List ScalarValue)
decode_bytes len = do bytes ← read_bytes len; pure (map ubyte_value bytes)

unfoldable pub decode_elements : ScalarType → ℕ → Decoder (List ScalarValue)
decode_elements st len =
    if len == 0
    then pure []
    else if is_ubyte st
    then decode_bytes len
    else read_many len (decode_scalar st)

unfoldable pub decode_array : ScalarType → Decoder PvaValue
decode_array st = do
  len ← read_size_non_null
  elements ← decode_elements st len
  pure (array_of elements)

abbrev pub bounded : ℕ → List ℕ → Decoder PvaValue
bounded max_len s =
    if ltb max_len (length s)
    then raise (protocol (bounded_string_exceeds max_len (length s)))
    else pure (scalar_of (string_value s))

unfoldable pub decode_bounded_string : ℕ → Decoder PvaValue
decode_bounded_string max_len = do s ← read_string; bounded max_len s

abbrev pub variant_of : Option ScalarType → Decoder PvaValue
variant_of none = pure null
variant_of (some st) = do x ← decode_scalar st; pure (scalar_of x)

unfoldable pub decode_variant : Decoder PvaValue
decode_variant = do
  selector ← read_i32
  if is_negative_i32 selector
      then pure null
      else (do tag ← read_u8; variant_of (from_wire (bit_and tag 0x07)))

unfoldable mutual
  pub decode_from : FieldDesc → Decoder PvaValue
  decode_from (field_desc (scalar st) id fs) = do x ← decode_scalar st; pure (scalar_of x)
  decode_from (field_desc (scalar_array st) id fs) = decode_array st
  decode_from (field_desc structure id fs) = do vs ← decode_values fs; pure (structure_of vs)
  decode_from (field_desc structure_array id fs) = do vs ← decode_values fs; pure (structure_of vs)
  decode_from (field_desc (bounded_string max_len) id fs) = decode_bounded_string max_len
  decode_from (field_desc union id fs) = do
    selector ← read_i32
    if is_negative_i32 selector
        then pure null
        else if leb (field_count fs) selector
        then raise (protocol (union_selector_out_of_range selector (field_count fs)))
        else decode_selected selector fs
  decode_from (field_desc union_array id fs) = pure null
  decode_from (field_desc variant_union id fs) = decode_variant
  decode_from (field_desc variant_union_array id fs) = pure null

  pub decode_values : NamedFields → Decoder NamedValues
  decode_values no_fields = pure no_values
  decode_values (named_field name d fs) = do
    v ← decode_from d
    vs ← decode_values fs
    pure (named_value name v vs)

  -- `&desc.fields[idx]` and what follows; the index is within the fields
  pub decode_selected : ℕ → NamedFields → Decoder PvaValue
  decode_selected idx no_fields = pure null
  decode_selected zero (named_field name d fs) = do v ← decode_from d; pure (union_of name v)
  decode_selected (suc idx) (named_field name d fs) = decode_selected idx fs
