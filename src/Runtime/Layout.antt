-- ===== src/Runtime/Layout.antt =====
-- crates/aura-net/src/runtime/session.rs: the layouts of the fixed structures that the session
-- decodes without a walk through their descriptions. The bits are counted in a u8; they stay below
-- 16.
pub mod Indices
pub mod Bits
mod Tests
use aura_epics.Prelude.{
  ℕ, zero, suc, ◌+◌, ◌-◌, List, [], ◌∷◌, Bool, true, false, not, ◌&&◌, Option, none, some, ltb,
  ◌==◌, if◌then◌else◌,
}
use aura_epics.Prelude.Names.{same}
use aura_epics.Codec.FieldDesc.{
  ScalarType, boolean, byte, short, int, long, ubyte, ushort, uint, ulong, float, double, string,
  FieldType, scalar, scalar_array, bounded_string, structure, structure_array, union, union_array,
  variant_union, variant_union_array, FieldDesc, NamedFields, field_desc, no_fields, named_field,
  field_count, leaf,
}

-- "epics:nt/NTScalar", "epics:nt/NTScalarArray:1.0" and "epics:nt/NTEnum:1.0"
abbrev pub nt_scalar : List ℕ
nt_scalar =
    0x65 ∷ 0x70 ∷ 0x69 ∷ 0x63 ∷ 0x73 ∷ 0x3a ∷ 0x6e ∷ 0x74 ∷ 0x2f ∷ 0x4e ∷ 0x54 ∷ 0x53 ∷ 0x63 ∷ 0x61
    ∷ 0x6c ∷ 0x61 ∷ 0x72 ∷ []

abbrev pub nt_scalar_array : List ℕ
nt_scalar_array =
    0x65 ∷ 0x70 ∷ 0x69 ∷ 0x63 ∷ 0x73 ∷ 0x3a ∷ 0x6e ∷ 0x74 ∷ 0x2f ∷ 0x4e ∷ 0x54 ∷ 0x53 ∷ 0x63 ∷ 0x61
    ∷ 0x6c ∷ 0x61 ∷ 0x72 ∷ 0x41 ∷ 0x72 ∷ 0x72 ∷ 0x61 ∷ 0x79 ∷ 0x3a ∷ 0x31 ∷ 0x2e ∷ 0x30 ∷ []

abbrev pub nt_enum : List ℕ
nt_enum =
    0x65 ∷ 0x70 ∷ 0x69 ∷ 0x63 ∷ 0x73 ∷ 0x3a ∷ 0x6e ∷ 0x74 ∷ 0x2f ∷ 0x4e ∷ 0x54 ∷ 0x45 ∷ 0x6e ∷ 0x75
    ∷ 0x6d ∷ 0x3a ∷ 0x31 ∷ 0x2e ∷ 0x30 ∷ []

-- `str::starts_with`
unfoldable pub starts_with : List ℕ → List ℕ → Bool
starts_with s [] = true
starts_with [] (b ∷ start) = false
starts_with (a ∷ s) (b ∷ start) = (a == b) && starts_with s start

abbrev pub type_of : FieldDesc → FieldType
type_of (field_desc ft id fs) = ft

abbrev pub fields_of : FieldDesc → NamedFields
fields_of (field_desc ft id fs) = fs

-- `desc.fields[i].desc`; the index is below the count of the fields
abbrev pub field_at : NamedFields → ℕ → FieldDesc
field_at no_fields i = leaf (scalar boolean)
field_at (named_field name d fs) zero = d
field_at (named_field name d fs) (suc i) = field_at fs i

pub record FastScalarLayout : Type 0 where
  pub value_bit : ℕ
  pub value_type : ScalarType
  pub severity_bit : ℕ
  pub status_bit : ℕ
  pub message_bit : ℕ
  pub seconds_bit : ℕ
  pub nanos_bit : ℕ
  pub user_tag_bit : ℕ
  pub max_known_bit : ℕ

pub record FastArrayLayout : Type 0 where
  pub value_bit : ℕ
  pub element_type : ScalarType
  pub severity_bit : ℕ
  pub status_bit : ℕ
  pub message_bit : ℕ
  pub seconds_bit : ℕ
  pub nanos_bit : ℕ
  pub user_tag_bit : ℕ
  pub max_known_bit : ℕ

pub record FastEnumLayout : Type 0 where
  pub value_struct_bit : ℕ
  pub index_bit : ℕ
  pub choices_bit : ℕ
  pub severity_bit : ℕ
  pub status_bit : ℕ
  pub message_bit : ℕ
  pub seconds_bit : ℕ
  pub nanos_bit : ℕ
  pub user_tag_bit : ℕ
  pub max_known_bit : ℕ

-- The counts that follow the value: `bit` before the alarm, and before the time stamp behind it. Each
-- structure takes a bit of its own.
abbrev pub after_alarm : ℕ → ℕ
after_alarm bit = bit + 1 + 1 + 1 + 1

-- `alarm_fields.len() < 3` and `ts_fields.len() < 3`
abbrev pub three_each : {A : Type 0} → NamedFields → Option A → Option A
three_each fs layout =
    if ltb (field_count (fields_of (field_at fs 1))) 3
    then none
    else if ltb (field_count (fields_of (field_at fs 2))) 3
    then none
    else layout

abbrev pub scalar_bits : ScalarType → FastScalarLayout
scalar_bits st = record {
  value_bit = 1;
  value_type = st;
  severity_bit = 2 + 1;
  status_bit = 2 + 1 + 1;
  message_bit = 2 + 1 + 1 + 1;
  seconds_bit = after_alarm 2 + 1;
  nanos_bit = after_alarm 2 + 1 + 1;
  user_tag_bit = after_alarm 2 + 1 + 1 + 1;
  max_known_bit = after_alarm 2 + 1 + 1 + 1 + 1 - 1;
}

abbrev pub scalar_layout : FieldType → NamedFields → Option FastScalarLayout
scalar_layout (scalar st) fs = three_each fs (some (scalar_bits st))
scalar_layout _ fs = none

unfoldable pub detect_scalar : FieldDesc → Option FastScalarLayout
detect_scalar (field_desc ft id fs) =
    if not (starts_with id nt_scalar)
    then none
    else if ltb (field_count fs) 3
    then none
    else scalar_layout (type_of (field_at fs 0)) fs

abbrev pub is_string : ScalarType → Bool
is_string st = elim st [ string ↦ true | _ ↦ false ]

abbrev pub array_bits : ScalarType → FastArrayLayout
array_bits st = record {
  value_bit = 1;
  element_type = st;
  severity_bit = 2 + 1;
  status_bit = 2 + 1 + 1;
  message_bit = 2 + 1 + 1 + 1;
  seconds_bit = after_alarm 2 + 1;
  nanos_bit = after_alarm 2 + 1 + 1;
  user_tag_bit = after_alarm 2 + 1 + 1 + 1;
  max_known_bit = after_alarm 2 + 1 + 1 + 1 + 1 - 1;
}

abbrev pub array_layout : FieldType → NamedFields → Option FastArrayLayout
array_layout (scalar_array st) fs =
    if is_string st then none else three_each fs (some (array_bits st))
array_layout _ fs = none

unfoldable pub detect_array : FieldDesc → Option FastArrayLayout
detect_array (field_desc ft id fs) =
    if not (same id nt_scalar_array)
    then none
    else if ltb (field_count fs) 3
    then none
    else array_layout (type_of (field_at fs 0)) fs

abbrev pub is_structure : FieldType → Bool
is_structure ft = elim ft [ structure ↦ true | _ ↦ false ]

abbrev pub enum_bits : FastEnumLayout
enum_bits = record {
  value_struct_bit = 1;
  index_bit = 1 + 1;
  choices_bit = 1 + 1 + 1;
  severity_bit = 4 + 1;
  status_bit = 4 + 1 + 1;
  message_bit = 4 + 1 + 1 + 1;
  seconds_bit = after_alarm 4 + 1;
  nanos_bit = after_alarm 4 + 1 + 1;
  user_tag_bit = after_alarm 4 + 1 + 1 + 1;
  max_known_bit = after_alarm 4 + 1 + 1 + 1 + 1 - 1;
}

unfoldable pub detect_enum : FieldDesc → Option FastEnumLayout
detect_enum (field_desc ft id fs) =
    if not (same id nt_enum)
    then none
    else if ltb (field_count fs) 3
    then none
    else if not (is_structure (type_of (field_at fs 0)))
    then none
    else if ltb (field_count (fields_of (field_at fs 0))) 2
    then none
    else three_each fs (some (enum_bits))
