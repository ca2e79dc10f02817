-- ===== src/Runtime/Layout/Tests.antt =====
-- The layout of a scalar and of an enumeration, and of a scalar whose alarm has a fourth field.
use aura_epics.Prelude.{ℕ, ◌+◌, List, [], ◌∷◌, some, ◌≡◌, refl}
use aura_epics.Codec.FieldDesc.{
  scalar, scalar_array, structure, double, int, long, string, FieldDesc, field_desc, no_fields,
  named_field, leaf, flat_field_count, flat_fields_count,
}
use aura_epics.Runtime.Layout.{
  nt_scalar, nt_enum, starts_with, scalar_bits, enum_bits, detect_scalar, detect_enum,
}
use aura_epics.Prelude.Names.{same}
use aura_epics.Runtime.Layout.Indices.{
  Field, three, index_at, indices_before, Parts, described, IsBare,
}
use aura_epics.Runtime.Layout.Bits.{
  ScalarBits, EnumBits, with_choices, detect_scalar-bits, detect_enum-bits,
}

abbrev an_int : Field
an_int = ([], leaf (scalar int))

abbrev parts : List ℕ → Parts
parts id = record {
  field_type = structure;
  type_id = id;
  value = ([], leaf (scalar double));
  alarm_name = [];
  alarm_type = structure;
  alarm_id = [];
  severity = an_int;
  status = an_int;
  message = ([], leaf (scalar string));
  time_name = [];
  time_type = structure;
  time_id = [];
  seconds = ([], leaf (scalar long));
  nanos = an_int;
  user_tag = an_int;
  more_time = no_fields;
  more = no_fields;
}

parts-IsBare : (id : List ℕ) → IsBare (parts id)
unfolding flat_field_count flat_fields_count
parts-IsBare id = record {
  severity = refl;
  status = refl;
  message = refl;
  seconds = refl;
  nanos = refl;
  user_tag = refl;
}

scalar_detected : detect_scalar (described (parts nt_scalar)) ≡ some (scalar_bits double)
unfolding detect_scalar starts_with
scalar_detected = refl

detect_scalar-bits_example : ScalarBits (described (parts nt_scalar)) (scalar_bits double)
unfolding flat_field_count flat_fields_count
detect_scalar-bits_example =
    detect_scalar-bits (parts nt_scalar) (scalar_bits double) (parts-IsBare nt_scalar) refl
      scalar_detected

abbrev choices : Field
choices = ([], leaf (scalar_array string))

enum_detected :
    detect_enum (described (with_choices (parts nt_enum) [] [] an_int choices)) ≡ some enum_bits
unfolding detect_enum same
enum_detected = refl

detect_enum-bits_example :
    EnumBits (described (with_choices (parts nt_enum) [] [] an_int choices)) enum_bits
unfolding flat_field_count flat_fields_count
detect_enum-bits_example =
    detect_enum-bits (parts nt_enum) [] [] an_int choices enum_bits (parts-IsBare nt_enum) refl refl
      enum_detected

-- The layout is found with a fourth field in the alarm as well, and its bits are those of three.
abbrev long_alarm : FieldDesc
long_alarm = field_desc structure nt_scalar (
    three ([], leaf (scalar double))
      (
        [],
        field_desc structure []
            (three an_int an_int an_int (named_field [] (leaf (scalar int)) no_fields)),
      )
      ([], field_desc structure [] (three an_int an_int an_int no_fields)) no_fields)

long_alarm_detected : detect_scalar long_alarm ≡ some (scalar_bits double)
unfolding detect_scalar starts_with
long_alarm_detected = refl

long_alarm_seconds : index_at (2 ∷ 0 ∷ []) long_alarm ≡ (scalar_bits double).seconds_bit + 1
unfolding index_at indices_before flat_field_count flat_fields_count
long_alarm_seconds = refl
