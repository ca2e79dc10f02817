-- ===== src/Runtime/Layout/Indices.antt =====
-- The flat index of a field by its path, and descriptions in the form of the normative types.
use aura_epics.Prelude.{ℕ, zero, suc, ◌+◌, List, [], ◌∷◌, false, Option, ◌≡◌, refl, ltb, arith}
use aura_epics.Codec.FieldDesc.{
  FieldType, FieldDesc, NamedFields, field_desc, no_fields, named_field, field_count,
  flat_field_count, flat_fields_count,
}
use aura_epics.Runtime.Layout.{fields_of, field_at, three_each}

abbrev pub Field : Type 0
Field = List ℕ × FieldDesc

-- three fields, and those behind them
abbrev pub three : Field → Field → Field → NamedFields → NamedFields
three a b c rest = named_field a.0 a.1 (named_field b.0 b.1 (named_field c.0 c.1 rest))

-- The flat index of a field by its path, in the order of a walk through the description: a
-- description first, then its fields, each with all that it holds.
unfoldable pub indices_before : ℕ → NamedFields → ℕ
indices_before zero fs = 0
indices_before (suc i) no_fields = 0
indices_before (suc i) (named_field name d fs) = flat_field_count d + indices_before i fs

unfoldable pub index_at : List ℕ → FieldDesc → ℕ
index_at [] d = 0
index_at (i ∷ path) d =
    1 + indices_before i (fields_of d) + index_at path (field_at (fields_of d) i)

-- A description with the value first, then the alarm with three fields that hold no others, then the
-- time stamp, whose first three fields hold no others.
pub record Parts : Type 0 where
  pub field_type : FieldType
  pub type_id : List ℕ
  pub value : Field
  pub alarm_name : List ℕ
  pub alarm_type : FieldType
  pub alarm_id : List ℕ
  pub severity : Field
  pub status : Field
  pub message : Field
  pub time_name : List ℕ
  pub time_type : FieldType
  pub time_id : List ℕ
  pub seconds : Field
  pub nanos : Field
  pub user_tag : Field
  pub more_time : NamedFields
  pub more : NamedFields

abbrev pub alarm_of : Parts → Field
alarm_of p = (
  p.alarm_name,
  field_desc p.alarm_type p.alarm_id (three p.severity p.status p.message no_fields),
)

abbrev pub time_of : Parts → Field
time_of p =
    (p.time_name, field_desc p.time_type p.time_id (three p.seconds p.nanos p.user_tag p.more_time))

abbrev pub fields_in : Parts → NamedFields
fields_in p = three p.value (alarm_of p) (time_of p) p.more

abbrev pub described : Parts → FieldDesc
described p = field_desc p.field_type p.type_id (fields_in p)

abbrev pub Single : Field → Type 0
Single f = flat_field_count f.1 ≡ 1

pub record IsBare (p : Parts) : Type 0 where
  pub severity : Single p.severity
  pub status : Single p.status
  pub message : Single p.message
  pub seconds : Single p.seconds
  pub nanos : Single p.nanos
  pub user_tag : Single p.user_tag

-- the six indices behind a value that takes a number of them
pub record StatusIndices (d : FieldDesc) (taken : ℕ) : Type 0 where
  pub severity : index_at (1 ∷ 0 ∷ []) d ≡ taken + 2
  pub status : index_at (1 ∷ 1 ∷ []) d ≡ taken + 3
  pub message : index_at (1 ∷ 2 ∷ []) d ≡ taken + 4
  pub seconds : index_at (2 ∷ 0 ∷ []) d ≡ taken + 6
  pub nanos : index_at (2 ∷ 1 ∷ []) d ≡ taken + 7
  pub user_tag : index_at (2 ∷ 2 ∷ []) d ≡ taken + 8

pub status_indices :
    (p : Parts) (taken : ℕ)
    → IsBare p
    → flat_field_count p.value.1 ≡ taken
    → StatusIndices (described p) taken
unfolding index_at indices_before flat_field_count flat_fields_count
status_indices p taken b h = record {
  severity = omega (arith, h);
  status = omega (arith, h, b.severity);
  message = omega (arith, h, b.severity, b.status);
  seconds = omega (arith, h, b.severity, b.status, b.message);
  nanos = omega (arith, h, b.severity, b.status, b.message, b.seconds);
  user_tag = omega (arith, h, b.severity, b.status, b.message, b.seconds, b.nanos);
}

-- The counts of the alarm's and of the time stamp's fields are high enough.
pub three_each-described :
    {A : Type 0} (p : Parts) (layout : Option A) → three_each (fields_in p) layout ≡ layout
three_each-described p layout =
    let enough : ltb (suc (suc (suc (field_count p.more_time)))) 3 ≡ false = ground arith in
    rw enough refl

pub enough_fields : (p : Parts) → ltb (field_count (fields_in p)) 3 ≡ false
enough_fields p = ground arith
