-- ===== src/Runtime/Layout/Bits.antt =====
-- The bits of a layout are the flat indices of the fields that it reads.
use aura_epics.Prelude.{ℕ, List, [], ◌∷◌, some, ◌≡◌, refl, sym, ◌∙◌, inl, inr, Bool-cases, arith}
use mathlib.Core.Path.{subst}
use aura_epics.Prelude.Names.{same}
use aura_epics.Codec.FieldDesc.{
  ScalarType, FieldType, scalar, scalar_array, bounded_string, structure, structure_array, union,
  union_array, variant_union, variant_union_array, FieldDesc, field_desc, no_fields, named_field,
  flat_field_count, flat_fields_count,
}
use aura_epics.Runtime.Layout.{
  nt_scalar, nt_scalar_array, nt_enum, starts_with, type_of, fields_of, field_at, FastScalarLayout,
  FastArrayLayout, FastEnumLayout, three_each, scalar_bits, array_bits, enum_bits, scalar_layout,
  detect_scalar, is_string, array_layout, detect_array, detect_enum,
}
use aura_epics.Runtime.Layout.Indices.{
  Field, indices_before, index_at, Parts, fields_in, described, Single, IsBare, status_indices,
  three_each-described, enough_fields,
}

-- what the layout of a scalar says of a description
pub record ScalarBits (d : FieldDesc) (l : FastScalarLayout) : Type 0 where
  pub value_type : type_of (field_at (fields_of d) 0) ≡ scalar l.value_type
  pub value : l.value_bit ≡ index_at (0 ∷ []) d
  pub severity : l.severity_bit ≡ index_at (1 ∷ 0 ∷ []) d
  pub status : l.status_bit ≡ index_at (1 ∷ 1 ∷ []) d
  pub message : l.message_bit ≡ index_at (1 ∷ 2 ∷ []) d
  pub seconds : l.seconds_bit ≡ index_at (2 ∷ 0 ∷ []) d
  pub nanos : l.nanos_bit ≡ index_at (2 ∷ 1 ∷ []) d
  pub user_tag : l.user_tag_bit ≡ index_at (2 ∷ 2 ∷ []) d
  pub highest : l.max_known_bit ≡ l.user_tag_bit

scalar_bits-indices :
    (st : ScalarType) (p : Parts)
    → type_of p.value.1 ≡ scalar st
    → IsBare p
    → Single p.value
    → ScalarBits (described p) (scalar_bits st)
unfolding index_at indices_before
scalar_bits-indices st p t b h =
    let indices = status_indices p 1 b h in
    record {
      value_type = t;
      value = refl;
      severity = omega (arith, indices.severity);
      status = omega (arith, indices.status);
      message = omega (arith, indices.message);
      seconds = omega (arith, indices.seconds);
      nanos = omega (arith, indices.nanos);
      user_tag = omega (arith, indices.user_tag);
      highest = refl;
    }

scalar_layout-bits :
    (ft : FieldType) (p : Parts) (l : FastScalarLayout)
    → type_of p.value.1 ≡ ft
    → IsBare p
    → Single p.value
    → scalar_layout ft (fields_in p) ≡ some l
    → ScalarBits (described p) l
scalar_layout-bits (scalar st) p l t b h e =
    let same_layout : some (scalar_bits st) ≡ some l =
      sym (three_each-described p (some (scalar_bits st))) ∙ e in
    let this : scalar_bits st ≡ l = cc same_layout in
    subst (ScalarBits (described p)) this (scalar_bits-indices st p t b h)
scalar_layout-bits (scalar_array st) p l t b h e = absurd (cc e)
scalar_layout-bits (bounded_string n) p l t b h e = absurd (cc e)
scalar_layout-bits structure p l t b h e = absurd (cc e)
scalar_layout-bits structure_array p l t b h e = absurd (cc e)
scalar_layout-bits union p l t b h e = absurd (cc e)
scalar_layout-bits union_array p l t b h e = absurd (cc e)
scalar_layout-bits variant_union p l t b h e = absurd (cc e)
scalar_layout-bits variant_union_array p l t b h e = absurd (cc e)

-- Where the value is a scalar and the fields of the alarm and the first three of the time stamp hold
-- no others, the alarm having no fourth: each bit of a layout that detect finds for the scalar is the
-- flat index of the field that it stands for in a walk through the description, and the highest
-- known bit is the last of them.
pub detect_scalar-bits :
    (p : Parts) (l : FastScalarLayout)
    → IsBare p
    → Single p.value
    → detect_scalar (described p) ≡ some l
    → ScalarBits (described p) l
unfolding detect_scalar
detect_scalar-bits p l b h e = elim (Bool-cases (starts_with p.type_id nt_scalar)) [
  | inl fits ↦
      scalar_layout-bits (type_of p.value.1) p l refl b h
        (sym (rw (fits, enough_fields p) refl) ∙ e)
  | inr other ↦ absurd (cc (rw other at e))
]

-- the same of an array, whose value holds no other field
pub record ArrayBits (d : FieldDesc) (l : FastArrayLayout) : Type 0 where
  pub value : l.value_bit ≡ index_at (0 ∷ []) d
  pub severity : l.severity_bit ≡ index_at (1 ∷ 0 ∷ []) d
  pub status : l.status_bit ≡ index_at (1 ∷ 1 ∷ []) d
  pub message : l.message_bit ≡ index_at (1 ∷ 2 ∷ []) d
  pub seconds : l.seconds_bit ≡ index_at (2 ∷ 0 ∷ []) d
  pub nanos : l.nanos_bit ≡ index_at (2 ∷ 1 ∷ []) d
  pub user_tag : l.user_tag_bit ≡ index_at (2 ∷ 2 ∷ []) d
  pub highest : l.max_known_bit ≡ l.user_tag_bit

array_bits-indices :
    (st : ScalarType) (p : Parts)
    → IsBare p
    → Single p.value
    → ArrayBits (described p) (array_bits st)
unfolding index_at indices_before
array_bits-indices st p b h =
    let indices = status_indices p 1 b h in
    record {
      value = refl;
      severity = omega (arith, indices.severity);
      status = omega (arith, indices.status);
      message = omega (arith, indices.message);
      seconds = omega (arith, indices.seconds);
      nanos = omega (arith, indices.nanos);
      user_tag = omega (arith, indices.user_tag);
      highest = refl;
    }

array_layout-bits :
    (ft : FieldType) (p : Parts) (l : FastArrayLayout)
    → IsBare p
    → Single p.value
    → array_layout ft (fields_in p) ≡ some l
    → ArrayBits (described p) l
array_layout-bits (scalar_array st) p l b h e = elim (Bool-cases (is_string st)) [
  | inl text ↦ absurd (cc (rw text at e))
  | inr numbers ↦
      let found : three_each (fields_in p) (some (array_bits st)) ≡ some l = (rw numbers at e) in
      let same_layout : some (array_bits st) ≡ some l =
        sym (three_each-described p (some (array_bits st))) ∙ found in
      let this : array_bits st ≡ l = cc same_layout in
      subst (ArrayBits (described p)) this (array_bits-indices st p b h)
]
array_layout-bits (scalar st) p l b h e = absurd (cc e)
array_layout-bits (bounded_string n) p l b h e = absurd (cc e)
array_layout-bits structure p l b h e = absurd (cc e)
array_layout-bits structure_array p l b h e = absurd (cc e)
array_layout-bits union p l b h e = absurd (cc e)
array_layout-bits union_array p l b h e = absurd (cc e)
array_layout-bits variant_union p l b h e = absurd (cc e)
array_layout-bits variant_union_array p l b h e = absurd (cc e)

-- The same of the layout that detect finds for an array of scalars.
pub detect_array-bits :
    (p : Parts) (l : FastArrayLayout)
    → IsBare p
    → Single p.value
    → detect_array (described p) ≡ some l
    → ArrayBits (described p) l
unfolding detect_array
detect_array-bits p l b h e = elim (Bool-cases (same p.type_id nt_scalar_array)) [
  | inl fits ↦
      array_layout-bits (type_of p.value.1) p l b h (sym (rw (fits, enough_fields p) refl) ∙ e)
  | inr other ↦ absurd (cc (rw other at e))
]

-- the value of an enumeration: a structure of the index and the choices
abbrev pub with_choices : Parts → List ℕ → List ℕ → Field → Field → Parts
with_choices p name id index choices = record p {
  value = (
    name,
    field_desc structure id
        (named_field index.0 index.1 (named_field choices.0 choices.1 no_fields)),
  );
}

pub record EnumBits (d : FieldDesc) (l : FastEnumLayout) : Type 0 where
  pub value : l.value_struct_bit ≡ index_at (0 ∷ []) d
  pub index : l.index_bit ≡ index_at (0 ∷ 0 ∷ []) d
  pub choices : l.choices_bit ≡ index_at (0 ∷ 1 ∷ []) d
  pub severity : l.severity_bit ≡ index_at (1 ∷ 0 ∷ []) d
  pub status : l.status_bit ≡ index_at (1 ∷ 1 ∷ []) d
  pub message : l.message_bit ≡ index_at (1 ∷ 2 ∷ []) d
  pub seconds : l.seconds_bit ≡ index_at (2 ∷ 0 ∷ []) d
  pub nanos : l.nanos_bit ≡ index_at (2 ∷ 1 ∷ []) d
  pub user_tag : l.user_tag_bit ≡ index_at (2 ∷ 2 ∷ []) d
  pub highest : l.max_known_bit ≡ l.user_tag_bit

IsBare-choices :
    (p : Parts) (name id : List ℕ) (index choices : Field)
    → IsBare p
    → IsBare (with_choices p name id index choices)
IsBare-choices p name id index choices b = record {
  severity = b.severity;
  status = b.status;
  message = b.message;
  seconds = b.seconds;
  nanos = b.nanos;
  user_tag = b.user_tag;
}

enum_bits-indices :
    (p : Parts) (name id : List ℕ) (index choices : Field)
    → IsBare p
    → Single index
    → Single choices
    → EnumBits (described (with_choices p name id index choices)) enum_bits
unfolding index_at indices_before flat_field_count flat_fields_count
enum_bits-indices p name id index choices b hi hc =
    let parts = with_choices p name id index choices in
    let indices =
      status_indices parts 3 (IsBare-choices p name id index choices b) (omega (arith, hi, hc)) in
    record {
      value = refl;
      index = omega arith;
      choices = omega (arith, hi);
      severity = omega (arith, indices.severity);
      status = omega (arith, indices.status);
      message = omega (arith, indices.message);
      seconds = omega (arith, indices.seconds);
      nanos = omega (arith, indices.nanos);
      user_tag = omega (arith, indices.user_tag);
      highest = refl;
    }

-- The same of an enumeration, whose value is a structure of an index and choices that hold no
-- others, and takes three flat indices.
pub detect_enum-bits :
    (p : Parts) (name id : List ℕ) (index choices : Field) (l : FastEnumLayout)
    → IsBare p
    → Single index
    → Single choices
    → detect_enum (described (with_choices p name id index choices)) ≡ some l
    → EnumBits (described (with_choices p name id index choices)) l
unfolding detect_enum
detect_enum-bits p name id index choices l b hi hc e = elim (Bool-cases (same p.type_id nt_enum)) [
  | inl fits ↦
      let parts = with_choices p name id index choices in
      let found : three_each (fields_in parts) (some enum_bits) ≡ some l =
        sym (rw (fits, enough_fields parts) refl) ∙ e in
      let same_layout : some enum_bits ≡ some l =
        sym (three_each-described parts (some enum_bits)) ∙ found in
      let this : enum_bits ≡ l = cc same_layout in
      subst (EnumBits (described parts)) this (enum_bits-indices p name id index choices b hi hc)
  | inr other ↦ absurd (cc (rw other at e))
]
