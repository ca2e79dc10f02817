-- ===== src/Types/PvaValue/Values.antt =====
-- The values that a description allows.
use aura_epics.Prelude.{ℕ, ◌≤◌, ◌≡◌, List, length, All}
use aura_epics.Codec.FieldDesc.{
  ScalarType, scalar, scalar_array, bounded_string, structure, structure_array, union, union_array,
  variant_union, variant_union_array, FieldDesc, NamedFields, field_desc, no_fields, named_field,
}
use aura_epics.Types.PvaValue.{
  ScalarValue, string_value, type_tag, PvaValue, NamedValues, scalar_of, array_of, structure_of,
  union_of, null, no_values, named_value,
}

-- What each description allows. A union and a variant without a selection are null, and a variant
-- may be any scalar. `PvaValue` has no arrays of structures, unions or variants, and no value has
-- such a type; the code reads an array of structures as one structure, and the others as null.
mutual
  pub data HasType : FieldDesc → PvaValue → Type 0 where
    is_scalar_of :
        {st : ScalarType} {id : List ℕ} {fs : NamedFields} (x : ScalarValue)
        → type_tag x ≡ st
        → HasType (field_desc (scalar st) id fs) (scalar_of x)
    is_array_of :
        {st : ScalarType} {id : List ℕ} {fs : NamedFields} (xs : List ScalarValue)
        → All (λ x. type_tag x ≡ st) xs
        → HasType (field_desc (scalar_array st) id fs) (array_of xs)
    is_structure :
        {id : List ℕ} {fs : NamedFields} (vs : NamedValues)
        → HaveTypes fs vs
        → HasType (field_desc structure id fs) (structure_of vs)
    is_bounded :
        {max_len : ℕ} {id : List ℕ} {fs : NamedFields} (s : List ℕ)
        → length s ≤ max_len
        → HasType (field_desc (bounded_string max_len) id fs) (scalar_of (string_value s))
    is_union :
        {id : List ℕ} {fs : NamedFields} (v : PvaValue)
        → OneOf fs v
        → HasType (field_desc union id fs) v
    is_variant :
        {id : List ℕ} {fs : NamedFields} (x : ScalarValue)
        → HasType (field_desc variant_union id fs) (scalar_of x)
    is_no_variant : {id : List ℕ} {fs : NamedFields} → HasType (field_desc variant_union id fs) null

  -- one value for each field, under its name and in its order
  pub data HaveTypes : NamedFields → NamedValues → Type 0 where
    no_more : HaveTypes no_fields no_values
    one_more :
        {name : List ℕ} {d : FieldDesc} {fs : NamedFields} {v : PvaValue} {vs : NamedValues}
        → HasType d v
        → HaveTypes fs vs
        → HaveTypes (named_field name d fs) (named_value name v vs)

  -- null, or a value of one of the fields under its name
  pub data OneOf : NamedFields → PvaValue → Type 0 where
    of_none : {fs : NamedFields} → OneOf fs null
    of_first :
        {name : List ℕ} {d : FieldDesc} {fs : NamedFields} {v : PvaValue}
        → HasType d v
        → OneOf (named_field name d fs) (union_of name v)
    of_later :
        {name : List ℕ} {d : FieldDesc} {fs : NamedFields} {v : PvaValue}
        → OneOf fs v
        → OneOf (named_field name d fs) v

-- A description without arrays of structures, unions or variants.
unfoldable mutual
  pub IsHeld : FieldDesc → Type 0
  IsHeld (field_desc (scalar st) id fs) = Unit {0}
  IsHeld (field_desc (scalar_array st) id fs) = Unit {0}
  IsHeld (field_desc structure id fs) = AreHeld fs
  IsHeld (field_desc structure_array id fs) = ⊥
  IsHeld (field_desc (bounded_string max_len) id fs) = Unit {0}
  IsHeld (field_desc union id fs) = AreHeld fs
  IsHeld (field_desc union_array id fs) = ⊥
  IsHeld (field_desc variant_union id fs) = Unit {0}
  IsHeld (field_desc variant_union_array id fs) = ⊥

  pub AreHeld : NamedFields → Type 0
  AreHeld no_fields = Unit {0}
  AreHeld (named_field name d fs) = IsHeld d × AreHeld fs
