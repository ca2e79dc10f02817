-- ===== src/Codec/FieldDesc/RoundTrip.antt =====
-- `decode_full` takes the bytes of a description.
use mathlib.Core.Path.{subst}
use aura_epics.Prelude.{
  ℕ, zero, suc, ◌≤◌, ◌<◌, ◌≡◌, refl, ap, sym, List, [], ◌∷◌, ◌++◌, false, bit_or, pure, ◌==◌,
  length, length-append, arith,
}
use aura_epics.Codec.ByteOrder.{ByteOrder}
use aura_epics.Codec.PvData.Reader.{Decoder}
use aura_epics.Codec.PvData.Reads.{Reads, Reads-pure, Reads-bind, Reads-then, Reads-read_u8}
use aura_epics.Codec.PvData.RoundTrip.{
  size_bytes, string_bytes, Reads-read_size_non_null, Reads-read_string,
}
use aura_epics.Codec.FieldDesc.{
  ScalarType, boolean, byte, short, int, long, ubyte, ushort, uint, ulong, float, double, string,
  FieldType, scalar, scalar_array, bounded_string, structure, structure_array, union, union_array,
  variant_union, variant_union_array, FieldDesc, NamedFields, field_desc, no_fields, named_field,
  field_count, scalar_to_wire, scalar_of_base, flat_field_count, flat_fields_count, leaf,
  null_type_code, only_id_type_code, full_with_id_code, decode_fields, decode_composite,
  decode_bounded, decode_complex_type, decode_scalar, decode_type_code, decode_full_tag,
  decode_full,
}
use aura_epics.Codec.FieldDesc.Bytes.{
  tag_of, IsHead, IsComposite, IsDesc, AreFields, composite_bytes, body_bytes, desc_bytes,
  fields_bytes,
}

-- A type code is none of the three codes that say how a description is sent.
plain_scalar :
    (s : ScalarType) → (scalar_to_wire s < 0xfd) × (bit_or (scalar_to_wire s) 0x08 < 0xfd)
unfolding scalar_to_wire
plain_scalar boolean = (omega arith, omega arith)
plain_scalar byte = (omega arith, omega arith)
plain_scalar short = (omega arith, omega arith)
plain_scalar int = (omega arith, omega arith)
plain_scalar long = (omega arith, omega arith)
plain_scalar ubyte = (omega arith, omega arith)
plain_scalar ushort = (omega arith, omega arith)
plain_scalar uint = (omega arith, omega arith)
plain_scalar ulong = (omega arith, omega arith)
plain_scalar float = (omega arith, omega arith)
plain_scalar double = (omega arith, omega arith)
plain_scalar string = (omega arith, omega arith)

pub tag_of-below : (ft : FieldType) → tag_of ft < 0xfd
tag_of-below (scalar s) = (plain_scalar s).0
tag_of-below (scalar_array s) = (plain_scalar s).1
tag_of-below (bounded_string bound) = omega arith
tag_of-below structure = omega arith
tag_of-below structure_array = omega arith
tag_of-below union = omega arith
tag_of-below union_array = omega arith
tag_of-below variant_union = omega arith
tag_of-below variant_union_array = omega arith

pub record IsPlain (tag : ℕ) : Type 0 where
  pub not_null : (tag == null_type_code) ≡ false
  pub not_id : (tag == only_id_type_code) ≡ false
  pub not_both : (tag == full_with_id_code) ≡ false

pub tag_of-IsPlain : (ft : FieldType) → IsPlain (tag_of ft)
tag_of-IsPlain ft =
    let below = tag_of-below ft in
    record { not_null = ground arith; not_id = ground arith; not_both = ground arith }

scalar_code :
    (nested : Decoder FieldDesc) (s : ScalarType)
    → decode_type_code nested (scalar_to_wire s) ≡ pure (leaf (scalar s))
unfolding decode_type_code decode_scalar scalar_of_base scalar_to_wire
scalar_code nested boolean = refl
scalar_code nested byte = refl
scalar_code nested short = refl
scalar_code nested int = refl
scalar_code nested long = refl
scalar_code nested ubyte = refl
scalar_code nested ushort = refl
scalar_code nested uint = refl
scalar_code nested ulong = refl
scalar_code nested float = refl
scalar_code nested double = refl
scalar_code nested string = refl

scalar_array_code :
    (nested : Decoder FieldDesc) (s : ScalarType)
    → decode_type_code nested (bit_or (scalar_to_wire s) 0x08) ≡ pure (leaf (scalar_array s))
unfolding decode_type_code decode_scalar scalar_of_base scalar_to_wire
scalar_array_code nested boolean = refl
scalar_array_code nested byte = refl
scalar_array_code nested short = refl
scalar_array_code nested int = refl
scalar_array_code nested long = refl
scalar_array_code nested ubyte = refl
scalar_array_code nested ushort = refl
scalar_array_code nested uint = refl
scalar_array_code nested ulong = refl
scalar_array_code nested float = refl
scalar_array_code nested double = refl
scalar_array_code nested string = refl

is_leaf :
    (ft : FieldType) (id : List ℕ) (fs : NamedFields)
    → id ≡ []
    → field_count fs ≡ 0
    → leaf ft ≡ field_desc ft id fs
is_leaf ft id no_fields e z = ap (λ i. field_desc ft i no_fields) (sym e)
is_leaf ft id (named_field name d fs) e z = absurd (omega (arith, z))

module _ (o : ByteOrder) where
  Reads-leaf :
      (ft : FieldType) (id : List ℕ) (fs : NamedFields)
      → id ≡ []
      → field_count fs ≡ 0
      → Reads o (pure (leaf ft)) [] (field_desc ft id fs)
  Reads-leaf ft id fs e z =
      subst (λ d. Reads o (pure (leaf ft)) [] d) (is_leaf ft id fs e z) (Reads-pure (leaf ft))

  module _ (nested : Decoder FieldDesc) (n : ℕ)
      (nested-Reads : (d : FieldDesc)
        → flat_field_count d ≤ n
        → IsDesc d
        → Reads o nested (desc_bytes o d) d) where
    Reads-fields :
        (fs : NamedFields)
        → flat_fields_count fs ≤ n
        → AreFields fs
        → Reads o (decode_fields nested (field_count fs)) (fields_bytes o fs) fs
    unfolding decode_fields flat_fields_count
    Reads-fields no_fields h hf = Reads-pure no_fields
    Reads-fields (named_field name d fs) h ((valid, fits), (hd, hfs)) =
        Reads-bind _ _ (string_bytes o name) _ name (named_field name d fs)
          (Reads-read_string o name valid fits)
          (Reads-bind _ _ (desc_bytes o d) (fields_bytes o fs) d (named_field name d fs)
            (nested-Reads d (omega (arith, h)) hd)
            (Reads-then _ _ (fields_bytes o fs) fs (named_field name d fs)
              (Reads-fields fs (omega (arith, h)) hfs) (Reads-pure (named_field name d fs))))

    Reads-composite :
        (ft : FieldType) (id : List ℕ) (fs : NamedFields)
        → flat_fields_count fs ≤ n
        → IsComposite id (field_count fs)
        → AreFields fs
        → Reads o
            (decode_composite nested ft)
            (composite_bytes o id (field_count fs) (fields_bytes o fs))
            (field_desc ft id fs)
    unfolding decode_composite
    Reads-composite ft id fs h (valid, fits, few) hf =
        Reads-bind _ _ (string_bytes o id) _ id (field_desc ft id fs)
          (Reads-read_string o id valid fits)
          (Reads-bind _ _ (size_bytes o (field_count fs)) (fields_bytes o fs) (field_count fs)
            (field_desc ft id fs) (Reads-read_size_non_null o (field_count fs) few)
            (Reads-then _ _ (fields_bytes o fs) fs (field_desc ft id fs) (Reads-fields fs h hf)
              (Reads-pure (field_desc ft id fs))))

    pub Reads-type :
        (ft : FieldType) (id : List ℕ) (fs : NamedFields)
        → flat_fields_count fs ≤ n
        → IsHead ft id (field_count fs)
        → AreFields fs
        → Reads o
            (decode_type_code nested (tag_of ft))
            (body_bytes o ft id (field_count fs) (fields_bytes o fs))
            (field_desc ft id fs)
    unfolding decode_type_code decode_complex_type decode_bounded
    Reads-type (scalar s) id fs h (e, z) hf =
        subst (λ m. Reads o m [] (field_desc (scalar s) id fs)) (sym (scalar_code nested s))
          (Reads-leaf (scalar s) id fs e z)
    Reads-type (scalar_array s) id fs h (e, z) hf =
        subst (λ m. Reads o m [] (field_desc (scalar_array s) id fs))
          (sym (scalar_array_code nested s)) (Reads-leaf (scalar_array s) id fs e z)
    Reads-type (bounded_string bound) id fs h (few, e, z) hf =
        Reads-then _ _ (size_bytes o bound) bound (field_desc (bounded_string bound) id fs)
          (Reads-read_size_non_null o bound few) (Reads-leaf (bounded_string bound) id fs e z)
    Reads-type structure id fs h head hf = Reads-composite structure id fs h head hf
    Reads-type structure_array id fs h head hf = Reads-composite structure_array id fs h head hf
    Reads-type union id fs h head hf = Reads-composite union id fs h head hf
    Reads-type union_array id fs h head hf = Reads-composite union_array id fs h head hf
    Reads-type variant_union id fs h (e, z) hf = Reads-leaf variant_union id fs e z
    Reads-type variant_union_array id fs h (e, z) hf = Reads-leaf variant_union_array id fs e z

  pub Reads-full :
      (levels : ℕ) (d : FieldDesc)
      → flat_field_count d ≤ levels
      → IsDesc d
      → Reads o (decode_full levels) (desc_bytes o d) d
  unfolding decode_full decode_full_tag flat_field_count
  Reads-full zero (field_desc ft id fs) h hd = absurd (omega (arith, h))
  Reads-full (suc levels) (field_desc ft id fs) h (head, hf) =
      let plain = tag_of-IsPlain ft in
      Reads-bind _ _ (tag_of ft ∷ []) _ (tag_of ft) (field_desc ft id fs)
        (Reads-read_u8 o (tag_of ft))
        (rw (plain.not_null, plain.not_id, plain.not_both)
          (Reads-type (decode_full levels) levels (Reads-full levels) ft id fs (omega (arith, h))
            head hf))

  composite_le :
      (id : List ℕ) (n : ℕ) (fields : List ℕ)
      → length fields ≤ length (composite_bytes o id n fields)
  composite_le id n fields = omega (
    arith,
    length-append (string_bytes o id) (size_bytes o n ++ fields),
    length-append (size_bytes o n) fields,
  )

  count_zero : (fs : NamedFields) → field_count fs ≡ 0 → flat_fields_count fs ≡ 0
  unfolding flat_fields_count
  count_zero no_fields z = refl
  count_zero (named_field name d fs) z = absurd (omega (arith, z))

  -- Every description in a tree takes a byte at least.
  mutual
    unfolding flat_field_count flat_fields_count

    count_le : (d : FieldDesc) → IsDesc d → flat_field_count d ≤ length (desc_bytes o d)
    count_le (field_desc (scalar s) id fs) ((e, z), hf) = omega (arith, count_zero fs z)
    count_le (field_desc (scalar_array s) id fs) ((e, z), hf) = omega (arith, count_zero fs z)
    count_le (field_desc (bounded_string bound) id fs) ((few, e, z), hf) =
        omega (arith, count_zero fs z)
    count_le (field_desc structure id fs) (h, hf) =
        omega (arith, composite_le id (field_count fs) (fields_bytes o fs), fields_count_le fs hf)
    count_le (field_desc structure_array id fs) (h, hf) =
        omega (arith, composite_le id (field_count fs) (fields_bytes o fs), fields_count_le fs hf)
    count_le (field_desc union id fs) (h, hf) =
        omega (arith, composite_le id (field_count fs) (fields_bytes o fs), fields_count_le fs hf)
    count_le (field_desc union_array id fs) (h, hf) =
        omega (arith, composite_le id (field_count fs) (fields_bytes o fs), fields_count_le fs hf)
    count_le (field_desc variant_union id fs) ((e, z), hf) = omega (arith, count_zero fs z)
    count_le (field_desc variant_union_array id fs) ((e, z), hf) = omega (arith, count_zero fs z)

    fields_count_le :
        (fs : NamedFields) → AreFields fs → flat_fields_count fs ≤ length (fields_bytes o fs)
    fields_count_le no_fields h = omega arith
    fields_count_le (named_field name d fs) (hn, (hd, hfs)) = omega (
      arith,
      count_le d hd,
      fields_count_le fs hfs,
      length-append (string_bytes o name) (desc_bytes o d ++ fields_bytes o fs),
      length-append (desc_bytes o d) (fields_bytes o fs),
    )

  pub flat_field_count-bytes :
      (d : FieldDesc) → IsDesc d → flat_field_count d ≤ length (desc_bytes o d)
  flat_field_count-bytes d h = count_le d h
