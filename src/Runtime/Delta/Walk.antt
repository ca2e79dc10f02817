-- ===== src/Runtime/Delta/Walk.antt =====
-- The flat indices that a walk through a description gives out.
use aura_epics.Prelude.{
  List, ℕ, zero, suc, ◌+◌, ◌≤◌, ◌<◌, ◌≡◌, refl, ap, sym, ◌∙◌, Bool, false, ok, pure, ◌>>=◌,
  if◌then◌else◌, arith,
}
use aura_epics.Codec.PvData.Reader.{PvaReader, Decoder}
use aura_epics.Codec.FieldDesc.{
  FieldType, scalar, scalar_array, bounded_string, structure, structure_array, union, union_array,
  variant_union, variant_union_array, FieldDesc, NamedFields, field_desc, no_fields, named_field,
  flat_field_count, flat_fields_count,
}
use aura_epics.Codec.BitSet.{PvaBitSet, is_set}
use aura_epics.Types.PvaValue.{PvaValue, NamedValues, null, structure_of, named_value, no_values}
use aura_epics.Types.PvaValue.Typed.{Yields, Yields-pure, Yields-if, Yields-bind, Yields-after}
use aura_epics.Runtime.Delta.{
  Indexed, skip_flat_indices, skip_fields, any_set, if_changed, decode_delta_structure,
  decode_delta_fields,
}

-- Only structures have fields: then the walk of the decoder and the count of a description agree.
unfoldable mutual
  pub OnlyStructures : FieldDesc → Type 0
  OnlyStructures (field_desc structure id fs) = AllOnlyStructures fs
  OnlyStructures (field_desc structure_array id fs) = AllOnlyStructures fs
  OnlyStructures (field_desc (scalar st) id fs) = fs ≡ no_fields
  OnlyStructures (field_desc (scalar_array st) id fs) = fs ≡ no_fields
  OnlyStructures (field_desc (bounded_string max_len) id fs) = fs ≡ no_fields
  OnlyStructures (field_desc union id fs) = fs ≡ no_fields
  OnlyStructures (field_desc union_array id fs) = fs ≡ no_fields
  OnlyStructures (field_desc variant_union id fs) = fs ≡ no_fields
  OnlyStructures (field_desc variant_union_array id fs) = fs ≡ no_fields

  pub AllOnlyStructures : NamedFields → Type 0
  AllOnlyStructures no_fields = Unit {0}
  AllOnlyStructures (named_field name d fs) = OnlyStructures d × AllOnlyStructures fs

pub count_leaf :
    (ft : FieldType) (id : List ℕ) (fs : NamedFields) (idx : ℕ)
    → fs ≡ no_fields
    → idx + 1 ≡ idx + flat_field_count (field_desc ft id fs)
unfolding flat_field_count flat_fields_count
count_leaf ft id fs idx e = rw e (omega arith)

mutual
  unfolding skip_flat_indices skip_fields OnlyStructures AllOnlyStructures flat_field_count
      flat_fields_count

  skip-count :
      (d : FieldDesc) (idx : ℕ)
      → OnlyStructures d
      → skip_flat_indices d idx ≡ idx + flat_field_count d
  skip-count (field_desc structure id fs) idx h = omega (arith, skip_fields-count fs (idx + 1) h)
  skip-count (field_desc structure_array id fs) idx h =
      omega (arith, skip_fields-count fs (idx + 1) h)
  skip-count (field_desc (scalar st) id fs) idx h = rw h (omega arith)
  skip-count (field_desc (scalar_array st) id fs) idx h = rw h (omega arith)
  skip-count (field_desc (bounded_string max_len) id fs) idx h = rw h (omega arith)
  skip-count (field_desc union id fs) idx h = rw h (omega arith)
  skip-count (field_desc union_array id fs) idx h = rw h (omega arith)
  skip-count (field_desc variant_union id fs) idx h = rw h (omega arith)
  skip-count (field_desc variant_union_array id fs) idx h = rw h (omega arith)

  pub skip_fields-count :
      (fs : NamedFields) (idx : ℕ)
      → AllOnlyStructures fs
      → skip_fields fs idx ≡ idx + flat_fields_count fs
  skip_fields-count no_fields idx h = omega arith
  skip_fields-count (named_field name d fs) idx (hd, hfs) =
      omega (arith, skip_fields-count fs (skip_flat_indices d idx) hfs, skip-count d idx hd)

-- the index that stands beside the value
abbrev At : {A : Type 0} → ℕ → A × ℕ → Type 0
At n p = p.1 ≡ n

module _ (changed : PvaBitSet) where
  any_set-none :
      (start n : ℕ)
      → ((i : ℕ) → start ≤ i → i < start + n → is_set changed i ≡ false)
      → any_set changed start n ≡ false
  unfolding any_set
  any_set-none start zero h = refl
  any_set-none start (suc n) h =
      rw (h start (omega arith) (omega arith))
        (any_set-none (suc start) n (λ i a b. h i (omega arith) (omega arith)))

  Yields-if_changed :
      (idx n : ℕ) (read : Decoder PvaValue)
      → idx + 1 ≡ n
      → Yields (At n) (if_changed changed idx read)
  Yields-if_changed idx n read h =
      Yields-if (At n) (is_set changed idx) _ _
        (Yields-after (At n) read _ (λ v. Yields-pure (At n) (v, idx + 1) h))
        (Yields-pure (At n) (null, idx + 1) h)

  Yields-structure :
      (idx n : ℕ) (b : Bool) (fields : Indexed NamedValues)
      → Yields (At n) fields
      → idx ≡ n
      → Yields
          (At n)
          (if b then (do (vs, next) ← fields; pure (structure_of vs, next)) else pure (null, idx))
  Yields-structure idx n b fields h e =
      Yields-if (At n) b _ _
        (Yields-bind (At n) (At n) fields _ h
          (λ p hp. Yields-pure (At n) (structure_of p.0, p.1) hp))
        (Yields-pure (At n) (null, idx) e)

  mutual
    unfolding decode_delta_structure decode_delta_fields OnlyStructures AllOnlyStructures
        flat_field_count flat_fields_count

    delta-At :
        (d : FieldDesc) (idx : ℕ)
        → OnlyStructures d
        → Yields (At (idx + flat_field_count d)) (decode_delta_structure changed d idx)
    delta-At (field_desc structure id fs) idx h =
        let e : idx + 1 + flat_fields_count fs ≡ idx + (1 + flat_fields_count fs) = omega arith in
        Yields-structure (skip_fields fs (idx + 1)) _ _ (decode_delta_fields changed fs (idx + 1))
          (rw e at (fields-At fs (idx + 1) h)) (skip_fields-count fs (idx + 1) h ∙ e)
    delta-At (field_desc structure_array id fs) idx h =
        let e : idx + 1 + flat_fields_count fs ≡ idx + (1 + flat_fields_count fs) = omega arith in
        Yields-structure (skip_fields fs (idx + 1)) _ _ (decode_delta_fields changed fs (idx + 1))
          (rw e at (fields-At fs (idx + 1) h)) (skip_fields-count fs (idx + 1) h ∙ e)
    delta-At (field_desc (scalar st) id fs) idx h = Yields-if_changed idx _ _ (rw h (omega arith))
    delta-At (field_desc (scalar_array st) id fs) idx h =
        Yields-if_changed idx _ _ (rw h (omega arith))
    delta-At (field_desc (bounded_string max_len) id fs) idx h =
        Yields-if_changed idx _ _ (rw h (omega arith))
    delta-At (field_desc union id fs) idx h = Yields-if_changed idx _ _ (rw h (omega arith))
    delta-At (field_desc union_array id fs) idx h = Yields-if_changed idx _ _ (rw h (omega arith))
    delta-At (field_desc variant_union id fs) idx h = Yields-if_changed idx _ _ (rw h (omega arith))
    delta-At (field_desc variant_union_array id fs) idx h =
        Yields-if_changed idx _ _ (rw h (omega arith))

    fields-At :
        (fs : NamedFields) (idx : ℕ)
        → AllOnlyStructures fs
        → Yields (At (idx + flat_fields_count fs)) (decode_delta_fields changed fs idx)
    fields-At no_fields idx h = Yields-pure _ (no_values, idx) (omega arith)
    fields-At (named_field name d fs) idx (hd, hfs) =
        let n = idx + (flat_field_count d + flat_fields_count fs) in
        Yields-bind (At (idx + flat_field_count d)) (At n) _ _ (delta-At d idx hd) (λ p hp.
          Yields-bind (At (p.1 + flat_fields_count fs)) (At n) _ _ (fields-At fs p.1 hfs)
            (λ q hq. Yields-pure (At n) (named_value name p.0 q.0, q.1) (omega (arith, hp, hq))))

-- Where only structures have fields, a decoded value leaves the flat index behind the whole count of
-- its description, where skip_flat_indices leaves it as well.
pub delta_indices :
    (changed : PvaBitSet) (d : FieldDesc) (idx next : ℕ) (r r' : PvaReader) (v : PvaValue)
    → OnlyStructures d
    → decode_delta_structure changed d idx r ≡ (ok (v, next), r')
    → (next ≡ idx + flat_field_count d) × (skip_flat_indices d idx ≡ next)
delta_indices changed d idx next r r' v h e =
    let here : next ≡ idx + flat_field_count d = (delta-At changed d idx h).at r r' (v, next) e in
    (here, skip-count d idx h ∙ sym here)

module _ (changed : PvaBitSet) (idx : ℕ) where
  if_changed_not :
      (n : ℕ) (read : Decoder PvaValue)
      → is_set changed idx ≡ false
      → idx + 1 ≡ n
      → if_changed changed idx read ≡ pure (null, n)
  if_changed_not n read h e = rw (h, e) refl

  structure_not :
      (n next : ℕ) (whole : Indexed PvaValue)
      → any_set changed idx n ≡ false
      → next ≡ idx + n
      → (if any_set changed idx n then whole else pure (null, next)) ≡ pure (null, idx + n)
  structure_not n next whole h e = rw (h, e) refl

unread :
    (changed : PvaBitSet) (d : FieldDesc) (idx : ℕ)
    → OnlyStructures d
    → ((i : ℕ) → idx ≤ i → i < idx + flat_field_count d → is_set changed i ≡ false)
    → decode_delta_structure changed d idx ≡ pure (null, idx + flat_field_count d)
unfolding decode_delta_structure OnlyStructures flat_field_count
unread changed (field_desc structure id fs) idx h u =
    structure_not changed idx _ _ _ (any_set-none changed idx _ u)
      (omega (arith, skip_fields-count fs (idx + 1) h))
unread changed (field_desc structure_array id fs) idx h u =
    structure_not changed idx _ _ _ (any_set-none changed idx _ u)
      (omega (arith, skip_fields-count fs (idx + 1) h))
unread changed (field_desc (scalar st) id fs) idx h u =
    if_changed_not changed idx _ _ (u idx (omega arith) (omega arith))
      (count_leaf (scalar st) id fs idx h)
unread changed (field_desc (scalar_array st) id fs) idx h u =
    if_changed_not changed idx _ _ (u idx (omega arith) (omega arith))
      (count_leaf (scalar_array st) id fs idx h)
unread changed (field_desc (bounded_string max_len) id fs) idx h u =
    if_changed_not changed idx _ _ (u idx (omega arith) (omega arith))
      (count_leaf (bounded_string max_len) id fs idx h)
unread changed (field_desc union id fs) idx h u =
    if_changed_not changed idx _ _ (u idx (omega arith) (omega arith))
      (count_leaf union id fs idx h)
unread changed (field_desc union_array id fs) idx h u =
    if_changed_not changed idx _ _ (u idx (omega arith) (omega arith))
      (count_leaf union_array id fs idx h)
unread changed (field_desc variant_union id fs) idx h u =
    if_changed_not changed idx _ _ (u idx (omega arith) (omega arith))
      (count_leaf variant_union id fs idx h)
unread changed (field_desc variant_union_array id fs) idx h u =
    if_changed_not changed idx _ _ (u idx (omega arith) (omega arith))
      (count_leaf variant_union_array id fs idx h)

-- Where only structures have fields and no index of a description is in the set, the value is null,
-- nothing is read, whatever the bytes, and the flat index moves behind the description.
pub delta_unread :
    (changed : PvaBitSet) (d : FieldDesc) (idx : ℕ) (r : PvaReader)
    → OnlyStructures d
    → ((i : ℕ) → idx ≤ i → i < idx + flat_field_count d → is_set changed i ≡ false)
    → decode_delta_structure changed d idx r ≡ (ok (null, idx + flat_field_count d), r)
delta_unread changed d idx r h u = ap (λ read. read r) (unread changed d idx h u)
