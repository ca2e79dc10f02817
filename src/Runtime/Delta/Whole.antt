-- ===== src/Runtime/Delta/Whole.antt =====
-- An update that marks every field, and the decoding of the whole value.
use aura_epics.Prelude.{
  List, ℕ, zero, suc, ◌+◌, ◌≤◌, ◌<◌, ◌≡◌, refl, true, ok, err, Result, continue, pure, ◌>>=◌,
  if◌then◌else◌, arith, inl, inr, Bool-cases,
}
use mathlib.Core.Path.{subst}
use aura_epics.Codec.PvData.Reader.{PvaReader, Decoder, DecodeError}
use aura_epics.Codec.FieldDesc.{
  scalar, scalar_array, bounded_string, structure, structure_array, union, union_array,
  variant_union, variant_union_array, FieldDesc, NamedFields, field_desc, no_fields, named_field,
  flat_field_count, flat_fields_count,
}
use aura_epics.Codec.BitSet.{PvaBitSet, is_set}
use aura_epics.Types.PvaValue.{
  PvaValue, null, structure_of, named_value, no_values, decode_from, decode_values,
}
use aura_epics.Runtime.Delta.{
  Indexed, any_set, if_changed, decode_delta_structure, decode_delta_fields, decode_update,
}
use aura_epics.Runtime.Delta.Walk.{count_leaf}

-- Scalars, arrays of scalars, and structures of these.
unfoldable mutual
  pub Plain : FieldDesc → Type 0
  Plain (field_desc structure id fs) = AllPlain fs
  Plain (field_desc structure_array id fs) = AllPlain fs
  Plain (field_desc (scalar st) id fs) = fs ≡ no_fields
  Plain (field_desc (scalar_array st) id fs) = fs ≡ no_fields
  Plain (field_desc (bounded_string max_len) id fs) = ⊥
  Plain (field_desc union id fs) = ⊥
  Plain (field_desc union_array id fs) = ⊥
  Plain (field_desc variant_union id fs) = ⊥
  Plain (field_desc variant_union_array id fs) = ⊥

  pub AllPlain : NamedFields → Type 0
  AllPlain no_fields = Unit {0}
  AllPlain (named_field name d fs) = Plain d × AllPlain fs

abbrev beside : {A : Type 0} → ℕ → A → Indexed A
beside n a = pure (a, n)

-- A read beside an index: it does what the plain read does, and ends at the index.
abbrev EndsAt : {A : Type 0} → ℕ → Indexed A → Decoder A → Type 0
EndsAt n indexed plain = (r : PvaReader) → indexed r ≡ (do a ← plain; pure (a, n)) r

EndsAt-pure : {A : Type 0} (m n : ℕ) (a : A) → m ≡ n → EndsAt n (beside m a) (pure a)
unfolding ◌>>=◌
EndsAt-pure m n a e r = rw e refl

module _ {A B : Type 0} where
  map_result :
      (n : ℕ) (g : A → B) (x : Result A DecodeError) (r : PvaReader)
      → continue (continue x (beside n) r).0 (λ p. pure (g p.0, p.1)) (continue x (beside n) r).1
        ≡ continue (continue x (λ a. pure (g a)) r).0 (beside n) (continue x (λ a. pure (g a)) r).1
  map_result n g (ok a) r = refl
  map_result n g (err e) r = refl

  drop_index :
      (n : ℕ) (g : A → B) (x : Result A DecodeError) (r : PvaReader)
      → continue (continue x (beside n) r).0 (λ p. pure (g p.0)) (continue x (beside n) r).1
        ≡ continue x (λ a. pure (g a)) r
  drop_index n g (ok a) r = refl
  drop_index n g (err e) r = refl

  EndsAt-drop :
      (n : ℕ) (g : A → B) (indexed : Indexed A) (plain : Decoder A)
      → EndsAt n indexed plain
      → (r : PvaReader) → (do p ← indexed; pure (g p.0)) r ≡ (do a ← plain; pure (g a)) r
  unfolding ◌>>=◌
  EndsAt-drop n g indexed plain h r = rw (h r) (drop_index n g (plain r).0 (plain r).1)

  EndsAt-map :
      (n : ℕ) (g : A → B) (indexed : Indexed A) (plain : Decoder A)
      → EndsAt n indexed plain
      → EndsAt n (do p ← indexed; pure (g p.0, p.1)) (do a ← plain; pure (g a))
  unfolding ◌>>=◌
  EndsAt-map n g indexed plain h r = rw (h r) (map_result n g (plain r).0 (plain r).1)

module _ {A B C : Type 0} (c : A → B → C) (second : ℕ → Indexed B) (plain : Decoder B)
    (m n : ℕ) where
  pair_result :
      EndsAt n (second m) plain
      → (x : Result A DecodeError) (r : PvaReader)
      → continue
          (continue x (beside m) r).0
          (λ p. do q ← second p.1; pure (c p.0 q.0, q.1))
          (continue x (beside m) r).1
        ≡ continue
            (continue x (λ a. do b ← plain; pure (c a b)) r).0
            (beside n)
            (continue x (λ a. do b ← plain; pure (c a b)) r).1
  unfolding ◌>>=◌
  pair_result h (ok a) r = EndsAt-map n (c a) (second m) plain h r
  pair_result h (err e) r = refl

  EndsAt-pair :
      (indexed : Indexed A) (first : Decoder A)
      → EndsAt m indexed first
      → EndsAt n (second m) plain
      → EndsAt n
          (do p ← indexed; q ← second p.1; pure (c p.0 q.0, q.1))
          (do a ← first; b ← plain; pure (c a b))
  unfolding ◌>>=◌
  EndsAt-pair indexed first h k r = rw (h r) (pair_result k (first r).0 (first r).1)

-- Every index of a range is in the set.
abbrev AllSet : PvaBitSet → ℕ → ℕ → Type 0
AllSet changed idx n = (i : ℕ) → idx ≤ i → i < idx + n → is_set changed i ≡ true

module _ (changed : PvaBitSet) where
  any_set-first : (idx n : ℕ) → 0 < n → AllSet changed idx n → any_set changed idx n ≡ true
  unfolding any_set
  any_set-first idx zero p h = absurd (omega arith)
  any_set-first idx (suc n) p h = rw (h idx (omega arith) (omega arith)) refl

  EndsAt-if_changed :
      (idx n : ℕ) (read : Decoder PvaValue)
      → is_set changed idx ≡ true
      → idx + 1 ≡ n
      → EndsAt n (if_changed changed idx read) read
  EndsAt-if_changed idx n read h e r = rw (h, e) refl

  EndsAt-structure :
      (idx n next : ℕ) (fs : NamedFields) (skipped : ℕ)
      → 0 < n
      → AllSet changed idx n
      → EndsAt next (decode_delta_fields changed fs (idx + 1)) (decode_values fs)
      → EndsAt next
          (if any_set changed idx n
            then (do p ← decode_delta_fields changed fs (idx + 1); pure (structure_of p.0, p.1))
            else pure (null, skipped))
          (do vs ← decode_values fs; pure (structure_of vs))
  EndsAt-structure idx n next fs skipped p h k r =
      rw (any_set-first idx n p h) (EndsAt-map next structure_of _ (decode_values fs) k r)

  EndsAt-same :
      {A : Type 0} (m n : ℕ) (indexed : Indexed A) (plain : Decoder A)
      → m ≡ n
      → EndsAt m indexed plain
      → EndsAt n indexed plain
  EndsAt-same m n indexed plain e h = subst (λ k. EndsAt k indexed plain) e h

  mutual
    unfolding decode_delta_structure decode_delta_fields decode_from decode_values Plain AllPlain
        flat_field_count flat_fields_count

    delta-EndsAt :
        (d : FieldDesc) (idx : ℕ)
        → Plain d
        → AllSet changed idx (flat_field_count d)
        → EndsAt (idx + flat_field_count d) (decode_delta_structure changed d idx) (decode_from d)
    delta-EndsAt (field_desc structure id fs) idx h u =
        EndsAt-structure idx _ _ fs _ (omega arith) u (
          EndsAt-same _ _ _ _ (omega arith)
            (fields-EndsAt fs (idx + 1) h (λ i a b. u i (omega arith) (omega arith))))
    delta-EndsAt (field_desc structure_array id fs) idx h u =
        EndsAt-structure idx _ _ fs _ (omega arith) u (
          EndsAt-same _ _ _ _ (omega arith)
            (fields-EndsAt fs (idx + 1) h (λ i a b. u i (omega arith) (omega arith))))
    delta-EndsAt (field_desc (scalar st) id fs) idx h u =
        EndsAt-if_changed idx _ _ (u idx (omega arith) (omega arith))
          (count_leaf (scalar st) id fs idx h)
    delta-EndsAt (field_desc (scalar_array st) id fs) idx h u =
        EndsAt-if_changed idx _ _ (u idx (omega arith) (omega arith))
          (count_leaf (scalar_array st) id fs idx h)
    delta-EndsAt (field_desc (bounded_string max_len) id fs) idx h u = absurd h
    delta-EndsAt (field_desc union id fs) idx h u = absurd h
    delta-EndsAt (field_desc union_array id fs) idx h u = absurd h
    delta-EndsAt (field_desc variant_union id fs) idx h u = absurd h
    delta-EndsAt (field_desc variant_union_array id fs) idx h u = absurd h

    fields-EndsAt :
        (fs : NamedFields) (idx : ℕ)
        → AllPlain fs
        → AllSet changed idx (flat_fields_count fs)
        → EndsAt
            (idx + flat_fields_count fs)
            (decode_delta_fields changed fs idx)
            (decode_values fs)
    fields-EndsAt no_fields idx h u = EndsAt-pure idx _ no_values (omega arith)
    fields-EndsAt (named_field name d fs) idx (hd, hfs) u =
        let m = idx + flat_field_count d in
        let rest = fields-EndsAt fs m hfs (λ i a b. u i (omega arith) (omega arith)) in
        EndsAt-pair (λ v vs. named_value name v vs) (decode_delta_fields changed fs)
          (decode_values fs) m _ _ (decode_from d)
          (delta-EndsAt d idx hd (λ i a b. u i (omega arith) (omega arith)))
          (EndsAt-same _ _ _ _ (omega arith) rest)

-- A description of scalars, arrays of scalars and structures of these, with every index of it in the
-- set: decoding by the changed fields reads what decoding the whole value reads, on success and on
-- every error, and the flat index ends behind the description.
pub delta_whole :
    (changed : PvaBitSet) (d : FieldDesc) (idx : ℕ) (r : PvaReader)
    → Plain d
    → ((i : ℕ) → idx ≤ i → i < idx + flat_field_count d → is_set changed i ≡ true)
    → decode_delta_structure changed d idx r
      ≡ (do v ← decode_from d; pure (v, idx + flat_field_count d)) r
delta_whole changed d idx r h u = delta-EndsAt changed d idx h u r

-- A monitor update of a structure of such fields that marks the index of every field is decoded as
-- the whole structure, on success and on every error, with the root's own index marked or not.
pub update_whole :
    (changed : PvaBitSet) (id : List ℕ) (fs : NamedFields) (r : PvaReader)
    → AllPlain fs
    → ((i : ℕ)
        → 1 ≤ i
        → i < flat_field_count (field_desc structure id fs)
        → is_set changed i ≡ true)
    → decode_update changed (field_desc structure id fs) r
      ≡ decode_from (field_desc structure id fs) r
unfolding decode_update decode_from flat_field_count
update_whole changed id fs r h u = elim (Bool-cases (is_set changed 0)) [
  | inl root ↦ rw root refl
  | inr fields_only ↦ rw fields_only (
      EndsAt-drop (1 + flat_fields_count fs) structure_of (decode_delta_fields changed fs 1)
        (decode_values fs) (fields-EndsAt changed fs 1 h u) r)
]
