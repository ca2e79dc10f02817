-- ===== src/Prelude/Maps.antt =====
-- Maps from numbers, as lists of pairs with one pair for a key.
use Prim.Native.Nat.{ℕ, ◌+◌, ◌≤◌}
use mathlib.Core.Path.{◌≡◌, refl}
use mathlib.Core.Bool.{true, false}
use mathlib.Core.List.{List, [], ◌∷◌}
use mathlib.Core.Option.{Option, none, some}
use mathlib.Core.Logic.{inl, inr}
use native.Mathlib.Omega.{arith}
use aura_epics.Prelude.Tests.{◌==◌, if◌then◌else◌, Bool-cases}
use aura_epics.Prelude.Lists.{length, All}

module _ {V : Type 0} where
  abbrev pub lookup : ℕ → List (ℕ × V) → Option V
  lookup id [] = none
  lookup id ((i, v) ∷ m) = if i == id then some v else lookup id m

  -- `HashMap::insert`: a new entry, or a new value in the old one
  abbrev pub insert : ℕ → V → List (ℕ × V) → List (ℕ × V)
  insert id v [] = (id, v) ∷ []
  insert id v ((i, u) ∷ m) = if i == id then (i, v) ∷ m else (i, u) ∷ insert id v m

  -- a change through `HashMap::get_mut`
  abbrev pub adjust : ℕ → (V → V) → List (ℕ × V) → List (ℕ × V)
  adjust id f [] = []
  adjust id f ((i, u) ∷ m) = if i == id then (i, f u) ∷ m else (i, u) ∷ adjust id f m

  abbrev pub map_value : (V → V) → Option V → Option V
  map_value f none = none
  map_value f (some v) = some (f v)

  pub lookup-insert : (id : ℕ) (v : V) (m : List (ℕ × V)) → lookup id (insert id v m) ≡ some v
  lookup-insert id v [] = let same : (id == id) ≡ true = ground arith in rw same refl
  lookup-insert id v ((i, u) ∷ m) = elim (Bool-cases (i == id)) [
    | inl same ↦ rw (same, same) refl
    | inr other ↦ rw (other, other) (lookup-insert id v m)
  ]

  pub lookup-insert_other :
      (id j : ℕ) (v : V) (m : List (ℕ × V))
      → (id == j) ≡ false
      → lookup j (insert id v m) ≡ lookup j m
  lookup-insert_other id j v [] h = rw h refl
  lookup-insert_other id j v ((i, u) ∷ m) h = elim (Bool-cases (i == id)) [
    | inl same ↦ let differ : (i == j) ≡ false = ground arith in rw (same, differ) refl
    | inr other ↦ elim (Bool-cases (i == j)) [
      | inl here ↦ rw (other, here) refl
      | inr there ↦ rw (other, there) (lookup-insert_other id j v m h)
    ]
  ]

  pub lookup-adjust :
      (id : ℕ) (f : V → V) (m : List (ℕ × V))
      → lookup id (adjust id f m) ≡ map_value f (lookup id m)
  lookup-adjust id f [] = refl
  lookup-adjust id f ((i, u) ∷ m) = elim (Bool-cases (i == id)) [
    | inl same ↦ rw (same, same) refl
    | inr other ↦ rw (other, other) (lookup-adjust id f m)
  ]

  pub lookup-adjust_other :
      (id j : ℕ) (f : V → V) (m : List (ℕ × V))
      → (id == j) ≡ false
      → lookup j (adjust id f m) ≡ lookup j m
  lookup-adjust_other id j f [] h = refl
  lookup-adjust_other id j f ((i, u) ∷ m) h = elim (Bool-cases (i == id)) [
    | inl same ↦ let differ : (i == j) ≡ false = ground arith in rw (same, differ) refl
    | inr other ↦ elim (Bool-cases (i == j)) [
      | inl here ↦ rw (other, here) refl
      | inr there ↦ rw (other, there) (lookup-adjust_other id j f m h)
    ]
  ]

  pub insert_le : (id : ℕ) (v : V) (m : List (ℕ × V)) → length (insert id v m) ≤ length m + 1
  insert_le id v [] = omega arith
  insert_le id v ((i, u) ∷ m) = ground (arith, insert_le id v m)

  pub All-insert :
      (P : ℕ × V → Type 0) (id : ℕ) (v : V) (m : List (ℕ × V))
      → All P m
      → ((i : ℕ) → (i == id) ≡ true → P (i, v))
      → All P (insert id v m)
  All-insert P id v [] h hv = (hv id (ground arith), tt)
  All-insert P id v ((i, u) ∷ m) (hu, hm) hv = elim (Bool-cases (i == id)) [
    | inl same ↦ rw same (hv i same, hm)
    | inr other ↦ rw other (hu, All-insert P id v m hm hv)
  ]

  pub All-adjust :
      (P : ℕ × V → Type 0) (id : ℕ) (f : V → V) (m : List (ℕ × V))
      → All P m
      → ((i : ℕ) (u : V) → P (i, u) → P (i, f u))
      → All P (adjust id f m)
  All-adjust P id f [] h hf = tt
  All-adjust P id f ((i, u) ∷ m) (hu, hm) hf = elim (Bool-cases (i == id)) [
    | inl same ↦ rw same (hf i u hu, hm)
    | inr other ↦ rw other (hu, All-adjust P id f m hm hf)
  ]
