-- ===== src/Prelude/Names.antt =====
-- Names, and the sets and maps that are kept by name.
use Prim.Native.Nat.{ℕ}
use mathlib.Core.Path.{◌≡◌, refl, ap, sym, ◌∙◌}
use mathlib.Core.Logic.{inl, inr}
use mathlib.Core.Bool.{Bool, true, false, not, ◌&&◌, ◌||◌}
use mathlib.Core.List.{List, [], ◌∷◌}
use mathlib.Core.Option.{Option, none, some}
use native.Mathlib.Omega.{arith}
use aura_epics.Prelude.Tests.{◌==◌, if◌then◌else◌, Bool-cases, ==_iff}

abbrev pub Name : Type 0
Name = List ℕ

unfoldable pub same : Name → Name → Bool
same [] [] = true
same [] (b ∷ ys) = false
same (a ∷ xs) [] = false
same (a ∷ xs) (b ∷ ys) = (a == b) && same xs ys

pub same_refl : (a : Name) → same a a ≡ true
unfolding same
same_refl [] = refl
same_refl (x ∷ a) = let here : (x == x) ≡ true = ground arith in rw here (same_refl a)

pub same→eq : (a b : Name) → same a b ≡ true → a ≡ b
unfolding same
same→eq [] [] h = refl
same→eq [] (b ∷ ys) h = cc h
same→eq (a ∷ xs) [] h = cc h
same→eq (a ∷ xs) (b ∷ ys) h = elim (Bool-cases (a == b)) [
  | inl e ↦
      let tail : same xs ys ≡ true = (let t : ((a == b) && same xs ys) ≡ true = h in rw e at t) in
      let head : a ≡ b = (==_iff a b).0 e in
      ap (λ x. x ∷ xs) head ∙ ap (λ l. b ∷ l) (same→eq xs ys tail)
  | inr e ↦ let t : ((a == b) && same xs ys) ≡ true = h in cc (rw e at t)
]

-- `HashSet::contains`, `insert` and `remove`
unfoldable pub contains : Name → List Name → Bool
contains p [] = false
contains p (q ∷ s) = same q p || contains p s

unfoldable pub add : Name → List Name → List Name
add p s = if contains p s then s else p ∷ s

unfoldable pub remove : Name → List Name → List Name
remove p [] = []
remove p (q ∷ s) = let rest = remove p s in if same q p then rest else q ∷ rest

-- Whether a name is the other decides what becomes of it.
pub contains-add : (p q : Name) (s : List Name) → contains q (add p s) ≡ (same p q || contains q s)
unfolding add contains
contains-add p q s = elim (Bool-cases (contains p s)) [
  | inl there ↦ elim (Bool-cases (same p q)) [
    | inl e ↦
        let found : contains q s ≡ true = ap (λ x. contains x s) (sym (same→eq p q e)) ∙ there in
        rw (there, e) found
    | inr e ↦ rw (there, e) refl
  ]
  | inr missing ↦ rw missing refl
]

pub contains-remove :
    (p q : Name) (s : List Name) → contains q (remove p s) ≡ (not (same p q) && contains q s)
unfolding remove contains
contains-remove p q [] = elim (Bool-cases (same p q)) [ inl e ↦ rw e refl | inr e ↦ rw e refl ]
contains-remove p q (x ∷ s) = elim (Bool-cases (same x p)) [
  | inl gone ↦
      let e : x ≡ p = same→eq x p gone in
      rw (gone, e)
        (contains-remove p q s
          ∙ elim (Bool-cases (same p q)) [ inl e ↦ rw e refl | inr e ↦ rw e refl ])
  | inr stays ↦
      rw (stays, contains-remove p q s)
        (elim (Bool-cases (same p q)) [
          | inl e ↦
              let other : same x q ≡ false = ap (λ y. same x y) (sym (same→eq p q e)) ∙ stays in
              rw (e, other) refl
          | inr e ↦ rw e refl
        ])
]

module _ {V : Type 0} where
  -- `HashMap::get`, `insert` and `remove`
  unfoldable pub find : Name → List (Name × V) → Option V
  find p [] = none
  find p ((q, v) ∷ m) = if same q p then some v else find p m

  unfoldable pub put : Name → V → List (Name × V) → List (Name × V)
  put p v [] = (p, v) ∷ []
  put p v ((q, u) ∷ m) = let rest = put p v m in if same q p then (q, v) ∷ m else (q, u) ∷ rest

  unfoldable pub discard : Name → List (Name × V) → List (Name × V)
  discard p [] = []
  discard p ((q, u) ∷ m) = let rest = discard p m in if same q p then rest else (q, u) ∷ rest

  unfoldable pub keys : List (Name × V) → List Name
  keys [] = []
  keys ((q, u) ∷ m) = q ∷ keys m

  pub find-put :
      (p q : Name) (v : V) (m : List (Name × V))
      → find q (put p v m) ≡ (if same p q then some v else find q m)
  unfolding find put
  find-put p q v [] = refl
  find-put p q v ((x, u) ∷ m) = elim (Bool-cases (same x p)) [
    | inl here ↦
        let e : x ≡ p = same→eq x p here in
        rw (here, e) (elim (Bool-cases (same p q)) [ inl e ↦ rw e refl | inr e ↦ rw e refl ])
    | inr other ↦
        rw (other, find-put p q v m)
          (elim (Bool-cases (same p q)) [
            | inl e ↦
                let differs : same x q ≡ false = ap (λ y. same x y) (sym (same→eq p q e)) ∙ other in
                rw (e, differs) refl
            | inr e ↦ rw e refl
          ])
  ]

  pub find-discard :
      (p q : Name) (m : List (Name × V))
      → find q (discard p m) ≡ (if same p q then none else find q m)
  unfolding find discard
  find-discard p q [] = elim (Bool-cases (same p q)) [ inl e ↦ rw e refl | inr e ↦ rw e refl ]
  find-discard p q ((x, u) ∷ m) = elim (Bool-cases (same x p)) [
    | inl gone ↦
        let e : x ≡ p = same→eq x p gone in
        rw (gone, e)
          (find-discard p q m
            ∙ elim (Bool-cases (same p q)) [ inl e ↦ rw e refl | inr e ↦ rw e refl ])
    | inr stays ↦
        rw (stays, find-discard p q m)
          (elim (Bool-cases (same p q)) [
            | inl e ↦
                let differs : same x q ≡ false = ap (λ y. same x y) (sym (same→eq p q e)) ∙ stays in
                rw (e, differs) refl
            | inr e ↦ rw e refl
          ])
  ]
