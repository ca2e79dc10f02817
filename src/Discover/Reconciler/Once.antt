-- ===== src/Discover/Reconciler/Once.antt =====
-- Subscriptions and alerts: one for each name that is new, and none for a name that is not.
use aura_epics.Prelude.{
  ℕ, ◌+◌, List, [], ◌∷◌, Bool, true, false, not, ◌&&◌, ◌||◌, ◌≡◌, refl, ap, sym, ◌∙◌, inl, inr,
  Bool-cases, if◌then◌else◌, arith,
}
use aura_epics.Prelude.Names.{Name, same, same→eq, contains, add, contains-add}
use aura_epics.Discover.Reconciler.{Reconciler, resolve_one, mark_resolved}

-- how often a name is subscribed
unfoldable pub subscriptions : {A : Type 0} → Name → List (Name × A) → ℕ
subscriptions p [] = 0
subscriptions p ((q, a) ∷ l) = let rest = subscriptions p l in if same q p then 1 + rest else rest

or_true : (b : Bool) → (b || true) ≡ true
or_true true = refl
or_true false = refl

-- A name that is missing where another stands is not the other.
new_is_other :
    (p name : Name) (s : List Name)
    → contains p s ≡ true
    → contains name s ≡ false
    → same name p ≡ false
new_is_other p name s h k = elim (Bool-cases (same name p)) [
  | inl e ↦ absurd (
      let both : true ≡ false = sym h ∙ ap (λ x. contains x s) (sym (same→eq name p e)) ∙ k in
      cc both)
  | inr e ↦ e
]

module _ {SocketAddr : Type 0} (p : Name) (addr : SocketAddr) where
  -- A name that is resolved is not subscribed.
  subscriptions-known :
      (names : List Name) (s : Reconciler)
      → contains p s.resolved ≡ true
      → subscriptions p (mark_resolved names addr s).0 ≡ 0
  unfolding mark_resolved subscriptions resolve_one
  subscriptions-known [] s h = refl
  subscriptions-known (name ∷ names) s h =
      let after : contains p (add name s.resolved) ≡ true =
        contains-add name p s.resolved ∙ rw h (or_true (same name p)) in
      let rest = subscriptions-known names (resolve_one name s) after in
      elim (Bool-cases (contains name s.resolved)) [
        | inl there ↦ rw there rest
        | inr missing ↦
            let other : same name p ≡ false = new_is_other p name s.resolved h missing in
            rw (missing, other) rest
      ]

  -- Of the names found, exactly those are subscribed that were not resolved before, each of them once,
  -- however often it stands among the names.
  pub mark_resolved-once :
      (names : List Name) (s : Reconciler)
      → subscriptions p (mark_resolved names addr s).0
        ≡ (if contains p names && not (contains p s.resolved) then 1 else 0)
  unfolding mark_resolved subscriptions resolve_one contains
  mark_resolved-once [] s = refl
  mark_resolved-once (name ∷ names) s = elim (Bool-cases (same name p)) [
    | inl e ↦
        let at_once : subscriptions p (mark_resolved names addr (resolve_one name s)).0 ≡ 0 =
          subscriptions-known names (resolve_one name s)
            (contains-add name p s.resolved ∙ rw e refl) in
        let here : contains p s.resolved ≡ contains name s.resolved =
          ap (λ x. contains x s.resolved) (sym (same→eq name p e)) in
        elim (Bool-cases (contains name s.resolved)) [
          | inl there ↦ rw (e, here, there) at_once
          | inr missing ↦ rw (e, here, missing) (rw e (omega (arith, at_once)))
        ]
    | inr other ↦
        let rest = mark_resolved-once names (resolve_one name s) in
        let unchanged : contains p (add name s.resolved) ≡ contains p s.resolved =
          contains-add name p s.resolved ∙ rw other refl in
        elim (Bool-cases (contains name s.resolved)) [
          | inl there ↦ rw (there, other) (rest ∙ rw unchanged refl)
          | inr missing ↦ rw (missing, other) (rest ∙ rw unchanged refl)
        ]
  ]
