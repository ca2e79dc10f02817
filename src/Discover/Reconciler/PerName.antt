-- ===== src/Discover/Reconciler/PerName.antt =====
-- The reconciler as each process variable sees it: three flags, which only what concerns its own
-- name changes.
use aura_epics.Prelude.{
  List, [], ◌∷◌, Bool, true, false, ◌≡◌, refl, ap, sym, ◌∙◌, inl, inr, Bool-cases, if◌then◌else◌,
}
use aura_epics.Prelude.Names.{Name, same, same→eq, contains, contains-add, contains-remove}
use aura_epics.Discover.ConfigPoller.{PvChange, added, removed, modified}
use aura_epics.Discover.Reconciler.{
  Reconciler, Pass, wait_for, forget, reconcile_change, reconcile_changes, reconcile, resolve_one,
  mark_resolved, miss_one, mark_not_found, mark_disconnected,
}

pub record Flags : Type 0 where
  pub is_resolved : Bool
  pub is_pending : Bool
  pub is_not_found : Bool

unfoldable pub flags_of : Name → Reconciler → Flags
flags_of p s = record {
  is_resolved = contains p s.resolved;
  is_pending = contains p s.pending;
  is_not_found = contains p s.not_found;
}

-- what each event does to the flags of the name it concerns
unfoldable pub awaited : Flags → Flags
awaited v = record v { is_pending = true }

unfoldable pub forgotten : Flags
forgotten = record { is_resolved = false; is_pending = false; is_not_found = false }

unfoldable pub found : Flags
found = record { is_resolved = true; is_pending = false; is_not_found = false }

unfoldable pub missed : Flags → Flags
missed v = record v { is_pending = false; is_not_found = true }

unfoldable pub lost : Flags → Flags
lost v = if v.is_resolved then record v { is_resolved = false; is_pending = true } else v

unfoldable pub modified_one : Flags → Flags
modified_one v = if v.is_resolved then v else awaited v

unfoldable pub change_flags : Name → PvChange → Flags → Flags
change_flags p (added cfg) v = if same cfg.pv_name p then awaited v else v
change_flags p (removed name) v = if same name p then forgotten else v
change_flags p (modified cfg) v = if same cfg.pv_name p then modified_one v else v

unfoldable pub changes_flags : Name → List PvChange → Flags → Flags
changes_flags p [] v = v
changes_flags p (c ∷ cs) v = changes_flags p cs (change_flags p c v)

-- an event that concerns the names of a list
unfoldable pub if_named : Name → (Flags → Flags) → List Name → Flags → Flags
if_named p f [] v = v
if_named p f (name ∷ names) v = if_named p f names (if same name p then f v else v)

flags-wait_for :
    (p name : Name) (pass : Pass)
    → flags_of p (wait_for name pass).state
      ≡ (if same name p then awaited (flags_of p pass.state) else flags_of p pass.state)
unfolding flags_of wait_for awaited
flags-wait_for p name pass =
    rw (contains-add name p pass.state.pending)
      (elim (Bool-cases (same name p)) [ inl e ↦ rw e refl | inr e ↦ rw e refl ])

flags-forget :
    (p name : Name) (s : Reconciler)
    → flags_of p (forget name s) ≡ (if same name p then forgotten else flags_of p s)
unfolding flags_of forget forgotten
flags-forget p name s =
    rw
      (
        contains-remove name p s.resolved,
        contains-remove name p s.pending,
        contains-remove name p s.not_found,
      )
      (elim (Bool-cases (same name p)) [ inl e ↦ rw e refl | inr e ↦ rw e refl ])

pub flags-resolve_one :
    (p name : Name) (s : Reconciler)
    → flags_of p (resolve_one name s) ≡ (if same name p then found else flags_of p s)
unfolding flags_of resolve_one found
flags-resolve_one p name s =
    rw
      (
        contains-add name p s.resolved,
        contains-remove name p s.pending,
        contains-remove name p s.not_found,
      )
      (elim (Bool-cases (same name p)) [ inl e ↦ rw e refl | inr e ↦ rw e refl ])

flags-miss_one :
    (p name : Name) (s : Reconciler)
    → flags_of p (miss_one name s) ≡ (if same name p then missed (flags_of p s) else flags_of p s)
unfolding flags_of miss_one missed
flags-miss_one p name s =
    rw (contains-remove name p s.pending, contains-add name p s.not_found)
      (elim (Bool-cases (same name p)) [ inl e ↦ rw e refl | inr e ↦ rw e refl ])

-- Whether the name is resolved is the same question for a name that is the other.
contains-same : (p q : Name) (s : List Name) → same q p ≡ true → contains q s ≡ contains p s
contains-same p q s e = ap (λ x. contains x s) (same→eq q p e)

if_same : (b : Bool) (v : Flags) → (if b then v else v) ≡ v
if_same true v = refl
if_same false v = refl

if_modified :
    (p name : Name) (s : Reconciler) (b : Bool)
    → contains name s.resolved ≡ b
    → (if same name p then modified_one (flags_of p s) else flags_of p s)
      ≡ (if b then flags_of p s else if same name p then awaited (flags_of p s) else flags_of p s)
unfolding flags_of modified_one awaited
if_modified p name s b h = elim (Bool-cases (same name p)) [
  | inl e ↦
      let here : contains p s.resolved ≡ b = sym (contains-same p name s.resolved e) ∙ h in
      rw (e, here) refl
  | inr e ↦ rw e (sym (if_same b (flags_of p s)))
]

pub flags-change :
    (p : Name) (c : PvChange) (pass : Pass)
    → flags_of p (reconcile_change c pass).state ≡ change_flags p c (flags_of p pass.state)
unfolding reconcile_change change_flags
flags-change p (added cfg) pass = flags-wait_for p cfg.pv_name pass
flags-change p (removed name) pass = flags-forget p name pass.state
flags-change p (modified cfg) pass = elim (Bool-cases (contains cfg.pv_name pass.state.resolved)) [
  | inl there ↦ rw there (sym (if_modified p cfg.pv_name pass.state true there))
  | inr missing ↦
      rw missing (
        flags-wait_for p cfg.pv_name pass
        ∙ sym (if_modified p cfg.pv_name pass.state false missing))
]

pub flags-changes :
    (p : Name) (cs : List PvChange) (pass : Pass)
    → flags_of p (reconcile_changes cs pass).state ≡ changes_flags p cs (flags_of p pass.state)
unfolding reconcile_changes changes_flags
flags-changes p [] pass = refl
flags-changes p (c ∷ cs) pass =
    flags-changes p cs (reconcile_change c pass) ∙ ap (changes_flags p cs) (flags-change p c pass)

module _ (SocketAddr : Type 0) where
  pub flags-reconcile :
      (p : Name) (changes : List PvChange) (s : Reconciler)
      → flags_of p (reconcile {SocketAddr = SocketAddr} changes s).1
        ≡ changes_flags p changes (flags_of p s)
  unfolding reconcile flags_of changes_flags
  flags-reconcile p [] s = refl
  flags-reconcile p (c ∷ cs) s = flags-changes p (c ∷ cs) _

  flags-mark_not_found :
      (p : Name) (names : List Name) (s : Reconciler)
      → flags_of p (mark_not_found {SocketAddr = SocketAddr} names s).1
        ≡ if_named p missed names (flags_of p s)
  unfolding mark_not_found if_named
  flags-mark_not_found p [] s = refl
  flags-mark_not_found p (name ∷ names) s =
      let rest : flags_of p (mark_not_found {SocketAddr = SocketAddr} names (miss_one name s)).1
          ≡ if_named p missed names (if same name p then missed (flags_of p s) else flags_of p s) =
        flags-mark_not_found p names (miss_one name s)
        ∙ ap (if_named p missed names) (flags-miss_one p name s) in
      elim (Bool-cases (contains name s.not_found)) [
        | inl there ↦ rw there rest
        | inr missing ↦ rw missing rest
      ]

  flags-mark_disconnected :
      (p name : Name) (s : Reconciler)
      → flags_of p (mark_disconnected {SocketAddr = SocketAddr} name s).1
        ≡ (if same name p then lost (flags_of p s) else flags_of p s)
  unfolding mark_disconnected flags_of lost
  flags-mark_disconnected p name s = elim (Bool-cases (contains name s.resolved)) [
    | inl there ↦
        rw (there, contains-remove name p s.resolved, contains-add name p s.pending)
          (elim (Bool-cases (same name p)) [
            | inl e ↦
                let here : contains p s.resolved ≡ true =
                  sym (contains-same p name s.resolved e) ∙ there in
                rw (e, here) refl
            | inr e ↦ rw e refl
          ])
    | inr missing ↦ rw missing (elim (Bool-cases (same name p)) [
      | inl e ↦
          let here : contains p s.resolved ≡ false =
            sym (contains-same p name s.resolved e) ∙ missing in
          rw (e, here) refl
      | inr e ↦ rw e refl
    ])
  ]

-- the calls of a reconciler
pub data Event (SocketAddr : Type 0) : Type 0 where
  reconciled : List PvChange → Event SocketAddr
  all_found : List Name → SocketAddr → Event SocketAddr
  all_missed : List Name → Event SocketAddr
  one_lost : Name → Event SocketAddr

module _ {SocketAddr : Type 0} where
  unfoldable pub handle : Event SocketAddr → Reconciler → Reconciler
  handle (reconciled changes) s = (reconcile {SocketAddr = SocketAddr} changes s).1
  handle (all_found names addr) s = (mark_resolved names addr s).1
  handle (all_missed names) s = (mark_not_found {SocketAddr = SocketAddr} names s).1
  handle (one_lost name) s = (mark_disconnected {SocketAddr = SocketAddr} name s).1

  unfoldable pub handle_all : List (Event SocketAddr) → Reconciler → Reconciler
  handle_all [] s = s
  handle_all (e ∷ es) s = handle_all es (handle e s)

  -- The abstract machine of one name.
  unfoldable pub event_flags : Name → Event SocketAddr → Flags → Flags
  event_flags p (reconciled changes) v = changes_flags p changes v
  event_flags p (all_found names addr) v = if_named p (λ w. found) names v
  event_flags p (all_missed names) v = if_named p missed names v
  event_flags p (one_lost name) v = if same name p then lost v else v

  unfoldable pub events_flags : Name → List (Event SocketAddr) → Flags → Flags
  events_flags p [] v = v
  events_flags p (e ∷ es) v = events_flags p es (event_flags p e v)

  pub flags-mark_resolved :
      (p : Name) (names : List Name) (addr : SocketAddr) (s : Reconciler)
      → flags_of p (mark_resolved names addr s).1 ≡ if_named p (λ w. found) names (flags_of p s)
  unfolding mark_resolved if_named
  flags-mark_resolved p [] addr s = refl
  flags-mark_resolved p (name ∷ names) addr s =
      let rest : flags_of p (mark_resolved names addr (resolve_one name s)).1
          ≡ if_named p (λ w. found) names (if same name p then found else flags_of p s) =
        flags-mark_resolved p names addr (resolve_one name s)
        ∙ ap (if_named p (λ w. found) names) (flags-resolve_one p name s) in
      elim (Bool-cases (contains name s.resolved)) [
        | inl there ↦ rw there rest
        | inr missing ↦ rw missing rest
      ]

  flags-handle :
      (p : Name) (e : Event SocketAddr) (s : Reconciler)
      → flags_of p (handle e s) ≡ event_flags p e (flags_of p s)
  unfolding handle event_flags
  flags-handle p (reconciled changes) s = flags-reconcile SocketAddr p changes s
  flags-handle p (all_found names addr) s = flags-mark_resolved p names addr s
  flags-handle p (all_missed names) s = flags-mark_not_found SocketAddr p names s
  flags-handle p (one_lost name) s = flags-mark_disconnected SocketAddr p name s

  -- The reconciler implements, for every name, a machine of three flags that sees only what concerns
  -- that name: after any sequence of reconciliations and of names found, not found and disconnected,
  -- whether the name is resolved, pending or not found is what the machine computes from what it was
  -- before.
  pub handle_all-refines :
      (p : Name) (es : List (Event SocketAddr)) (s : Reconciler)
      → flags_of p (handle_all es s) ≡ events_flags p es (flags_of p s)
  unfolding handle_all events_flags
  handle_all-refines p [] s = refl
  handle_all-refines p (e ∷ es) s =
      handle_all-refines p es (handle e s) ∙ ap (events_flags p es) (flags-handle p e s)
