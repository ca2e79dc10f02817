-- ===== src/Discover/Orchestrator/Tracked.antt =====
-- Every configured name is on its way: resolved, or waiting for it.
use aura_epics.Prelude.{
  List, [], ◌∷◌, Bool, true, false, ◌||◌, ◌≡◌, refl, ap, sym, ◌∙◌, inl, inr, Bool-cases,
  if◌then◌else◌,
}
use aura_epics.Prelude.Names.{Name, same, contains}
use aura_epics.Discover.ConfigPoller.{
  PvChange, added, removed, modified, has, apply_change, apply_changes,
}
use aura_epics.Discover.ConfigPoller.Diff.{Configs, has-put, has-discard}
use aura_epics.Discover.Reconciler.{
  Action, resolve, subscribe, unsubscribe, update_filter, alert, reconcile,
}
use aura_epics.Discover.Reconciler.PerName.{
  Flags, flags_of, awaited, found, modified_one, change_flags, changes_flags, if_named,
  flags-reconcile, flags-mark_resolved,
}
use aura_epics.Discover.Orchestrator.{
  Orchestrator, CycleResult, resolve_batch, perform, perform_all, retry_pending, reconcile_with,
}

abbrev pub wanted : Flags → Bool
wanted v = v.is_resolved || v.is_pending

or_true : (b : Bool) → (b || true) ≡ true
or_true true = refl
or_true false = refl

wanted-modified : (v : Flags) → wanted (modified_one v) ≡ true
unfolding modified_one awaited
wanted-modified v = elim (Bool-cases v.is_resolved) [ inl e ↦ rw e refl | inr e ↦ rw e refl ]

-- A change keeps a name on its way, if it stays known.
module _ (p : Name) where
  wanted-change :
      (c : PvChange) (known : Configs) (v : Flags)
      → (has p known ≡ true → wanted v ≡ true)
      → has p (apply_change c known) ≡ true
      → wanted (change_flags p c v) ≡ true
  unfolding apply_change change_flags awaited
  wanted-change (added cfg) known v h k = elim (Bool-cases (same cfg.pv_name p)) [
    | inl e ↦ rw e (or_true v.is_resolved)
    | inr e ↦
        let before : has p known ≡ true = (rw e refl) ∙ sym (has-put cfg.pv_name p cfg known) ∙ k in
        rw e (h before)
  ]
  wanted-change (removed name) known v h k = elim (Bool-cases (same name p)) [
    | inl e ↦
        absurd
          (let gone : false ≡ true = (rw e refl) ∙ sym (has-discard name p known) ∙ k in cc gone)
    | inr e ↦
        let before : has p known ≡ true = (rw e refl) ∙ sym (has-discard name p known) ∙ k in
        rw e (h before)
  ]
  wanted-change (modified cfg) known v h k = elim (Bool-cases (same cfg.pv_name p)) [
    | inl e ↦ rw e (wanted-modified v)
    | inr e ↦
        let before : has p known ≡ true = (rw e refl) ∙ sym (has-put cfg.pv_name p cfg known) ∙ k in
        rw e (h before)
  ]

  pub wanted-changes :
      (cs : List PvChange) (known : Configs) (v : Flags)
      → (has p known ≡ true → wanted v ≡ true)
      → has p (apply_changes cs known) ≡ true
      → wanted (changes_flags p cs v) ≡ true
  unfolding apply_changes changes_flags
  wanted-changes [] known v h k = h k
  wanted-changes (c ∷ cs) known v h k =
      wanted-changes cs (apply_change c known) (change_flags p c v) (wanted-change c known v h) k

  wanted-if_found :
      (b : Bool) (v : Flags) → wanted v ≡ true → wanted (if b then found else v) ≡ true
  unfolding found
  wanted-if_found true v h = refl
  wanted-if_found false v h = h

  wanted-found :
      (names : List Name) (v : Flags)
      → wanted v ≡ true
      → wanted (if_named p (λ w. found) names v) ≡ true
  unfolding if_named
  wanted-found [] v h = h
  wanted-found (name ∷ names) v h = wanted-found names _ (wanted-if_found (same name p) v h)

  resolved-if_found :
      (b : Bool) (v : Flags) → v.is_resolved ≡ true → (if b then found else v).is_resolved ≡ true
  unfolding found
  resolved-if_found true v h = refl
  resolved-if_found false v h = h

  -- A name that was found stays resolved, and so does one that is resolved already.
  found-stays :
      (names : List Name) (v : Flags)
      → v.is_resolved ≡ true
      → (if_named p (λ w. found) names v).is_resolved ≡ true
  unfolding if_named found
  found-stays [] v h = h
  found-stays (name ∷ names) v h = found-stays names _ (resolved-if_found (same name p) v h)

  found-among :
      (names : List Name) (v : Flags)
      → contains p names ≡ true
      → (if_named p (λ w. found) names v).is_resolved ≡ true
  unfolding if_named contains found
  found-among [] v h = cc h
  found-among (name ∷ names) v h = elim (Bool-cases (same name p)) [
    | inl e ↦ found-stays names _ (ap (λ b. (if b then found else v).is_resolved) e)
    | inr e ↦
        let later : (same name p || contains p names) ≡ true = h in
        found-among names _ (rw e at later)
  ]

module _ {SocketAddr : Type 0} (default_addr : SocketAddr) (to_string : SocketAddr → Name)
    (p : Name) where
  flags-resolve_batch :
      (names : List Name) (o : Orchestrator SocketAddr)
      → flags_of p (resolve_batch default_addr to_string names o).1.reconciler
        ≡ if_named p (λ w. found) names (flags_of p o.reconciler)
  unfolding resolve_batch if_named
  flags-resolve_batch [] o = refl
  flags-resolve_batch (name ∷ names) o = flags-mark_resolved p (name ∷ names) _ o.reconciler

  pub wanted-resolve_batch :
      (names : List Name) (o : Orchestrator SocketAddr)
      → wanted (flags_of p o.reconciler) ≡ true
      → wanted (flags_of p (resolve_batch default_addr to_string names o).1.reconciler) ≡ true
  wanted-resolve_batch names o h =
      ap wanted (flags-resolve_batch names o) ∙ wanted-found p names (flags_of p o.reconciler) h

  wanted-perform :
      (a : Action SocketAddr) (result : CycleResult) (o : Orchestrator SocketAddr)
      → wanted (flags_of p o.reconciler) ≡ true
      → wanted (flags_of p (perform default_addr to_string a (result, o)).1.reconciler) ≡ true
  unfolding perform
  wanted-perform (resolve names) result o h = wanted-resolve_batch names o h
  wanted-perform (subscribe entries) result o h = h
  wanted-perform (unsubscribe names) result o h = h
  wanted-perform (update_filter names) result o h = h
  wanted-perform (alert a) result o h = h

  wanted-perform_all :
      (actions : List (Action SocketAddr)) (result : CycleResult) (o : Orchestrator SocketAddr)
      → wanted (flags_of p o.reconciler) ≡ true
      → wanted (flags_of p (perform_all default_addr to_string actions (result, o)).1.reconciler)
        ≡ true
  unfolding perform_all
  wanted-perform_all [] result o h = h
  wanted-perform_all (a ∷ actions) result o h =
      let next = perform default_addr to_string a (result, o) in
      wanted-perform_all actions next.0 next.1 (wanted-perform a result o h)

  retry-resolves :
      (result : CycleResult) (o : Orchestrator SocketAddr)
      → wanted (flags_of p o.reconciler) ≡ true
      → (flags_of p (retry_pending default_addr to_string (result, o)).1.reconciler).is_resolved
        ≡ true
  unfolding retry_pending flags_of
  retry-resolves result o h =
      ap (λ v. v.is_resolved) (flags-resolve_batch o.reconciler.pending o)
      ∙ elim (Bool-cases (contains p o.reconciler.resolved)) [
        | inl there ↦ found-stays p o.reconciler.pending (flags_of p o.reconciler) there
        | inr missing ↦ found-among p o.reconciler.pending (flags_of p o.reconciler) (
            let either : (contains p o.reconciler.resolved || contains p o.reconciler.pending)
                ≡ true =
              h in
            rw missing at either)
      ]

  -- What waits behind the changes is resolved before the reconciliation ends.
  pub reconcile_with-resolves :
      (changes : List PvChange) (o : Orchestrator SocketAddr)
      → wanted (changes_flags p changes (flags_of p o.reconciler)) ≡ true
      → (flags_of p (reconcile_with default_addr to_string changes o).1.reconciler).is_resolved
        ≡ true
  unfolding reconcile_with
  reconcile_with-resolves changes o h =
      let waiting : wanted (flags_of p (reconcile {SocketAddr = SocketAddr} changes o.reconciler).1)
          ≡ true =
        ap wanted (flags-reconcile SocketAddr p changes o.reconciler) ∙ h in
      retry-resolves _ _ (wanted-perform_all _ _ _ waiting)
