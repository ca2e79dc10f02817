-- ===== src/Discover/Orchestrator/Cycle.antt =====
-- The cycles of the orchestrator, on success and on the database's errors.
use aura_epics.Prelude.{
  ℕ, List, [], ◌∷◌, true, ◌||◌, ◌≡◌, refl, ap, sym, ◌∙◌, inl, inr, Bool-cases, Result, ok, err,
  ◌==◌, if_intro,
}
use aura_epics.Prelude.Names.{Name, contains}
use aura_epics.Discover.ConfigPoller.{
  PvConfig, PvChange, has, diff, changes_between, collect_enabled,
}
use aura_epics.Discover.ConfigPoller.Diff.{listed, diff-known}
use aura_epics.Discover.Reconciler.{
  Action, resolve, subscribe, unsubscribe, update_filter, alert, reconcile, pending_count,
}
use aura_epics.Discover.Reconciler.PerName.{flags_of, changes_flags}
use aura_epics.Discover.Orchestrator.{
  Orchestrator, CycleResult, no_result, resolve_batch, perform, perform_all, retry_pending,
  reconcile_with, succeed, cycle, count_u64,
}
use aura_epics.Discover.Orchestrator.Tracked.{wanted, wanted-changes, reconcile_with-resolves}

-- every name that the poller knows is resolved or waits for it
unfoldable pub Tracked : {SocketAddr : Type 0} → Orchestrator SocketAddr → Type 0
Tracked o = (p : Name) → has p o.poller.known ≡ true → wanted (flags_of p o.reconciler) ≡ true

pub Tracked-same :
    {SocketAddr : Type 0} (o o' : Orchestrator SocketAddr)
    → o'.poller ≡ o.poller
    → o'.reconciler ≡ o.reconciler
    → Tracked o
    → Tracked o'
unfolding Tracked
Tracked-same o o' e r h p k =
    ap (λ x. wanted (flags_of p x)) r ∙ h p (ap (λ x. has p x.known) (sym e) ∙ k)

module _ {SocketAddr : Type 0} (default_addr : SocketAddr) (to_string : SocketAddr → Name) where
  pub poller-resolve_batch :
      (names : List Name) (o : Orchestrator SocketAddr)
      → (resolve_batch default_addr to_string names o).1.poller ≡ o.poller
  unfolding resolve_batch
  poller-resolve_batch [] o = refl
  poller-resolve_batch (name ∷ names) o = refl

  poller-perform :
      (a : Action SocketAddr) (result : CycleResult) (o : Orchestrator SocketAddr)
      → (perform default_addr to_string a (result, o)).1.poller ≡ o.poller
  unfolding perform
  poller-perform (resolve names) result o = poller-resolve_batch names o
  poller-perform (subscribe entries) result o = refl
  poller-perform (unsubscribe names) result o = refl
  poller-perform (update_filter names) result o = refl
  poller-perform (alert a) result o = refl

  poller-perform_all :
      (actions : List (Action SocketAddr)) (result : CycleResult) (o : Orchestrator SocketAddr)
      → (perform_all default_addr to_string actions (result, o)).1.poller ≡ o.poller
  unfolding perform_all
  poller-perform_all [] result o = refl
  poller-perform_all (a ∷ actions) result o =
      let next = perform default_addr to_string a (result, o) in
      poller-perform_all actions next.0 next.1 ∙ poller-perform a result o

  poller-reconcile_with :
      (changes : List PvChange) (o : Orchestrator SocketAddr)
      → (reconcile_with default_addr to_string changes o).1.poller ≡ o.poller
  unfolding reconcile_with retry_pending
  poller-reconcile_with changes o =
      poller-resolve_batch _ _ ∙ poller-perform_all (reconcile changes o.reconciler).0 _ _

  abbrev stamped : Orchestrator SocketAddr → ℕ → Orchestrator SocketAddr
  stamped o now = record o { cycles = count_u64 o.cycles 1; last_poll = now }

  -- What is known after the changes of a comparison is resolved behind them.
  known-resolves :
      (configs : List PvConfig) (o : Orchestrator SocketAddr) (p : Name)
      → Tracked o
      → has p (diff configs o.poller).1.known ≡ true
      → contains p
          (reconcile_with default_addr to_string
            (diff configs o.poller).0
            (record o { poller = (diff configs o.poller).1 })).1.reconciler.resolved
        ≡ true
  unfolding Tracked diff flags_of
  known-resolves configs o p h k =
      reconcile_with-resolves default_addr to_string p _
        (record o { poller = (diff configs o.poller).1 })
        (wanted-changes p (changes_between o.poller.known (collect_enabled configs []))
          o.poller.known (flags_of p o.reconciler) (h p) k)

  -- After a startup or a cycle, for which the database answers with changed rows and with all enabled
  -- configurations: the cycle succeeds, the poller knows exactly the names with an enabled
  -- configuration, and every one of these is resolved when the cycle ends.
  pub cycle_resolves :
      {E : Type 0} (c : PvConfig) (cs configs : List PvConfig) (now : ℕ)
      (o : Orchestrator SocketAddr)
      → Tracked o
      → (result : CycleResult) × ((o' : Orchestrator SocketAddr) × ((cycle default_addr to_string
                {E = E}
                (ok configs)
                now
                (ok (c ∷ cs))
                o
              ≡ (ok result, o'))
            × (((p : Name) → has p o'.poller.known ≡ listed p configs)
                × ((p : Name)
                    → listed p configs ≡ true
                    → contains p o'.reconciler.resolved ≡ true))))
  unfolding cycle Tracked
  cycle_resolves c cs configs now o h =
      let before = record o { cycles = count_u64 o.cycles 1; last_poll = now } in
      let after =
        reconcile_with default_addr to_string (diff configs o.poller).0
          (record before { poller = (diff configs o.poller).1 }) in
      (
        after.0,
        (
          after.1,
          (
            refl,
            (
              λ p.
                  ap (λ q. has p q.known)
                    (poller-reconcile_with (diff configs o.poller).0
                      (record before { poller = (diff configs o.poller).1 }))
                  ∙ diff-known p configs o.poller,
              λ p k. known-resolves configs before p h (diff-known p configs o.poller ∙ k),
            ),
          ),
        ),
      )

  -- A cycle that ends in an error of the database leaves the poller, the reconciler and the waiting
  -- commands as they were.
  pub cycle_error :
      {E : Type 0} (changed all_enabled : Result (List PvConfig) E) (now : ℕ)
      (o : Orchestrator SocketAddr) (e : E)
      → (cycle default_addr to_string all_enabled now changed o).0 ≡ err e
      → ((cycle default_addr to_string all_enabled now changed o).1.poller ≡ o.poller)
        × (((cycle default_addr to_string all_enabled now changed o).1.reconciler ≡ o.reconciler)
            × ((cycle default_addr to_string all_enabled now changed o).1.commands ≡ o.commands))
  unfolding cycle
  cycle_error (err x) all_enabled now o e h = (refl, (refl, refl))
  cycle_error (ok []) all_enabled now o e h = elim (Bool-cases (pending_count o.reconciler == 0)) [
    | inl idle ↦ rw idle (refl, (refl, refl))
    | inr waiting ↦ absurd (cc (rw waiting at h))
  ]
  cycle_error (ok (c ∷ cs)) (err x) now o e h = (refl, (refl, refl))
  cycle_error (ok (c ∷ cs)) (ok configs) now o e h = absurd (cc h)

  Tracked-reconciled :
      (o : Orchestrator SocketAddr)
      → Tracked o
      → Tracked (reconcile_with default_addr to_string [] o).1
  unfolding Tracked changes_flags flags_of
  Tracked-reconciled o h p k =
      let known : has p o.poller.known ≡ true =
        ap (λ q. has p q.known) (sym (poller-reconcile_with [] o)) ∙ k in
      ap (λ b. b || contains p (reconcile_with default_addr to_string [] o).1.reconciler.pending)
        (reconcile_with-resolves default_addr to_string p [] o (h p known))

  Tracked-compared :
      (configs : List PvConfig) (o : Orchestrator SocketAddr)
      → Tracked o
      → Tracked
          (reconcile_with default_addr to_string
            (diff configs o.poller).0
            (record o { poller = (diff configs o.poller).1 })).1
  unfolding Tracked flags_of
  Tracked-compared configs o h p k =
      let known : has p (diff configs o.poller).1.known ≡ true =
        ap (λ q. has p q.known)
          (sym (
            poller-reconcile_with (diff configs o.poller).0
              (record o { poller = (diff configs o.poller).1 })))
        ∙ k in
      ap
        (λ b.
          b
          || contains p
              (reconcile_with default_addr to_string (diff configs o.poller).0
                (record o { poller = (diff configs o.poller).1 })).1.reconciler.pending)
        (known-resolves configs o p h known)

  pub cycle-Tracked :
      {E : Type 0} (changed all_enabled : Result (List PvConfig) E) (now : ℕ)
      (o : Orchestrator SocketAddr)
      → Tracked o
      → Tracked (cycle default_addr to_string all_enabled now changed o).1
  unfolding cycle
  cycle-Tracked (err x) all_enabled now o h = Tracked-same o _ refl refl h
  cycle-Tracked {E} (ok []) all_enabled now o h =
      let kept : Tracked (stamped o now) = Tracked-same o (stamped o now) refl refl h in
      let idle : Result CycleResult E × Orchestrator SocketAddr = (ok no_result, stamped o now) in
      let retried : Result CycleResult E × Orchestrator SocketAddr =
        succeed default_addr to_string (reconcile_with default_addr to_string [] (stamped o now)) in
      if_intro (λ x. Tracked x.1) (pending_count o.reconciler == 0) idle retried (λ none_left. kept)
        (λ waiting. Tracked-reconciled (stamped o now) kept)
  cycle-Tracked (ok (c ∷ cs)) (err x) now o h = Tracked-same o (stamped o now) refl refl h
  cycle-Tracked (ok (c ∷ cs)) (ok configs) now o h =
      Tracked-compared configs (stamped o now) (Tracked-same o (stamped o now) refl refl h)
