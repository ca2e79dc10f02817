-- ===== src/Discover/Orchestrator/Run.antt =====
-- The startup, and any number of cycles.
use aura_epics.Prelude.{
  ℕ, List, [], ◌∷◌, map, Bool, true, false, ◌&&◌, ◌||◌, ◌≡◌, refl, ap, sym, ◌∙◌, inl, inr,
  Bool-cases, Result, ok, err, if◌then◌else◌, if_intro,
}
use aura_epics.Prelude.Names.{Name, same}
use aura_epics.Discover.ConfigPoller.{PvConfig, added, has, load_initial}
use aura_epics.Discover.ConfigPoller.Diff.{listed, has-fresh}
use aura_epics.Discover.Reconciler.{Action, resolve, subscribe, unsubscribe, update_filter, alert}
use aura_epics.Discover.Reconciler.PerName.{
  Flags, flags_of, awaited, change_flags, changes_flags, flags-reconcile,
}
use aura_epics.Discover.Orchestrator.{
  Orchestrator, CycleResult, no_news, flush_commands, after_cycle, run_cycles, run, resolve_batch,
  resolve_all, startup,
}
use aura_epics.Discover.Orchestrator.Tracked.{wanted, wanted-resolve_batch}
use aura_epics.Discover.Orchestrator.Cycle.{
  Tracked, Tracked-same, poller-resolve_batch, cycle-Tracked,
}

wanted-awaited : (v : Flags) → wanted (awaited v) ≡ true
unfolding awaited
wanted-awaited v = elim (v.is_resolved) as (λ b. (b || true) ≡ true) [ true ↦ refl | false ↦ refl ]

wanted-if_awaited :
    (b : Bool) (v : Flags) → wanted v ≡ true → wanted (if b then awaited v else v) ≡ true
wanted-if_awaited true v h = wanted-awaited v
wanted-if_awaited false v h = h

later_listed : (on here later : Bool) → here ≡ false → ((on && here) || later) ≡ true → later ≡ true
later_listed true true later e h = absurd (cc e)
later_listed true false later e h = h
later_listed false here later e h = h

-- Startup announces every configuration as added.
module _ (p : Name) where
  wanted-stays :
      (configs : List PvConfig) (v : Flags)
      → wanted v ≡ true
      → wanted (changes_flags p (map added configs) v) ≡ true
  unfolding changes_flags change_flags awaited
  wanted-stays [] v h = h
  wanted-stays (c ∷ cs) v h = wanted-stays cs _ (wanted-if_awaited (same c.pv_name p) v h)

  wanted-added :
      (configs : List PvConfig) (v : Flags)
      → listed p configs ≡ true
      → wanted (changes_flags p (map added configs) v) ≡ true
  unfolding changes_flags change_flags listed awaited
  wanted-added [] v h = absurd (cc h)
  wanted-added (c ∷ cs) v h = elim (Bool-cases (same c.pv_name p)) [
    | inl e ↦ wanted-stays cs _ (ap (λ b. wanted (if b then awaited v else v)) e ∙ wanted-awaited v)
    | inr e ↦ wanted-added cs _ (later_listed c.enabled (same c.pv_name p) (listed p cs) e h)
  ]

module _ {SocketAddr : Type 0} (default_addr : SocketAddr) (to_string : SocketAddr → Name) where
  Tracked-resolve_batch :
      (names : List Name) (o : Orchestrator SocketAddr)
      → Tracked o
      → Tracked (resolve_batch default_addr to_string names o).1
  unfolding Tracked
  Tracked-resolve_batch names o h p k = wanted-resolve_batch default_addr to_string p names o (
      h p (ap (λ q. has p q.known) (sym (poller-resolve_batch default_addr to_string names o)) ∙ k))

  Tracked-resolve_all :
      (actions : List (Action SocketAddr)) (o : Orchestrator SocketAddr)
      → Tracked o
      → Tracked (resolve_all default_addr to_string actions o)
  unfolding resolve_all
  Tracked-resolve_all [] o h = h
  Tracked-resolve_all (resolve names ∷ actions) o h =
      Tracked-resolve_all actions (resolve_batch default_addr to_string names o).1
        (Tracked-resolve_batch names o h)
  Tracked-resolve_all (subscribe entries ∷ actions) o h = Tracked-resolve_all actions o h
  Tracked-resolve_all (unsubscribe names ∷ actions) o h = Tracked-resolve_all actions o h
  Tracked-resolve_all (update_filter names ∷ actions) o h = Tracked-resolve_all actions o h
  Tracked-resolve_all (alert a ∷ actions) o h = Tracked-resolve_all actions o h

  Tracked-startup :
      (configs : List PvConfig) (now : ℕ) (o : Orchestrator SocketAddr)
      → Tracked (startup default_addr to_string configs now o).1
  unfolding Tracked startup load_initial
  Tracked-startup configs now o p k =
      ap wanted (flags-reconcile SocketAddr p (map added configs) o.reconciler)
      ∙ wanted-added p configs (flags_of p o.reconciler) (sym (has-fresh p configs) ∙ k)

  module _ {E : Type 0} where
    Tracked-after_cycle :
        (x : Result CycleResult E × Orchestrator SocketAddr)
        → Tracked x.1
        → Tracked (after_cycle default_addr to_string x)
    Tracked-after_cycle (ok result, o) h =
        if_intro Tracked (no_news result) o (flush_commands default_addr to_string o) (λ quiet. h)
          (λ news. Tracked-same o _ refl refl h)
    Tracked-after_cycle (err e, o) h = h

    run_cycles-Tracked :
        (readings : List (Result (List PvConfig) E × (Result (List PvConfig) E × ℕ)))
        (o : Orchestrator SocketAddr)
        → Tracked o
        → Tracked (run_cycles default_addr to_string readings o)
    unfolding run_cycles
    run_cycles-Tracked [] o h = h
    run_cycles-Tracked ((changed, (all_enabled, now)) ∷ readings) o h =
        run_cycles-Tracked readings _
          (Tracked-after_cycle _ (cycle-Tracked default_addr to_string changed all_enabled now o h))

    -- From the startup on, over any cycles and whatever the database answers in them, errors included,
    -- every name that the poller knows is resolved or waits for its resolution: none is forgotten.
    pub run-Tracked :
        (configs : List PvConfig) (now : ℕ)
        (readings : List (Result (List PvConfig) E × (Result (List PvConfig) E × ℕ)))
        (o : Orchestrator SocketAddr)
        → Tracked (run default_addr to_string configs now readings o)
    unfolding run
    run-Tracked configs now readings o = run_cycles-Tracked readings _ (
        Tracked-same
          (resolve_all default_addr to_string (startup default_addr to_string configs now o).0
            (startup default_addr to_string configs now o).1)
          _ refl refl (Tracked-resolve_all _ _ (Tracked-startup configs now o)))
