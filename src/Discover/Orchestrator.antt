-- ===== src/Discover/Orchestrator.antt =====
-- crates/aura-discover/src/orchestrator.rs, and the commands of command_publisher.rs. The answers of
-- the database, the time, and the printing of addresses come from outside: they are arguments, as is
-- the address that stands in where no name server is configured. Publishing to Redis, the text of
-- the commands and the update of `expected_ioc` in the database, whose result is dropped, are not
-- modelled.
pub mod Tracked
pub mod Cycle
pub mod Run
mod Tests
use aura_epics.Prelude.{
  ℕ, ◌+◌, ◌%◌, ◌^◌, List, [], ◌∷◌, ◌++◌, map, Bool, true, false, ◌&&◌, Option, none, some, Result,
  ok, err, Exec, length, ◌==◌, if◌then◌else◌,
}
use aura_epics.Prelude.Names.{Name}
use aura_epics.Discover.ConfigPoller.{PvConfig, PvChange, added, ConfigPoller, load_initial, diff}
use aura_epics.Discover.Reconciler.{
  Action, resolve, subscribe, unsubscribe, update_filter, alert, Reconciler, count_u64, reconcile,
  mark_resolved, pending_count,
}

pub data IngestCommand : Type 0 where
  subscribe_one : Name → Option Name → IngestCommand
  subscribe_batch : List Name → Option Name → IngestCommand
  unsubscribe_one : Name → IngestCommand
  unsubscribe_batch : List Name → IngestCommand
  reload : IngestCommand

-- `CommandBatch`
abbrev pub push : IngestCommand → List IngestCommand → List IngestCommand
push cmd commands = commands ++ (cmd ∷ [])

unfoldable pub push_unsubscribe_batch : List Name → List IngestCommand → List IngestCommand
push_unsubscribe_batch [] commands = commands
push_unsubscribe_batch (pv ∷ pvs) commands = push (unsubscribe_batch (pv ∷ pvs)) commands

pub record Orchestrator (SocketAddr : Type 0) : Type 0 where
  pub poller : ConfigPoller
  pub reconciler : Reconciler
  pub commands : List IngestCommand
  pub name_servers : List SocketAddr
  pub last_poll : ℕ
  pub cycles : ℕ
  pub total_resolved : ℕ
  pub total_alerts : ℕ

pub record CycleResult : Type 0 where
  pub config_changes : ℕ
  pub resolved : ℕ
  pub subscribed : ℕ
  pub unsubscribed : ℕ
  pub filter_updates : ℕ
  pub alerts : ℕ

abbrev pub no_result : CycleResult
no_result = record {
  config_changes = 0;
  resolved = 0;
  subscribed = 0;
  unsubscribed = 0;
  filter_updates = 0;
  alerts = 0;
}

-- `CycleResult::is_empty`
unfoldable pub no_news : CycleResult → Bool
no_news r =
    (r.config_changes == 0)
    && (r.resolved == 0)
    && (r.subscribed == 0)
    && (r.unsubscribed == 0)
    && (r.alerts == 0)

module _ {SocketAddr : Type 0} (default_addr : SocketAddr) (to_string : SocketAddr → Name) where
  abbrev pub first_or : List SocketAddr → SocketAddr
  first_or [] = default_addr
  first_or (a ∷ rest) = a

  abbrev pub first_string : List SocketAddr → Option Name
  first_string [] = none
  first_string (a ∷ rest) = some (to_string a)

  abbrev pub string_of : Option SocketAddr → Option Name
  string_of none = none
  string_of (some a) = some (to_string a)

  abbrev pub names_of : List (Name × Option SocketAddr) → List Name
  names_of l = map (λ p. p.0) l

  -- `if !to_subscribe.is_empty() { self.commands.push(...) }`
  abbrev pub push_subscriptions : List Name → Option Name → List IngestCommand → List IngestCommand
  push_subscriptions [] ioc commands = commands
  push_subscriptions (pv ∷ pvs) ioc commands = push (subscribe_batch (pv ∷ pvs) ioc) commands

  unfoldable pub resolve_batch : List Name → Orchestrator SocketAddr → ℕ × Orchestrator SocketAddr
  resolve_batch [] o = (0, o)
  resolve_batch (name ∷ names) o =
      let (to_subscribe, r) = mark_resolved (name ∷ names) (first_or o.name_servers) o.reconciler in
      (
        length to_subscribe,
        record o {
          reconciler = r;
          commands =
              push_subscriptions (names_of to_subscribe) (first_string o.name_servers) o.commands;
          total_resolved = count_u64 o.total_resolved (length to_subscribe);
        },
      )

  unfoldable pub push_subscribes :
      List (Name × Option SocketAddr) → List IngestCommand → List IngestCommand
  push_subscribes [] commands = commands
  push_subscribes ((pv, ioc) ∷ entries) commands =
      push_subscribes entries (push (subscribe_one pv (string_of ioc)) commands)

  -- a turn of the loop over the actions
  unfoldable pub perform :
      Action SocketAddr
      → CycleResult × Orchestrator SocketAddr
      → CycleResult × Orchestrator SocketAddr
  perform (resolve names) (result, o) =
      let (n, o') = resolve_batch names o in (record result { resolved = result.resolved + n }, o')
  perform (unsubscribe names) (result, o) = (
    record result { unsubscribed = result.unsubscribed + length names },
    record o { commands = push_unsubscribe_batch names o.commands },
  )
  perform (subscribe entries) (result, o) = (
    record result { subscribed = result.subscribed + length entries },
    record o { commands = push_subscribes entries o.commands },
  )
  perform (update_filter names) (result, o) =
      (record result { filter_updates = result.filter_updates + length names }, o)
  perform (alert a) (result, o) = (
    record result { alerts = result.alerts + 1 },
    record o { total_alerts = count_u64 o.total_alerts 1 },
  )

  unfoldable pub perform_all :
      List (Action SocketAddr)
      → CycleResult × Orchestrator SocketAddr
      → CycleResult × Orchestrator SocketAddr
  perform_all [] p = p
  perform_all (a ∷ rest) p = perform_all rest (perform a p)

  -- the names that still wait: `resolve_batch` returns at once where there are none
  unfoldable pub retry_pending :
      CycleResult × Orchestrator SocketAddr → CycleResult × Orchestrator SocketAddr
  retry_pending (result, o) =
      let (n, o') = resolve_batch o.reconciler.pending o in
      (record result { resolved = result.resolved + n }, o')

  -- what follows the reading of the database
  unfoldable pub reconcile_with :
      List PvChange → Orchestrator SocketAddr → CycleResult × Orchestrator SocketAddr
  reconcile_with changes o =
      let (actions, r) = reconcile changes o.reconciler in
      retry_pending (
        perform_all actions
          (record no_result { config_changes = length changes }, record o { reconciler = r }))

  abbrev pub succeed :
      {E : Type 0}
      → CycleResult × Orchestrator SocketAddr
      → Result CycleResult E × Orchestrator SocketAddr
  succeed p = (ok p.0, p.1)

  -- `changed` and `all_enabled` are the database's answers, `now` is the time between them.
  module _ {E : Type 0} (all_enabled : Result (List PvConfig) E) (now : ℕ) where
    abbrev pub with_all :
        Result (List PvConfig) E
        → Orchestrator SocketAddr
        → Result CycleResult E × Orchestrator SocketAddr
    with_all (err e) o = (err e, o)
    with_all (ok configs) o =
        let (changes, p) = diff configs o.poller in
        succeed (reconcile_with changes (record o { poller = p }))

    abbrev pub with_changed :
        List PvConfig → Orchestrator SocketAddr → Result CycleResult E × Orchestrator SocketAddr
    with_changed [] o =
        if pending_count o.reconciler == 0 then (ok no_result, o) else succeed (reconcile_with [] o)
    with_changed (c ∷ cs) o = with_all all_enabled o

    unfoldable pub cycle :
        Result (List PvConfig) E
        → Orchestrator SocketAddr
        → Result CycleResult E × Orchestrator SocketAddr
    cycle (err e) o = (err e, record o { cycles = count_u64 o.cycles 1 })
    cycle (ok fresh) o =
        with_changed fresh (record o { cycles = count_u64 o.cycles 1; last_poll = now })

  -- `startup`, and the loop over its actions in `run`
  unfoldable pub resolve_all :
      List (Action SocketAddr) → Orchestrator SocketAddr → Orchestrator SocketAddr
  resolve_all [] o = o
  resolve_all (resolve names ∷ actions) o = resolve_all actions (resolve_batch names o).1
  resolve_all (subscribe entries ∷ actions) o = resolve_all actions o
  resolve_all (unsubscribe names ∷ actions) o = resolve_all actions o
  resolve_all (update_filter names ∷ actions) o = resolve_all actions o
  resolve_all (alert a ∷ actions) o = resolve_all actions o

  unfoldable pub startup :
      List PvConfig
      → ℕ
      → Orchestrator SocketAddr
      → List (Action SocketAddr) × Orchestrator SocketAddr
  startup all_configs now o =
      let (actions, r) = reconcile (map added all_configs) o.reconciler in
      (
        actions,
        record o {
          poller = (load_initial all_configs o.poller).1;
          reconciler = r;
          last_poll = now;
        },
      )

  -- `flush_commands`: the commands are taken, and published outside
  abbrev pub flush_commands : Orchestrator SocketAddr → Orchestrator SocketAddr
  flush_commands o = record o { commands = [] }

  -- what `run` does with the result of a cycle: an error is logged
  abbrev pub after_cycle :
      {E : Type 0} → Result CycleResult E × Orchestrator SocketAddr → Orchestrator SocketAddr
  after_cycle (ok result, o) = if no_news result then o else flush_commands o
  after_cycle (err e, o) = o

  -- `run`: the startup, the resolution of what it found, and cycles with what the database answers
  -- in each: its changed rows, all enabled configurations, and the time. An error of Redis ends it.
  module _ {E : Type 0} where
    unfoldable pub run_cycles :
        List (Result (List PvConfig) E × (Result (List PvConfig) E × ℕ))
        → Orchestrator SocketAddr
        → Orchestrator SocketAddr
    run_cycles [] o = o
    run_cycles ((changed, (all_enabled, now)) ∷ readings) o =
        run_cycles readings (after_cycle (cycle all_enabled now changed o))

    unfoldable pub run :
        List PvConfig
        → ℕ
        → List (Result (List PvConfig) E × (Result (List PvConfig) E × ℕ))
        → Orchestrator SocketAddr
        → Orchestrator SocketAddr
    run configs now readings o =
        let (actions, started) = startup configs now o in
        run_cycles readings (flush_commands (resolve_all actions started))
