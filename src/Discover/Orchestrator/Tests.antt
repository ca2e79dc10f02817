-- ===== src/Discover/Orchestrator/Tests.antt =====
-- Runs of the discovery with two configurations.
use aura_epics.Prelude.{ℕ, List, [], ◌∷◌, Bool, true, false, none, ok, err, ◌≡◌, refl}
use aura_epics.Prelude.Names.{Name, same, contains, find}
use aura_epics.Discover.ConfigPoller.{PvConfig, ConfigPoller, has, diff}
use aura_epics.Discover.ConfigPoller.Diff.{listed, diff-known}
use aura_epics.Discover.Reconciler.{new, mark_resolved}
use aura_epics.Discover.Reconciler.PerName.{
  flags_of, Event, reconciled, all_found, all_missed, one_lost, handle_all, events_flags,
  handle_all-refines,
}
use aura_epics.Discover.Reconciler.Once.{subscriptions, mark_resolved-once}
use aura_epics.Discover.Orchestrator.{Orchestrator, CycleResult, cycle, run}
use aura_epics.Discover.Orchestrator.Cycle.{Tracked, cycle_resolves, cycle_error}
use aura_epics.Discover.Orchestrator.Run.{run-Tracked}

abbrev config : Name → Bool → PvConfig
config name enabled = record {
  pv_name = name;
  description = none;
  unit = none;
  heartbeat_s = 0;
  expected_ioc = none;
  enabled = enabled;
  created_at = none;
  updated_at = none;
}

abbrev first : Name
first = 0x41 ∷ []

abbrev second : Name
second = 0x42 ∷ []

abbrev print : ℕ → Name
print a = a ∷ []

abbrev ioc : ℕ
ioc = 7

abbrev failure : ℕ
failure = 5

abbrev idle : Orchestrator ℕ
idle = record {
  poller = record { known = [] };
  reconciler = new;
  commands = [];
  name_servers = 7 ∷ [];
  last_poll = 0;
  cycles = 0;
  total_resolved = 0;
  total_alerts = 0;
}

abbrev both : List PvConfig
both = config first true ∷ config second false ∷ []

abbrev poller : ConfigPoller
poller = record { known = (second, config second true) ∷ [] }

diff-known_example : has second (diff both poller).1.known ≡ listed second both
diff-known_example = diff-known second both poller

abbrev events : List (Event ℕ)
events =
    reconciled (diff both poller).0
    ∷ all_found (first ∷ []) 7
    ∷ one_lost first
    ∷ all_missed (second ∷ [])
    ∷ []

handle_all-refines_example :
    flags_of first (handle_all events new) ≡ events_flags first events (flags_of first new)
handle_all-refines_example = handle_all-refines first events new

mark_resolved-once_example :
    subscriptions first (mark_resolved (first ∷ second ∷ first ∷ []) ioc new).0 ≡ 1
unfolding contains same new
mark_resolved-once_example = mark_resolved-once first ioc (first ∷ second ∷ first ∷ []) new

cycle_error_example :
    ((cycle 0 print (err failure) 1 (ok both) idle).1.poller ≡ idle.poller)
    × (((cycle 0 print (err failure) 1 (ok both) idle).1.reconciler ≡ idle.reconciler)
        × ((cycle 0 print (err failure) 1 (ok both) idle).1.commands ≡ idle.commands))
unfolding cycle
cycle_error_example = cycle_error 0 print (ok both) (err failure) 1 idle failure refl

run-Tracked_example : Tracked (run 0 print both 1 ((ok both, (err failure, 2)) ∷ []) idle)
run-Tracked_example = run-Tracked 0 print both 1 ((ok both, (err failure, 2)) ∷ []) idle

nothing_known : Tracked idle
unfolding Tracked find
nothing_known p h = absurd (cc h)

cycle_resolves_example :
    (result : CycleResult) × ((o' : Orchestrator ℕ) × ((cycle 0 print {E = ℕ}
            (ok both)
            3
            (ok both)
            idle
          ≡ (ok result, o'))
        × (((p : Name) → has p o'.poller.known ≡ listed p both)
            × ((p : Name) → listed p both ≡ true → contains p o'.reconciler.resolved ≡ true))))
cycle_resolves_example =
    cycle_resolves 0 print {E = ℕ} (config first true) (config second false ∷ []) both 3 idle
      nothing_known
