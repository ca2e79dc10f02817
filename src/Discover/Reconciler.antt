-- ===== src/Discover/Reconciler.antt =====
-- crates/aura-discover/src/reconciler.rs: the state of each process variable's resolution. The
-- address of an IOC is a `SocketAddr` of the standard library, a parameter here. `AlertLevel` is of
-- crates/aura-core/src/alert.rs; an alert's text stands as what it reports.
pub mod PerName
pub mod Once
use aura_epics.Prelude.{
  ℕ, ◌+◌, ◌%◌, ◌^◌, List, [], ◌∷◌, ◌++◌, Bool, true, false, Option, none, some, length,
  if◌then◌else◌,
}
use aura_epics.Prelude.Names.{Name, contains, add, remove}
use aura_epics.Discover.ConfigPoller.{PvConfig, PvChange, added, removed, modified}

pub data AlertLevel : Type 0 where
  info warning critical : AlertLevel

pub data AlertMessage : Type 0 where
  not_found_on_network : AlertMessage
  ioc_disconnected : AlertMessage

pub record Alert : Type 0 where
  pub level : AlertLevel
  pub message : AlertMessage
  pub pv_name : Option Name

pub data Action (SocketAddr : Type 0) : Type 0 where
  resolve : List Name → Action SocketAddr
  subscribe : List (Name × Option SocketAddr) → Action SocketAddr
  unsubscribe : List Name → Action SocketAddr
  update_filter : List Name → Action SocketAddr
  alert : Alert → Action SocketAddr

pub record Reconciler : Type 0 where
  pub resolved : List Name
  pub pending : List Name
  pub not_found : List Name
  pub total_reconciliations : ℕ
  pub total_actions : ℕ

unfoldable pub new : Reconciler
new = record {
  resolved = [];
  pending = [];
  not_found = [];
  total_reconciliations = 0;
  total_actions = 0;
}

abbrev pub count_u64 : ℕ → ℕ → ℕ
count_u64 total n = (total + n) % 2 ^ 64

-- the reconciler and the three vectors inside the loop over the changes
pub record Pass : Type 0 where
  pub state : Reconciler
  pub to_resolve : List Name
  pub to_unsubscribe : List Name
  pub to_update_filter : List Name

unfoldable pub wait_for : Name → Pass → Pass
wait_for name p = record p {
  state = record (p.state) { pending = add name p.state.pending };
  to_resolve = p.to_resolve ++ (name ∷ []);
}

unfoldable pub forget : Name → Reconciler → Reconciler
forget name s = record s {
  resolved = remove name s.resolved;
  pending = remove name s.pending;
  not_found = remove name s.not_found;
}

unfoldable pub reconcile_change : PvChange → Pass → Pass
reconcile_change (added cfg) p = wait_for cfg.pv_name p
reconcile_change (removed name) p = record p {
  state = forget name p.state;
  to_unsubscribe = p.to_unsubscribe ++ (name ∷ []);
}
reconcile_change (modified cfg) p =
    if contains cfg.pv_name p.state.resolved
    then record p { to_update_filter = p.to_update_filter ++ (cfg.pv_name ∷ []) }
    else wait_for cfg.pv_name p

unfoldable pub reconcile_changes : List PvChange → Pass → Pass
reconcile_changes [] p = p
reconcile_changes (c ∷ cs) p = reconcile_changes cs (reconcile_change c p)

-- one turn of the loop of `mark_resolved`
unfoldable pub resolve_one : Name → Reconciler → Reconciler
resolve_one name s = record s {
  resolved = add name s.resolved;
  pending = remove name s.pending;
  not_found = remove name s.not_found;
}

unfoldable pub miss_one : Name → Reconciler → Reconciler
miss_one name s = record s { pending = remove name s.pending; not_found = add name s.not_found }

module _ {SocketAddr : Type 0} where
  -- `if !names.is_empty() { actions.push(...) }`
  unfoldable pub action_on : (List Name → Action SocketAddr) → List Name → List (Action SocketAddr)
  action_on make [] = []
  action_on make (name ∷ names) = make (name ∷ names) ∷ []

  unfoldable pub actions_of : Pass → List (Action SocketAddr)
  actions_of p =
      action_on resolve p.to_resolve
      ++ action_on unsubscribe p.to_unsubscribe
      ++ action_on update_filter p.to_update_filter

  unfoldable pub reconcile : List PvChange → Reconciler → List (Action SocketAddr) × Reconciler
  reconcile [] s = ([], record s { total_reconciliations = count_u64 s.total_reconciliations 1 })
  reconcile (c ∷ cs) s =
      let pass = reconcile_changes (c ∷ cs) (record {
        state = record s { total_reconciliations = count_u64 s.total_reconciliations 1 };
        to_resolve = [];
        to_unsubscribe = [];
        to_update_filter = [];
      }) in
      (
        actions_of pass,
        record (pass.state) {
          total_actions = count_u64 pass.state.total_actions (length (actions_of pass));
        },
      )

  unfoldable pub mark_resolved :
      List Name → SocketAddr → Reconciler → List (Name × Option SocketAddr) × Reconciler
  mark_resolved [] ioc_addr s = ([], s)
  mark_resolved (name ∷ names) ioc_addr s =
      let (rest, s') = mark_resolved names ioc_addr (resolve_one name s) in
      if contains name s.resolved then (rest, s') else ((name, some ioc_addr) ∷ rest, s')

  abbrev pub warning_of : AlertMessage → Name → Action SocketAddr
  warning_of message name =
      alert (record { level = warning; message = message; pv_name = some name })

  unfoldable pub mark_not_found : List Name → Reconciler → List (Action SocketAddr) × Reconciler
  mark_not_found [] s = ([], s)
  mark_not_found (name ∷ names) s =
      let (rest, s') = mark_not_found names (miss_one name s) in
      if contains name s.not_found
      then (rest, s')
      else (warning_of not_found_on_network name ∷ rest, s')

  unfoldable pub mark_disconnected : Name → Reconciler → Option (Action SocketAddr) × Reconciler
  mark_disconnected name s =
      if contains name s.resolved
      then (
        some (warning_of ioc_disconnected name),
        record s { resolved = remove name s.resolved; pending = add name s.pending },
      )
      else (none, s)

unfoldable pub resolved_count : Reconciler → ℕ
resolved_count s = length s.resolved

unfoldable pub pending_count : Reconciler → ℕ
pending_count s = length s.pending

unfoldable pub is_resolved : Name → Reconciler → Bool
is_resolved name s = contains name s.resolved

unfoldable pub is_pending : Name → Reconciler → Bool
is_pending name s = contains name s.pending

unfoldable pub is_not_found : Name → Reconciler → Bool
is_not_found name s = contains name s.not_found
