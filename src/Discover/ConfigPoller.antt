-- ===== src/Discover/ConfigPoller.antt =====
-- crates/aura-discover/src/config_poller.rs: the changes between two readings of the configuration.
-- `PvConfig` is of crates/aura-core/src/pv.rs. A hash map has no fixed order: the model keeps the
-- order of insertion, which is one that the code may see.
pub mod Diff
use aura_epics.Prelude.{
  ℕ, ◌+◌, ◌%◌, ◌^◌, List, [], ◌∷◌, ◌++◌, Bool, true, false, not, ◌&&◌, ◌||◌, Option, none, some,
  length, ltb, ◌==◌, if◌then◌else◌,
}
use aura_epics.Prelude.Names.{Name, same, find, put, discard, keys}

pub record PvConfig : Type 0 where
  pub pv_name : Name
  pub description : Option Name
  pub unit : Option Name
  pub heartbeat_s : ℕ
  pub expected_ioc : Option Name
  pub enabled : Bool
  pub created_at : Option ℕ
  pub updated_at : Option ℕ

pub data PvChange : Type 0 where
  added : PvConfig → PvChange
  removed : Name → PvChange
  modified : PvConfig → PvChange

pub record ConfigPoller : Type 0 where
  pub known : List (Name × PvConfig)

unfoldable pub new : ConfigPoller
new = record { known = [] }

-- `==` of f64 on the bits: no NaN equals anything, and the two zeros are equal.
abbrev magnitude : ℕ → ℕ
magnitude x = x % 2 ^ 63

abbrev is_nan : ℕ → Bool
is_nan x = ltb 0x7ff0000000000000 (magnitude x)

unfoldable pub f64_eq : ℕ → ℕ → Bool
f64_eq x y =
    not (is_nan x) && not (is_nan y) && ((x == y) || ((magnitude x == 0) && (magnitude y == 0)))

-- `==` of `Option<String>` and of `bool`
unfoldable pub same_option : Option Name → Option Name → Bool
same_option none none = true
same_option none (some b) = false
same_option (some a) none = false
same_option (some a) (some b) = same a b

abbrev pub same_flag : Bool → Bool → Bool
same_flag true b = b
same_flag false b = not b

unfoldable pub config_changed : PvConfig → PvConfig → Bool
config_changed old new_ =
    not (f64_eq old.heartbeat_s new_.heartbeat_s)
    || not (same_flag old.enabled new_.enabled)
    || not (same_option old.expected_ioc new_.expected_ioc)

-- the enabled configurations, put into a map one after the other
unfoldable pub collect_enabled : List PvConfig → List (Name × PvConfig) → List (Name × PvConfig)
collect_enabled [] m = m
collect_enabled (c ∷ cs) m = collect_enabled cs (if c.enabled then put c.pv_name c m else m)

unfoldable pub load_initial : List PvConfig → ConfigPoller → ℕ × ConfigPoller
load_initial configs p = (length configs, record p { known = collect_enabled configs [] })

abbrev pub is_some : Option PvConfig → Bool
is_some none = false
is_some (some c) = true

-- `contains` of the names of a map
abbrev pub has : Name → List (Name × PvConfig) → Bool
has name m = is_some (find name m)

-- the three loops of `diff`, each over the names of a map
abbrev pub added_change : Bool → Option PvConfig → List PvChange
added_change true found = []
added_change false none = []
added_change false (some c) = added c ∷ []

unfoldable pub added_changes :
    List Name → List (Name × PvConfig) → List (Name × PvConfig) → List PvChange
added_changes [] known fresh = []
added_changes (name ∷ names) known fresh =
    added_change (has name known) (find name fresh) ++ added_changes names known fresh

unfoldable pub removed_changes : List Name → List (Name × PvConfig) → List PvChange
removed_changes [] fresh = []
removed_changes (name ∷ names) fresh =
    let rest = removed_changes names fresh in if has name fresh then rest else removed name ∷ rest

abbrev pub modified_change : Option PvConfig → Option PvConfig → List PvChange
modified_change none new_ = []
modified_change (some old) none = []
modified_change (some old) (some new_) = if config_changed old new_ then modified new_ ∷ [] else []

unfoldable pub modified_changes :
    List Name → List (Name × PvConfig) → List (Name × PvConfig) → List PvChange
modified_changes [] known fresh = []
modified_changes (name ∷ names) known fresh =
    modified_change (find name known) (find name fresh) ++ modified_changes names known fresh

-- `self.known` after a change
unfoldable pub apply_change : PvChange → List (Name × PvConfig) → List (Name × PvConfig)
apply_change (added c) known = put c.pv_name c known
apply_change (modified c) known = put c.pv_name c known
apply_change (removed name) known = discard name known

unfoldable pub apply_changes : List PvChange → List (Name × PvConfig) → List (Name × PvConfig)
apply_changes [] known = known
apply_changes (c ∷ cs) known = apply_changes cs (apply_change c known)

unfoldable pub changes_between : List (Name × PvConfig) → List (Name × PvConfig) → List PvChange
changes_between known fresh =
    added_changes (keys fresh) known fresh
    ++ removed_changes (keys known) fresh
    ++ modified_changes (keys known) known fresh

unfoldable pub diff : List PvConfig → ConfigPoller → List PvChange × ConfigPoller
diff fresh p =
    let changes = changes_between p.known (collect_enabled fresh []) in
    (changes, record p { known = apply_changes changes p.known })

unfoldable pub tracked_count : ConfigPoller → ℕ
tracked_count p = length p.known
