-- ===== src/Discover/ConfigPoller/Diff.antt =====
-- What the poller knows after a comparison.
use aura_epics.Prelude.{
  List, [], ◌∷◌, ◌++◌, Bool, true, false, not, ◌&&◌, ◌||◌, Option, none, some, ◌≡◌, refl, ap, sym,
  ◌∙◌, inl, inr, Bool-cases, if◌then◌else◌,
}
use aura_epics.Prelude.Names.{
  Name, same, same→eq, contains, find, put, discard, keys, find-put, find-discard,
}
use aura_epics.Discover.ConfigPoller.{
  PvConfig, PvChange, removed, modified, ConfigPoller, config_changed, collect_enabled, has,
  added_change, added_changes, removed_changes, modified_change, modified_changes, apply_change,
  apply_changes, changes_between, diff, is_some,
}

abbrev pub Configs : Type 0
Configs = List (Name × PvConfig)

-- a map that files every configuration under its own name
abbrev pub Keyed : Configs → Type 0
Keyed m = (q : Name) (c : PvConfig) → find q m ≡ some c → same c.pv_name q ≡ true

-- whether an enabled configuration has the name
unfoldable pub listed : Name → List PvConfig → Bool
listed p [] = false
listed p (c ∷ cs) = (c.enabled && same c.pv_name p) || listed p cs

is_some-put :
    (b : Bool) (c : PvConfig) (o : Option PvConfig)
    → is_some (if b then some c else o) ≡ (b || is_some o)
is_some-put true c o = refl
is_some-put false c o = refl

is_some-discard :
    (b : Bool) (o : Option PvConfig) → is_some (if b then none else o) ≡ (not b && is_some o)
is_some-discard true o = refl
is_some-discard false o = refl

pub has-put : (p q : Name) (c : PvConfig) (m : Configs) → has q (put p c m) ≡ (same p q || has q m)
has-put p q c m = ap is_some (find-put p q c m) ∙ is_some-put (same p q) c (find q m)

pub has-discard : (p q : Name) (m : Configs) → has q (discard p m) ≡ (not (same p q) && has q m)
has-discard p q m = ap is_some (find-discard p q m) ∙ is_some-discard (same p q) (find q m)

Keyed-put : (c : PvConfig) (m : Configs) → Keyed m → Keyed (put c.pv_name c m)
Keyed-put c m h q d e =
    let found : (if same c.pv_name q then some c else find q m) ≡ some d =
      sym (find-put c.pv_name q c m) ∙ e in
    elim (Bool-cases (same c.pv_name q)) [
      | inl here ↦
          let this : some c ≡ some d = (rw here at found) in
          let same_config : c ≡ d = cc this in ap (λ x. same x.pv_name q) (sym same_config) ∙ here
      | inr other ↦ h q d (rw other at found)
    ]

Keyed-collect : (cs : List PvConfig) (m : Configs) → Keyed m → Keyed (collect_enabled cs m)
unfolding collect_enabled
Keyed-collect [] m h = h
Keyed-collect (c ∷ cs) m h =
    elim (c.enabled) as (λ b. Keyed (collect_enabled cs (if b then put c.pv_name c m else m))) [
      | true ↦ Keyed-collect cs (put c.pv_name c m) (Keyed-put c m h)
      | false ↦ Keyed-collect cs m h
    ]

or_assoc : (a b c : Bool) → ((a || b) || c) ≡ (b || (a || c))
or_assoc true true c = refl
or_assoc true false c = refl
or_assoc false b c = refl

or_false : (a : Bool) → (a || false) ≡ a
or_false true = refl
or_false false = refl

has-collect :
    (p : Name) (cs : List PvConfig) (m : Configs)
    → has p (collect_enabled cs m) ≡ (listed p cs || has p m)
unfolding collect_enabled listed
has-collect p [] m = refl
has-collect p (c ∷ cs) m =
    elim (c.enabled)
      as (λ b.
        has p (collect_enabled cs (if b then put c.pv_name c m else m))
        ≡ (((b && same c.pv_name p) || listed p cs) || has p m)) [
          | true ↦
              has-collect p cs (put c.pv_name c m)
              ∙ ap (λ x. listed p cs || x) (has-put c.pv_name p c m)
              ∙ sym (or_assoc (same c.pv_name p) (listed p cs) (has p m))
          | false ↦ has-collect p cs m
        ]

-- The map that diff builds of a fresh reading.
pub has-fresh : (p : Name) (cs : List PvConfig) → has p (collect_enabled cs []) ≡ listed p cs
unfolding find
has-fresh p cs = has-collect p cs [] ∙ or_false (listed p cs)

contains-keys : (p : Name) (m : Configs) → contains p (keys m) ≡ has p m
unfolding contains keys find
contains-keys p [] = refl
contains-keys p ((q, c) ∷ m) =
    ap (λ b. same q p || b) (contains-keys p m) ∙ sym (is_some-put (same q p) c (find p m))

pub apply_changes-append :
    (as_before later : List PvChange) (m : Configs)
    → apply_changes (as_before ++ later) m ≡ apply_changes later (apply_changes as_before m)
unfolding apply_changes
apply_changes-append [] later m = refl
apply_changes-append (c ∷ cs) later m = apply_changes-append cs later (apply_change c m)

no_entry : (q : Name) (c : PvConfig) → find q [] ≡ some c → same c.pv_name q ≡ true
unfolding find
no_entry q c e = cc e

and_true : (a : Bool) → (a && true) ≡ a
and_true true = refl
and_true false = refl

and_false : (a : Bool) → (a && false) ≡ false
and_false true = refl
and_false false = refl

-- A change that concerns the name, before the others do.
or_once : (c x h : Bool) → ((c && x) || (x || h)) ≡ (x || h)
or_once true true h = refl
or_once true false h = refl
or_once false x h = refl

and_twice : (h c x : Bool) → ((not x && h) && not (c && x)) ≡ (h && not x)
and_twice true c true = refl
and_twice true true false = refl
and_twice true false false = refl
and_twice false c true = refl
and_twice false c false = refl

module _ (p : Name) (known fresh : Configs) (keyed : Keyed fresh) where
  has-added_change :
      (name : Name) (m : Configs) (was : Bool) (now : Option PvConfig)
      → find name fresh ≡ now
      → has p (apply_changes (added_change was now) m)
        ≡ ((same name p && (not was && is_some now)) || has p m)
  unfolding apply_changes apply_change
  has-added_change name m true now e = sym (ap (λ b. b || has p m) (and_false (same name p)))
  has-added_change name m false none e = sym (ap (λ b. b || has p m) (and_false (same name p)))
  has-added_change name m false (some c) e =
      let own_name : c.pv_name ≡ name = same→eq c.pv_name name (keyed name c e) in
      has-put c.pv_name p c m
      ∙ ap (λ x. same x p || has p m) own_name
      ∙ ap (λ b. b || has p m) (sym (and_true (same name p)))

  -- The names that are added are those of the fresh map that were not known.
  has-added :
      (names : List Name) (m : Configs)
      → has p (apply_changes (added_changes names known fresh) m)
        ≡ ((contains p names && (not (has p known) && has p fresh)) || has p m)
  unfolding added_changes apply_changes contains
  has-added [] m = refl
  has-added (name ∷ names) m =
      let first = added_change (has name known) (find name fresh) in
      ap (has p) (apply_changes-append first (added_changes names known fresh) m)
      ∙ has-added names (apply_changes first m)
      ∙ ap (λ b. (contains p names && (not (has p known) && has p fresh)) || b)
          (has-added_change name m (has name known) (find name fresh) refl)
      ∙ elim (Bool-cases (same name p)) [
        | inl e ↦
            let here : name ≡ p = same→eq name p e in
            rw (e, here) (or_once (contains p names) (not (has p known) && has p fresh) (has p m))
        | inr e ↦ rw e refl
      ]

  has-removed :
      (names : List Name) (m : Configs)
      → has p (apply_changes (removed_changes names fresh) m)
        ≡ (has p m && not (contains p names && not (has p fresh)))
  unfolding removed_changes apply_changes apply_change contains
  has-removed [] m = sym (and_true (has p m))
  has-removed (name ∷ names) m = elim (Bool-cases (has name fresh)) [
    | inl stays ↦
        ap
          (λ b. has p (
            apply_changes
              (if b
                then removed_changes names fresh
                else removed name ∷ removed_changes names fresh)
              m))
          stays
        ∙ has-removed names m
        ∙ elim (Bool-cases (same name p)) [
          | inl e ↦
              let here : has p fresh ≡ true =
                ap (λ x. has x fresh) (sym (same→eq name p e)) ∙ stays in
              rw (e, here, and_false (contains p names)) refl
          | inr e ↦ rw e refl
        ]
    | inr gone ↦
        ap
          (λ b. has p (
            apply_changes
              (if b
                then removed_changes names fresh
                else removed name ∷ removed_changes names fresh)
              m))
          gone
        ∙ has-removed names (discard name m)
        ∙ ap (λ b. b && not (contains p names && not (has p fresh))) (has-discard name p m)
        ∙ elim (Bool-cases (same name p)) [
          | inl e ↦
              let here : has p fresh ≡ false =
                ap (λ x. has x fresh) (sym (same→eq name p e)) ∙ gone in
              rw (e, here, and_false (has p m)) refl
          | inr e ↦ rw e refl
        ]
  ]

  has-modified_change :
      (name : Name) (m : Configs) (old now : Option PvConfig)
      → find name fresh ≡ now
      → has p m ≡ has p fresh
      → has p (apply_changes (modified_change old now) m) ≡ has p fresh
  unfolding apply_changes apply_change
  has-modified_change name m none now e h = h
  has-modified_change name m (some old) none e h = h
  has-modified_change name m (some old) (some c) e h =
      elim (config_changed old c)
        as (λ b. has p (apply_changes (if b then modified c ∷ [] else []) m) ≡ has p fresh) [
          | true ↦ has-put c.pv_name p c m ∙ elim (Bool-cases (same c.pv_name p)) [
            | inl here ↦
                let own_name : c.pv_name ≡ name = same→eq c.pv_name name (keyed name c e) in
                let this : name ≡ p = sym own_name ∙ same→eq c.pv_name p here in
                let there : has p fresh ≡ true = ap (λ x. has x fresh) (sym this) ∙ ap is_some e in
                rw (here, there) refl
            | inr other ↦ rw other h
          ]
          | false ↦ h
        ]

  has-modified :
      (names : List Name) (m : Configs)
      → has p m ≡ has p fresh
      → has p (apply_changes (modified_changes names known fresh) m) ≡ has p fresh
  unfolding modified_changes apply_changes
  has-modified [] m h = h
  has-modified (name ∷ names) m h =
      let first = modified_change (find name known) (find name fresh) in
      ap (has p) (apply_changes-append first (modified_changes names known fresh) m)
      ∙ has-modified names (apply_changes first m)
          (has-modified_change name m (find name known) (find name fresh) refl h)

known_after : (k f : Bool) → (((f && (not k && f)) || k) && not (k && not f)) ≡ f
known_after true true = refl
known_after true false = refl
known_after false true = refl
known_after false false = refl

-- After a comparison the poller knows exactly the names that an enabled configuration of the fresh
-- reading has.
pub diff-known :
    (p : Name) (fresh : List PvConfig) (poller : ConfigPoller)
    → has p (diff fresh poller).1.known ≡ listed p fresh
unfolding diff changes_between
diff-known p fresh poller =
    let known = poller.known in
    let now = collect_enabled fresh [] in
    let keyed : Keyed now = Keyed-collect fresh [] (λ q c e. no_entry q c e) in
    let after_added = apply_changes (added_changes (keys now) known now) known in
    let after_removed = apply_changes (removed_changes (keys known) now) after_added in
    let added_names : has p after_added
        ≡ ((has p now && (not (has p known) && has p now)) || has p known) =
      has-added p known now keyed (keys now) known
      ∙ ap (λ b. (b && (not (has p known) && has p now)) || has p known) (contains-keys p now) in
    let removed_names : has p after_removed ≡ has p now =
      has-removed p known now keyed (keys known) after_added
      ∙ rw (added_names, contains-keys p known) (known_after (has p known) (has p now)) in
    let last_changes = modified_changes (keys known) known now in
    ap (has p) (
      apply_changes-append (added_changes (keys now) known now ++ removed_changes (keys known) now)
        last_changes known)
    ∙ ap (λ m. has p (apply_changes last_changes m))
        (apply_changes-append (added_changes (keys now) known now)
          (removed_changes (keys known) now) known)
    ∙ has-modified p known now keyed (keys known) after_removed removed_names
    ∙ has-fresh p fresh
