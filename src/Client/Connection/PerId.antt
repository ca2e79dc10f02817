-- ===== src/Client/Connection/PerId.antt =====
-- What a run of a connection makes of the channel of one id, whatever the other channels do.
use aura_epics.Prelude.{
  ℕ, ◌+◌, ◌<◌, ◌^◌, ◌≡◌, refl, ap, sym, ◌∙◌, List, [], ◌∷◌, Option, none, some, Bool-cases, inl,
  inr, ◌==◌, ==_iff, if◌then◌else◌, lookup, map_value, arith, false,
}
use aura_epics.Client.Connection.{
  ChannelInfo, ConnectionState, creating, active, closed, with_state, add_channel, next_client_id,
  complete_handshake,
}
use aura_epics.Client.Connection.Laws.{lookup-add, lookup-activate, lookup-close}
use aura_epics.Client.Connection.Steps.{Op, add, activate, close, handshake, draw, adds, step, run}

-- An operation changes the channel of the id that it names, and no other.
abbrev pub step_info : ℕ → Op → ChannelInfo → ChannelInfo
step_info j (add name) info = info
step_info j (activate id sid) info = if id == j then with_state (active sid) info else info
step_info j (close id) info = if id == j then with_state closed info else info
step_info j (handshake order size) info = info
step_info j draw info = info

abbrev pub replay : ℕ → List Op → ChannelInfo → ChannelInfo
replay j [] info = info
replay j (op ∷ ops) info = replay j ops (step_info j op info)

map_value-same :
    (f : ChannelInfo → ChannelInfo) (found : Option ChannelInfo)
    → ((info : ChannelInfo) → f info ≡ info)
    → found ≡ map_value f found
map_value-same f none h = refl
map_value-same f (some info) h = ap some (sym (h info))

map_value-replay :
    (j : ℕ) (op : Op) (ops : List Op) (found : Option ChannelInfo)
    → map_value (replay j ops) (map_value (step_info j op) found)
      ≡ map_value (replay j (op ∷ ops)) found
map_value-replay j op ops none = refl
map_value-replay j op ops (some info) = refl

-- A change of the channel of one id, seen at any id.
one_changed :
    (s : ChannelInfo → ChannelInfo) (id j : ℕ) (before after : List (ℕ × ChannelInfo))
    → lookup id after ≡ map_value s (lookup id before)
    → ((i : ℕ) → (id == i) ≡ false → lookup i after ≡ lookup i before)
    → lookup j after ≡ map_value (λ info. if id == j then s info else info) (lookup j before)
one_changed s id j before after found others = elim (Bool-cases (id == j)) [
  | inl here ↦
      let same_id : id ≡ j = (==_iff id j).0 here in
      ap (λ i. lookup i after) (sym same_id)
      ∙ found
      ∙ ap (λ i. map_value s (lookup i before)) same_id
      ∙ ap (λ b. map_value (λ info. if b then s info else info) (lookup j before)) (sym here)
  | inr there ↦
      others j there
      ∙ map_value-same (λ info. if false then s info else info) (lookup j before) (λ info. refl)
      ∙ ap (λ b. map_value (λ info. if b then s info else info) (lookup j before)) (sym there)
]

adds-cons : (op : Op) (ops : List Op) → adds (op ∷ ops) ≡ adds (op ∷ []) + adds ops
adds-cons (add name) ops = omega arith
adds-cons (activate id sid) ops = omega arith
adds-cons (close id) ops = omega arith
adds-cons (handshake order size) ops = omega arith
adds-cons draw ops = omega arith

module _ {Addr : Type 0} where
  lookup-step :
      (j : ℕ) (op : Op) (n : ℕ) (c : ConnectionState Addr)
      → j < n
      → lookup j (step op (n, c)).1.channels ≡ map_value (step_info j op) (lookup j c.channels)
  lookup-step j (add name) n c below =
      let (own, next, found, others) = lookup-add c name n in
      let differ : ((add_channel name n c).0 == j) ≡ false = ground (arith, own) in
      others j differ ∙ map_value-same _ (lookup j c.channels) (λ info. refl)
  lookup-step j (activate id sid) n c below =
      let (known, found, others) = lookup-activate c id sid in
      one_changed (with_state (active sid)) id j c.channels _ found others
  lookup-step j (close id) n c below =
      let (found, others) = lookup-close c id in
      one_changed (with_state closed) id j c.channels _ found others
  lookup-step j (handshake order size) n c below =
      unfold complete_handshake in map_value-same _ (lookup j c.channels) (λ info. refl)
  lookup-step j draw n c below = map_value-same _ (lookup j c.channels) (λ info. refl)

  counter_grows :
      (op : Op) (n j : ℕ) (c : ConnectionState Addr)
      → j < n
      → n + adds (op ∷ []) < 2 ^ 32
      → (j < (step op (n, c)).0) × ((step op (n, c)).0 ≡ n + adds (op ∷ []))
  unfolding add_channel next_client_id
  counter_grows (add name) n j c below room = (omega arith, omega arith)
  counter_grows (activate id sid) n j c below room = (below, omega arith)
  counter_grows (close id) n j c below room = (below, omega arith)
  counter_grows (handshake order size) n j c below room = (below, omega arith)
  counter_grows draw n j c below room = (omega arith, omega arith)

  lookup-run :
      (ops : List Op) (j n : ℕ) (c : ConnectionState Addr)
      → j < n
      → n + adds ops < 2 ^ 32
      → lookup j (run ops (n, c)).1.channels ≡ map_value (replay j ops) (lookup j c.channels)
  lookup-run [] j n c below room = map_value-same _ (lookup j c.channels) (λ info. refl)
  lookup-run (op ∷ ops) j n c below room =
      let total = adds-cons op ops in
      let (still_below, count) = counter_grows op n j c below (omega (arith, total, room)) in
      let after = step op (n, c) in
      lookup-run ops j after.0 after.1 still_below (omega (arith, count, total, room))
      ∙ ap (map_value (replay j ops)) (lookup-step j op n c below)
      ∙ map_value-replay j op ops (lookup j c.channels)

  -- Where the counter does not wrap, a channel that is added stands after any further operations
  -- and ids drawn elsewhere under the id that was returned, with its name, in the state that the
  -- operations on that id alone lead to from waiting; and so does every channel of an id below the
  -- counter, from its own state, or is still missing. No later channel takes its place.
  pub lookup-run-add :
      (name : List ℕ) (ops : List Op) (n : ℕ) (c : ConnectionState Addr)
      → n + adds ops + 1 < 2 ^ 32
      → let (cid, n', c') = add_channel name n c in
        let final : ConnectionState Addr = (run ops (n', c')).1 in
        let fresh : ChannelInfo = record {
          client_channel_id = cid;
          pv_name = name;
          state = creating;
        } in
        (lookup cid final.channels ≡ some (replay cid ops fresh))
        × ((j : ℕ)
            → j < n
            → lookup j final.channels ≡ map_value (replay j ops) (lookup j c.channels))
  lookup-run-add name ops n c room =
      let (own, next, found, others) = lookup-add c name n in
      let (cid, n', c') = add_channel name n c in
      let later : n' + adds ops < 2 ^ 32 = omega (arith, next, room) in
      (
        lookup-run ops cid n' c' (omega (arith, own, next, room)) later
            ∙ ap (map_value (replay cid ops)) found,
        λ j below.
            lookup-run ops j n' c' (omega (arith, next, room)) later
            ∙ ap (map_value (replay j ops)) (others j (ground (arith, own))),
      )
