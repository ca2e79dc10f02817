-- ===== src/Client/Connection/Steps.antt =====
-- Runs of a connection: any sequence of its operations, and of ids that are drawn elsewhere.
use aura_epics.Prelude.{
  ℕ, suc, ◌+◌, ◌<◌, ◌%◌, ◌^◌, ◌≡◌, List, [], ◌∷◌, Option, none, some, lookup, All, All-insert,
  All-adjust, arith,
}
use aura_epics.Codec.ByteOrder.{ByteOrder}
use aura_epics.Client.Connection.{
  ChannelInfo, ConnectionState, add_channel, activate_channel, activate_found, close_channel,
  complete_handshake, next_client_id,
}

-- `draw` is a call of `next_client_id` by other code: another connection, or for a request.
pub data Op : Type 0 where
  add : List ℕ → Op
  activate : ℕ → ℕ → Op
  close : ℕ → Op
  handshake : ByteOrder → ℕ → Op
  draw : Op

-- how many ids a sequence draws
abbrev pub adds : List Op → ℕ
adds [] = 0
adds (add name ∷ ops) = suc (adds ops)
adds (activate id sid ∷ ops) = adds ops
adds (close id ∷ ops) = adds ops
adds (handshake order size ∷ ops) = adds ops
adds (draw ∷ ops) = suc (adds ops)

-- Every channel is filed under its own id, below the counter.
abbrev pub FiledBelow : ℕ → ℕ × ChannelInfo → Type 0
FiledBelow n e = (e.0 < n) × (e.1.client_channel_id ≡ e.0)

raise-All : (n : ℕ) (m : List (ℕ × ChannelInfo)) → All (FiledBelow n) m → All (FiledBelow (n + 1)) m
raise-All n [] h = tt
raise-All n ((i, u) ∷ m) ((below, own), hm) = ((omega arith, own), raise-All n m hm)

module _ {Addr : Type 0} where
  abbrev pub step : Op → ℕ × ConnectionState Addr → ℕ × ConnectionState Addr
  step (add name) (n, c) = let (cid, n', c') = add_channel name n c in (n', c')
  step (activate id sid) (n, c) = (n, (activate_channel id sid c).1)
  step (close id) (n, c) = (n, close_channel id c)
  step (handshake order size) (n, c) = (n, complete_handshake order size c)
  step draw (n, c) = ((next_client_id n).1, c)

  abbrev pub run : List Op → ℕ × ConnectionState Addr → ℕ × ConnectionState Addr
  run [] x = x
  run (op ∷ ops) x = run ops (step op x)

  abbrev pub IsFiled : ℕ × ConnectionState Addr → Type 0
  IsFiled x = All (FiledBelow x.0) x.1.channels

  add-IsFiled :
      (name : List ℕ) (n : ℕ) (c : ConnectionState Addr)
      → IsFiled (n, c)
      → n + 1 < 2 ^ 32
      → IsFiled (step (add name) (n, c))
  unfolding add_channel next_client_id
  add-IsFiled name n c h room =
      let e : (n + 1) % 2 ^ 32 ≡ n + 1 = omega arith in
      rw e (
        All-insert (FiledBelow (n + 1)) n _ c.channels (raise-All n c.channels h)
          (λ i same. (ground arith, ground arith)))

  found-IsFiled :
      (found : Option ChannelInfo) (id sid n : ℕ) (c : ConnectionState Addr)
      → IsFiled (n, c)
      → IsFiled (n, (activate_found found id sid c).1)
  found-IsFiled none id sid n c h = h
  found-IsFiled (some info) id sid n c h =
      All-adjust (FiledBelow n) id _ c.channels h (λ i u hu. hu)

  -- From a connection whose channels are filed under their own ids below the counter, any sequence
  -- of operations, and of ids drawn elsewhere, that does not wrap the counter leads to such a
  -- connection, and the counter has grown by the ids drawn.
  pub run-Filed :
      (ops : List Op) (n : ℕ) (c : ConnectionState Addr)
      → IsFiled (n, c)
      → n + adds ops < 2 ^ 32
      → IsFiled (run ops (n, c)) × ((run ops (n, c)).0 ≡ n + adds ops)
  unfolding activate_channel close_channel complete_handshake add_channel next_client_id
  run-Filed [] n c h room = (h, omega arith)
  run-Filed (add name ∷ ops) n c h room =
      let e : (n + 1) % 2 ^ 32 ≡ n + 1 = omega arith in
      let next = add-IsFiled name n c h (omega arith) in
      let (filed, count) = run-Filed ops ((n + 1) % 2 ^ 32) _ next (omega (arith, e)) in
      (filed, omega (arith, count, e))
  run-Filed (activate id sid ∷ ops) n c h room =
      run-Filed ops n _ (found-IsFiled (lookup id c.channels) id sid n c h) room
  run-Filed (close id ∷ ops) n c h room =
      run-Filed ops n _ (All-adjust (FiledBelow n) id _ c.channels h (λ i u hu. hu)) room
  run-Filed (handshake order size ∷ ops) n c h room = run-Filed ops n _ h room
  run-Filed (draw ∷ ops) n c h room =
      let e : (n + 1) % 2 ^ 32 ≡ n + 1 = omega arith in
      let (filed, count) =
        run-Filed ops ((n + 1) % 2 ^ 32) c (rw e (raise-All n c.channels h)) (omega (arith, e)) in
      (filed, omega (arith, count, e))
