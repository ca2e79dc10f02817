-- ===== src/Client/Connection/Laws.antt =====
-- What each operation does to the channel of every id.
use aura_epics.Prelude.{
  ℕ, ◌+◌, ◌%◌, ◌^◌, ◌≡◌, refl, ap, ◌∙◌, List, Bool, true, false, Option, none, some, ◌==◌, lookup,
  map_value, lookup-insert, lookup-insert_other, lookup-adjust, lookup-adjust_other,
}
use aura_epics.Client.Connection.{
  ChannelInfo, ConnectionState, creating, active, closed, with_state, add_channel, activate_channel,
  activate_found, close_channel, next_client_id,
}

abbrev pub is_some : Option ChannelInfo → Bool
is_some none = false
is_some (some info) = true

module _ {Addr : Type 0} (c : ConnectionState Addr) where
  -- `add_channel` returns the counter's value and moves the counter on. The channel filed under that
  -- id has the name that it was given and waits for the server, and every other id is as before.
  pub lookup-add :
      (name : List ℕ) (n : ℕ)
      → let (cid, n', c') = add_channel name n c in
        (cid ≡ n)
        × (n' ≡ (n + 1) % 2 ^ 32)
        × (lookup cid c'.channels
            ≡ some (record { client_channel_id = cid; pv_name = name; state = creating }))
        × ((j : ℕ) → (cid == j) ≡ false → lookup j c'.channels ≡ lookup j c.channels)
  unfolding add_channel next_client_id
  lookup-add name n =
      (refl, refl, lookup-insert n _ c.channels, λ j h. lookup-insert_other n j _ c.channels h)

  found_by :
      (found : Option ChannelInfo) (id sid : ℕ)
      → lookup id c.channels ≡ found
      → let (known, c') = activate_found found id sid c in
        (known ≡ is_some found)
        × (lookup id c'.channels ≡ map_value (with_state (active sid)) found)
        × ((j : ℕ) → (id == j) ≡ false → lookup j c'.channels ≡ lookup j c.channels)
  found_by none id sid e = (refl, e, λ j h. refl)
  found_by (some info) id sid e = (
    refl,
    lookup-adjust id _ c.channels ∙ ap (map_value (with_state (active sid))) e,
    λ j h. lookup-adjust_other id j _ c.channels h,
  )

  -- `activate_channel` says whether the id is known. A known channel keeps its name and becomes
  -- active under the server's id, an unknown one is not made, and every other id is as before.
  pub lookup-activate :
      (id sid : ℕ)
      → let (known, c') = activate_channel id sid c in
        (known ≡ is_some (lookup id c.channels))
        × (lookup id c'.channels ≡ map_value (with_state (active sid)) (lookup id c.channels))
        × ((j : ℕ) → (id == j) ≡ false → lookup j c'.channels ≡ lookup j c.channels)
  unfolding activate_channel
  lookup-activate id sid = found_by (lookup id c.channels) id sid refl

  -- `close_channel` closes the channel of its id, if there is one, keeps its name, and leaves every
  -- other id as it was.
  pub lookup-close :
      (id : ℕ)
      → let c' = close_channel id c in
        (lookup id c'.channels ≡ map_value (with_state closed) (lookup id c.channels))
        × ((j : ℕ) → (id == j) ≡ false → lookup j c'.channels ≡ lookup j c.channels)
  unfolding close_channel
  lookup-close id = (lookup-adjust id _ c.channels, λ j h. lookup-adjust_other id j _ c.channels h)
