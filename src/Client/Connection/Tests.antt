-- ===== src/Client/Connection/Tests.antt =====
-- A connection with two channels.
use aura_epics.Prelude.{ℕ, ◌+◌, ◌≡◌, refl, List, [], ◌∷◌, true, some, ◌<◌, lookup, map_value, arith}
use aura_epics.Codec.ByteOrder.{little_endian}
use aura_epics.Codec.FieldDesc.Registry
use aura_epics.Client.Connection.{
  ChannelInfo, ConnectionState, creating, active, with_state, add_channel, activate_channel,
  active_channel_count, is_active, close_channel, next_client_id,
}
use aura_epics.Client.Connection.PerId.{replay, lookup-run-add}
use aura_epics.Client.Connection.Steps.{
  Op, add, activate, close, draw, adds, run, IsFiled, run-Filed,
}

abbrev name : List ℕ
name = 0x61 ∷ []

abbrev one_waiting : ChannelInfo
one_waiting = record { client_channel_id = 4; pv_name = name; state = creating }

abbrev one_channel : ConnectionState ℕ
one_channel = record {
  addr = 7;
  byte_order = little_endian;
  server_buffer_size = 0;
  registry = Registry.new 16;
  channels = (4, one_waiting) ∷ [];
  handshake_complete = true;
  messages_sent = 0;
  messages_received = 0;
}

abbrev activated : ConnectionState ℕ
activated = record one_channel { channels = (4, with_state (active 90) one_waiting) ∷ [] }

one_activated : activate_channel 4 90 one_channel ≡ (true, activated)
unfolding activate_channel
one_activated = refl

count-activated : active_channel_count activated ≡ 1
unfolding active_channel_count is_active
count-activated = refl

abbrev session : List Op
session = add name ∷ activate 5 17 ∷ draw ∷ add name ∷ close 4 ∷ []

one_channel-IsFiled : IsFiled (5, one_channel)
one_channel-IsFiled = ((omega arith, refl), tt)

run-Filed_example :
    IsFiled (run session (5, one_channel)) × ((run session (5, one_channel)).0 ≡ 5 + adds session)
run-Filed_example = run-Filed session 5 one_channel one_channel-IsFiled (omega arith)

lookup-run-add_example :
    let (cid, n', c') = add_channel name 5 one_channel in
    let final : ConnectionState ℕ = (run session (n', c')).1 in
    let fresh : ChannelInfo = record {
      client_channel_id = cid;
      pv_name = name;
      state = creating;
    } in
    (lookup cid final.channels ≡ some (replay cid session fresh))
    × ((j : ℕ)
        → j < 5
        → lookup j final.channels ≡ map_value (replay j session) (lookup j one_channel.channels))
lookup-run-add_example = lookup-run-add name session 5 one_channel (omega arith)

-- The two later channels of the session do not take the place of channel 5, which is activated.
first_kept :
    lookup 5 (run (add name ∷ session) (5, one_channel)).1.channels
    ≡ some (record { client_channel_id = 5; pv_name = name; state = active 17 })
unfolding add_channel activate_channel close_channel next_client_id
first_kept = refl
