-- ===== src/Client/Connection.antt =====
-- crates/aura-net/src/client/connection.rs: the channels of one TCP connection. The address type is
-- a parameter. `NEXT_ID`, shared by all connections, is passed beside the connection's state; it
-- wraps at 2 ^ 32.
pub mod Laws
pub mod Steps
pub mod PerId
mod Tests
use aura_epics.Prelude.{
  ℕ, ◌+◌, ◌%◌, ◌^◌, List, [], ◌∷◌, Bool, true, false, Option, none, some, lookup, insert, adjust,
}
use aura_epics.Codec.ByteOrder.{ByteOrder, little_endian}
use aura_epics.Codec.FieldDesc.Registry
use aura_epics.Codec.FieldDesc.Registry.{IntrospectionRegistry}

pub data ChannelState : Type 0 where
  creating : ChannelState
  active : ℕ → ChannelState
  destroying closed : ChannelState

unfoldable pub is_active : ChannelState → Bool
is_active creating = false
is_active (active sid) = true
is_active destroying = false
is_active closed = false

unfoldable pub server_id : ChannelState → Option ℕ
server_id creating = none
server_id (active sid) = some sid
server_id destroying = none
server_id closed = none

pub record ChannelInfo : Type 0 where
  pub client_channel_id : ℕ
  pub pv_name : List ℕ
  pub state : ChannelState

module _ (Addr : Type 0) where
  pub record ConnectionState : Type 0 where
    pub addr : Addr
    pub byte_order : ByteOrder
    pub server_buffer_size : ℕ
    pub registry : IntrospectionRegistry
    pub channels : List (ℕ × ChannelInfo)
    pub handshake_complete : Bool
    pub messages_sent : ℕ
    pub messages_received : ℕ

-- `NEXT_ID.fetch_add(1)`: the id, and the counter after it
unfoldable pub next_client_id : ℕ → ℕ × ℕ
next_client_id n = (n, (n + 1) % 2 ^ 32)

abbrev pub with_state : ChannelState → ChannelInfo → ChannelInfo
with_state s info = record info { state = s }

-- `values().filter(|c| c.state.is_active()).count()`
abbrev pub count_active : List (ℕ × ChannelInfo) → ℕ
count_active [] = 0
count_active ((id, info) ∷ m) = elim (is_active info.state) [
  | true ↦ 1 + count_active m
  | false ↦ count_active m
]

module _ {Addr : Type 0} where
  unfoldable pub new : Addr → ℕ → ConnectionState Addr
  new addr registry_size = record {
    addr = addr;
    byte_order = little_endian;
    server_buffer_size = 0;
    registry = Registry.new registry_size;
    channels = [];
    handshake_complete = false;
    messages_sent = 0;
    messages_received = 0;
  }

  -- the new id, the counter after it, and the connection
  unfoldable pub add_channel : List ℕ → ℕ → ConnectionState Addr → ℕ × ℕ × ConnectionState Addr
  add_channel name n c =
      let (cid, n') = next_client_id n in
      let info : ChannelInfo = record {
        client_channel_id = cid;
        pv_name = name;
        state = creating;
      } in
      (cid, n', record c { channels = insert cid info c.channels })

  -- `if let Some(info) = channels.get_mut(&client_id)`
  abbrev activate_found :
      Option ChannelInfo → ℕ → ℕ → ConnectionState Addr → Bool × ConnectionState Addr
  activate_found none id sid c = (false, c)
  activate_found (some info) id sid c =
      (true, record c { channels = adjust id (with_state (active sid)) c.channels })

  unfoldable pub activate_channel : ℕ → ℕ → ConnectionState Addr → Bool × ConnectionState Addr
  activate_channel id sid c = activate_found (lookup id c.channels) id sid c

  -- adjusting a missing id changes nothing
  unfoldable pub close_channel : ℕ → ConnectionState Addr → ConnectionState Addr
  close_channel id c = record c { channels = adjust id (with_state closed) c.channels }

  unfoldable pub active_channel_count : ConnectionState Addr → ℕ
  active_channel_count c = count_active c.channels

  unfoldable pub complete_handshake : ByteOrder → ℕ → ConnectionState Addr → ConnectionState Addr
  complete_handshake order size c = record c {
    byte_order = order;
    server_buffer_size = size;
    handshake_complete = true;
  }
