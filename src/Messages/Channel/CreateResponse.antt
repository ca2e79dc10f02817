-- ===== src/Messages/Channel/CreateResponse.antt =====
-- `CreateChannelResponse` of crates/aura-net/src/messages/channel.rs.
use aura_epics.Prelude.{ℕ, ◌<◌, ◌^◌, ◌≡◌, List, ◌++◌, Bool, ok, pure, ◌>>=◌, length, arith}
use aura_epics.Codec.ByteOrder.{ByteOrder, write_word}
use aura_epics.Codec.PvData.Reader.{Decoder, read_i32}
use aura_epics.Codec.PvData.Reads.{Reads, Reads-pure, Reads-bind, Reads-then, Reads-read_number}
use aura_epics.Codec.PvData.Writer.{PvaWriter, write_i32}
use aura_epics.Codec.PvData.Writes.{Writes, Writes-then, Writes-write_number, undone}
use aura_epics.Codec.PvData.Inverse.{reading}
use aura_epics.Messages.Status.{PvaStatus}
use aura_epics.Messages.Status
use aura_epics.Messages.Status.RoundTrip.{IsStatus, status_bytes, Writes-status, Reads-status}

pub record CreateChannelResponse : Type 0 where
  pub client_channel_id : ℕ
  pub server_channel_id : ℕ
  pub status : PvaStatus

unfoldable pub is_success : CreateChannelResponse → Bool
is_success m = Status.is_success m.status

unfoldable pub decode : Decoder CreateChannelResponse
decode = do
  cid ← read_i32
  sid ← read_i32
  status ← Status.decode
  pure (record { client_channel_id = cid; server_channel_id = sid; status = status })

unfoldable pub encode : CreateChannelResponse → PvaWriter → PvaWriter
encode m w =
    Status.encode m.status (write_i32 m.server_channel_id (write_i32 m.client_channel_id w))

-- 32-bit ids and a status that its encoding keeps.
pub record IsResponse (m : CreateChannelResponse) : Type 0 where
  pub client_channel_id : m.client_channel_id < 2 ^ 32
  pub server_channel_id : m.server_channel_id < 2 ^ 32
  pub status : IsStatus m.status

abbrev response_bytes : ByteOrder → CreateChannelResponse → List ℕ
response_bytes o m =
    write_word o 4 m.client_channel_id
    ++ (write_word o 4 m.server_channel_id ++ status_bytes o m.status)

Writes-response :
    (o : ByteOrder) (m : CreateChannelResponse)
    → IsResponse m
    → Writes o (encode m) (response_bytes o m)
unfolding encode
Writes-response o m h =
    Writes-then (write_i32 m.client_channel_id) _ _ _ (Writes-write_number o 4 m.client_channel_id)
      (Writes-then (write_i32 m.server_channel_id) (Status.encode m.status) _ _
        (Writes-write_number o 4 m.server_channel_id) (Writes-status o m.status h.status))

Reads-response :
    (o : ByteOrder) (m : CreateChannelResponse)
    → IsResponse m
    → Reads o decode (response_bytes o m) m
unfolding decode
Reads-response o m h =
    Reads-bind _ _ (write_word o 4 m.client_channel_id) _ m.client_channel_id m
      (Reads-read_number o 4 m.client_channel_id (omega (arith, h.client_channel_id)))
      (Reads-bind _ _ (write_word o 4 m.server_channel_id) _ m.server_channel_id m
        (Reads-read_number o 4 m.server_channel_id (omega (arith, h.server_channel_id)))
        (Reads-then _ _ (status_bytes o m.status) m.status m (Reads-status o m.status h.status)
          (Reads-pure m)))

-- A response with 32-bit ids, and a status whose strings are valid UTF-8 below 2 ^ 31 bytes and
-- which has no call tree if it counts as OK, is decoded back as it was and the cursor stops where
-- the writer stopped.
pub response-decode-encode :
    (m : CreateChannelResponse) (w : PvaWriter) (rest : List ℕ)
    → IsResponse m
    → decode (reading (encode m w) (length w.buf) rest)
      ≡ (ok m, reading (encode m w) (length (encode m w).buf) rest)
response-decode-encode m w rest h =
    undone w rest (response_bytes w.order m) (encode m) decode m (Writes-response w.order m h)
      (Reads-response w.order m h)
