-- ===== src/Messages/Channel/Destroy.antt =====
-- `DestroyChannel` of crates/aura-net/src/messages/channel.rs.
use aura_epics.Prelude.{ℕ, ◌<◌, ◌^◌, ◌≡◌, List, ◌++◌, ok, pure, ◌>>=◌, length, arith}
use aura_epics.Codec.ByteOrder.{ByteOrder, write_word}
use aura_epics.Codec.PvData.Reader.{Decoder, read_i32}
use aura_epics.Codec.PvData.Reads.{Reads, Reads-pure, Reads-bind, Reads-then, Reads-read_number}
use aura_epics.Codec.PvData.Writer.{PvaWriter, write_i32}
use aura_epics.Codec.PvData.Writes.{Writes, Writes-then, Writes-write_number, undone}
use aura_epics.Codec.PvData.Inverse.{reading}

pub record DestroyChannel : Type 0 where
  pub client_channel_id : ℕ
  pub server_channel_id : ℕ

unfoldable pub decode : Decoder DestroyChannel
decode = do
  cid ← read_i32
  sid ← read_i32
  pure (record { client_channel_id = cid; server_channel_id = sid })

unfoldable pub encode : DestroyChannel → PvaWriter → PvaWriter
encode m w = write_i32 m.server_channel_id (write_i32 m.client_channel_id w)

abbrev destroy_bytes : ByteOrder → DestroyChannel → List ℕ
destroy_bytes o m = write_word o 4 m.client_channel_id ++ write_word o 4 m.server_channel_id

Writes-destroy : (o : ByteOrder) (m : DestroyChannel) → Writes o (encode m) (destroy_bytes o m)
unfolding encode
Writes-destroy o m =
    Writes-then (write_i32 m.client_channel_id) (write_i32 m.server_channel_id) _ _
      (Writes-write_number o 4 m.client_channel_id) (Writes-write_number o 4 m.server_channel_id)

Reads-destroy :
    (o : ByteOrder) (m : DestroyChannel)
    → m.client_channel_id < 2 ^ 32
    → m.server_channel_id < 2 ^ 32
    → Reads o decode (destroy_bytes o m) m
unfolding decode
Reads-destroy o m hc hs =
    Reads-bind _ _ (write_word o 4 m.client_channel_id) _ m.client_channel_id m
      (Reads-read_number o 4 m.client_channel_id (omega (arith, hc)))
      (Reads-then _ _ (write_word o 4 m.server_channel_id) m.server_channel_id m
        (Reads-read_number o 4 m.server_channel_id (omega (arith, hs))) (Reads-pure m))

-- The two 32-bit ids of a channel to destroy are decoded back as they were and the cursor stops
-- where the writer stopped.
pub destroy-decode-encode :
    (m : DestroyChannel) (w : PvaWriter) (rest : List ℕ)
    → m.client_channel_id < 2 ^ 32
    → m.server_channel_id < 2 ^ 32
    → decode (reading (encode m w) (length w.buf) rest)
      ≡ (ok m, reading (encode m w) (length (encode m w).buf) rest)
destroy-decode-encode m w rest hc hs =
    undone w rest (destroy_bytes w.order m) (encode m) decode m (Writes-destroy w.order m)
      (Reads-destroy w.order m hc hs)
