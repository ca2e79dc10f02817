-- ===== src/Messages/Channel/CreateRequest.antt =====
-- `CreateChannelRequest` of crates/aura-net/src/messages/channel.rs.
use aura_epics.Prelude.{ℕ, ◌≡◌, List, [], ◌∷◌, ok, pure, ◌>>=◌, length}
use aura_epics.Codec.ByteOrder.{ByteOrder}
use aura_epics.Codec.PvData.Reader.{Decoder}
use aura_epics.Codec.PvData.Reads.{Reads, Reads-pure, Reads-then}
use aura_epics.Codec.PvData.Writer.{PvaWriter}
use aura_epics.Codec.PvData.Writes.{undone}
use aura_epics.Codec.PvData.Inverse.{reading}
use aura_epics.Messages.ChannelList.{
  Channel, read_channels, write_channels, AreChannels, channels_bytes, Reads-channels,
  Writes-channels,
}

pub record CreateChannelRequest : Type 0 where
  pub channels : List Channel

abbrev pub single : ℕ → List ℕ → CreateChannelRequest
single id name = record { channels = (id, name) ∷ [] }

unfoldable pub decode : Decoder CreateChannelRequest
decode = do channels ← read_channels; pure (record { channels = channels })

unfoldable pub encode : CreateChannelRequest → PvaWriter → PvaWriter
encode m w = write_channels m.channels w

Reads-request :
    (o : ByteOrder) (m : CreateChannelRequest)
    → AreChannels m.channels
    → Reads o decode (channels_bytes o m.channels) m
unfolding decode
Reads-request o m h =
    Reads-then _ _ (channels_bytes o m.channels) m.channels m (Reads-channels o m.channels h)
      (Reads-pure m)

-- A request for fewer than 2 ^ 16 channels, each with a 32-bit id and a valid UTF-8 name below
-- 2 ^ 31 bytes, is decoded back as it was and the cursor stops where the writer stopped.
pub request-decode-encode :
    (m : CreateChannelRequest) (w : PvaWriter) (rest : List ℕ)
    → AreChannels m.channels
    → decode (reading (encode m w) (length w.buf) rest)
      ≡ (ok m, reading (encode m w) (length (encode m w).buf) rest)
unfolding encode
request-decode-encode m w rest h =
    undone w rest (channels_bytes w.order m.channels) (encode m) decode m
      (Writes-channels w.order m.channels h) (Reads-request w.order m h)
