-- ===== src/Messages/ChannelList.antt =====
-- The list of `(id, name)` pairs that a search and a channel creation carry, behind its u16 count:
-- crates/aura-net/src/messages/channel.rs and search.rs.
use mathlib.Core.Path.{subst}
use aura_epics.Prelude.{
  sym, ℕ, ◌<◌, ◌%◌, ◌^◌, ◌≡◌, List, [], ◌∷◌, ◌++◌, true, pure, ◌>>=◌, length, All, arith,
}
use aura_epics.Codec.ByteOrder.{ByteOrder, write_word}
use aura_epics.Codec.PvData.Utf8.{is_utf8}
use aura_epics.Codec.PvData.Reader.{Decoder, read_i32, read_u16, read_string, read_many}
use aura_epics.Codec.PvData.Reads.{
  Reads, Reads-pure, Reads-bind, Reads-then, Reads-read_number, Reads-read_many, written,
}
use aura_epics.Codec.PvData.RoundTrip.{string_bytes, Reads-read_string}
use aura_epics.Codec.PvData.Writer.{PvaWriter, write_i32, write_u16, write_string, write_many}
use aura_epics.Codec.PvData.Writes.{
  Writes, Writes-then, Writes-write_number, Writes-write_string, Writes-write_many,
}

-- An i32 and a string, by their bit pattern and their bytes.
abbrev pub Channel : Type 0
Channel = ℕ × List ℕ

unfoldable pub read_channel : Decoder Channel
read_channel = do id ← read_i32; name ← read_string; pure (id, name)

unfoldable pub write_channel : Channel → PvaWriter → PvaWriter
write_channel c w = write_string c.1 (write_i32 c.0 w)

unfoldable pub read_channels : Decoder (List Channel)
read_channels = do count ← read_u16; read_many count read_channel

-- `len() as u16` keeps the low 16 bits.
unfoldable pub write_channels : List Channel → PvaWriter → PvaWriter
write_channels cs w = write_many write_channel cs (write_u16 (length cs % 2 ^ 16) w)

-- A 32-bit id, and a name of valid UTF-8 below 2 ^ 31 bytes.
abbrev pub IsChannel : Channel → Type 0
IsChannel c = (c.0 < 2 ^ 32) × (is_utf8 c.1 ≡ true) × (length c.1 < 2 ^ 31)

abbrev pub AreChannels : List Channel → Type 0
AreChannels cs = (length cs < 2 ^ 16) × All IsChannel cs

abbrev channel_bytes : ByteOrder → Channel → List ℕ
channel_bytes o c = write_word o 4 c.0 ++ string_bytes o c.1

abbrev pub channels_bytes : ByteOrder → List Channel → List ℕ
channels_bytes o cs = write_word o 2 (length cs) ++ written (channel_bytes o) cs

module _ (o : ByteOrder) where
  Reads-channel : (c : Channel) → IsChannel c → Reads o read_channel (channel_bytes o c) c
  unfolding read_channel
  Reads-channel c (fits, valid, short) =
      Reads-bind _ _ (write_word o 4 c.0) (string_bytes o c.1) c.0 c
        (Reads-read_number o 4 c.0 (omega arith))
        (Reads-then _ _ (string_bytes o c.1) c.1 c (Reads-read_string o c.1 valid short)
          (Reads-pure c))

  Writes-channel : (c : Channel) → IsChannel c → Writes o (write_channel c) (channel_bytes o c)
  unfolding write_channel
  Writes-channel c (fits, valid, short) =
      Writes-then _ _ _ _ (Writes-write_number o 4 c.0) (Writes-write_string o c.1 (omega arith))

  each_Reads :
      (cs : List Channel)
      → All IsChannel cs
      → All (λ c. Reads o read_channel (channel_bytes o c) c) cs
  each_Reads [] h = tt
  each_Reads (c ∷ cs) (hc, hcs) = (Reads-channel c hc, each_Reads cs hcs)

  each_Writes :
      (cs : List Channel)
      → All IsChannel cs
      → All (λ c. Writes o (write_channel c) (channel_bytes o c)) cs
  each_Writes [] h = tt
  each_Writes (c ∷ cs) (hc, hcs) = (Writes-channel c hc, each_Writes cs hcs)

  pub Reads-channels :
      (cs : List Channel) → AreChannels cs → Reads o read_channels (channels_bytes o cs) cs
  unfolding read_channels
  Reads-channels cs (few, all) =
      Reads-bind _ _ (write_word o 2 (length cs)) _ (length cs) cs
        (Reads-read_number o 2 (length cs) (omega arith))
        (Reads-read_many read_channel (channel_bytes o) cs (each_Reads cs all))

  pub Writes-count : (n : ℕ) → n < 2 ^ 16 → Writes o (write_u16 (n % 2 ^ 16)) (write_word o 2 n)
  Writes-count n few =
      let e : n % 2 ^ 16 ≡ n = omega arith in
      subst (λ k. Writes o (write_u16 k) (write_word o 2 n)) (sym e) (Writes-write_number o 2 n)

  pub Writes-channels :
      (cs : List Channel) → AreChannels cs → Writes o (write_channels cs) (channels_bytes o cs)
  unfolding write_channels
  Writes-channels cs (few, all) =
      Writes-then (write_u16 (length cs % 2 ^ 16)) _ _ _ (Writes-count (length cs) few)
        (Writes-write_many write_channel (channel_bytes o) cs (each_Writes cs all))
