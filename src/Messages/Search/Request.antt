-- ===== src/Messages/Search/Request.antt =====
-- `SearchRequest` of crates/aura-net/src/messages/search.rs.
use aura_epics.Prelude.{
  ℕ, ◌-◌, ◌<◌, ◌^◌, ◌≡◌, refl, List, [], ◌∷◌, ◌++◌, Bool, true, false, not, bit_and, bit_or, ◌==◌,
  if◌then◌else◌, ok, pure, ◌>>=◌, length, arith,
}
use aura_epics.Codec.ByteOrder.{ByteOrder, write_word}
use aura_epics.Codec.PvData.Utf8.{is_utf8}
use aura_epics.Codec.PvData.Reader.{Decoder, read_i32, read_u8, read_string, read_many}
use aura_epics.Codec.PvData.Reads.{
  Reads, Reads-pure, Reads-bind, Reads-then, Reads-read_number, Reads-read_u8,
}
use aura_epics.Codec.PvData.RoundTrip.{string_bytes, Reads-read_string}
use aura_epics.Codec.PvData.Writer.{PvaWriter, write_i32, write_u8, write_string}
use aura_epics.Codec.PvData.Writes.{
  Writes, Writes-then, Writes-write_number, Writes-write_u8, Writes-write_string, undone,
}
use aura_epics.Codec.PvData.Inverse.{reading}
use aura_epics.Messages.ChannelList.{
  Channel, read_channels, write_channels, AreChannels, channels_bytes, Reads-channels,
  Writes-channels,
}
use aura_epics.Messages.Search.{
  SocketAddr, IsAddress, received, address_bytes, decode_search_address, encode_search_address,
  Reads-search_address, Writes-search_address,
}

abbrev pub flag_reply_required : ℕ
flag_reply_required = 0x01

abbrev pub flag_unicast : ℕ
flag_unicast = 0x80

pub record SearchRequest : Type 0 where
  pub search_sequence_id : ℕ
  pub reply_required : Bool
  pub unicast : Bool
  pub response_address : SocketAddr
  pub protocol : List ℕ
  pub channels : List Channel

-- `"tcp"`
abbrev pub tcp : List ℕ
tcp = 0x74 ∷ 0x63 ∷ 0x70 ∷ []

-- the first protocol, and none of the others
unfoldable pub decode_protocol : ℕ → Decoder (List ℕ)
decode_protocol count =
    if count == 0
    then pure tcp
    else (do first ← read_string; others ← read_many (count - 1) read_string; pure first)

unfoldable pub decode : Decoder SearchRequest
decode = do
  id ← read_i32
  flags ← read_u8
  address ← decode_search_address
  count ← read_u8
  protocol ← decode_protocol count
  channels ← read_channels
  pure (record {
    search_sequence_id = id;
    reply_required = not (bit_and flags flag_reply_required == 0);
    unicast = not (bit_and flags flag_unicast == 0);
    response_address = address;
    protocol = protocol;
    channels = channels;
  })

abbrev pub flags_of : Bool → Bool → ℕ
flags_of reply unicast =
    let flags = if reply then bit_or 0 flag_reply_required else 0 in
    if unicast then bit_or flags flag_unicast else flags

unfoldable pub encode : SearchRequest → PvaWriter → PvaWriter
encode m w = write_channels m.channels (
    write_string m.protocol (
      write_u8 1 (
        encode_search_address m.response_address
          (write_u8 (flags_of m.reply_required m.unicast) (write_i32 m.search_sequence_id w)))))

-- A 32-bit id, an address, a valid protocol below 2 ^ 31 bytes, and channels as in ChannelList.antt.
pub record IsSearch (m : SearchRequest) : Type 0 where
  pub search_sequence_id : m.search_sequence_id < 2 ^ 32
  pub response_address : IsAddress m.response_address
  pub protocol : (is_utf8 m.protocol ≡ true) × (length m.protocol < 2 ^ 31)
  pub channels : AreChannels m.channels

reply_kept : (r u : Bool) → not (bit_and (flags_of r u) flag_reply_required == 0) ≡ r
reply_kept true true = refl
reply_kept true false = refl
reply_kept false true = refl
reply_kept false false = refl

unicast_kept : (r u : Bool) → not (bit_and (flags_of r u) flag_unicast == 0) ≡ u
unicast_kept true true = refl
unicast_kept true false = refl
unicast_kept false true = refl
unicast_kept false false = refl

abbrev request_bytes : ByteOrder → SearchRequest → List ℕ
request_bytes o m =
    write_word o 4 m.search_sequence_id
    ++ ((flags_of m.reply_required m.unicast ∷ [])
        ++ (((0 ∷ 0 ∷ 0 ∷ []) ++ address_bytes m.response_address)
            ++ ((1 ∷ []) ++ (string_bytes o m.protocol ++ channels_bytes o m.channels))))

module _ (o : ByteOrder) (m : SearchRequest) (h : IsSearch m) where
  abbrev received_search : SearchRequest
  received_search = record m { response_address = received m.response_address }

  Writes-search : Writes o (encode m) (request_bytes o m)
  unfolding encode
  Writes-search =
      Writes-then (write_i32 m.search_sequence_id) _ _ _
        (Writes-write_number o 4 m.search_sequence_id)
        (Writes-then (write_u8 (flags_of m.reply_required m.unicast)) _ _ _
          (Writes-write_u8 o (flags_of m.reply_required m.unicast))
          (Writes-then (encode_search_address m.response_address) _ _ _
            (Writes-search_address o m.response_address)
            (Writes-then (write_u8 1) _ (1 ∷ []) _ (Writes-write_u8 o 1) (
              Writes-then (write_string m.protocol) (write_channels m.channels) _ _
                (Writes-write_string o m.protocol (omega (arith, h.protocol)))
                (Writes-channels o m.channels h.channels)))))

  Reads-one_protocol : Reads o (decode_protocol 1) (string_bytes o m.protocol) m.protocol
  unfolding decode_protocol read_many
  Reads-one_protocol =
      Reads-then _ _ (string_bytes o m.protocol) m.protocol m.protocol
        (Reads-read_string o m.protocol h.protocol.0 h.protocol.1)
        (Reads-then _ _ [] [] m.protocol (Reads-pure []) (Reads-pure m.protocol))

  Reads-search : Reads o decode (request_bytes o m) received_search
  unfolding decode
  Reads-search =
      let flags = flags_of m.reply_required m.unicast in
      Reads-bind _ _ (write_word o 4 m.search_sequence_id) _ m.search_sequence_id received_search
        (Reads-read_number o 4 m.search_sequence_id (omega (arith, h.search_sequence_id)))
        (Reads-bind _ _ (flags ∷ []) _ flags received_search (Reads-read_u8 o flags) (
          Reads-bind _ _ ((0 ∷ 0 ∷ 0 ∷ []) ++ address_bytes m.response_address) _
            (received m.response_address) received_search
            (Reads-search_address o m.response_address h.response_address)
            (Reads-bind _ _ (1 ∷ []) _ 1 received_search (Reads-read_u8 o 1) (
              Reads-bind _ _ (string_bytes o m.protocol) _ m.protocol received_search
                Reads-one_protocol
                (Reads-then _ _ (channels_bytes o m.channels) m.channels received_search
                  (Reads-channels o m.channels h.channels)
                  (rw
                    (reply_kept m.reply_required m.unicast, unicast_kept m.reply_required m.unicast)
                    (Reads-pure received_search)))))))

-- A search with a 32-bit id, an address of four or of sixteen bytes with a 16-bit port, a protocol
-- of valid UTF-8 below 2 ^ 31 bytes and fewer than 2 ^ 16 channels, each with a 32-bit id and such
-- a name, is decoded back and the cursor stops where the writer stopped. All is as it was save the
-- address: an IPv4 address comes back with its port, an IPv6 address comes back with its port but
-- with flow information and scope 0, and one that is the mapped form of an IPv4 address comes back
-- as that.
pub search-decode-encode :
    (m : SearchRequest) (w : PvaWriter) (rest : List ℕ)
    → IsSearch m
    → decode (reading (encode m w) (length w.buf) rest) ≡ (
      ok (record m { response_address = received m.response_address }),
      reading (encode m w) (length (encode m w).buf) rest,
    )
search-decode-encode m w rest h =
    undone w rest (request_bytes w.order m) (encode m) decode
      (record m { response_address = received m.response_address }) (Writes-search w.order m h)
      (Reads-search w.order m h)
