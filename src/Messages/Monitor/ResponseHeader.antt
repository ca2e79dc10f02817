-- ===== src/Messages/Monitor/ResponseHeader.antt =====
-- `MonitorResponseHeader` of crates/aura-net/src/messages/monitor.rs.
use aura_epics.Prelude.{
  ℕ, ◌<◌, ◌^◌, ◌≡◌, List, [], ◌∷◌, ◌++◌, Bool, not, bit_and, ◌==◌, ok, pure, ◌>>=◌, length, arith,
}
use aura_epics.Codec.ByteOrder.{ByteOrder, write_word}
use aura_epics.Codec.PvData.Reader.{Decoder, read_i32, read_u8}
use aura_epics.Codec.PvData.Reads.{
  Reads, Reads-pure, Reads-bind, Reads-then, Reads-read_number, Reads-read_u8,
}
use aura_epics.Codec.PvData.Writer.{PvaWriter, write_i32, write_u8}
use aura_epics.Codec.PvData.Writes.{
  Writes, Writes-then, Writes-write_number, Writes-write_u8, undone,
}
use aura_epics.Codec.PvData.Inverse.{reading}
use aura_epics.Messages.Monitor.{monitor_init}

pub record MonitorResponseHeader : Type 0 where
  pub request_id : ℕ
  pub sub_command : ℕ

unfoldable pub decode : Decoder MonitorResponseHeader
decode = do id ← read_i32; sub ← read_u8; pure (record { request_id = id; sub_command = sub })

unfoldable pub encode : MonitorResponseHeader → PvaWriter → PvaWriter
encode m w = write_u8 m.sub_command (write_i32 m.request_id w)

unfoldable pub is_init_response : MonitorResponseHeader → Bool
is_init_response m = not (bit_and m.sub_command monitor_init == 0)

abbrev header_bytes : ByteOrder → MonitorResponseHeader → List ℕ
header_bytes o m = write_word o 4 m.request_id ++ (m.sub_command ∷ [])

module _ (o : ByteOrder) where
  Writes-header : (m : MonitorResponseHeader) → Writes o (encode m) (header_bytes o m)
  unfolding encode
  Writes-header m =
      Writes-then (write_i32 m.request_id) (write_u8 m.sub_command) _ _
        (Writes-write_number o 4 m.request_id) (Writes-write_u8 o m.sub_command)

  Reads-header :
      (m : MonitorResponseHeader) → m.request_id < 2 ^ 32 → Reads o decode (header_bytes o m) m
  unfolding decode
  Reads-header m h =
      Reads-bind _ _ (write_word o 4 m.request_id) _ m.request_id m
        (Reads-read_number o 4 m.request_id (omega (arith, h)))
        (Reads-then _ _ (m.sub_command ∷ []) m.sub_command m (Reads-read_u8 o m.sub_command)
          (Reads-pure m))

-- The header of a monitor response with a 32-bit id is decoded back as it was and the cursor
-- stops where the writer stopped.
pub response_header-decode-encode :
    (m : MonitorResponseHeader) (w : PvaWriter) (rest : List ℕ)
    → m.request_id < 2 ^ 32
    → decode (reading (encode m w) (length w.buf) rest)
      ≡ (ok m, reading (encode m w) (length (encode m w).buf) rest)
response_header-decode-encode m w rest h =
    undone w rest (header_bytes w.order m) (encode m) decode m (Writes-header w.order m)
      (Reads-header w.order m h)
