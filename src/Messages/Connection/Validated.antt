-- ===== src/Messages/Connection/Validated.antt =====
-- `ConnectionValidated` of crates/aura-net/src/messages/connection.rs.
use aura_epics.Prelude.{
  ℕ, ◌-◌, ◌<◌, ◌^◌, ◌≡◌, List, [], ◌∷◌, ◌++◌, true, ok, pure, ◌>>=◌, length, arith,
}
use aura_epics.Codec.ByteOrder.{ByteOrder, write_word}
use aura_epics.Codec.PvData.Utf8.{is_utf8}
use aura_epics.Codec.PvData.Reader.{Decoder, read_i32, read_i16, read_u16, read_string}
use aura_epics.Codec.PvData.Reads.{Reads, Reads-pure, Reads-bind, Reads-then, Reads-read_number}
use aura_epics.Codec.PvData.RoundTrip.{string_bytes, Reads-read_string}
use aura_epics.Codec.PvData.Writer.{
  PvaWriter, write_i32, write_i16, write_u16, write_u8, write_string,
}
use aura_epics.Codec.PvData.Writes.{
  Writes, Writes-then, Writes-write_number, Writes-write_string, Writes-write_u8, undone_before,
}
use aura_epics.Codec.PvData.Inverse.{reading}

pub record ConnectionValidated : Type 0 where
  pub client_buffer_size : ℕ
  pub client_registry_size : ℕ
  pub connection_qos : ℕ
  pub auth_method : List ℕ

unfoldable pub decode : Decoder ConnectionValidated
decode = do
  buffer ← read_i32
  registry ← read_i16
  qos ← read_u16
  auth ← read_string
  pure (record {
    client_buffer_size = buffer;
    client_registry_size = registry;
    connection_qos = qos;
    auth_method = auth;
  })

-- the last byte is the null of the authentication data
unfoldable pub encode : ConnectionValidated → PvaWriter → PvaWriter
encode m w = write_u8 255 (
    write_string m.auth_method (
      write_u16 m.connection_qos
        (write_i16 m.client_registry_size (write_i32 m.client_buffer_size w))))

-- Numbers of their widths, and a method of valid UTF-8 below 2 ^ 31 bytes.
pub record IsValidated (m : ConnectionValidated) : Type 0 where
  pub client_buffer_size : m.client_buffer_size < 2 ^ 32
  pub client_registry_size : m.client_registry_size < 2 ^ 16
  pub connection_qos : m.connection_qos < 2 ^ 16
  pub auth_method : (is_utf8 m.auth_method ≡ true) × (length m.auth_method < 2 ^ 31)

abbrev validated_bytes : ByteOrder → ConnectionValidated → List ℕ
validated_bytes o m =
    write_word o 4 m.client_buffer_size
    ++ (write_word o 2 m.client_registry_size
        ++ (write_word o 2 m.connection_qos ++ string_bytes o m.auth_method))

module _ (o : ByteOrder) where
  Writes-validated :
      (m : ConnectionValidated)
      → IsValidated m
      → Writes o (encode m) (validated_bytes o m ++ (255 ∷ []))
  unfolding encode
  Writes-validated m h =
      Writes-then _ (write_u8 255) _ _
        (Writes-then (write_i32 m.client_buffer_size) _ _ _
          (Writes-write_number o 4 m.client_buffer_size)
          (Writes-then (write_i16 m.client_registry_size) _ _ _
            (Writes-write_number o 2 m.client_registry_size)
            (Writes-then (write_u16 m.connection_qos) (write_string m.auth_method) _ _
              (Writes-write_number o 2 m.connection_qos)
              (Writes-write_string o m.auth_method (omega (arith, h.auth_method))))))
        (Writes-write_u8 o 255)

  Reads-validated :
      (m : ConnectionValidated) → IsValidated m → Reads o decode (validated_bytes o m) m
  unfolding decode
  Reads-validated m h =
      Reads-bind _ _ (write_word o 4 m.client_buffer_size) _ m.client_buffer_size m
        (Reads-read_number o 4 m.client_buffer_size (omega (arith, h.client_buffer_size)))
        (Reads-bind _ _ (write_word o 2 m.client_registry_size) _ m.client_registry_size m
          (Reads-read_number o 2 m.client_registry_size (omega (arith, h.client_registry_size)))
          (Reads-bind _ _ (write_word o 2 m.connection_qos) _ m.connection_qos m
            (Reads-read_number o 2 m.connection_qos (omega (arith, h.connection_qos)))
            (Reads-then _ _ (string_bytes o m.auth_method) m.auth_method m
              (Reads-read_string o m.auth_method h.auth_method.0 h.auth_method.1) (Reads-pure m))))

-- A client's validation reply, with numbers of their widths and a method of valid UTF-8 below
-- 2 ^ 31 bytes, is decoded back as it was. The cursor stops at the null byte that the writer puts
-- behind it, which the decoder leaves.
pub validated-decode-encode :
    (m : ConnectionValidated) (w : PvaWriter) (rest : List ℕ)
    → IsValidated m
    → decode (reading (encode m w) (length w.buf) rest)
      ≡ (ok m, reading (encode m w) (length (encode m w).buf - 1) rest)
validated-decode-encode m w rest h =
    undone_before w rest (validated_bytes w.order m) (255 ∷ []) (encode m) decode m
      (Writes-validated w.order m h) (Reads-validated w.order m h)
