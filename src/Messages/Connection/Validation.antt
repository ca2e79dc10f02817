-- ===== src/Messages/Connection/Validation.antt =====
-- `ConnectionValidation` of crates/aura-net/src/messages/connection.rs.
use aura_epics.Prelude.{
  ℕ, ◌<◌, ◌^◌, ◌≡◌, List, [], ◌∷◌, ◌++◌, true, ok, pure, ◌>>=◌, length, All, arith,
}
use aura_epics.Codec.ByteOrder.{ByteOrder, write_word}
use aura_epics.Codec.PvData.Utf8.{is_utf8}
use aura_epics.Codec.PvData.Reader.{
  Decoder, read_i32, read_i16, read_size_non_null, read_string, read_many,
}
use aura_epics.Codec.PvData.Reads.{
  Reads, Reads-pure, Reads-bind, Reads-then, Reads-read_number, Reads-read_many, written,
}
use aura_epics.Codec.PvData.RoundTrip.{
  size_bytes, string_bytes, Reads-read_size_non_null, Reads-read_string,
}
use aura_epics.Codec.PvData.Writer.{
  PvaWriter, write_i32, write_i16, write_size, write_string, write_many,
}
use aura_epics.Codec.PvData.Writes.{
  Writes, Writes-then, Writes-write_number, Writes-write_size, Writes-write_string,
  Writes-write_many, undone,
}
use aura_epics.Codec.PvData.Inverse.{reading}

pub record ConnectionValidation : Type 0 where
  pub server_buffer_size : ℕ
  pub server_registry_size : ℕ
  pub auth_methods : List (List ℕ)

unfoldable pub decode : Decoder ConnectionValidation
decode = do
  buffer ← read_i32
  registry ← read_i16
  count ← read_size_non_null
  methods ← read_many count read_string
  pure (record {
    server_buffer_size = buffer;
    server_registry_size = registry;
    auth_methods = methods;
  })

unfoldable pub encode : ConnectionValidation → PvaWriter → PvaWriter
encode m w = write_many write_string m.auth_methods (
    write_size (length m.auth_methods)
      (write_i16 m.server_registry_size (write_i32 m.server_buffer_size w)))

-- 32 and 16-bit numbers, and fewer than 2 ^ 31 methods of valid UTF-8 below 2 ^ 31 bytes.
pub record IsValidation (m : ConnectionValidation) : Type 0 where
  pub server_buffer_size : m.server_buffer_size < 2 ^ 32
  pub server_registry_size : m.server_registry_size < 2 ^ 16
  pub count : length m.auth_methods < 2 ^ 31
  pub methods : All (λ s. (is_utf8 s ≡ true) × (length s < 2 ^ 31)) m.auth_methods

abbrev validation_bytes : ByteOrder → ConnectionValidation → List ℕ
validation_bytes o m =
    write_word o 4 m.server_buffer_size
    ++ (write_word o 2 m.server_registry_size
        ++ (size_bytes o (length m.auth_methods) ++ written (string_bytes o) m.auth_methods))

module _ (o : ByteOrder) where
  each_Reads :
      (ss : List (List ℕ))
      → All (λ s. (is_utf8 s ≡ true) × (length s < 2 ^ 31)) ss
      → All (λ s. Reads o read_string (string_bytes o s) s) ss
  each_Reads [] h = tt
  each_Reads (s ∷ ss) ((valid, short), hs) = (Reads-read_string o s valid short, each_Reads ss hs)

  each_Writes :
      (ss : List (List ℕ))
      → All (λ s. (is_utf8 s ≡ true) × (length s < 2 ^ 31)) ss
      → All (λ s. Writes o (write_string s) (string_bytes o s)) ss
  each_Writes [] h = tt
  each_Writes (s ∷ ss) ((valid, short), hs) =
      (Writes-write_string o s (omega (arith, short)), each_Writes ss hs)

  Writes-validation :
      (m : ConnectionValidation) → IsValidation m → Writes o (encode m) (validation_bytes o m)
  unfolding encode
  Writes-validation m h =
      Writes-then (write_i32 m.server_buffer_size) _ _ _
        (Writes-write_number o 4 m.server_buffer_size)
        (Writes-then (write_i16 m.server_registry_size) _ _ _
          (Writes-write_number o 2 m.server_registry_size)
          (Writes-then (write_size (length m.auth_methods)) _ _ _
            (Writes-write_size o (length m.auth_methods) (omega (arith, h.count)))
            (Writes-write_many write_string (string_bytes o) m.auth_methods
              (each_Writes m.auth_methods h.methods))))

  Reads-validation :
      (m : ConnectionValidation) → IsValidation m → Reads o decode (validation_bytes o m) m
  unfolding decode
  Reads-validation m h =
      Reads-bind _ _ (write_word o 4 m.server_buffer_size) _ m.server_buffer_size m
        (Reads-read_number o 4 m.server_buffer_size (omega (arith, h.server_buffer_size)))
        (Reads-bind _ _ (write_word o 2 m.server_registry_size) _ m.server_registry_size m
          (Reads-read_number o 2 m.server_registry_size (omega (arith, h.server_registry_size)))
          (Reads-bind _ _ (size_bytes o (length m.auth_methods)) _ (length m.auth_methods) m
            (Reads-read_size_non_null o (length m.auth_methods) h.count)
            (Reads-then _ _ (written (string_bytes o) m.auth_methods) m.auth_methods m
              (Reads-read_many read_string (string_bytes o) m.auth_methods
                (each_Reads m.auth_methods h.methods))
              (Reads-pure m))))

-- A server's validation request with 32 and 16-bit numbers and fewer than 2 ^ 31 methods, each of
-- valid UTF-8 below 2 ^ 31 bytes, is decoded back as it was and the cursor stops where the writer
-- stopped.
pub validation-decode-encode :
    (m : ConnectionValidation) (w : PvaWriter) (rest : List ℕ)
    → IsValidation m
    → decode (reading (encode m w) (length w.buf) rest)
      ≡ (ok m, reading (encode m w) (length (encode m w).buf) rest)
validation-decode-encode m w rest h =
    undone w rest (validation_bytes w.order m) (encode m) decode m (Writes-validation w.order m h)
      (Reads-validation w.order m h)
