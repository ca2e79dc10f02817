-- ===== src/Codec/Header/Tests.antt =====
-- Concrete headers, and the theorems at them.
use aura_epics.Prelude.{ℕ, ◌≡◌, ◌≢◌, ◌≤◌, ◌⊎◌, ◌↔◌, refl, [], ◌∷◌, true, none, some, ok, arith}
use aura_epics.Codec.ByteOrder.{write_word}
use aura_epics.Codec.Header.{
  PvaHeader, decode, encode, byte_order, is_control, validate, pva_magic, max_payload_size,
}
use aura_epics.Codec.Header.RoundTrip.{decode-encode, encode-decode}
use aura_epics.Codec.Header.Validate.{validate_iff}

-- a big-endian monitor response of the server, 258 bytes long
abbrev response : PvaHeader
response = record { version = 2; flags = 0xc0; command = 0x0d; payload_size = 258 }

response_bytes : encode response ≡ 0xca ∷ 2 ∷ 0xc0 ∷ 0x0d ∷ 0 ∷ 0 ∷ 1 ∷ 2 ∷ []
unfolding encode byte_order write_word
response_bytes = refl

decode-encode_example : decode (encode response) ≡ some response
decode-encode_example = decode-encode response (omega arith)

encode-decode_example :
    ((h : PvaHeader) × (decode (0xca ∷ 2 ∷ 0xc0 ∷ 0x0d ∷ 0 ∷ 0 ∷ 1 ∷ 2 ∷ []) ≡ some h)
      × (encode h ≡ 0xca ∷ 2 ∷ 0xc0 ∷ 0x0d ∷ 0 ∷ 0 ∷ 1 ∷ 2 ∷ [])
      × (◌≡◌ {A = ℕ} 0xca pva_magic))
    ⊎ ((decode (0xca ∷ 2 ∷ 0xc0 ∷ 0x0d ∷ 0 ∷ 0 ∷ 1 ∷ 2 ∷ []) ≡ none) × (◌≢◌ {A = ℕ} 0xca pva_magic))
encode-decode_example = encode-decode 0xca 2 0xc0 0x0d 0 0 1 2 (omega arith)

validate_example :
    (validate response ≡ ok tt)
    ↔ ((1 ≤ 2) × ((is_control response ≡ true) ⊎ (258 ≤ max_payload_size)))
validate_example = validate_iff response
