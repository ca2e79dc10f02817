-- ===== src/Codec/Header/RoundTrip.antt =====
-- Headers and their eight bytes.
use aura_epics.Prelude.{
  ℕ, ◌<◌, ◌^◌, ◌≡◌, ◌≢◌, refl, ap, sym, ◌∙◌, List, [], ◌∷◌, none, some, length, All, ◌==◌, arith,
  Bool-cases, inl, inr, ◌⊎◌,
}
use aura_epics.Codec.ByteOrder.{IsByte, from_flags, read_word, write_word}
use aura_epics.Codec.ByteOrder.RoundTrip.{
  length-write_word, read_word-write_word, write_word-read_word,
}
use aura_epics.Codec.Header.{PvaHeader, decode, encode, byte_order, at, header_size, pva_magic}

four_bytes : (bs : List ℕ) → length bs ≡ 4 → (at bs 0 ∷ at bs 1 ∷ at bs 2 ∷ at bs 3 ∷ []) ≡ bs
four_bytes [] h = absurd (omega arith)
four_bytes (a ∷ []) h = absurd (omega arith)
four_bytes (a ∷ b ∷ []) h = absurd (omega arith)
four_bytes (a ∷ b ∷ c ∷ []) h = absurd (omega arith)
four_bytes (a ∷ b ∷ c ∷ d ∷ []) h = refl
four_bytes (a ∷ b ∷ c ∷ d ∷ e ∷ bs) h = absurd (omega arith)

pub length-encode : (h : PvaHeader) → length (encode h) ≡ header_size
unfolding encode
length-encode h = omega (arith, length-write_word (byte_order h) 4 h.payload_size)

-- Every header whose payload size is an i32 decodes from its encoding, in either byte order.
pub decode-encode : (h : PvaHeader) → h.payload_size < 2 ^ 32 → decode (encode h) ≡ some h
unfolding encode decode byte_order
decode-encode h fits =
    let o = from_flags h.flags in
    let whole = four_bytes (write_word o 4 h.payload_size) (length-write_word o 4 h.payload_size) in
    ap (λ bs. some (record h { payload_size = read_word o bs })) whole
    ∙ ap (λ n. some (record h { payload_size = n })) (read_word-write_word o 4 h.payload_size fits)

decoded : (bs : List ℕ) → PvaHeader
unfolding byte_order
decoded bs = record {
  version = at bs 1;
  flags = at bs 2;
  command = at bs 3;
  payload_size = read_word (from_flags (at bs 2)) (at bs 4 ∷ at bs 5 ∷ at bs 6 ∷ at bs 7 ∷ []);
}

-- Eight bytes are accepted exactly if the first is the magic byte, and then what they decode to encodes to the same
-- eight bytes.
pub encode-decode :
    (a b c d e f g i : ℕ)
    → All IsByte (a ∷ b ∷ c ∷ d ∷ e ∷ f ∷ g ∷ i ∷ [])
    → ((h : PvaHeader) × (decode (a ∷ b ∷ c ∷ d ∷ e ∷ f ∷ g ∷ i ∷ []) ≡ some h)
        × (encode h ≡ a ∷ b ∷ c ∷ d ∷ e ∷ f ∷ g ∷ i ∷ [])
        × (a ≡ pva_magic))
      ⊎ ((decode (a ∷ b ∷ c ∷ d ∷ e ∷ f ∷ g ∷ i ∷ []) ≡ none) × (a ≢ pva_magic))
unfolding decode encode byte_order decoded
encode-decode a b c d e f g i bytes = elim (Bool-cases (a == pva_magic)) [
  | inl magic ↦
      let same : a ≡ pva_magic = ground arith in
      inl (
        decoded (a ∷ b ∷ c ∷ d ∷ e ∷ f ∷ g ∷ i ∷ []),
        rw magic,
        rw (write_word-read_word (from_flags c) (e ∷ f ∷ g ∷ i ∷ []) bytes.1.1.1.1)
            (ap (λ m. m ∷ b ∷ c ∷ d ∷ e ∷ f ∷ g ∷ i ∷ []) (sym same)),
        same,
      )
  | inr other ↦ inr (rw other, ground arith)
]
