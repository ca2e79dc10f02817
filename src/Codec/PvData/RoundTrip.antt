-- ===== src/Codec/PvData/RoundTrip.antt =====
-- What each write of `PvaWriter` appends, and that the read of the same name takes it back.
use aura_epics.Prelude.{
  ℕ, ◌<◌, ◌^◌, ◌%◌, ◌≡◌, ap, ◌∙◌, List, [], ◌∷◌, ◌++◌, true, false, some, append_assoc, length, ltb,
  ◌==◌, leb, if◌then◌else◌, Bool-cases, inl, inr, arith,
}
use aura_epics.Codec.ByteOrder.{ByteOrder, write_word}
use aura_epics.Codec.PvData.Utf8.{is_utf8}
use aura_epics.Codec.PvData.Reader.{
  read_size, read_size_non_null, read_string, size_of_tag, extended_size, read_utf8,
}
use aura_epics.Codec.PvData.Reads.{
  Reads, Reads-pure, Reads-bind, Reads-then, Reads-read_bytes, Reads-read_u8, Reads-read_number,
}
use aura_epics.Codec.PvData.Writer.{
  PvaWriter, append, write_size, write_string, write_u8, write_number,
}

-- The encodings, by the wire format's rules.
abbrev pub size_bytes : ByteOrder → ℕ → List ℕ
size_bytes o n = if ltb n 254 then n ∷ [] else 254 ∷ write_word o 4 n

abbrev pub string_bytes : ByteOrder → List ℕ → List ℕ
string_bytes o s = size_bytes o (length s) ++ s

pub append-append : (w : PvaWriter) (a b : List ℕ) → append (append w a) b ≡ append w (a ++ b)
append-append w a b = ap (λ l. record w { buf = l }) (append_assoc w.buf a b)

pub write_size_lem :
    (n : ℕ) (w : PvaWriter) → n < 2 ^ 32 → write_size n w ≡ append w (size_bytes w.order n)
unfolding write_size write_u8 write_number
write_size_lem n w h = elim (Bool-cases (ltb n 254)) [
  | inl small ↦ let e : n % 256 ≡ n = ground arith in rw (small, e)
  | inr large ↦
      let e : n % 2 ^ 32 ≡ n = omega arith in
      rw (large, e) (append-append w (254 ∷ []) (write_word w.order 4 n))
]

pub write_string_lem :
    (s : List ℕ) (w : PvaWriter)
    → length s < 2 ^ 32
    → write_string s w ≡ append w (string_bytes w.order s)
unfolding write_string
write_string_lem s w h =
    ap (λ v. append v s) (write_size_lem (length s) w h)
    ∙ append-append w (size_bytes w.order (length s)) s

module _ (o : ByteOrder) where
  Reads-extended_size : (n : ℕ) → n < 2 ^ 31 → Reads o extended_size (write_word o 4 n) (some n)
  unfolding extended_size
  Reads-extended_size n h =
      let positive : leb (2 ^ 31) n ≡ false = ground arith in
      Reads-then _ _ (write_word o 4 n) n (some n) (Reads-read_number o 4 n (omega arith))
        (rw positive (Reads-pure (some n)))

  pub Reads-read_size : (n : ℕ) → n < 2 ^ 31 → Reads o read_size (size_bytes o n) (some n)
  unfolding read_size size_of_tag
  Reads-read_size n h = elim (Bool-cases (ltb n 254)) [
    | inl small ↦
        let not_null : (n == 255) ≡ false = ground arith in
        let not_extended : (n == 254) ≡ false = ground arith in
        rw small (
          Reads-then _ _ (n ∷ []) n (some n) (Reads-read_u8 o n)
            (rw (not_null, not_extended) (Reads-pure (some n))))
    | inr large ↦ rw large (
        Reads-bind _ _ (254 ∷ []) (write_word o 4 n) 254 (some n) (Reads-read_u8 o 254)
          (Reads-extended_size n h))
  ]

  pub Reads-read_size_non_null :
      (n : ℕ) → n < 2 ^ 31 → Reads o read_size_non_null (size_bytes o n) n
  unfolding read_size_non_null
  Reads-read_size_non_null n h =
      Reads-then _ _ (size_bytes o n) (some n) n (Reads-read_size n h) (Reads-pure n)

  pub Reads-read_utf8 : (s : List ℕ) → is_utf8 s ≡ true → Reads o (read_utf8 (length s)) s s
  unfolding read_utf8
  Reads-read_utf8 [] valid = Reads-pure []
  Reads-read_utf8 (b ∷ s) valid =
      let occupied : (length (b ∷ s) == 0) ≡ false = ground arith in
      rw occupied (
        Reads-then _ _ (b ∷ s) (b ∷ s) (b ∷ s) (Reads-read_bytes o (b ∷ s))
          (rw valid (Reads-pure (b ∷ s))))

  pub Reads-read_string :
      (s : List ℕ) → is_utf8 s ≡ true → length s < 2 ^ 31 → Reads o read_string (string_bytes o s) s
  unfolding read_string
  Reads-read_string s valid h =
      Reads-bind _ _ (size_bytes o (length s)) s (length s) s
        (Reads-read_size_non_null (length s) h) (Reads-read_utf8 s valid)
