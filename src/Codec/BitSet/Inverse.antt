-- ===== src/Codec/BitSet/Inverse.antt =====
-- A set that is written and read again.
use aura_epics.Prelude.{
  ℕ, zero, suc, ◌+◌, ◌-◌, ◌*◌, ◌/◌, ◌%◌, ◌^◌, ◌≤◌, ◌<◌, List, [], ◌∷◌, ◌≡◌, refl, ap, sym, ◌∙◌, inl,
  inr, length, get_or, All, ltb, ◌==◌, if◌then◌else◌, arith, Bool-cases, ==_iff, ok, get_or_beyond,
  false,
}
use aura_epics.Codec.PvData.Inverse.{reading}
use aura_epics.Codec.PvData.Writer.{PvaWriter}
use aura_epics.Prelude.Digits.{digit, digit-zero, digit_above, digit-drop, digit-low}
use aura_epics.Codec.BitSet.{PvaBitSet, inline_words, is_set, get_word, decode}
use aura_epics.Codec.BitSet.Words.{get_word_lem, is_set-digit}
use aura_epics.Codec.BitSet.Bytes.{bit_at}
use aura_epics.Codec.BitSet.Decode.{decode-write_byte_array}
use aura_epics.Codec.BitSet.Encode.{
  leading_zeros, last_nonzero, bytes_in_last, words_used, encode, byte_of, tab, size_of, bytes_left,
  length-tab, get_or-tab, All-tab, bytes_in_last_le, encode_lem,
}

leading_zeros_lem : (n w : ℕ) → w < 2 ^ n → w < 2 ^ (n - leading_zeros n w)
unfolding leading_zeros
leading_zeros_lem zero w h = h
leading_zeros_lem (suc n) w h = elim (Bool-cases (ltb w (2 ^ n))) [
  | inl small ↦
      let count : suc n - suc (leading_zeros n w) ≡ n - leading_zeros n w = omega arith in
      rw (small, count) (leading_zeros_lem n w (ground arith))
  | inr large ↦ let none_leading : suc n - 0 ≡ suc n = omega arith in rw (large, none_leading) h
]

-- No digit of a word is at or behind the bytes that it needs.
bytes_in_last_enough : (w k : ℕ) → w < 2 ^ 64 → bytes_in_last w * 8 ≤ k → digit w k ≡ 0
unfolding bytes_in_last
bytes_in_last_enough w k h behind = elim (Bool-cases (w == 0)) [
  | inl none_set ↦ let nothing : w ≡ 0 = (==_iff w 0).0 none_set in rw nothing (digit-zero k)
  | inr some_set ↦
      let bytes : (if w == 0 then 0 else 8 - leading_zeros 64 w / 8) ≡ 8 - leading_zeros 64 w / 8 =
        rw some_set refl in
      digit_above (64 - leading_zeros 64 w) w k (leading_zeros_lem 64 w h)
        (omega (arith, bytes, behind))
]

-- The words from the last that is used on are 0.
last_nonzero_lem :
    (n : ℕ) (bs : PvaBitSet) (j : ℕ) → j < n → last_nonzero n bs ≤ j → get_word bs j ≡ 0
unfolding last_nonzero
last_nonzero_lem zero bs j h k = absurd (omega arith)
last_nonzero_lem (suc i) bs j h k = elim (Bool-cases (get_word bs i == 0)) [
  | inl none_set ↦
      let used : (if get_word bs i == 0 then last_nonzero i bs else suc i) ≡ last_nonzero i bs =
        rw none_set refl in
      elim (Bool-cases (j == i)) [
        | inl e ↦ ap (get_word bs) ((==_iff j i).0 e) ∙ (==_iff (get_word bs i) 0).0 none_set
        | inr e ↦ last_nonzero_lem i bs j (ground arith) (omega (arith, used, k))
      ]
  | inr some_set ↦
      let used : (if get_word bs i == 0 then last_nonzero i bs else suc i) ≡ suc i =
        rw some_set refl in
      absurd (omega (arith, used, k, h))
]

last_nonzero_le : (n : ℕ) (bs : PvaBitSet) → last_nonzero n bs ≤ n
unfolding last_nonzero
last_nonzero_le zero bs = omega arith
last_nonzero_le (suc i) bs = elim (Bool-cases (get_word bs i == 0)) [
  | inl none_set ↦ rw none_set (omega (arith, last_nonzero_le i bs))
  | inr some_set ↦ rw some_set (omega arith)
]

get_word_beyond :
    (bs : PvaBitSet) (j : ℕ) → inline_words + length bs.overflow ≤ j → get_word bs j ≡ 0
get_word_beyond bs j h =
    let outside : ltb j inline_words ≡ false = ground arith in
    get_word_lem bs j ∙ rw outside (get_or_beyond bs.overflow (j - inline_words) 0 (omega arith))

unused : (bs : PvaBitSet) (j : ℕ) → words_used bs ≤ j → get_word bs j ≡ 0
unused bs j h = elim (Bool-cases (ltb j (inline_words + length bs.overflow))) [
  | inl within ↦ last_nonzero_lem (inline_words + length bs.overflow) bs j (ground arith) h
  | inr beyond ↦ get_word_beyond bs j (ground arith)
]

bytes_left_lem : (n in_last : ℕ) → 0 < n → bytes_left n in_last ≡ (n - 1) * 8 + in_last
bytes_left_lem zero in_last h = absurd (omega arith)
bytes_left_lem (suc n) in_last h = omega arith

bytes_left_le : (n in_last : ℕ) → in_last ≤ 8 → bytes_left n in_last ≤ n * 8
bytes_left_le zero in_last h = omega arith
bytes_left_le (suc n) in_last h = omega arith

byte_bits :
    (bs : PvaBitSet) (i : ℕ)
    → digit (byte_of bs (i / 8)) (i % 8) ≡ digit (get_word bs (i / 64)) (i % 64)
unfolding byte_of
byte_bits bs i =
    let word : i / 8 / 8 ≡ i / 64 = omega arith in
    let place : i / 8 % 8 * 8 + i % 8 ≡ i % 64 = omega arith in
    rw word (
      digit-low 8 (get_word bs (i / 64) / 2 ^ (i / 8 % 8 * 8)) (i % 8) (omega arith)
      ∙ digit-drop (get_word bs (i / 64)) (i / 8 % 8 * 8) (i % 8)
      ∙ ap (digit (get_word bs (i / 64))) place)

-- Behind the bytes that are written there is no digit.
no_bits_behind :
    (bs : PvaBitSet) (i : ℕ)
    → ((j : ℕ) → get_word bs j < 2 ^ 64)
    → size_of bs ≤ i / 8
    → digit (get_word bs (i / 64)) (i % 64) ≡ 0
unfolding size_of
no_bits_behind bs i words behind = elim (Bool-cases (ltb (i / 64) (words_used bs))) [
  | inl used ↦
      let in_last : ℕ = bytes_in_last (get_word bs (words_used bs - 1)) in
      let some_words : 0 < words_used bs = ground arith in
      let bytes : bytes_left (words_used bs) in_last ≡ (words_used bs - 1) * 8 + in_last =
        bytes_left_lem (words_used bs) in_last some_words in
      let last : i / 64 ≡ words_used bs - 1 = ground (arith, bytes, behind) in
      ap (λ j. digit (get_word bs j) (i % 64)) last
      ∙ bytes_in_last_enough (get_word bs (words_used bs - 1)) (i % 64) (words _)
          (omega (arith, bytes, behind, last))
  | inr beyond ↦
      ap (λ w. digit w (i % 64)) (unused bs (i / 64) (ground arith)) ∙ digit-zero (i % 64)
]

bits_written :
    (bs : PvaBitSet) (i : ℕ)
    → ((j : ℕ) → get_word bs j < 2 ^ 64)
    → bit_at (tab (byte_of bs) 0 (size_of bs)) i ≡ digit (get_word bs (i / 64)) (i % 64)
unfolding bit_at
bits_written bs i words = elim (Bool-cases (ltb (i / 8) (size_of bs))) [
  | inl inside ↦
      let place : 0 + i / 8 ≡ i / 8 = omega arith in
      ap (λ v. digit v (i % 8)) (get_or-tab (byte_of bs) 0 (size_of bs) (i / 8))
      ∙ rw (inside, place) (byte_bits bs i)
  | inr behind ↦
      ap (λ v. digit v (i % 8)) (get_or-tab (byte_of bs) 0 (size_of bs) (i / 8))
      ∙ rw behind (digit-zero (i % 8) ∙ sym (no_bits_behind bs i words (ground arith)))
]

size_of_le : (bs : PvaBitSet) → size_of bs ≤ (inline_words + length bs.overflow) * 8
unfolding size_of
size_of_le bs =
    let in_last : ℕ = bytes_in_last (get_word bs (words_used bs - 1)) in
    omega (
      arith,
      bytes_left_le (words_used bs) in_last (bytes_in_last_le (get_word bs (words_used bs - 1))),
      last_nonzero_le (inline_words + length bs.overflow) bs,
    )

byte_of_lt : (bs : PvaBitSet) (p : ℕ) → byte_of bs p < 256
unfolding byte_of
byte_of_lt bs p = omega arith

abbrev pub AreWords : List ℕ → Type 0
AreWords = All (λ w. w < 2 ^ 64)

get_or-AreWords : (ws : List ℕ) (i : ℕ) → AreWords ws → get_or ws i 0 < 2 ^ 64
get_or-AreWords [] i h = omega arith
get_or-AreWords (w ∷ ws) zero (h, hs) = h
get_or-AreWords (w ∷ ws) (suc i) (h, hs) = get_or-AreWords ws i hs

get_word_fits :
    (bs : PvaBitSet) → AreWords bs.inline → AreWords bs.overflow → (j : ℕ) → get_word bs j < 2 ^ 64
get_word_fits bs inline overflow j = elim (Bool-cases (ltb j inline_words)) [
  | inl inside ↦
      let here : get_word bs j ≡ get_or bs.inline j 0 = get_word_lem bs j ∙ rw inside refl in
      omega (arith, here, get_or-AreWords bs.inline j inline)
  | inr outside ↦
      let here : get_word bs j ≡ get_or bs.overflow (j - inline_words) 0 =
        get_word_lem bs j ∙ rw outside refl in
      omega (arith, here, get_or-AreWords bs.overflow (j - inline_words) overflow)
]

-- A set of words of 64 bits that is written, with fewer than 2 ^ 28 - 2 words in its vector, is
-- decoded to a set of the same indices, and what lies behind it is left.
pub bit_set-decode-encode :
    (bs : PvaBitSet) (w : PvaWriter) (rest : List ℕ)
    → AreWords bs.inline
    → AreWords bs.overflow
    → length bs.overflow + 2 < 2 ^ 28
    → (back : PvaBitSet) × ((decode (reading (encode bs w) (length w.buf) rest)
          ≡ (ok back, reading (encode bs w) (length (encode bs w).buf) rest))
        × ((i : ℕ) → is_set back i ≡ is_set bs i))
bit_set-decode-encode bs w rest inline overflow few =
    let bytes : List ℕ = tab (byte_of bs) 0 (size_of bs) in
    let size : length bytes ≡ size_of bs = length-tab (byte_of bs) 0 (size_of bs) in
    let (back, (read, bits)) =
      decode-write_byte_array bytes w rest (omega (arith, size, size_of_le bs, few))
        (All-tab (byte_of bs) 0 (size_of bs) (byte_of_lt bs)) in
    (
      back,
      (
        rw (encode_lem bs w) read,
        λ i.
            bits i
            ∙ ap (λ d. d == 1) (bits_written bs i (get_word_fits bs inline overflow))
            ∙ sym (is_set-digit bs i),
      ),
    )
