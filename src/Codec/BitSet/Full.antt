-- ===== src/Codec/BitSet/Full.antt =====
-- The set of all indices below a bound.
use aura_epics.Prelude.{
  [], ℕ, zero, suc, ◌+◌, ◌-◌, ◌/◌, ◌%◌, ◌^◌, ◌≤◌, ◌<◌, min, List, true, false, ◌&&◌, ◌≡◌, refl, ap,
  sym, ◌∙◌, inl, inr, length, get_or, set, replicate, ltb, leb, ◌==◌, if◌then◌else◌, arith,
  Bool-cases, ==_iff, get_or_beyond, get_or-set_self, get_or-set_ne, length-set, length-replicate,
  ◌*◌,
}
use aura_epics.Prelude.Digits.{digit, digit-zero, digit_complement, digit_above, pow_positive}
use aura_epics.Codec.BitSet.{
  inline_words, inline_bits, max_word, is_set, get_word, fill, last_word, with_capacity, all_set,
  new,
}
use aura_epics.Codec.BitSet.Indices.{TwoInline}
use aura_epics.Codec.BitSet.Words.{get_word_lem, is_set-digit, get_or-replicate}

abbrev the_zero : ℕ
the_zero = 0

length-fill : (s n v : ℕ) (ws : List ℕ) → length (fill s n v ws) ≡ length ws
unfolding fill
length-fill s zero v ws = refl
length-fill s (suc n) v ws = length-fill (suc s) n v (set ws s v) ∙ length-set ws s v

-- what the loop leaves at a position within the words
get_or-fill :
    (s n v : ℕ) (ws : List ℕ) (j : ℕ)
    → j < length ws
    → get_or (fill s n v ws) j 0 ≡ (if leb s j && ltb j (s + n) then v else get_or ws j 0)
unfolding fill
get_or-fill s zero v ws j h =
    let outside : (leb s j && ltb j (s + zero)) ≡ false = ground arith in rw outside refl
get_or-fill s (suc n) v ws j h =
    get_or-fill (suc s) n v (set ws s v) j (omega (arith, length-set ws s v))
    ∙ elim (Bool-cases (j == s)) [
      | inl same ↦
          let e : j ≡ s = (==_iff j s).0 same in
          let before : (leb (suc s) j && ltb j (suc s + n)) ≡ false = ground arith in
          let inside : (leb s j && ltb j (s + suc n)) ≡ true = ground arith in
          let here : s < length ws = omega (arith, e) in
          rw (before, inside) (rw e (get_or-set_self ws s v 0 here))
      | inr other ↦
          let as_before : (leb (suc s) j && ltb j (suc s + n)) ≡ (leb s j && ltb j (s + suc n)) =
            ground arith in
          rw (as_before, get_or-set_ne ws s j v 0 (λ e. ground arith)) refl
    ]

length-last_word : (r q : ℕ) (ws : List ℕ) → length (last_word r q ws) ≡ length ws
length-last_word r q ws = elim (Bool-cases (ltb 0 r)) [
  | inl more ↦ rw more (length-set ws q (2 ^ r - 1))
  | inr exact ↦ rw exact refl
]

-- the word of the set below `q * 64 + r` at a position
abbrev expected : ℕ → ℕ → ℕ → ℕ
expected q r j = if ltb j q then max_word else if j == q then 2 ^ r - 1 else 0

get_or-zeros_filled :
    (n q j : ℕ)
    → q ≤ n
    → get_or (fill 0 q max_word (replicate n 0)) j 0 ≡ (if ltb j q then max_word else 0)
get_or-zeros_filled n q j h =
    let size : length (fill 0 q max_word (replicate n 0)) ≡ n =
      length-fill 0 q max_word (replicate n 0) ∙ length-replicate n (the_zero) in
    elim (Bool-cases (ltb j n)) [
      | inl within ↦
          let inside : (leb 0 j && ltb j (0 + q)) ≡ ltb j q = ground arith in
          get_or-fill 0 q max_word (replicate n 0) j (ground (arith, length-replicate n the_zero))
          ∙ rw (inside, get_or-replicate n j) refl
      | inr beyond ↦
          let outside : ltb j q ≡ false = ground arith in
          rw outside (get_or_beyond _ j 0 (ground (arith, size)))
    ]

get_or-last_word :
    (q r j : ℕ) (ws : List ℕ)
    → (0 < r → q < length ws)
    → (r ≡ 0 → get_or ws q 0 ≡ 0)
    → get_or (last_word r q ws) j 0 ≡ (if j == q then 2 ^ r - 1 else get_or ws j 0)
get_or-last_word q r j ws room empty = elim (Bool-cases (ltb 0 r)) [
  | inl some_left ↦ rw some_left (elim (Bool-cases (j == q)) [
    | inl same ↦
        let e : j ≡ q = (==_iff j q).0 same in
        rw same (rw e (get_or-set_self ws q (2 ^ r - 1) 0 (room (ground arith))))
    | inr other ↦ rw other (get_or-set_ne ws q j (2 ^ r - 1) 0 (λ e. ground arith))
  ])
  | inr none_left ↦
      let zero_left : r ≡ 0 = ground arith in
      rw none_left (elim (Bool-cases (j == q)) [
        | inl same ↦
            let e : j ≡ q = (==_iff j q).0 same in rw (same, zero_left, e) (empty zero_left)
        | inr other ↦ rw other refl
      ])
]

get_or-filled :
    (n q r j : ℕ)
    → q ≤ n
    → (0 < r → q < n)
    → get_or (last_word r q (fill 0 q max_word (replicate n 0))) j 0 ≡ expected q r j
get_or-filled n q r j h room =
    let size : length (fill 0 q max_word (replicate n 0)) ≡ n =
      length-fill 0 q max_word (replicate n 0) ∙ length-replicate n the_zero in
    let not_before : ltb q q ≡ false = ground arith in
    get_or-last_word q r j _ (λ p. omega (arith, room p, size))
      (λ e. get_or-zeros_filled n q q h ∙ rw not_before refl)
    ∙ rw (get_or-zeros_filled n q j h) (elim (Bool-cases (j == q)) [
      | inl same ↦ let before : ltb j q ≡ false = ground arith in rw (same, before) refl
      | inr other ↦ rw other refl
    ])

expected_shift :
    (q r j : ℕ)
    → inline_words ≤ q
    → inline_words ≤ j
    → expected (q - inline_words) r (j - inline_words) ≡ expected q r j
expected_shift q r j h k =
    let before : ltb (j - inline_words) (q - inline_words) ≡ ltb j q = ground arith in
    let here : (j - inline_words == q - inline_words) ≡ (j == q) = ground arith in
    rw (before, here) refl

-- `all_set n` by the number of its full words.
all_set_inline :
    (n : ℕ)
    → ltb (n / 64) inline_words ≡ true
    → (j : ℕ) → get_word (all_set n) j ≡ expected (n / 64) (n % 64) j
unfolding all_set with_capacity new fill
all_set_inline n h j =
    let small : ltb inline_bits n ≡ false = ground arith in
    let count : min (n / 64) inline_words ≡ n / 64 = ground arith in
    get_word_lem (all_set n) j
    ∙ rw (h, small, count)
        (elim (Bool-cases (ltb j inline_words)) [
          | inl here ↦
              rw here
                (get_or-filled inline_words (n / 64) (n % 64) j (ground arith) (λ p. ground arith))
          | inr there ↦
              let before : ltb j (n / 64) ≡ false = ground arith in
              let other : (j == n / 64) ≡ false = ground arith in
              let none_full : n / 64 - inline_words ≡ 0 = ground arith in
              rw (none_full, there, before, other) refl
        ])

overflow_words :
    (n : ℕ)
    → inline_bits ≤ n
    → (if ltb inline_bits n then replicate ((n - inline_bits + 63) / 64) the_zero else [])
      ≡ replicate ((n - inline_bits + 63) / 64) the_zero
overflow_words n h = elim (Bool-cases (ltb inline_bits n)) [
  | inl more ↦ rw more refl
  | inr exact ↦
      let none_there : (n - inline_bits + 63) / 64 ≡ 0 = ground arith in rw (exact, none_there) refl
]

all_set_overflow :
    (n : ℕ)
    → ltb (n / 64) inline_words ≡ false
    → (j : ℕ) → get_word (all_set n) j ≡ expected (n / 64) (n % 64) j
unfolding all_set with_capacity new
all_set_overflow n h j =
    let count : min (n / 64) inline_words ≡ inline_words = ground arith in
    get_word_lem (all_set n) j
    ∙ rw (h, count, overflow_words n (ground arith))
        (elim (Bool-cases (ltb j inline_words)) [
          | inl here ↦
              let before : ltb j (n / 64) ≡ true = ground arith in
              rw (here, before)
                (get_or-zeros_filled inline_words inline_words j (omega arith) ∙ rw here refl)
          | inr there ↦ rw there (
              get_or-filled ((n - inline_bits + 63) / 64) (n / 64 - inline_words) (n % 64)
                (j - inline_words) (ground arith) (λ p. ground arith)
              ∙ expected_shift (n / 64) (n % 64) j (ground arith) (ground arith))
        ])

get_word-all_set : (n j : ℕ) → get_word (all_set n) j ≡ expected (n / 64) (n % 64) j
get_word-all_set n j = elim (Bool-cases (ltb (n / 64) inline_words)) [
  | inl small ↦ all_set_inline n small j
  | inr large ↦ all_set_overflow n large j
]

digit-ones : (r k : ℕ) → r ≤ 64 → (digit (2 ^ r - 1) k == 1) ≡ ltb k r
digit-ones r k h = elim (Bool-cases (ltb k r)) [
  | inl below ↦
      let minus : 2 ^ r - 1 - 0 ≡ 2 ^ r - 1 = omega arith in
      let one : digit (2 ^ r - 1) k ≡ 1 =
        ap (λ x. digit x k) (sym minus)
        ∙ digit_complement r 0 k (pow_positive r) (ground arith)
        ∙ rw (digit-zero k) refl in
      rw (below, one) refl
  | inr above ↦
      let none_there : digit (2 ^ r - 1) k ≡ 0 =
        digit_above r (2 ^ r - 1) k (omega (arith, pow_positive r)) (ground arith) in
      rw (above, none_there) refl
]

digit-expected :
    (q r j k : ℕ)
    → k < 64
    → r < 64
    → (digit (expected q r j) k == 1) ≡ ltb (j * 64 + k) (q * 64 + r)
digit-expected q r j k h hr = elim (Bool-cases (ltb j q)) [
  | inl full ↦
      let inside : ltb (j * 64 + k) (q * 64 + r) ≡ true = ground arith in
      let within : ltb k 64 ≡ true = ground arith in
      rw (full, inside) (digit-ones 64 k (omega arith) ∙ within)
  | inr not_full ↦ rw not_full (elim (Bool-cases (j == q)) [
    | inl last ↦
        let inside : ltb (j * 64 + k) (q * 64 + r) ≡ ltb k r = ground arith in
        rw (last, inside) (digit-ones r k (omega arith))
    | inr beyond ↦
        let outside : ltb (j * 64 + k) (q * 64 + r) ≡ false = ground arith in
        rw (beyond, outside, digit-zero k) refl
  ])
]

pub all_set-TwoInline : (n : ℕ) → TwoInline (all_set n)
unfolding all_set with_capacity new
all_set-TwoInline n = elim (Bool-cases (ltb (n / 64) inline_words)) [
  | inl small ↦ rw small (length-last_word _ _ _ ∙ length-fill 0 _ max_word _)
  | inr large ↦ rw large (length-fill 0 (min (n / 64) inline_words) max_word _)
]

-- The set that all_set n makes holds exactly the indices below n, within the object and in the
-- vector.
pub is_set-all_set : (n i : ℕ) → is_set (all_set n) i ≡ ltb i n
is_set-all_set n i =
    let split : ltb (i / 64 * 64 + i % 64) (n / 64 * 64 + n % 64) ≡ ltb i n = ground arith in
    is_set-digit (all_set n) i
    ∙ rw (get_word-all_set n (i / 64))
        (digit-expected (n / 64) (n % 64) (i / 64) (i % 64) (omega arith) (omega arith))
    ∙ split
