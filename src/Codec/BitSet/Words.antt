-- ===== src/Codec/BitSet/Words.antt =====
-- The words of a set behind each operation, and membership as a digit of a word.
use aura_epics.Prelude.{
  ℕ, zero, suc, ◌+◌, ◌-◌, ◌*◌, ◌/◌, ◌%◌, ◌^◌, ◌≤◌, ◌<◌, min, max, List, [], ◌∷◌, map, not, true,
  false, ◌≡◌, refl, ap, sym, ◌∙◌, inl, inr, length, get_or, set, take, replicate, ltb, leb, ◌==◌,
  if◌then◌else◌, arith, Bool-cases, get_or_beyond, get_or-set_self, get_or-set_ne, length-append,
  length-take, length-replicate, ==_iff,
}
use aura_epics.Prelude.Digits.{
  digit, pow_positive, digit_lt, digit-zero, and_pow, digit-bit_and, digit-bit_or,
}
use aura_epics.Codec.BitSet.{
  PvaBitSet, or_words, and_words, inline_words, inline_bits, has, is_set, get_word, resize, grown,
  update, or_words, and_words,
}

pub get_word_lem :
    (bs : PvaBitSet) (i : ℕ)
    → get_word bs i ≡ (
        if ltb i inline_words
        then get_or bs.inline i 0
        else get_or bs.overflow (i - inline_words) 0)
unfolding get_word
get_word_lem bs i = elim (Bool-cases (ltb i inline_words)) [
  | inl here ↦ rw here refl
  | inr there ↦ elim (Bool-cases (ltb (i - inline_words) (length bs.overflow))) [
    | inl within ↦ rw (there, within) refl
    | inr beyond ↦
        rw (there, beyond) (sym (get_or_beyond bs.overflow (i - inline_words) 0 (ground arith)))
  ]
]

product_test : (d p : ℕ) → d < 2 → 0 < p → not (d * p == 0) ≡ (d == 1)
product_test zero p h q = let e : zero * p ≡ 0 = omega arith in rw e refl
product_test (suc zero) p h q =
    let e : suc zero * p ≡ p = omega arith in
    let positive : (p == 0) ≡ false = ground arith in rw (e, positive) refl
product_test (suc (suc d)) p h q = absurd (omega arith)

has-digit : (w k : ℕ) → has w (2 ^ k) ≡ (digit w k == 1)
has-digit w k =
    ap (λ x. not (x == 0)) (and_pow w k)
    ∙ product_test (digit w k) (2 ^ k) (digit_lt w k) (pow_positive k)

-- Membership is a digit of a word.
pub is_set-digit :
    (bs : PvaBitSet) (i : ℕ) → is_set bs i ≡ (digit (get_word bs (i / 64)) (i % 64) == 1)
unfolding is_set get_word
is_set-digit bs i = elim (Bool-cases (ltb i inline_bits)) [
  | inl here ↦
      let word : ltb (i / 64) inline_words ≡ true = ground arith in
      rw (here, word) (has-digit (get_or bs.inline (i / 64) 0) (i % 64))
  | inr there ↦
      let word : ltb (i / 64) inline_words ≡ false = ground arith in
      elim (Bool-cases (ltb (i / 64 - inline_words) (length bs.overflow))) [
        | inl within ↦
            rw (there, word, within)
              (has-digit (get_or bs.overflow (i / 64 - inline_words) 0) (i % 64))
        | inr beyond ↦ rw (there, word, beyond, digit-zero (i % 64)) refl
      ]
]

-- one word changed
abbrev pub at_word : (ℕ → ℕ) → ℕ → (ℕ → ℕ) → ℕ → ℕ
at_word f i words j = if j == i then f (words j) else words j

pub get_or-update :
    (f : ℕ → ℕ) (i j : ℕ) (ws : List ℕ)
    → i < length ws
    → get_or (update f i ws) j 0 ≡ at_word f i (λ k. get_or ws k 0) j
get_or-update f i j ws h = elim (Bool-cases (j == i)) [
  | inl same ↦ let e : j ≡ i = (==_iff j i).0 same in rw (same, e) (get_or-set_self ws i _ 0 h)
  | inr other ↦ rw other (get_or-set_ne ws i j _ 0 (λ e. ground arith))
]

set_beyond : (ws : List ℕ) (i v : ℕ) → length ws ≤ i → set ws i v ≡ ws
set_beyond [] i v h = refl
set_beyond (w ∷ ws) zero v h = absurd (omega arith)
set_beyond (w ∷ ws) (suc i) v h = ap (λ l. w ∷ l) (set_beyond ws i v (omega arith))

-- A change that keeps 0 may miss the words.
pub get_or-update_zero :
    (f : ℕ → ℕ) (i j : ℕ) (ws : List ℕ)
    → f 0 ≡ 0
    → get_or (update f i ws) j 0 ≡ at_word f i (λ k. get_or ws k 0) j
get_or-update_zero f i j ws h = elim (Bool-cases (ltb i (length ws))) [
  | inl within ↦ get_or-update f i j ws (ground arith)
  | inr beyond ↦
      let same : get_or (update f i ws) j 0 ≡ get_or ws j 0 =
        ap (λ l. get_or l j 0) (set_beyond ws i _ (ground arith)) in
      elim (Bool-cases (j == i)) [
        | inl here ↦
            let none_there : get_or ws j 0 ≡ 0 = get_or_beyond ws j 0 (ground arith) in
            rw here (same ∙ none_there ∙ sym (rw none_there h))
        | inr there ↦ rw there same
      ]
]

pub get_or-replicate : (n j : ℕ) → get_or {A = ℕ} (replicate n 0) j 0 ≡ 0
get_or-replicate zero j = refl
get_or-replicate (suc n) zero = refl
get_or-replicate (suc n) (suc j) = get_or-replicate n j

pub get_or-resize :
    (n j : ℕ) (ws : List ℕ) → length ws ≤ n → get_or (resize n ws) j 0 ≡ get_or ws j 0
get_or-resize zero j [] h = refl
get_or-resize (suc n) j [] h =
    let e : suc n - zero ≡ suc n = omega arith in rw e (get_or-replicate (suc n) j)
get_or-resize zero j (w ∷ ws) h = absurd (omega arith)
get_or-resize (suc n) zero (w ∷ ws) h = refl
get_or-resize (suc n) (suc j) (w ∷ ws) h =
    let e : suc n - suc (length ws) ≡ n - length ws = omega arith in
    rw e (get_or-resize n j ws (omega arith))

pub length-resize : (n : ℕ) (ws : List ℕ) → length ws ≤ n → length (resize n ws) ≡ n
length-resize n ws h =
    let nothing : ℕ = 0 in
    omega (
      arith,
      length-append (take n ws) (replicate (n - length ws) 0),
      length-take n ws,
      length-replicate (n - length ws) nothing,
    )

pub get_or-grown : (i j : ℕ) (ws : List ℕ) → get_or (grown i ws) j 0 ≡ get_or ws j 0
unfolding grown
get_or-grown i j ws = elim (Bool-cases (leb (length ws) i)) [
  | inl short ↦ rw short (get_or-resize (i + 1) j ws (ground arith))
  | inr within ↦ rw within refl
]

pub grown_within : (i : ℕ) (ws : List ℕ) → i < length (grown i ws)
unfolding grown
grown_within i ws = elim (Bool-cases (leb (length ws) i)) [
  | inl short ↦ rw short (omega (arith, length-resize (i + 1) ws (ground arith)))
  | inr within ↦ rw within (ground arith)
]

pub get_or-update-grown :
    (f : ℕ → ℕ) (i j : ℕ) (ws : List ℕ)
    → get_or (update f i (grown i ws)) j 0 ≡ at_word f i (λ k. get_or ws k 0) j
get_or-update-grown f i j ws =
    get_or-update f i j (grown i ws) (grown_within i ws) ∙ rw (get_or-grown i j ws) refl

pub get_or-zeros : (j : ℕ) (ws : List ℕ) → get_or {A = ℕ} (map (λ w. 0) ws) j 0 ≡ 0
get_or-zeros j [] = refl
get_or-zeros zero (w ∷ ws) = refl
get_or-zeros (suc j) (w ∷ ws) = get_or-zeros j ws

pub digit-or_words :
    (j k : ℕ) (xs ys : List ℕ)
    → length ys ≤ length xs
    → digit (get_or (or_words xs ys) j 0) k
      ≡ max (digit (get_or xs j 0) k) (digit (get_or ys j 0) k)
unfolding or_words
digit-or_words j k [] [] h = omega (arith, digit-zero k)
digit-or_words j k [] (y ∷ ys) h = absurd (omega arith)
digit-or_words j k (x ∷ xs) [] h = omega (arith, digit-zero k)
digit-or_words zero k (x ∷ xs) (y ∷ ys) h = digit-bit_or x y k
digit-or_words (suc j) k (x ∷ xs) (y ∷ ys) h = digit-or_words j k xs ys (omega arith)

pub digit-and_words :
    (j k : ℕ) (xs ys : List ℕ)
    → digit (get_or (and_words xs ys) j 0) k
      ≡ min (digit (get_or xs j 0) k) (digit (get_or ys j 0) k)
unfolding and_words
digit-and_words j k [] ys = omega (arith, digit-zero k)
digit-and_words j k (x ∷ xs) [] = omega (arith, digit-zero k)
digit-and_words zero k (x ∷ xs) (y ∷ ys) = digit-bit_and x y k
digit-and_words (suc j) k (x ∷ xs) (y ∷ ys) = digit-and_words j k xs ys

pub length-or_words : (xs ys : List ℕ) → length (or_words xs ys) ≡ length xs
unfolding or_words
length-or_words [] ys = refl
length-or_words (x ∷ xs) [] = refl
length-or_words (x ∷ xs) (y ∷ ys) = ap suc (length-or_words xs ys)

pub length-and_words : (xs ys : List ℕ) → length (and_words xs ys) ≡ min (length xs) (length ys)
unfolding and_words
length-and_words [] ys = omega arith
length-and_words (x ∷ xs) [] = omega arith
length-and_words (x ∷ xs) (y ∷ ys) = omega (arith, length-and_words xs ys)
