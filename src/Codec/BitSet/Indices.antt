-- ===== src/Codec/BitSet/Indices.antt =====
-- Every operation against the set of indices that the words stand for.
use aura_epics.Prelude.{
  ℕ, zero, suc, ◌-◌, ◌/◌, ◌%◌, ◌^◌, ◌<◌, min, max, Bool, not, true, false, ◌&&◌, ◌||◌, ◌≡◌, refl,
  ◌∙◌, inl, inr, bit_and, bit_or, bit_xor, length, get_or, ltb, ◌==◌, if◌then◌else◌, arith,
  Bool-cases, ==_iff,
}
use Prim.Native.Nat.{differ}
use aura_epics.Prelude.Digits.{
  digit, digit_lt, digit-zero, digit-bit_and, digit-bit_or, digit-bit_xor, digit-pow_self,
  digit-pow_other, digit_complement, bit_and_zero_left, pow_lt_word,
}
use aura_epics.Codec.BitSet.{
  PvaBitSet, inline_words, inline_bits, mask_of, is_set, get_word, resize, update, not_word,
  set_bit, clear_bit, toggle, clear_all, bitor_assign, bitand,
}
use aura_epics.Codec.BitSet.Words.{
  get_word_lem, is_set-digit, at_word, get_or-update, get_or-update_zero, get_or-replicate,
  get_or-resize, length-resize, get_or-zeros, get_or-update-grown, get_or-update-grown,
  digit-or_words, digit-and_words,
}

-- The words within the object are two; a Rust array has that in its type.
abbrev pub TwoInline : PvaBitSet → Type 0
TwoInline bs = length bs.inline ≡ inline_words

-- What a change of one word does to its digits.
abbrev pub ActsOn : ℕ → (Bool → Bool) → (ℕ → ℕ) → Type 0
ActsOn i g f =
    (w k : ℕ)
    → k < 64
    → (digit (f w) k == 1) ≡ (if k == i then g (digit w k == 1) else (digit w k == 1))

-- one index changed
abbrev pub at_index : (Bool → Bool) → ℕ → (ℕ → Bool) → ℕ → Bool
at_index g i p j = if j == i then g (p j) else p j

ActsOn-or : (i : ℕ) → ActsOn i (λ b. true) (λ w. bit_or w (2 ^ i))
ActsOn-or i w k h = elim (Bool-cases (k == i)) [
  | inl same ↦
      let e : k ≡ i = (==_iff k i).0 same in
      let one : digit (2 ^ i) k ≡ 1 = rw e (digit-pow_self i) in
      rw same (ground (arith, digit-bit_or w (2 ^ i) k, one, digit_lt w k))
  | inr other ↦
      let none_there : digit (2 ^ i) k ≡ 0 = digit-pow_other i k (λ e. ground arith) in
      rw other (ground (arith, digit-bit_or w (2 ^ i) k, none_there))
]

differ_one : (x : ℕ) → x < 2 → (differ x 1 == 1) ≡ not (x == 1)
differ_one zero h = refl
differ_one (suc zero) h = refl
differ_one (suc (suc x)) h = absurd (omega arith)

differ_zero : (x : ℕ) → differ x 0 ≡ x
differ_zero zero = refl
differ_zero (suc x) = refl

ActsOn-xor : (i : ℕ) → ActsOn i not (λ w. bit_xor w (2 ^ i))
ActsOn-xor i w k h = elim (Bool-cases (k == i)) [
  | inl same ↦
      let e : k ≡ i = (==_iff k i).0 same in
      let one : digit (2 ^ i) k ≡ 1 = rw e (digit-pow_self i) in
      rw (same, digit-bit_xor w (2 ^ i) k, one) (differ_one (digit w k) (digit_lt w k))
  | inr other ↦
      let none_there : digit (2 ^ i) k ≡ 0 = digit-pow_other i k (λ e. ground arith) in
      rw (other, digit-bit_xor w (2 ^ i) k, none_there, differ_zero (digit w k)) refl
]

ActsOn-and_not : (i : ℕ) → i < 64 → ActsOn i (λ b. false) (λ w. bit_and w (not_word (2 ^ i)))
ActsOn-and_not i small w k h =
    let complement : digit (not_word (2 ^ i)) k ≡ 1 - digit (2 ^ i) k =
      digit_complement 64 (2 ^ i) k (pow_lt_word i small) h in
    elim (Bool-cases (k == i)) [
      | inl same ↦
          let e : k ≡ i = (==_iff k i).0 same in
          let one : digit (2 ^ i) k ≡ 1 = rw e (digit-pow_self i) in
          rw same (ground (arith, digit-bit_and w (not_word (2 ^ i)) k, complement, one))
      | inr other ↦
          let none_there : digit (2 ^ i) k ≡ 0 = digit-pow_other i k (λ e. ground arith) in
          rw other (
            ground
              (arith, digit-bit_and w (not_word (2 ^ i)) k, complement, none_there, digit_lt w k))
    ]

-- A set whose words differ from another's in one word, and there by one digit.
change_at :
    (f : ℕ → ℕ) (g : Bool → Bool) (i : ℕ) (bs bs' : PvaBitSet)
    → ActsOn (i % 64) g f
    → ((j : ℕ) → get_word bs' j ≡ at_word f (i / 64) (get_word bs) j)
    → (j : ℕ) → is_set bs' j ≡ at_index g i (is_set bs) j
change_at f g i bs bs' hf hw j =
    rw (is_set-digit bs' j, is_set-digit bs j, hw (j / 64))
      (elim (Bool-cases (j / 64 == i / 64)) [
        | inl same ↦ rw same (
            hf (get_word bs (j / 64)) (j % 64) (omega arith) ∙ (elim (Bool-cases (j == i)) [
              | inl here ↦
                  let digit_here : (j % 64 == i % 64) ≡ true = ground arith in
                  rw (here, digit_here) refl
              | inr there ↦
                  let digit_there : (j % 64 == i % 64) ≡ false = ground arith in
                  rw (there, digit_there) refl
            ]))
        | inr other ↦ let there : (j == i) ≡ false = ground arith in rw (other, there) refl
      ])

-- An update of one word, within the object or in the vector.
module _ (f : ℕ → ℕ) (i : ℕ) (bs bs' : PvaBitSet) (two : TwoInline bs) where
  word_inline :
      ltb i inline_bits ≡ true
      → bs'.inline ≡ update f (i / 64) bs.inline
      → bs'.overflow ≡ bs.overflow
      → (j : ℕ) → get_word bs' j ≡ at_word f (i / 64) (get_word bs) j
  word_inline h e o j =
      rw (get_word_lem bs' j, get_word_lem bs j, e, o)
        (elim (Bool-cases (ltb j inline_words)) [
          | inl here ↦ rw here (get_or-update f (i / 64) j bs.inline (ground (arith, two)))
          | inr there ↦ let other : (j == i / 64) ≡ false = ground arith in rw (there, other) refl
        ])

  word_overflow :
      ltb i inline_bits ≡ false
      → bs'.inline ≡ bs.inline
      → ((j : ℕ)
          → get_or bs'.overflow j 0
            ≡ at_word f (i / 64 - inline_words) (λ k. get_or bs.overflow k 0) j)
      → (j : ℕ) → get_word bs' j ≡ at_word f (i / 64) (get_word bs) j
  word_overflow h e o j =
      rw (get_word_lem bs' j, get_word_lem bs j, e)
        (elim (Bool-cases (ltb j inline_words)) [
          | inl here ↦ let other : (j == i / 64) ≡ false = ground arith in rw (here, other) refl
          | inr there ↦
              rw (there, o (j - inline_words))
                (elim (Bool-cases (j == i / 64)) [
                  | inl same ↦
                      let place : (j - inline_words == i / 64 - inline_words) ≡ true =
                        ground arith in
                      rw (same, place) refl
                  | inr other ↦
                      let place : (j - inline_words == i / 64 - inline_words) ≡ false =
                        ground arith in
                      rw (other, place) refl
                ])
        ])

module _ (i : ℕ) (bs : PvaBitSet) (two : TwoInline bs) where
  pub is_set-set_bit : (j : ℕ) → is_set (set_bit i bs) j ≡ at_index (λ b. true) i (is_set bs) j
  unfolding set_bit
  is_set-set_bit =
      let f : ℕ → ℕ = λ w. bit_or w (mask_of i) in
      change_at f (λ b. true) i bs _ (ActsOn-or (i % 64))
        (elim (Bool-cases (ltb i inline_bits)) [
          | inl here ↦ rw here (word_inline f i bs _ two here refl refl)
          | inr there ↦ rw there (
              word_overflow f i bs _ two there refl
                (λ j. get_or-update-grown f (i / 64 - inline_words) j bs.overflow))
        ])

  pub is_set-toggle : (j : ℕ) → is_set (toggle i bs) j ≡ at_index not i (is_set bs) j
  unfolding toggle
  is_set-toggle =
      let f : ℕ → ℕ = λ w. bit_xor w (mask_of i) in
      change_at f not i bs _ (ActsOn-xor (i % 64)) (elim (Bool-cases (ltb i inline_bits)) [
        | inl here ↦ rw here (word_inline f i bs _ two here refl refl)
        | inr there ↦ rw there (
            word_overflow f i bs _ two there refl
              (λ j. get_or-update-grown f (i / 64 - inline_words) j bs.overflow))
      ])

  pub is_set-clear_bit : (j : ℕ) → is_set (clear_bit i bs) j ≡ at_index (λ b. false) i (is_set bs) j
  unfolding clear_bit
  is_set-clear_bit =
      let f : ℕ → ℕ = λ w. bit_and w (not_word (mask_of i)) in
      change_at f (λ b. false) i bs _ (ActsOn-and_not (i % 64) (omega arith))
        (elim (Bool-cases (ltb i inline_bits)) [
          | inl here ↦ rw here (word_inline f i bs _ two here refl refl)
          | inr there ↦ rw there (
              word_overflow f i bs _ two there refl (λ j.
                get_or-update_zero f (i / 64 - inline_words) j bs.overflow
                  (bit_and_zero_left (not_word (mask_of i)))))
        ])

pub is_set-clear_all : (bs : PvaBitSet) (j : ℕ) → is_set (clear_all bs) j ≡ false
unfolding clear_all
is_set-clear_all bs j =
    let empty : get_word (clear_all bs) (j / 64) ≡ 0 =
      get_word_lem (clear_all bs) (j / 64) ∙ elim (Bool-cases (ltb (j / 64) inline_words)) [
        | inl here ↦ rw here (get_or-replicate inline_words (j / 64))
        | inr there ↦ rw there (get_or-zeros (j / 64 - inline_words) bs.overflow)
      ] in
    is_set-digit (clear_all bs) j ∙ rw (empty, digit-zero (j % 64)) refl

max_test : (x y : ℕ) → x < 2 → y < 2 → (max x y == 1) ≡ ((x == 1) || (y == 1))
max_test x y h k = ground arith

min_test : (x y : ℕ) → x < 2 → y < 2 → (min x y == 1) ≡ ((x == 1) && (y == 1))
min_test x y h k = ground arith

module _ (rhs bs : PvaBitSet) (two : TwoInline bs) (two' : TwoInline rhs) where
  digit-bitor_assign :
      (i k : ℕ)
      → digit (get_word (bitor_assign rhs bs) i) k
        ≡ max (digit (get_word bs i) k) (digit (get_word rhs i) k)
  unfolding bitor_assign
  digit-bitor_assign i k =
      rw (get_word_lem (bitor_assign rhs bs) i, get_word_lem bs i, get_word_lem rhs i)
        (elim (Bool-cases (ltb i inline_words)) [
          | inl here ↦ rw here (digit-or_words i k bs.inline rhs.inline (omega (arith, two, two')))
          | inr there ↦
              let longest = max (length bs.overflow) (length rhs.overflow) in
              let long : length (resize longest bs.overflow) ≡ longest =
                length-resize longest bs.overflow (omega arith) in
              rw there (
                digit-or_words (i - inline_words) k (resize longest bs.overflow) rhs.overflow
                  (omega (arith, long))
                ∙ rw (get_or-resize longest (i - inline_words) bs.overflow (omega arith)) refl)
        ])

  pub is_set-bitor_assign : (j : ℕ) → is_set (bitor_assign rhs bs) j ≡ (is_set bs j || is_set rhs j)
  is_set-bitor_assign j =
      rw
        (
          is_set-digit (bitor_assign rhs bs) j,
          is_set-digit bs j,
          is_set-digit rhs j,
          digit-bitor_assign (j / 64) (j % 64),
        )
        (max_test _ _ (digit_lt (get_word bs (j / 64)) (j % 64))
          (digit_lt (get_word rhs (j / 64)) (j % 64)))

  digit-bitand :
      (i k : ℕ)
      → digit (get_word (bitand rhs bs) i) k
        ≡ min (digit (get_word bs i) k) (digit (get_word rhs i) k)
  unfolding bitand
  digit-bitand i k =
      rw (get_word_lem (bitand rhs bs) i, get_word_lem bs i, get_word_lem rhs i)
        (elim (Bool-cases (ltb i inline_words)) [
          | inl here ↦ rw here (digit-and_words i k bs.inline rhs.inline)
          | inr there ↦ rw there (digit-and_words (i - inline_words) k bs.overflow rhs.overflow)
        ])

  pub is_set-bitand : (j : ℕ) → is_set (bitand rhs bs) j ≡ (is_set bs j && is_set rhs j)
  is_set-bitand j =
      rw
        (
          is_set-digit (bitand rhs bs) j,
          is_set-digit bs j,
          is_set-digit rhs j,
          digit-bitand (j / 64) (j % 64),
        )
        (min_test _ _ (digit_lt (get_word bs (j / 64)) (j % 64))
          (digit_lt (get_word rhs (j / 64)) (j % 64)))
