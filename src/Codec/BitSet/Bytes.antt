-- ===== src/Codec/BitSet/Bytes.antt =====
-- The loop over the bytes of a set: what each turn adds to the words.
use aura_epics.Prelude.{
  ℕ, zero, suc, ◌+◌, ◌-◌, ◌*◌, ◌/◌, ◌%◌, ◌^◌, ◌≤◌, ◌<◌, List, [], ◌∷◌, ◌++◌, true, false, bit_or,
  ◌≡◌, refl, ap, sym, ◌∙◌, inl, inr, length, get_or, set, ltb, ◌==◌, if◌then◌else◌, arith,
  Bool-cases, ==_iff, get_or_beyond, get_or-set_self, get_or-set_ne, length-set, length-append,
  if_intro,
}
use aura_epics.Prelude.Digits.{
  digit, digit-zero, digit_above, digit-bit_or, digit-shift_below, digit-shift_above,
}
use aura_epics.Codec.BitSet.{PvaBitSet, inline_words, get_word, put_word}
use aura_epics.Codec.BitSet.Words.{get_word_lem}
use aura_epics.Codec.BitSet.Indices.{TwoInline}

-- the bit of an index in a list of bytes
unfoldable pub bit_at : List ℕ → ℕ → ℕ
bit_at raw i = digit (get_or raw (i / 8) 0) (i % 8)

get_or-snoc :
    (xs : List ℕ) (v j : ℕ)
    → get_or (xs ++ (v ∷ [])) j 0 ≡ (if j == length xs then v else get_or xs j 0)
get_or-snoc [] v zero = refl
get_or-snoc [] v (suc j) = let behind : (suc j == 0) ≡ false = ground arith in rw behind refl
get_or-snoc (x ∷ xs) v zero =
    let ahead : (0 == suc (length xs)) ≡ false = ground arith in rw ahead refl
get_or-snoc (x ∷ xs) v (suc j) =
    let shifted : (suc j == suc (length xs)) ≡ (j == length xs) = ground arith in
    get_or-snoc xs v j ∙ rw shifted refl

-- The words behind an assignment of one.
pub get_word-put_word :
    (i word : ℕ) (bs : PvaBitSet)
    → TwoInline bs
    → i < inline_words + length bs.overflow
    → (j : ℕ) → get_word (put_word i word bs) j ≡ (if j == i then word else get_word bs j)
unfolding put_word
get_word-put_word i word bs two room j = elim (Bool-cases (ltb i inline_words)) [
  | inl inside ↦
      rw (inside, get_word_lem bs j)
        (get_word_lem (record bs { inline = set bs.inline i word }) j ∙ elim (Bool-cases (j == i)) [
          | inl e ↦
              let same_place : j ≡ i = (==_iff j i).0 e in
              let place : ltb j inline_words ≡ true = ground arith in
              rw (place, e)
                (ap (λ x. get_or (set bs.inline i word) x 0) same_place
                  ∙ get_or-set_self bs.inline i word 0 (ground (arith, two)))
          | inr e ↦ elim (Bool-cases (ltb j inline_words)) [
            | inl place ↦ rw (place, e) (get_or-set_ne bs.inline i j word 0 (λ q. ground arith))
            | inr place ↦ rw (place, e) refl
          ]
        ])
  | inr outside ↦
      rw (outside, get_word_lem bs j)
        (get_word_lem (record bs { overflow = set bs.overflow (i - inline_words) word }) j
          ∙ elim (Bool-cases (j == i)) [
            | inl e ↦
                let same_place : j - inline_words ≡ i - inline_words = ground arith in
                let place : ltb j inline_words ≡ false = ground arith in
                rw (place, e)
                  (ap (λ x. get_or (set bs.overflow (i - inline_words) word) x 0) same_place
                    ∙ get_or-set_self bs.overflow (i - inline_words) word 0 (ground arith))
            | inr e ↦ elim (Bool-cases (ltb j inline_words)) [
              | inl place ↦ rw (place, e) refl
              | inr place ↦
                  rw (place, e)
                    (get_or-set_ne bs.overflow (i - inline_words) (j - inline_words) word 0
                      (λ q. ground arith))
            ]
          ])
]

-- What the loop has done behind `done`: the words before the position are whole, those from it on
-- are empty, and the value so far holds the bytes of the word.
pub record Progress (done : List ℕ) (wi b word : ℕ) (bs : PvaBitSet) : Type 0 where
  pub two : TwoInline bs
  pub count : length done ≡ wi * 8 + b
  pub partial : b < 8
  pub whole : (j k : ℕ) → j < wi → k < 64 → digit (get_word bs j) k ≡ bit_at done (j * 64 + k)
  pub empty : (j : ℕ) → wi ≤ j → get_word bs j ≡ 0
  pub so_far : (k : ℕ) → k < 64 → digit word k ≡ bit_at done (wi * 64 + k)

-- A byte behind the others.
bit_at-snoc :
    (done : List ℕ) (v i : ℕ)
    → bit_at (done ++ (v ∷ [])) i
      ≡ (if i / 8 == length done then digit v (i % 8) else bit_at done i)
unfolding bit_at
bit_at-snoc done v i = elim (Bool-cases (i / 8 == length done)) [
  | inl e ↦ rw e (ap (λ w. digit w (i % 8)) (get_or-snoc done v (i / 8) ∙ rw e refl))
  | inr e ↦ rw e (ap (λ w. digit w (i % 8)) (get_or-snoc done v (i / 8) ∙ rw e refl))
]

pub bit_at_beyond : (done : List ℕ) (i : ℕ) → length done ≤ i / 8 → bit_at done i ≡ 0
unfolding bit_at
bit_at_beyond done i h =
    ap (λ w. digit w (i % 8)) (get_or_beyond done (i / 8) 0 h) ∙ digit-zero (i % 8)

-- The value so far, with the next byte put above the bytes that it has.
next_so_far :
    (done : List ℕ) (wi b word v : ℕ)
    → v < 2 ^ 8
    → length done ≡ wi * 8 + b
    → b < 8
    → ((k : ℕ) → k < 64 → digit word k ≡ bit_at done (wi * 64 + k))
    → (k : ℕ) → k < 64
    → digit (bit_or word (v * 2 ^ (b * 8))) k ≡ bit_at (done ++ (v ∷ [])) (wi * 64 + k)
next_so_far done wi b word v hv count partial h k hk =
    let place : (wi * 64 + k) / 8 ≡ wi * 8 + k / 8 = omega arith in
    let within : (wi * 64 + k) % 8 ≡ k % 8 = omega arith in
    rw
      (
        digit-bit_or word (v * 2 ^ (b * 8)) k,
        bit_at-snoc done v (wi * 64 + k),
        h k hk,
        place,
        within,
        count,
      )
      (elim (Bool-cases (wi * 8 + k / 8 == wi * 8 + b)) [
        | inl here ↦
            let above : b * 8 + k % 8 ≡ k = ground arith in
            let shifted : digit (v * 2 ^ (b * 8)) k ≡ digit v (k % 8) =
              ap (digit (v * 2 ^ (b * 8))) (sym above) ∙ digit-shift_above v (b * 8) (k % 8) in
            let nothing : bit_at done (wi * 64 + k) ≡ 0 =
              bit_at_beyond done (wi * 64 + k) (ground (arith, count, place)) in
            rw (here, shifted, nothing) (omega arith)
        | inr other ↦ elim (Bool-cases (ltb k (b * 8))) [
          | inl before ↦
              let shifted : digit (v * 2 ^ (b * 8)) k ≡ 0 =
                digit-shift_below v (b * 8) k (ground arith) in
              rw (other, shifted) (omega arith)
          | inr behind ↦
              let above : b * 8 + (k - b * 8) ≡ k = ground arith in
              let shifted : digit (v * 2 ^ (b * 8)) k ≡ 0 =
                ap (digit (v * 2 ^ (b * 8))) (sym above)
                ∙ digit-shift_above v (b * 8) (k - b * 8)
                ∙ digit_above 8 v (k - b * 8) hv (ground arith) in
              rw (other, shifted) (omega arith)
        ]
      ])

pub put_word-TwoInline :
    (i word : ℕ) (bs : PvaBitSet) → TwoInline bs → TwoInline (put_word i word bs)
unfolding put_word
put_word-TwoInline i word bs two =
    if_intro TwoInline (ltb i inline_words) _ _ (λ inside. length-set bs.inline i word ∙ two)
      (λ outside. two)

pub overflow-put_word :
    (i word : ℕ) (bs : PvaBitSet) → length (put_word i word bs).overflow ≡ length bs.overflow
unfolding put_word
overflow-put_word i word bs =
    if_intro (λ x. length x.overflow ≡ length bs.overflow) (ltb i inline_words)
      (record bs { inline = set bs.inline i word })
      (record bs { overflow = set bs.overflow (i - inline_words) word }) (λ inside. refl)
      (λ outside. length-set bs.overflow (i - inline_words) word)

pub length-snoc : (done : List ℕ) (v : ℕ) → length (done ++ (v ∷ [])) ≡ length done + 1
length-snoc done v = length-append done (v ∷ [])

-- A byte behind the others leaves the words before it.
bit_at-before :
    (done : List ℕ) (v j k wi b : ℕ)
    → length done ≡ wi * 8 + b
    → j < wi
    → k < 64
    → bit_at (done ++ (v ∷ [])) (j * 64 + k) ≡ bit_at done (j * 64 + k)
bit_at-before done v j k wi b count h hk =
    let other : ((j * 64 + k) / 8 == length done) ≡ false = ground (arith, count) in
    bit_at-snoc done v (j * 64 + k) ∙ rw other refl

module _ (done : List ℕ) (wi b word v : ℕ) (bs : PvaBitSet) (p : Progress done wi b word bs)
    (hv : v < 2 ^ 8) where
  pub Progress-within :
      b + 1 < 8 → Progress (done ++ (v ∷ [])) wi (b + 1) (bit_or word (v * 2 ^ (b * 8))) bs
  Progress-within h = record {
    two = p.two;
    count = omega (arith, length-snoc done v, p.count);
    partial = h;
    whole = λ j k hj hk. p.whole j k hj hk ∙ sym (bit_at-before done v j k wi b p.count hj hk);
    empty = p.empty;
    so_far = next_so_far done wi b word v hv p.count p.partial p.so_far;
  }

  pub Progress-full :
      b + 1 ≡ 8
      → wi < inline_words + length bs.overflow
      → Progress (done ++ (v ∷ [])) (wi + 1) 0 0 (put_word wi (bit_or word (v * 2 ^ (b * 8))) bs)
  Progress-full h room = record {
    two = put_word-TwoInline wi _ bs p.two;
    count = omega (arith, length-snoc done v, p.count, h);
    partial = omega arith;
    whole = λ j k hj hk.
        ap (λ w. digit w k) (get_word-put_word wi (bit_or word (v * 2 ^ (b * 8))) bs p.two room j)
        ∙ elim (Bool-cases (j == wi)) [
          | inl e ↦
              let same_place : j ≡ wi = (==_iff j wi).0 e in
              rw (e, same_place) (next_so_far done wi b word v hv p.count p.partial p.so_far k hk)
          | inr e ↦
              let before : j < wi = ground arith in
              rw e (p.whole j k before hk ∙ sym (bit_at-before done v j k wi b p.count before hk))
        ];
    empty = λ j hj.
        let other : (j == wi) ≡ false = ground arith in
        get_word-put_word wi (bit_or word (v * 2 ^ (b * 8))) bs p.two room j
        ∙ rw other (p.empty j (omega arith));
    so_far = λ k hk.
        digit-zero k
        ∙ sym (
            bit_at_beyond (done ++ (v ∷ [])) ((wi + 1) * 64 + k)
              (omega (arith, length-snoc done v, p.count, h)));
  }

-- Behind the last byte the words hold the bits of all.
pub Progress-ends :
    (done : List ℕ) (wi b word : ℕ) (bs : PvaBitSet)
    → Progress done wi b word bs
    → length done ≤ (inline_words + length bs.overflow) * 8
    → (i : ℕ)
    → digit (get_word (if ltb 0 b then put_word wi word bs else bs) (i / 64)) (i % 64)
      ≡ bit_at done i
Progress-ends done wi b word bs p room i =
    let place : i / 64 * 64 + i % 64 ≡ i = omega arith in
    let within : i % 64 < 64 = omega arith in
    elim (Bool-cases (ltb (i / 64) wi)) [
      | inl before ↦
          let whole : digit (get_word bs (i / 64)) (i % 64) ≡ bit_at done i =
            p.whole (i / 64) (i % 64) (ground arith) within ∙ ap (bit_at done) place in
          elim (Bool-cases (ltb 0 b)) [
            | inl left ↦
                let other : (i / 64 == wi) ≡ false = ground arith in
                rw left (
                  ap (λ w. digit w (i % 64))
                    (get_word-put_word wi word bs p.two (ground (arith, p.count, room)) (i / 64)
                      ∙ rw other refl)
                  ∙ whole)
            | inr exact ↦ rw exact whole
          ]
      | inr behind ↦
          let nothing : digit (get_word bs (i / 64)) (i % 64) ≡ 0 =
            ap (λ w. digit w (i % 64)) (p.empty (i / 64) (ground arith)) ∙ digit-zero (i % 64) in
          elim (Bool-cases (ltb 0 b)) [
            | inl left ↦ rw left (
                ap (λ w. digit w (i % 64))
                  (get_word-put_word wi word bs p.two (ground (arith, p.count, room)) (i / 64))
                ∙ elim (Bool-cases (i / 64 == wi)) [
                  | inl e ↦
                      let here : wi * 64 + i % 64 ≡ i = ground arith in
                      rw e (p.so_far (i % 64) within ∙ ap (bit_at done) here)
                  | inr e ↦
                      rw e
                        (nothing ∙ sym (bit_at_beyond done i (ground (arith, p.count, p.partial))))
                ])
            | inr exact ↦ rw exact (nothing ∙ sym (bit_at_beyond done i (ground (arith, p.count))))
          ]
    ]
