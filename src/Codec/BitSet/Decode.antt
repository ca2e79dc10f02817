-- ===== src/Codec/BitSet/Decode.antt =====
-- A set that is read from the wire: the bits of the bytes, the lowest of each byte first.
use aura_epics.Prelude.{
  ℕ, ◌+◌, ◌-◌, ◌*◌, ◌/◌, ◌%◌, ◌^◌, ◌≤◌, ◌<◌, List, [], ◌∷◌, ◌++◌, false, bit_or, ◌≡◌, refl, ap, sym,
  ◌∙◌, inl, inr, length, replicate, All, ltb, ◌==◌, arith, Bool-cases, ==_iff, ok, length-replicate,
  append-nil, append_assoc,
}
use aura_epics.Codec.ByteOrder.{ByteOrder}
use aura_epics.Codec.PvData.Reads.{Reads, Reads-bind, Reads-then, Reads-pure, Reads-read_bytes}
use aura_epics.Codec.PvData.RoundTrip.{size_bytes, string_bytes, Reads-read_size_non_null}
use aura_epics.Codec.PvData.Inverse.{reading, taken_back, write_byte_array_lem}
use aura_epics.Codec.PvData.Writer.{PvaWriter, write_byte_array}
use aura_epics.Prelude.Digits.{digit, digit-zero}
use aura_epics.Codec.BitSet.{
  PvaBitSet, inline_words, inline_bits, is_set, get_word, put_word, decode_words, decode,
  with_capacity, new,
}
use aura_epics.Codec.BitSet.Words.{get_word_lem, is_set-digit, get_or-replicate}
use aura_epics.Codec.BitSet.Bytes.{
  bit_at, length-snoc, overflow-put_word, Progress, Progress-within, Progress-full, Progress-ends,
}

decode_words-bits :
    (raw done : List ℕ) (wi b word : ℕ) (bs : PvaBitSet)
    → Progress done wi b word bs
    → All (λ v. v < 2 ^ 8) raw
    → length done + length raw ≤ (inline_words + length bs.overflow) * 8
    → (i : ℕ)
    → digit (get_word (decode_words raw wi b word bs) (i / 64)) (i % 64) ≡ bit_at (done ++ raw) i
unfolding decode_words
decode_words-bits [] done wi b word bs p hs room i =
    Progress-ends done wi b word bs p (omega (arith, room)) i
    ∙ ap (λ l. bit_at l i) (sym (append-nil done))
decode_words-bits (v ∷ raw) done wi b word bs p (hv, hs) room i =
    let later : bit_at ((done ++ (v ∷ [])) ++ raw) i ≡ bit_at (done ++ (v ∷ raw)) i =
      ap (λ l. bit_at l i) (append_assoc done (v ∷ []) raw) in
    elim (Bool-cases (b + 1 == 8)) [
      | inl full ↦
          let ends : b + 1 ≡ 8 = (==_iff (b + 1) 8).0 full in
          let within : wi < inline_words + length bs.overflow =
            omega (arith, room, p.count, ends) in
          let put = put_word wi (bit_or word (v * 2 ^ (b * 8))) bs in
          rw full (
            decode_words-bits raw (done ++ (v ∷ [])) (wi + 1) 0 0 put
              (Progress-full done wi b word v bs p hv ends within) hs
              (omega (
                arith,
                room,
                length-snoc done v,
                overflow-put_word wi (bit_or word (v * 2 ^ (b * 8))) bs,
              ))
              i
            ∙ later)
      | inr more ↦ rw more (
          decode_words-bits raw (done ++ (v ∷ [])) wi (b + 1) (bit_or word (v * 2 ^ (b * 8))) bs
            (Progress-within done wi b word v bs p hv (ground (arith, p.partial))) hs
            (omega (arith, room, length-snoc done v)) i
          ∙ later)
    ]

get_word-with_capacity : (n j : ℕ) → get_word (with_capacity n) j ≡ 0
unfolding with_capacity new
get_word-with_capacity n j =
    get_word_lem (with_capacity n) j ∙ elim (Bool-cases (ltb j inline_words)) [
      | inl inside ↦ rw inside (get_or-replicate inline_words j)
      | inr outside ↦ rw outside (elim (Bool-cases (ltb inline_bits n)) [
        | inl large ↦ rw large (get_or-replicate ((n - inline_bits + 63) / 64) (j - inline_words))
        | inr small ↦ rw small refl
      ])
    ]

capacity_enough : (n : ℕ) → n ≤ (inline_words + length (with_capacity (n * 8)).overflow) * 8
unfolding with_capacity
capacity_enough n = elim (Bool-cases (ltb inline_bits (n * 8))) [
  | inl large ↦
      let nothing : ℕ = 0 in
      let words : length (replicate ((n * 8 - inline_bits + 63) / 64) nothing)
          ≡ (n * 8 - inline_bits + 63) / 64 =
        length-replicate ((n * 8 - inline_bits + 63) / 64) nothing in
      rw (large, words) (omega arith)
  | inr small ↦ rw small (ground arith)
]

-- the set that a list of bytes stands for
from_raw : List ℕ → PvaBitSet
from_raw [] = new
from_raw (v ∷ raw) = decode_words (v ∷ raw) 0 0 0 (with_capacity (length (v ∷ raw) * 8))

begun : (n : ℕ) → Progress [] 0 0 0 (with_capacity n)
unfolding with_capacity new bit_at
begun n = record {
  two = refl;
  count = refl;
  partial = omega arith;
  whole = λ j k hj hk. absurd (omega arith);
  empty = λ j hj. get_word-with_capacity n j;
  so_far = λ k hk. digit-zero k ∙ sym (digit-zero ((0 * 64 + k) % 8));
}

from_raw-bits :
    (raw : List ℕ)
    → All (λ v. v < 2 ^ 8) raw
    → (i : ℕ) → is_set (from_raw raw) i ≡ (bit_at raw i == 1)
unfolding from_raw new bit_at with_capacity
from_raw-bits [] h i =
    is_set-digit (with_capacity 0) i
    ∙ ap (λ w. digit w (i % 64) == 1) (get_word-with_capacity 0 (i / 64))
    ∙ ap (λ d. d == 1) (digit-zero (i % 64) ∙ sym (digit-zero (i % 8)))
from_raw-bits (v ∷ raw) h i =
    is_set-digit (decode_words (v ∷ raw) 0 0 0 (with_capacity (length (v ∷ raw) * 8))) i
    ∙ ap (λ d. d == 1)
        (decode_words-bits (v ∷ raw) [] 0 0 0 (with_capacity (length (v ∷ raw) * 8)) (begun _) h
          (omega (arith, capacity_enough (length (v ∷ raw)))) i)

Reads-decode :
    (o : ByteOrder) (raw : List ℕ)
    → length raw < 2 ^ 31
    → Reads o decode (string_bytes o raw) (from_raw raw)
unfolding decode from_raw
Reads-decode o [] h =
    Reads-bind _ _ (size_bytes o 0) [] 0 new (Reads-read_size_non_null o 0 h) (Reads-pure new)
Reads-decode o (v ∷ raw) h =
    let some_bytes : (length (v ∷ raw) == 0) ≡ false = ground arith in
    Reads-bind _ _ (size_bytes o (length (v ∷ raw))) (v ∷ raw) (length (v ∷ raw))
      (from_raw (v ∷ raw)) (Reads-read_size_non_null o (length (v ∷ raw)) h)
      (rw some_bytes
        (Reads-then _ _ (v ∷ raw) (v ∷ raw) _ (Reads-read_bytes o (v ∷ raw)) (Reads-pure _)))

-- A set is decoded from every array of fewer than 2 ^ 31 bytes, and what lies behind the bytes is
-- left: an index is in the set exactly if its bit is 1, the lowest bit of the first byte being that
-- of index 0, and no index behind the bytes is.
pub decode-write_byte_array :
    (raw : List ℕ) (w : PvaWriter) (rest : List ℕ)
    → length raw < 2 ^ 31
    → All (λ v. v < 2 ^ 8) raw
    → (bs : PvaBitSet) × ((decode (reading (write_byte_array raw w) (length w.buf) rest)
          ≡ (ok bs, reading (write_byte_array raw w) (length (write_byte_array raw w).buf) rest))
        × ((i : ℕ) → is_set bs i ≡ (bit_at raw i == 1)))
decode-write_byte_array raw w rest h hs = (
  from_raw raw,
  (
    rw (write_byte_array_lem raw w (omega arith)) (
        taken_back w (string_bytes w.order raw) rest decode (from_raw raw)
          (Reads-decode w.order raw h)),
    from_raw-bits raw hs,
  ),
)
