-- ===== src/Codec/ByteOrder/RoundTrip.antt =====
-- Integers and their bytes, in either byte order.
use mathlib.Core.List.{reverse, reverse-reverse, reverse-append}
use aura_epics.Prelude.{
  ℕ, zero, suc, ◌+◌, ◌*◌, ◌/◌, ◌%◌, ◌^◌, ◌<◌, ◌≡◌, refl, ap, ◌∙◌, List, [], ◌∷◌, length,
  length-append, All, arith, sym, ◌++◌,
}
use aura_epics.Codec.ByteOrder.{
  ByteOrder, little_endian, big_endian, IsByte, to_le_bytes, from_le_bytes, read_word, write_word,
}

length-to_le_bytes : (k n : ℕ) → length (to_le_bytes k n) ≡ k
unfolding to_le_bytes
length-to_le_bytes zero n = refl
length-to_le_bytes (suc k) n = ap suc (length-to_le_bytes k (n / 256))

length-reverse : (xs : List ℕ) → length (reverse xs) ≡ length xs
length-reverse [] = refl
length-reverse (x ∷ xs) =
    ap length (reverse-append (x ∷ []) xs)
    ∙ length-append (reverse xs) (x ∷ [])
    ∙ omega (arith, length-reverse xs)

pub length-write_word : (o : ByteOrder) (k n : ℕ) → length (write_word o k n) ≡ k
unfolding write_word
length-write_word little_endian k n = length-to_le_bytes k n
length-write_word big_endian k n = length-reverse (to_le_bytes k n) ∙ length-to_le_bytes k n

from_le_bytes-to_le_bytes : (k n : ℕ) → n < 256 ^ k → from_le_bytes (to_le_bytes k n) ≡ n
unfolding to_le_bytes from_le_bytes
from_le_bytes-to_le_bytes zero n h = omega arith
from_le_bytes-to_le_bytes (suc k) n h =
    omega (arith, from_le_bytes-to_le_bytes k (n / 256) (omega arith))

pub read_word-write_word :
    (o : ByteOrder) (k n : ℕ) → n < 256 ^ k → read_word o (write_word o k n) ≡ n
unfolding read_word write_word
read_word-write_word little_endian k n h = from_le_bytes-to_le_bytes k n h
read_word-write_word big_endian k n h =
    ap from_le_bytes (reverse-reverse (to_le_bytes k n)) ∙ from_le_bytes-to_le_bytes k n h

to_le_bytes-from_le_bytes :
    (bs : List ℕ) → All IsByte bs → to_le_bytes (length bs) (from_le_bytes bs) ≡ bs
unfolding to_le_bytes from_le_bytes
to_le_bytes-from_le_bytes [] h = refl
to_le_bytes-from_le_bytes (b ∷ bs) (hb, hbs) =
    let low : (b + 256 * from_le_bytes bs) % 256 ≡ b = omega arith in
    let high : (b + 256 * from_le_bytes bs) / 256 ≡ from_le_bytes bs = omega arith in
    rw (low, high) (ap (λ l. b ∷ l) (to_le_bytes-from_le_bytes bs hbs))

All-reverse : (bs : List ℕ) → All IsByte bs → All IsByte (reverse bs)
All-reverse [] h = tt
All-reverse (b ∷ bs) (hb, hbs) =
    rw (reverse-append (b ∷ []) bs) (All-append (reverse bs) (b ∷ []) (All-reverse bs hbs) (hb, tt))
  where
    All-append : (xs ys : List ℕ) → All IsByte xs → All IsByte ys → All IsByte (xs ++ ys)
    All-append [] ys hx hy = hy
    All-append (x ∷ xs) ys (hx, hxs) hy = (hx, All-append xs ys hxs hy)

pub write_word-read_word :
    (o : ByteOrder) (bs : List ℕ) → All IsByte bs → write_word o (length bs) (read_word o bs) ≡ bs
unfolding read_word write_word
write_word-read_word little_endian bs h = to_le_bytes-from_le_bytes bs h
write_word-read_word big_endian bs h =
    ap (λ k. reverse (to_le_bytes k (from_le_bytes (reverse bs)))) (sym (length-reverse bs))
    ∙ ap reverse (to_le_bytes-from_le_bytes (reverse bs) (All-reverse bs h))
    ∙ reverse-reverse bs
