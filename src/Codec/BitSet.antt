-- ===== src/Codec/BitSet.antt =====
-- crates/aura-net/src/codec/bitset.rs: the set of changed fields, as words of 64 bits. Two words
-- stand in the object, the others in a vector. `bit_count` stays below 2 ^ 64: it is an index of a
-- field or eight times a length that was read.
pub mod Words
pub mod Indices
pub mod Steps
pub mod Full
pub mod Bytes
pub mod Decode
pub mod Encode
pub mod Inverse
mod Tests
use aura_epics.Prelude.{
  ℕ, zero, suc, ◌+◌, ◌-◌, ◌*◌, ◌/◌, ◌%◌, ◌^◌, min, max, List, [], ◌∷◌, ◌++◌, map, Bool, not, ◌&&◌,
  bit_and, bit_or, bit_xor, length, get_or, set, take, replicate, ltb, leb, ◌==◌, if◌then◌else◌,
  pure, ◌>>=◌,
}
use aura_epics.Codec.PvData.Reader.{Decoder, read_size_non_null, read_bytes}

abbrev pub inline_words : ℕ
inline_words = 2

abbrev pub inline_bits : ℕ
inline_bits = 128

abbrev pub max_word : ℕ
max_word = 2 ^ 64 - 1

pub record PvaBitSet : Type 0 where
  pub inline : List ℕ
  pub overflow : List ℕ
  pub bit_count : ℕ

unfoldable pub new : PvaBitSet
new = record { inline = replicate inline_words 0; overflow = []; bit_count = 0 }

-- `(n - INLINE_BITS).div_ceil(64)` words where n is beyond the two, else none
unfoldable pub with_capacity : ℕ → PvaBitSet
with_capacity n = record new {
  overflow = if ltb inline_bits n then replicate ((n - inline_bits + 63) / 64) 0 else [];
  bit_count = n;
}

-- `word_mask`
abbrev pub word_of : ℕ → ℕ
word_of index = index / 64

abbrev pub mask_of : ℕ → ℕ
mask_of index = 2 ^ (index % 64)

-- `w & mask != 0`
abbrev pub has : ℕ → ℕ → Bool
has w mask = not (bit_and w mask == 0)

unfoldable pub is_set : PvaBitSet → ℕ → Bool
is_set bs index =
    if ltb index inline_bits
    then has (get_or bs.inline (word_of index) 0) (mask_of index)
    else ltb (word_of index - inline_words) (length bs.overflow)
      && has (get_or bs.overflow (word_of index - inline_words) 0) (mask_of index)

-- `Vec::resize` with 0
abbrev pub resize : ℕ → List ℕ → List ℕ
resize n ws = take n ws ++ replicate (n - length ws) 0

-- `if ow >= self.overflow.len() { self.overflow.resize(ow + 1, 0) }`
unfoldable pub grown : ℕ → List ℕ → List ℕ
grown ow ws = if leb (length ws) ow then resize (ow + 1) ws else ws

-- an assignment to the word at the position
abbrev pub update : (ℕ → ℕ) → ℕ → List ℕ → List ℕ
update f i ws = set ws i (f (get_or ws i 0))

-- `!mask`
abbrev pub not_word : ℕ → ℕ
not_word mask = max_word - mask

abbrev pub counted : ℕ → PvaBitSet → ℕ
counted index bs = if leb bs.bit_count index then index + 1 else bs.bit_count

unfoldable pub set_bit : ℕ → PvaBitSet → PvaBitSet
set_bit index bs =
    if ltb index inline_bits
    then record bs {
      inline = update (λ w. bit_or w (mask_of index)) (word_of index) bs.inline;
      bit_count = counted index bs;
    }
    else record bs {
      overflow =
          update (λ w. bit_or w (mask_of index)) (word_of index - inline_words)
            (grown (word_of index - inline_words) bs.overflow);
      bit_count = counted index bs;
    }

-- An index beyond the vector is not in the set, and `update` leaves the words as they are.
unfoldable pub clear_bit : ℕ → PvaBitSet → PvaBitSet
clear_bit index bs =
    if ltb index inline_bits
    then record bs {
      inline = update (λ w. bit_and w (not_word (mask_of index))) (word_of index) bs.inline;
    }
    else record bs {
      overflow =
          update (λ w. bit_and w (not_word (mask_of index))) (word_of index - inline_words)
            bs.overflow;
    }

unfoldable pub clear_all : PvaBitSet → PvaBitSet
clear_all bs = record bs { inline = replicate inline_words 0; overflow = map (λ w. 0) bs.overflow }

unfoldable pub toggle : ℕ → PvaBitSet → PvaBitSet
toggle index bs =
    if ltb index inline_bits
    then record bs {
      inline = update (λ w. bit_xor w (mask_of index)) (word_of index) bs.inline;
      bit_count = counted index bs;
    }
    else record bs {
      overflow =
          update (λ w. bit_xor w (mask_of index)) (word_of index - inline_words)
            (grown (word_of index - inline_words) bs.overflow);
      bit_count = counted index bs;
    }

-- `for (i, &w) in rhs { words[i] |= w }`
unfoldable pub or_words : List ℕ → List ℕ → List ℕ
or_words [] ys = []
or_words (x ∷ xs) [] = x ∷ xs
or_words (x ∷ xs) (y ∷ ys) = bit_or x y ∷ or_words xs ys

unfoldable pub and_words : List ℕ → List ℕ → List ℕ
and_words [] ys = []
and_words (x ∷ xs) [] = []
and_words (x ∷ xs) (y ∷ ys) = bit_and x y ∷ and_words xs ys

unfoldable pub bitor_assign : PvaBitSet → PvaBitSet → PvaBitSet
bitor_assign rhs bs = record {
  inline = or_words bs.inline rhs.inline;
  overflow =
      or_words (resize (max (length bs.overflow) (length rhs.overflow)) bs.overflow) rhs.overflow;
  bit_count = max bs.bit_count rhs.bit_count;
}

unfoldable pub bitand : PvaBitSet → PvaBitSet → PvaBitSet
bitand rhs bs = record {
  inline = and_words bs.inline rhs.inline;
  overflow = and_words bs.overflow rhs.overflow;
  bit_count = min bs.bit_count rhs.bit_count;
}

-- `for i in start..start + count { words[i] = word }`, positions beyond the words left out
unfoldable pub fill : ℕ → ℕ → ℕ → List ℕ → List ℕ
fill start zero word ws = ws
fill start (suc count) word ws = fill (suc start) count word (set ws start word)

-- `set ws i word` where the remaining bits begin word `i`
abbrev pub last_word : ℕ → ℕ → List ℕ → List ℕ
last_word remainder i ws = if ltb 0 remainder then set ws i (2 ^ remainder - 1) else ws

unfoldable pub all_set : ℕ → PvaBitSet
all_set n =
    let inline = fill 0 (min (n / 64) inline_words) max_word (new).inline in
    let overflow = fill 0 (n / 64 - inline_words) max_word (with_capacity n).overflow in
    if ltb (n / 64) inline_words
    then record (with_capacity n) {
      inline = last_word (n % 64) (n / 64) inline;
      overflow = overflow;
    }
    else record (with_capacity n) {
      inline = inline;
      overflow = last_word (n % 64) (n / 64 - inline_words) overflow;
    }

-- `get_word`
unfoldable pub get_word : PvaBitSet → ℕ → ℕ
get_word bs i =
    if ltb i inline_words
    then get_or bs.inline i 0
    else if ltb (i - inline_words) (length bs.overflow)
    then get_or bs.overflow (i - inline_words) 0
    else 0

-- the assignment of a word; in the vector only where it has the position
unfoldable pub put_word : ℕ → ℕ → PvaBitSet → PvaBitSet
put_word i word bs =
    if ltb i inline_words
    then record bs { inline = set bs.inline i word }
    else record bs { overflow = set bs.overflow (i - inline_words) word }

-- The loop over the bytes: the position of the word, the bytes that it has, and its value so far.
unfoldable pub decode_words : List ℕ → ℕ → ℕ → ℕ → PvaBitSet → PvaBitSet
decode_words [] word_idx byte_in_word current_word bs =
    if ltb 0 byte_in_word then put_word word_idx current_word bs else bs
decode_words (byte_val ∷ raw) word_idx byte_in_word current_word bs =
    let word = bit_or current_word (byte_val * 2 ^ (byte_in_word * 8)) in
    let full = byte_in_word + 1 == 8 in
    decode_words raw (if full then word_idx + 1 else word_idx)
      (if full then 0 else byte_in_word + 1) (if full then 0 else word)
      (if full then put_word word_idx word bs else bs)

unfoldable pub decode : Decoder PvaBitSet
decode = do
  byte_count ← read_size_non_null
  if byte_count == 0 then pure new else (do
    raw ← read_bytes byte_count
    pure (decode_words raw 0 0 0 (with_capacity (byte_count * 8))))
