-- ===== src/Codec/BitSet/Encode.antt =====
-- A set that is written to the wire: its bytes up to the last that is not 0, behind their number.
use aura_epics.Prelude.{
  ℕ, zero, suc, ◌+◌, ◌-◌, ◌*◌, ◌/◌, ◌%◌, ◌^◌, ◌≤◌, ◌<◌, List, [], ◌∷◌, ◌++◌, ◌≡◌, refl, ap, sym,
  ◌∙◌, inl, inr, length, get_or, All, ltb, ◌==◌, if◌then◌else◌, arith, Bool-cases, append-nil,
  append_assoc, get_or_beyond, true, false,
}
use aura_epics.Codec.PvData.Writer.{PvaWriter, append, write_u8, write_size, write_byte_array}
use aura_epics.Codec.BitSet.{PvaBitSet, inline_words, get_word}

-- `u64::leading_zeros`, for a word of `n` bits
unfoldable pub leading_zeros : ℕ → ℕ → ℕ
leading_zeros zero w = 0
leading_zeros (suc n) w = let rest = leading_zeros n w in if ltb w (2 ^ n) then suc rest else 0

-- one more than the position of the last word below `n` that is not 0, or 0
unfoldable pub last_nonzero : ℕ → PvaBitSet → ℕ
last_nonzero zero bs = 0
last_nonzero (suc i) bs =
    let before = last_nonzero i bs in if get_word bs i == 0 then before else suc i

unfoldable pub bytes_in_last : ℕ → ℕ
bytes_in_last w = if w == 0 then 0 else 8 - leading_zeros 64 w / 8

-- the loop over the bytes of a word, from `bi` on
unfoldable pub write_bytes_of : ℕ → ℕ → ℕ → PvaWriter → PvaWriter
write_bytes_of word bi zero w = w
write_bytes_of word bi (suc count) w =
    write_bytes_of word (suc bi) count (write_u8 (word / 2 ^ (bi * 8) % 256) w)

-- the loop over the `count` words from `wi` on
unfoldable pub write_words : PvaBitSet → ℕ → ℕ → ℕ → ℕ → PvaWriter → PvaWriter
write_words bs last_word in_last wi zero w = w
write_words bs last_word in_last wi (suc count) w =
    write_words bs last_word in_last (suc wi) count
      (write_bytes_of (get_word bs wi) 0 (if wi == last_word - 1 then in_last else 8) w)

abbrev pub words_used : PvaBitSet → ℕ
words_used bs = last_nonzero (inline_words + length bs.overflow) bs

unfoldable pub encode : PvaBitSet → PvaWriter → PvaWriter
encode bs w =
    let last_word = words_used bs in
    let in_last = bytes_in_last (get_word bs (last_word - 1)) in
    if last_word == 0
    then write_size 0 w
    else write_words bs last_word in_last 0 last_word (write_size ((last_word - 1) * 8 + in_last) w)

-- the values of a function at `n` positions from `s` on
unfoldable pub tab : (ℕ → ℕ) → ℕ → ℕ → List ℕ
tab f s zero = []
tab f s (suc n) = f s ∷ tab f (suc s) n

unfoldable pub byte_of : PvaBitSet → ℕ → ℕ
byte_of bs p = get_word bs (p / 8) / 2 ^ (p % 8 * 8) % 256

pub length-tab : (f : ℕ → ℕ) (s n : ℕ) → length (tab f s n) ≡ n
unfolding tab
length-tab f s zero = refl
length-tab f s (suc n) = ap suc (length-tab f (suc s) n)

tab-append : (f : ℕ → ℕ) (s m n : ℕ) → tab f s m ++ tab f (s + m) n ≡ tab f s (m + n)
unfolding tab
tab-append f s zero n =
    let none_before : s + 0 ≡ s = omega arith in
    let none_first : 0 + n ≡ n = omega arith in rw (none_before, none_first) refl
tab-append f s (suc m) n =
    let place : s + suc m ≡ suc s + m = omega arith in
    let count : suc m + n ≡ suc (m + n) = omega arith in
    rw (place, count) (ap (λ l. f s ∷ l) (tab-append f (suc s) m n))

pub get_or-tab :
    (f : ℕ → ℕ) (s n j : ℕ) → get_or (tab f s n) j 0 ≡ (if ltb j n then f (s + j) else 0)
unfolding tab
get_or-tab f s zero j =
    let outside : ltb j 0 ≡ false = ground arith in rw outside (get_or_beyond [] j 0 (omega arith))
get_or-tab f s (suc n) zero =
    let inside : ltb 0 (suc n) ≡ true = ground arith in
    let here : s + 0 ≡ s = omega arith in rw (inside, here) refl
get_or-tab f s (suc n) (suc j) =
    let shifted : ltb (suc j) (suc n) ≡ ltb j n = ground arith in
    let place : s + suc j ≡ suc s + j = omega arith in
    rw (shifted, place) (get_or-tab f (suc s) n j)

pub All-tab : (f : ℕ → ℕ) (s n : ℕ) → ((p : ℕ) → f p < 256) → All (λ v. v < 2 ^ 8) (tab f s n)
unfolding tab
All-tab f s zero h = tt
All-tab f s (suc n) h = (omega (arith, h s), All-tab f (suc s) n h)

append_twice : (w : PvaWriter) (xs ys : List ℕ) → append (append w xs) ys ≡ append w (xs ++ ys)
append_twice w xs ys = ap (λ l. record w { buf = l }) (append_assoc w.buf xs ys)

append_nothing : (w : PvaWriter) → w ≡ append w []
append_nothing w = ap (λ l. record w { buf = l }) (sym (append-nil w.buf))

write_bytes_of_lem :
    (bs : PvaBitSet) (wi bi count : ℕ) (w : PvaWriter)
    → bi + count ≤ 8
    → write_bytes_of (get_word bs wi) bi count w ≡ append w (tab (byte_of bs) (wi * 8 + bi) count)
unfolding write_bytes_of tab byte_of write_u8
write_bytes_of_lem bs wi bi zero w h = append_nothing w
write_bytes_of_lem bs wi bi (suc count) w h =
    let next : wi * 8 + suc bi ≡ suc (wi * 8 + bi) = omega arith in
    let word : (wi * 8 + bi) / 8 ≡ wi = omega arith in
    let within : (wi * 8 + bi) % 8 ≡ bi = omega arith in
    let byte : ℕ = get_word bs wi / 2 ^ (bi * 8) % 256 in
    write_bytes_of_lem bs wi (suc bi) count (append w (byte ∷ [])) (omega arith)
    ∙ append_twice w (byte ∷ []) (tab (byte_of bs) (wi * 8 + suc bi) count)
    ∙ rw (word, within, next) refl

-- the number of bytes of `count` words, the last with `in_last`
abbrev pub bytes_left : ℕ → ℕ → ℕ
bytes_left zero in_last = 0
bytes_left (suc count) in_last = count * 8 + in_last

write_words_lem :
    (bs : PvaBitSet) (last_word in_last wi count : ℕ) (w : PvaWriter)
    → in_last ≤ 8
    → wi + count ≡ last_word
    → write_words bs last_word in_last wi count w
      ≡ append w (tab (byte_of bs) (wi * 8) (bytes_left count in_last))
unfolding write_words tab
write_words_lem bs last_word in_last wi zero w small h = append_nothing w
write_words_lem bs last_word in_last wi (suc zero) w small h =
    let ends : (wi == last_word - 1) ≡ true = ground arith in
    let place : wi * 8 + 0 ≡ wi * 8 = omega arith in
    let size : 0 * 8 + in_last ≡ in_last = omega arith in
    rw (ends, size)
      (write_bytes_of_lem bs wi 0 in_last w (omega arith)
        ∙ ap (λ s. append w (tab (byte_of bs) s in_last)) place)
write_words_lem bs last_word in_last wi (suc (suc count)) w small h =
    let more : (wi == last_word - 1) ≡ false = ground arith in
    let place : wi * 8 + 0 ≡ wi * 8 = omega arith in
    let next : suc wi * 8 ≡ wi * 8 + 8 = omega arith in
    let size : suc count * 8 + in_last ≡ 8 + (count * 8 + in_last) = omega arith in
    let first : List ℕ = tab (byte_of bs) (wi * 8) 8 in
    rw more (
      ap (write_words bs last_word in_last (suc wi) (suc count)) (
        write_bytes_of_lem bs wi 0 8 w (omega arith)
        ∙ ap (λ s. append w (tab (byte_of bs) s 8)) place)
      ∙ write_words_lem bs last_word in_last (suc wi) (suc count) (append w first) small
          (omega arith)
      ∙ append_twice w first (tab (byte_of bs) (suc wi * 8) (count * 8 + in_last))
      ∙ rw (next, size) (ap (append w) (tab-append (byte_of bs) (wi * 8) 8 (count * 8 + in_last))))

pub bytes_in_last_le : (w : ℕ) → bytes_in_last w ≤ 8
unfolding bytes_in_last
bytes_in_last_le w = elim (Bool-cases (w == 0)) [
  | inl none_set ↦ rw none_set (omega arith)
  | inr some_set ↦ rw some_set (omega arith)
]

-- the number of bytes that are written
unfoldable pub size_of : PvaBitSet → ℕ
size_of bs = bytes_left (words_used bs) (bytes_in_last (get_word bs (words_used bs - 1)))

encode_words :
    (bs : PvaBitSet) (n in_last : ℕ) (w : PvaWriter)
    → in_last ≤ 8
    → (if n == 0
        then write_size 0 w
        else write_words bs n in_last 0 n (write_size ((n - 1) * 8 + in_last) w))
      ≡ write_byte_array (tab (byte_of bs) 0 (bytes_left n in_last)) w
unfolding write_byte_array tab
encode_words bs zero in_last w h = append_nothing (write_size 0 w)
encode_words bs (suc n) in_last w h =
    let some_words : (suc n == 0) ≡ false = ground arith in
    let before : suc n - 1 ≡ n = omega arith in
    let start : 0 * 8 ≡ 0 = omega arith in
    let bytes : length (tab (byte_of bs) 0 (n * 8 + in_last)) ≡ n * 8 + in_last =
      length-tab (byte_of bs) 0 (n * 8 + in_last) in
    rw (some_words, before, bytes)
      (write_words_lem bs (suc n) in_last 0 (suc n) (write_size (n * 8 + in_last) w) h (omega arith)
        ∙ ap (λ s. append (write_size (n * 8 + in_last) w) (tab (byte_of bs) s (n * 8 + in_last)))
            start)

pub encode_lem :
    (bs : PvaBitSet) (w : PvaWriter)
    → encode bs w ≡ write_byte_array (tab (byte_of bs) 0 (size_of bs)) w
unfolding encode size_of
encode_lem bs w =
    encode_words bs (words_used bs) (bytes_in_last (get_word bs (words_used bs - 1))) w
      (bytes_in_last_le (get_word bs (words_used bs - 1)))
