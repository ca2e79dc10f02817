-- ===== src/Codec/PvData/Arrays.antt =====
-- Arrays written element by element after their length, and read back.
use aura_epics.Prelude.{
  ℕ, ◌<◌, ◌^◌, ◌≡◌, refl, ap, sym, ◌∙◌, List, [], ◌∷◌, ◌++◌, true, append-nil, ok, length, All,
  arith, ◌>>=◌,
}
use aura_epics.Codec.ByteOrder.{ByteOrder, write_word}
use aura_epics.Codec.PvData.Utf8.{is_utf8}
use aura_epics.Codec.PvData.Reader.{
  Decoder, read_many, read_string, read_number, read_string_array, read_i32_array, read_f64_array,
  read_size_non_null,
}
use aura_epics.Codec.PvData.Reads.{Reads, Reads-bind, Reads-read_number, Reads-read_many, written}
use aura_epics.Codec.PvData.RoundTrip.{
  size_bytes, string_bytes, append-append, write_size_lem, write_string_lem,
  Reads-read_size_non_null, Reads-read_string,
}
use aura_epics.Codec.PvData.Writer.{
  PvaWriter, append, write_size, write_string, write_number, write_many, write_string_array,
  write_i32_array, write_f64_array,
}
use aura_epics.Codec.PvData.Inverse.{reading, taken_back}

append-nil_bytes : (w : PvaWriter) → append w [] ≡ w
append-nil_bytes w = ap (λ l. record w { buf = l }) (append-nil w.buf)

-- Elements that each append their encoding append all of them, in order.
write_many_lem :
    {A : Type 0} (o : ByteOrder) (write : A → PvaWriter → PvaWriter) (enc : A → List ℕ)
    (vs : List A)
    → All (λ v. (w : PvaWriter) → w.order ≡ o → write v w ≡ append w (enc v)) vs
    → (w : PvaWriter) → w.order ≡ o
    → write_many write vs w ≡ append w (written enc vs)
unfolding write_many
write_many_lem o write enc [] h w ho = sym (append-nil_bytes w)
write_many_lem o write enc (v ∷ vs) (hv, hvs) w ho =
    ap (write_many write vs) (hv w ho)
    ∙ write_many_lem o write enc vs hvs (append w (enc v)) ho
    ∙ append-append w (enc v) (written enc vs)

module _ {A : Type 0} (read : Decoder A) (write : A → PvaWriter → PvaWriter) (enc : A → List ℕ)
    (vs : List A) (w : PvaWriter) (short : length vs < 2 ^ 31)
    (writes : All (λ v. (u : PvaWriter) → u.order ≡ w.order → write v u ≡ append u (enc v)) vs)
    (reads : All (λ v. Reads w.order read (enc v) v) vs) where
  array_bytes :
      write_many write vs (write_size (length vs) w)
      ≡ append w (size_bytes w.order (length vs) ++ written enc vs)
  array_bytes =
      ap (write_many write vs) (write_size_lem (length vs) w (omega arith))
      ∙ write_many_lem w.order write enc vs writes (append w (size_bytes w.order (length vs))) refl
      ∙ append-append w (size_bytes w.order (length vs)) (written enc vs)

  Reads-array :
      Reads w.order
        (read_size_non_null >>= λ len. read_many len read)
        (size_bytes w.order (length vs) ++ written enc vs)
        vs
  Reads-array =
      Reads-bind _ _ (size_bytes w.order (length vs)) (written enc vs) (length vs) vs
        (Reads-read_size_non_null w.order (length vs) short) (Reads-read_many read enc vs reads)

abbrev pub AreNumbers : ℕ → List ℕ → Type 0
AreNumbers k = All (λ n. n < 256 ^ k)

abbrev pub AreStrings : List (List ℕ) → Type 0
AreStrings = All (λ s. (is_utf8 s ≡ true) × (length s < 2 ^ 31))

numbers_write :
    (k : ℕ) (o : ByteOrder) (vs : List ℕ)
    → All (λ v. (u : PvaWriter) → u.order ≡ o → write_number k v u ≡ append u (write_word o k v)) vs
unfolding write_number
numbers_write k o [] = tt
numbers_write k o (v ∷ vs) = (λ u h. ap (λ q. append u (write_word q k v)) h, numbers_write k o vs)

numbers_read :
    (k : ℕ) (o : ByteOrder) (vs : List ℕ)
    → AreNumbers k vs
    → All (λ v. Reads o (read_number k) (write_word o k v) v) vs
numbers_read k o [] h = tt
numbers_read k o (v ∷ vs) (hv, hvs) = (Reads-read_number o k v hv, numbers_read k o vs hvs)

strings_write :
    (o : ByteOrder) (vs : List (List ℕ))
    → AreStrings vs
    → All (λ v. (u : PvaWriter) → u.order ≡ o → write_string v u ≡ append u (string_bytes o v)) vs
strings_write o [] h = tt
strings_write o (v ∷ vs) ((valid, short), hvs) = (
  λ u h. write_string_lem v u (omega arith) ∙ ap (λ q. append u (string_bytes q v)) h,
  strings_write o vs hvs,
)

strings_read :
    (o : ByteOrder) (vs : List (List ℕ))
    → AreStrings vs
    → All (λ v. Reads o read_string (string_bytes o v) v) vs
strings_read o [] h = tt
strings_read o (v ∷ vs) ((valid, short), hvs) =
    (Reads-read_string o v valid short, strings_read o vs hvs)

-- An array of strings, each of valid UTF-8 and below 2 ^ 31 bytes, of fewer than 2 ^ 31 strings, is read back.
pub read_string_array-write_string_array :
    (vs : List (List ℕ)) (w : PvaWriter) (rest : List ℕ)
    → AreStrings vs
    → length vs < 2 ^ 31
    → read_string_array (reading (write_string_array vs w) (length w.buf) rest)
      ≡ (ok vs, reading (write_string_array vs w) (length (write_string_array vs w).buf) rest)
unfolding write_string_array read_string_array
read_string_array-write_string_array vs w rest h short =
    rw
      (array_bytes read_string write_string (string_bytes w.order) vs w short
        (strings_write w.order vs h) (strings_read w.order vs h))
      (taken_back w (size_bytes w.order (length vs) ++ written (string_bytes w.order) vs) rest _ vs
        (Reads-array read_string write_string (string_bytes w.order) vs w short
          (strings_write w.order vs h) (strings_read w.order vs h)))

-- Arrays of i32 and of f64, of fewer than 2 ^ 31 elements, are read back.
pub read_arrays-write_arrays :
    (is is64 : List ℕ) (w : PvaWriter) (rest : List ℕ)
    → AreNumbers 4 is
    → AreNumbers 8 is64
    → length is < 2 ^ 31
    → length is64 < 2 ^ 31
    → (read_i32_array (reading (write_i32_array is w) (length w.buf) rest)
        ≡ (ok is, reading (write_i32_array is w) (length (write_i32_array is w).buf) rest))
      × (read_f64_array (reading (write_f64_array is64 w) (length w.buf) rest)
          ≡ (ok is64, reading (write_f64_array is64 w) (length (write_f64_array is64 w).buf) rest))
unfolding write_i32_array read_i32_array write_f64_array read_f64_array
read_arrays-write_arrays is is64 w rest h h64 short short64 =
    (numbers 4 is h short, numbers 8 is64 h64 short64)
  where
    numbers :
        (k : ℕ) (vs : List ℕ)
        → AreNumbers k vs
        → length vs < 2 ^ 31
        → (read_size_non_null >>= λ len. read_many len (read_number k)) (
            reading (write_many (write_number k) vs (write_size (length vs) w)) (length w.buf) rest)
          ≡ (
            ok vs,
            reading
                (write_many (write_number k) vs (write_size (length vs) w))
                (length (write_many (write_number k) vs (write_size (length vs) w)).buf)
                rest,
          )
    numbers k vs hv hs =
        rw
          (array_bytes (read_number k) (write_number k) (write_word w.order k) vs w hs
            (numbers_write k w.order vs) (numbers_read k w.order vs hv))
          (taken_back w (size_bytes w.order (length vs) ++ written (write_word w.order k) vs) rest _
            vs
            (Reads-array (read_number k) (write_number k) (write_word w.order k) vs w hs
              (numbers_write k w.order vs) (numbers_read k w.order vs hv)))
