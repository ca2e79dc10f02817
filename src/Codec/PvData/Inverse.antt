-- ===== src/Codec/PvData/Inverse.antt =====
-- Reading what was written, stated on the methods of crates/aura-net/src/codec/pvdata.rs alone.
use aura_epics.Prelude.{
  ℕ, ◌<◌, ◌^◌, ◌≡◌, refl, ap, sym, ◌∙◌, List, [], ◌∷◌, ◌++◌, true, Option, none, some, append_assoc,
  ok, length, length-append, arith, drop, drop-append,
}
use aura_epics.Codec.ByteOrder.{write_word}
use aura_epics.Codec.PvData.Utf8.{is_utf8}
use aura_epics.Codec.PvData.Reader.{
  PvaReader, Decoder, read_size, read_string, read_string_opt, read_number, read_byte_array,
  size_of_tag,
}
use aura_epics.Codec.PvData.Reads.{
  Ahead, Reads, Reads-pure, Reads-bind, Reads-then, Reads-read_bytes, Reads-read_u8,
  Reads-read_number,
}
use aura_epics.Codec.PvData.RoundTrip.{
  size_bytes, string_bytes, append-append, write_size_lem, write_string_lem, Reads-read_size,
  Reads-read_size_non_null, Reads-read_utf8, Reads-read_string,
}
use aura_epics.Codec.PvData.Writer.{
  PvaWriter, append, write_size, write_size_null, write_string, write_string_opt, write_u8,
  write_number, write_byte_array,
}

-- A reader over what `w` wrote and some more bytes, at position `p`.
abbrev pub reading : PvaWriter → ℕ → List ℕ → PvaReader
reading w p rest = record { buf = w.buf ++ rest; pos = p; order = w.order }

written-Ahead :
    (w : PvaWriter) (bytes rest : List ℕ)
    → Ahead (reading (append w bytes) (length w.buf) rest) (bytes ++ rest)
written-Ahead w bytes rest = record {
  rest =
      ap (drop (length w.buf)) (append_assoc w.buf bytes rest) ∙ drop-append w.buf (bytes ++ rest);
  within = omega (arith, length-append w.buf bytes, length-append (w.buf ++ bytes) rest);
}

-- A write that appends `bytes` is undone by a read that takes them.
pub taken_back :
    {A : Type 0} (w : PvaWriter) (bytes rest : List ℕ) (read : Decoder A) (v : A)
    → Reads w.order read bytes v
    → read (reading (append w bytes) (length w.buf) rest)
      ≡ (ok v, reading (append w bytes) (length (w.buf ++ bytes)) rest)
taken_back w bytes rest read v h =
    h.at (reading (append w bytes) (length w.buf) rest) rest refl (written-Ahead w bytes rest)
    ∙ ap (λ p. (ok v, reading (append w bytes) p rest)) (sym (length-append w.buf bytes))

-- `read_i16`, `read_u32`, `read_f64` and so on: a number of `k` bytes that fits them, written in
-- either byte order, is read back in that order, and the cursor stops where the writer stopped.
pub read_number-write_number :
    (k n : ℕ) (w : PvaWriter) (rest : List ℕ)
    → n < 256 ^ k
    → read_number k (reading (write_number k n w) (length w.buf) rest)
      ≡ (ok n, reading (write_number k n w) (length (write_number k n w).buf) rest)
unfolding write_number
read_number-write_number k n w rest h =
    taken_back w (write_word w.order k n) rest (read_number k) n (Reads-read_number w.order k n h)

-- A size below 2 ^ 31, in its short or its extended form, is read back as a size that is there.
pub read_size-write_size :
    (n : ℕ) (w : PvaWriter) (rest : List ℕ)
    → n < 2 ^ 31
    → read_size (reading (write_size n w) (length w.buf) rest)
      ≡ (ok (some n), reading (write_size n w) (length (write_size n w).buf) rest)
read_size-write_size n w rest h =
    rw (write_size_lem n w (omega arith))
      (taken_back w (size_bytes w.order n) rest read_size (some n) (Reads-read_size w.order n h))

-- A string of valid UTF-8 shorter than 2 ^ 31 bytes is read back whole.
pub read_string-write_string :
    (s : List ℕ) (w : PvaWriter) (rest : List ℕ)
    → is_utf8 s ≡ true
    → length s < 2 ^ 31
    → read_string (reading (write_string s w) (length w.buf) rest)
      ≡ (ok s, reading (write_string s w) (length (write_string s w).buf) rest)
read_string-write_string s w rest valid h =
    rw (write_string_lem s w (omega arith)) (
      taken_back w (string_bytes w.order s) rest read_string s
        (Reads-read_string w.order s valid h))

abbrev pub IsStringOption : Option (List ℕ) → Type 0
IsStringOption none = Unit
IsStringOption (some s) = (is_utf8 s ≡ true) × (length s < 2 ^ 31)

-- The null size and an empty string are told apart: an optional string, absent or of valid UTF-8
-- below 2 ^ 31 bytes, is read back as it was.
pub read_string_opt-write_string_opt :
    (s : Option (List ℕ)) (w : PvaWriter) (rest : List ℕ)
    → IsStringOption s
    → read_string_opt (reading (write_string_opt s w) (length w.buf) rest)
      ≡ (ok s, reading (write_string_opt s w) (length (write_string_opt s w).buf) rest)
unfolding write_string_opt write_size_null write_u8 read_string_opt read_size size_of_tag
read_string_opt-write_string_opt none w rest h = taken_back w (255 ∷ []) rest read_string_opt none (
    Reads-then _ _ (255 ∷ []) none none
      (Reads-then _ _ (255 ∷ []) 255 none (Reads-read_u8 w.order 255) (Reads-pure none))
      (Reads-pure none))
read_string_opt-write_string_opt (some s) w rest (valid, short) =
    rw (write_string_lem s w (omega arith)) (
      taken_back w (string_bytes w.order s) rest read_string_opt (some s) (
        Reads-bind _ _ (size_bytes w.order (length s)) s (some (length s)) (some s)
          (Reads-read_size w.order (length s) short)
          (Reads-then _ _ s s (some s) (Reads-read_utf8 w.order s valid) (Reads-pure (some s)))))

pub write_byte_array_lem :
    (bytes : List ℕ) (w : PvaWriter)
    → length bytes < 2 ^ 32
    → write_byte_array bytes w ≡ append w (string_bytes w.order bytes)
unfolding write_byte_array
write_byte_array_lem bytes w h =
    ap (λ v. append v bytes) (write_size_lem (length bytes) w h)
    ∙ append-append w (size_bytes w.order (length bytes)) bytes

-- A byte array shorter than 2 ^ 31 bytes is read back whole.
pub read_byte_array-write_byte_array :
    (bytes : List ℕ) (w : PvaWriter) (rest : List ℕ)
    → length bytes < 2 ^ 31
    → read_byte_array (reading (write_byte_array bytes w) (length w.buf) rest)
      ≡ (ok bytes, reading (write_byte_array bytes w) (length (write_byte_array bytes w).buf) rest)
unfolding read_byte_array
read_byte_array-write_byte_array bytes w rest h = rw (write_byte_array_lem bytes w (omega arith)) (
    taken_back w (size_bytes w.order (length bytes) ++ bytes) rest read_byte_array bytes (
      Reads-bind _ _ (size_bytes w.order (length bytes)) bytes (length bytes) bytes
        (Reads-read_size_non_null w.order (length bytes) h) (Reads-read_bytes w.order bytes)))
