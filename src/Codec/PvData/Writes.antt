-- ===== src/Codec/PvData/Writes.antt =====
-- `Writes o write bytes`: in byte order `o`, `write` appends `bytes` and changes nothing else.
use aura_epics.Prelude.{
  drop, drop-append, append_assoc, length-append, ◌-◌, ◌+◌, ℕ, ◌<◌, ◌^◌, ◌≡◌, refl, ap, sym, ◌∙◌,
  List, [], ◌∷◌, ◌++◌, Bool, true, false, append-nil, ok, length, All, if◌then◌else◌, arith,
}
use aura_epics.Codec.ByteOrder.{ByteOrder, write_word}
use aura_epics.Codec.PvData.Reader.{Decoder}
use aura_epics.Codec.PvData.Reads.{Ahead, Reads, written}
use aura_epics.Codec.PvData.RoundTrip.{
  size_bytes, string_bytes, append-append, write_size_lem, write_string_lem,
}
use aura_epics.Codec.PvData.Writer.{
  PvaWriter, append, write_u8, write_number, write_size, write_string, write_raw, write_many,
}
use aura_epics.Codec.PvData.Inverse.{reading, taken_back}

pub record Writes (o : ByteOrder) (write : PvaWriter → PvaWriter) (bytes : List ℕ) : Type 0 where
  pub at : (w : PvaWriter) → w.order ≡ o → write w ≡ append w bytes

module _ (o : ByteOrder) where
  pub Writes-write_u8 : (v : ℕ) → Writes o (write_u8 v) (v ∷ [])
  unfolding write_u8
  Writes-write_u8 v = record { at = λ w h. refl }

  pub Writes-write_raw : (bytes : List ℕ) → Writes o (write_raw bytes) bytes
  unfolding write_raw
  Writes-write_raw bytes = record { at = λ w h. refl }

  pub Writes-write_number : (k v : ℕ) → Writes o (write_number k v) (write_word o k v)
  unfolding write_number
  Writes-write_number k v = record { at = λ w h. ap (λ q. append w (write_word q k v)) h }

  pub Writes-write_size : (n : ℕ) → n < 2 ^ 32 → Writes o (write_size n) (size_bytes o n)
  Writes-write_size n fits = record {
    at = λ w h. write_size_lem n w fits ∙ ap (λ q. append w (size_bytes q n)) h;
  }

  pub Writes-write_string :
      (s : List ℕ) → length s < 2 ^ 32 → Writes o (write_string s) (string_bytes o s)
  Writes-write_string s fits = record {
    at = λ w h. write_string_lem s w fits ∙ ap (λ q. append w (string_bytes q s)) h;
  }

  pub Writes-nothing : Writes o (λ w. w) []
  Writes-nothing = record { at = λ w h. sym (ap (λ l. record w { buf = l }) (append-nil w.buf)) }

module _ {o : ByteOrder} where
  pub Writes-if :
      (b : Bool) (f g : PvaWriter → PvaWriter) (xs ys : List ℕ)
      → (b ≡ true → Writes o f xs)
      → (b ≡ false → Writes o g ys)
      → Writes o (λ w. if b then f w else g w) (if b then xs else ys)
  Writes-if true f g xs ys hf hg = hf refl
  Writes-if false f g xs ys hf hg = hg refl

  pub Writes-then :
      (f g : PvaWriter → PvaWriter) (a b : List ℕ)
      → Writes o f a
      → Writes o g b
      → Writes o (λ w. g (f w)) (a ++ b)
  Writes-then f g a b hf hg = record {
    at = λ w h. ap g (hf.at w h) ∙ hg.at (append w a) h ∙ append-append w a b;
  }

  pub Writes-write_many :
      {A : Type 0} (write : A → PvaWriter → PvaWriter) (enc : A → List ℕ) (vs : List A)
      → All (λ v. Writes o (write v) (enc v)) vs
      → Writes o (write_many write vs) (written enc vs)
  unfolding write_many
  Writes-write_many write enc [] h = Writes-nothing o
  Writes-write_many write enc (v ∷ vs) (hv, hvs) =
      Writes-then (write v) (write_many write vs) (enc v) (written enc vs) hv
        (Writes-write_many write enc vs hvs)

-- What appends the bytes that a read takes is undone by it.
pub undone :
    {A : Type 0} (w : PvaWriter) (rest bytes : List ℕ) (write : PvaWriter → PvaWriter)
    (read : Decoder A) (v : A)
    → Writes w.order write bytes
    → Reads w.order read bytes v
    → read (reading (write w) (length w.buf) rest)
      ≡ (ok v, reading (write w) (length (write w).buf) rest)
undone w rest bytes write read v hw hr =
    ap (λ u. read (reading u (length w.buf) rest)) (hw.at w refl)
    ∙ taken_back w bytes rest read v hr
    ∙ ap (λ u. (ok v, reading u (length u.buf) rest)) (sym (hw.at w refl))

-- What appends more than the read takes leaves the cursor at the surplus.
pub undone_before :
    {A : Type 0} (w : PvaWriter) (rest bytes more : List ℕ) (write : PvaWriter → PvaWriter)
    (read : Decoder A) (v : A)
    → Writes w.order write (bytes ++ more)
    → Reads w.order read bytes v
    → read (reading (write w) (length w.buf) rest)
      ≡ (ok v, reading (write w) (length (write w).buf - length more) rest)
undone_before w rest bytes more write read v hw hr =
    let whole = append w (bytes ++ more) in
    let here : Ahead (reading whole (length w.buf) rest) (bytes ++ (more ++ rest)) = record {
      rest =
          ap (drop (length w.buf)) (
            append_assoc w.buf (bytes ++ more) rest
            ∙ ap (λ l. w.buf ++ l) (append_assoc bytes more rest))
          ∙ drop-append w.buf (bytes ++ (more ++ rest));
      within = omega (arith, length-append whole.buf rest, length-append w.buf (bytes ++ more));
    } in
    let ends : length w.buf + length bytes ≡ length whole.buf - length more =
      omega (arith, length-append w.buf (bytes ++ more), length-append bytes more) in
    ap (λ u. read (reading u (length w.buf) rest)) (hw.at w refl)
    ∙ hr.at (reading whole (length w.buf) rest) (more ++ rest) refl here
    ∙ ap (λ p. (ok v, reading whole p rest)) ends
    ∙ ap (λ u. (ok v, reading u (length u.buf - length more) rest)) (sym (hw.at w refl))
