-- ===== src/Codec/PvData/Reads.antt =====
-- `Reads o read bytes v`: in byte order `o`, where `bytes` lie ahead, `read` returns `v` and stops
-- behind them. Rules that build such facts along a `do` block.
use mathlib.Core.Path.{subst}
use aura_epics.Prelude.{
  suc, zero, ℕ, ◌+◌, ◌≤◌, ◌≡◌, ap, sym, ◌∙◌, List, [], ◌++◌, append-nil, append_assoc, ok, pure,
  ◌>>=◌, bind_ok, take, drop, length, length-append, length-drop, drop-drop, drop-append,
  take-append, le→ltb, arith, ◌∷◌, ◌<◌, get_or, ◌^◌, All, suc,
}
use aura_epics.Codec.ByteOrder.{ByteOrder, read_word, write_word}
use aura_epics.Codec.ByteOrder.RoundTrip.{length-write_word, read_word-write_word}
use aura_epics.Codec.PvData.Reader.{
  read_number, PvaReader, Decoder, advance, ensure, slice, read_bytes, read_fixed, read_u8,
  read_many,
}

-- What lies ahead of the cursor.
pub record Ahead (r : PvaReader) (bytes : List ℕ) : Type 0 where
  pub rest : drop r.pos r.buf ≡ bytes
  pub within : r.pos ≤ length r.buf

pub record Reads {A : Type 0} (o : ByteOrder) (read : Decoder A) (bytes : List ℕ) (v : A)
    : Type 0 where
  pub at :
      (r : PvaReader) (rest : List ℕ)
      → r.order ≡ o
      → Ahead r (bytes ++ rest)
      → read r ≡ (ok v, advance r (length bytes))

pub room_for :
    (r : PvaReader) (bytes rest : List ℕ)
    → Ahead r (bytes ++ rest)
    → r.pos + length bytes ≤ length r.buf
room_for r bytes rest h =
    omega (arith, length-drop r.pos r.buf, ap length h.rest, length-append bytes rest, h.within)

pub Ahead-advance :
    (r : PvaReader) (bytes rest : List ℕ)
    → Ahead r (bytes ++ rest)
    → Ahead (advance r (length bytes)) rest
Ahead-advance r bytes rest h = record {
  rest =
      sym (drop-drop r.pos (length bytes) r.buf)
      ∙ ap (drop (length bytes)) h.rest
      ∙ drop-append bytes rest;
  within = room_for r bytes rest h;
}

advance-zero : (r : PvaReader) → advance r 0 ≡ r
advance-zero r = let e : r.pos + 0 ≡ r.pos = omega arith in ap (λ p. record r { pos = p }) e

pub advance-advance : (r : PvaReader) (m n : ℕ) → advance (advance r m) n ≡ advance r (m + n)
advance-advance r m n =
    let e : r.pos + m + n ≡ r.pos + (m + n) = omega arith in ap (λ p. record r { pos = p }) e

module _ {A : Type 0} {o : ByteOrder} where
  pub Reads-pure : (v : A) → Reads o (pure v) [] v
  Reads-pure v = record { at = λ r rest ho h. ap (λ s. (ok v, s)) (sym (advance-zero r)) }

module _ {A B : Type 0} {o : ByteOrder} where
  pub Reads-bind :
      (m : Decoder A) (f : A → Decoder B) (xs ys : List ℕ) (a : A) (b : B)
      → Reads o m xs a
      → Reads o (f a) ys b
      → Reads o (m >>= f) (xs ++ ys) b
  Reads-bind m f xs ys a b hm hf = record {
    at = λ r rest ho h.
        let here : Ahead r (xs ++ (ys ++ rest)) = record {
          rest = h.rest ∙ append_assoc xs ys rest;
          within = h.within;
        } in
        bind_ok m f r _ a (hm.at r (ys ++ rest) ho here)
        ∙ hf.at (advance r (length xs)) rest ho (Ahead-advance r xs (ys ++ rest) here)
        ∙ ap (λ s. (ok b, s))
            (advance-advance r (length xs) (length ys)
              ∙ ap (advance r) (sym (length-append xs ys)));
  }

  -- A first read that decides all: nothing is read after it.
  pub Reads-then :
      (m : Decoder A) (f : A → Decoder B) (xs : List ℕ) (a : A) (b : B)
      → Reads o m xs a
      → Reads o (f a) [] b
      → Reads o (m >>= f) xs b
  Reads-then m f xs a b hm hf = rw (append-nil xs) at (Reads-bind m f xs [] a b hm hf)

ensure_ok : (r : PvaReader) (n : ℕ) → r.pos + n ≤ length r.buf → ensure n r ≡ (ok tt, r)
unfolding ensure
ensure_ok r n h = rw (le→ltb (length r.buf) (r.pos + n) h)

slice_taken :
    (r : PvaReader) (bytes rest : List ℕ)
    → Ahead r (bytes ++ rest)
    → slice (length bytes) r ≡ (ok bytes, advance r (length bytes))
slice_taken r bytes rest h =
    ap (λ l. (ok (take (length bytes) l), advance r (length bytes))) h.rest
    ∙ ap (λ l. (ok l, advance r (length bytes))) (take-append bytes rest)

get_or-drop : (n : ℕ) (xs : List ℕ) (x : ℕ) (ys : List ℕ) → drop n xs ≡ x ∷ ys → get_or xs n 0 ≡ x
get_or-drop zero [] x ys h = cc
get_or-drop zero (z ∷ zs) x ys h = cc
get_or-drop (suc n) [] x ys h = cc
get_or-drop (suc n) (z ∷ zs) x ys h = get_or-drop n zs x ys h

module _ (o : ByteOrder) where
  pub Reads-read_bytes : (bytes : List ℕ) → Reads o (read_bytes (length bytes)) bytes bytes
  unfolding read_bytes
  Reads-read_bytes bytes = record {
    at = λ r rest ho h.
        bind_ok (ensure (length bytes)) _ r r tt
          (ensure_ok r (length bytes) (room_for r bytes rest h))
        ∙ slice_taken r bytes rest h;
  }

  pub Reads-read_fixed : (bytes : List ℕ) → Reads o (read_fixed (length bytes)) bytes bytes
  unfolding read_fixed
  Reads-read_fixed bytes = record {
    at = λ r rest ho h.
        bind_ok (ensure (length bytes)) _ r r tt
          (ensure_ok r (length bytes) (room_for r bytes rest h))
        ∙ slice_taken r bytes rest h;
  }

  pub Reads-read_u8 : (b : ℕ) → Reads o read_u8 (b ∷ []) b
  unfolding read_u8
  Reads-read_u8 b = record {
    at = λ r rest ho h.
        bind_ok (ensure 1) _ r r tt (ensure_ok r 1 (room_for r (b ∷ []) rest h))
        ∙ ap (λ x. (ok x, advance r 1)) (get_or-drop r.pos r.buf b rest h.rest);
  }

  -- An integer of `k` bytes, written in the order of the reader.
  pub Reads-read_number : (k n : ℕ) → n < 256 ^ k → Reads o (read_number k) (write_word o k n) n
  unfolding read_number
  Reads-read_number k n fits = record {
    at = λ r rest ho h.
        let bytes = write_word o k n in
        let width : length bytes ≡ k = length-write_word o k n in
        let fixed : read_fixed k r ≡ (ok bytes, advance r (length bytes)) =
          subst (λ j. read_fixed j r ≡ (ok bytes, advance r (length bytes))) width
            ((Reads-read_fixed bytes).at r rest ho h) in
        bind_ok (read_fixed k) _ r (advance r (length bytes)) bytes fixed
        ∙ ap (λ x. (ok x, advance r (length bytes)))
            (ap (λ q. read_word q bytes) ho ∙ read_word-write_word o k n fits);
  }

abbrev pub written : {A : Type 0} → (A → List ℕ) → List A → List ℕ
written enc [] = []
written enc (v ∷ vs) = enc v ++ written enc vs

module _ {A : Type 0} {o : ByteOrder} where
  pub Reads-read_many :
      (read : Decoder A) (enc : A → List ℕ) (vs : List A)
      → All (λ v. Reads o read (enc v) v) vs
      → Reads o (read_many (length vs) read) (written enc vs) vs
  unfolding read_many
  Reads-read_many read enc [] h = Reads-pure []
  Reads-read_many read enc (v ∷ vs) (hv, hvs) =
      Reads-bind read _ (enc v) (written enc vs) v (v ∷ vs) hv (
        Reads-then (read_many (length vs) read) _ (written enc vs) vs (v ∷ vs)
          (Reads-read_many read enc vs hvs) (Reads-pure (v ∷ vs)))
