-- ===== src/Codec/PvData/Bounds.antt =====
-- No read leaves its buffer, on success and on failure.
use aura_epics.Prelude.{
  ℕ, zero, suc, ◌≤◌, ◌≡◌, refl, ◌∙◌, [], ◌∷◌, Bool, true, false, Option, none, some, ok, err,
  Result, pure, raise, continue, ◌>>=◌, length, if◌then◌else◌, arith,
}
use aura_epics.Codec.PvData.Reader.{
  PvaReader, Decoder, DecodeError, ensure, skip, peek, read_bytes, read_u8, read_bool, read_fixed,
  read_number, read_many, extended_size, size_of_tag, read_size, read_size_non_null, read_string,
  read_string_opt, read_utf8, non_null, string_of_size, read_byte_array, read_string_array,
  read_i32_array, read_f64_array,
}

-- The cursor has moved forward, within the same buffer and byte order.
pub record Moves (r r' : PvaReader) : Type 0 where
  pub same_buf : r'.buf ≡ r.buf
  pub same_order : r'.order ≡ r.order
  pub forward : r.pos ≤ r'.pos
  pub within : r'.pos ≤ length r'.buf

pub record StaysWithin {A : Type 0} (read : Decoder A) : Type 0 where
  pub at : (r : PvaReader) → r.pos ≤ length r.buf → Moves r (read r).1

Moves-refl : (r : PvaReader) → r.pos ≤ length r.buf → Moves r r
Moves-refl r h = record { same_buf = refl; same_order = refl; forward = omega arith; within = h }

Moves-trans : (r s t : PvaReader) → Moves r s → Moves s t → Moves r t
Moves-trans r s t h k = record {
  same_buf = k.same_buf ∙ h.same_buf;
  same_order = k.same_order ∙ h.same_order;
  forward = omega (arith, h.forward, k.forward);
  within = k.within;
}

module _ {A : Type 0} where
  pub StaysWithin-pure : (a : A) → StaysWithin (pure a)
  StaysWithin-pure a = record { at = λ r h. Moves-refl r h }

  pub StaysWithin-raise : (e : DecodeError) → StaysWithin {A = A} (raise e)
  StaysWithin-raise e = record { at = λ r h. Moves-refl r h }

  pub StaysWithin-if :
      (b : Bool) (m n : Decoder A)
      → StaysWithin m
      → StaysWithin n
      → StaysWithin (if b then m else n)
  StaysWithin-if true m n hm hn = hm
  StaysWithin-if false m n hm hn = hn

module _ {A B : Type 0} where
  continue_within :
      (f : A → Decoder B) (x : Result A DecodeError) (r : PvaReader)
      → ((a : A) → StaysWithin (f a))
      → r.pos ≤ length r.buf
      → Moves r (continue x f r).1
  continue_within f (ok a) r hf h = (hf a).at r h
  continue_within f (err e) r hf h = Moves-refl r h

  pub StaysWithin-bind :
      (m : Decoder A) (f : A → Decoder B)
      → StaysWithin m
      → ((a : A) → StaysWithin (f a))
      → StaysWithin (m >>= f)
  unfolding ◌>>=◌
  StaysWithin-bind m f hm hf = record {
    at = λ r h.
        let first = hm.at r h in
        Moves-trans r (m r).1 _ first (continue_within f (m r).0 (m r).1 hf first.within);
  }

pub StaysWithin-skip : (n : ℕ) → StaysWithin (skip n)
unfolding skip ensure ◌>>=◌
StaysWithin-skip n = record { at = λ r h. ground arith }

pub StaysWithin-read_bytes : (n : ℕ) → StaysWithin (read_bytes n)
unfolding read_bytes ensure ◌>>=◌
StaysWithin-read_bytes n = record { at = λ r h. ground arith }

pub StaysWithin-read_fixed : (n : ℕ) → StaysWithin (read_fixed n)
unfolding read_fixed ensure ◌>>=◌
StaysWithin-read_fixed n = record { at = λ r h. ground arith }

pub StaysWithin-read_u8 : StaysWithin read_u8
unfolding read_u8 ensure ◌>>=◌
StaysWithin-read_u8 = record { at = λ r h. ground arith }

pub StaysWithin-peek : StaysWithin peek
unfolding peek
StaysWithin-peek = record { at = λ r h. ground arith }

pub StaysWithin-read_number : (k : ℕ) → StaysWithin (read_number k)
unfolding read_number
StaysWithin-read_number k =
    StaysWithin-bind _ _ (StaysWithin-read_fixed k) (λ bytes. record { at = λ r h. Moves-refl r h })

pub ruleset within_rules = (
  StaysWithin-pure, StaysWithin-raise, StaysWithin-if, StaysWithin-bind, StaysWithin-read_bytes,
  StaysWithin-read_u8, StaysWithin-read_number, StaysWithin-skip,
)

pub StaysWithin-read_bool : StaysWithin read_bool
unfolding read_bool
StaysWithin-read_bool = search within_rules

pub StaysWithin-size_of_tag : (tag : ℕ) → StaysWithin (size_of_tag tag)
unfolding size_of_tag extended_size
StaysWithin-size_of_tag tag = search within_rules

pub StaysWithin-read_size : StaysWithin read_size
unfolding read_size
StaysWithin-read_size = search (within_rules, StaysWithin-size_of_tag)

pub StaysWithin-non_null : (o : Option ℕ) → StaysWithin (non_null o)
StaysWithin-non_null none = search within_rules
StaysWithin-non_null (some n) = search within_rules

pub StaysWithin-read_size_non_null : StaysWithin read_size_non_null
unfolding read_size_non_null
StaysWithin-read_size_non_null = StaysWithin-bind _ _ StaysWithin-read_size StaysWithin-non_null

pub StaysWithin-read_utf8 : (len : ℕ) → StaysWithin (read_utf8 len)
unfolding read_utf8
StaysWithin-read_utf8 len = search within_rules

pub StaysWithin-read_string : StaysWithin read_string
unfolding read_string
StaysWithin-read_string = StaysWithin-bind _ _ StaysWithin-read_size_non_null StaysWithin-read_utf8

pub StaysWithin-string_of_size : (o : Option ℕ) → StaysWithin (string_of_size o)
StaysWithin-string_of_size none = search within_rules
StaysWithin-string_of_size (some n) = search (within_rules, StaysWithin-read_utf8)

pub StaysWithin-read_string_opt : StaysWithin read_string_opt
unfolding read_string_opt
StaysWithin-read_string_opt = StaysWithin-bind _ _ StaysWithin-read_size StaysWithin-string_of_size

pub StaysWithin-read_many :
    {A : Type 0} (n : ℕ) (read : Decoder A) → StaysWithin read → StaysWithin (read_many n read)
unfolding read_many
StaysWithin-read_many zero read h = StaysWithin-pure []
StaysWithin-read_many (suc n) read h =
    let rest = StaysWithin-read_many n read h in
    StaysWithin-bind read _ h (λ x. StaysWithin-bind _ _ rest (λ xs. StaysWithin-pure (x ∷ xs)))

pub StaysWithin-sized :
    {A : Type 0} (body : ℕ → Decoder A)
    → ((n : ℕ) → StaysWithin (body n))
    → StaysWithin (read_size_non_null >>= body)
StaysWithin-sized body h = StaysWithin-bind _ body StaysWithin-read_size_non_null h

-- From a cursor within its buffer, every sized read ends with the cursor further on or where it
-- was, still within the same buffer and in the same byte order, whether it succeeds or fails.
pub reads_stay_within :
    (r : PvaReader)
    → r.pos ≤ length r.buf
    → Moves r (read_size r).1
      × Moves r (read_string r).1
      × Moves r (read_string_opt r).1
      × Moves r (read_byte_array r).1
      × Moves r (read_string_array r).1
      × Moves r (read_i32_array r).1
      × Moves r (read_f64_array r).1
unfolding read_byte_array read_string_array read_i32_array read_f64_array
reads_stay_within r h = (
  StaysWithin-read_size.at r h,
  StaysWithin-read_string.at r h,
  StaysWithin-read_string_opt.at r h,
  (StaysWithin-sized read_bytes StaysWithin-read_bytes).at r h,
  (StaysWithin-sized _ (λ n. StaysWithin-read_many n read_string StaysWithin-read_string)).at r h,
  (StaysWithin-sized _ (λ n. StaysWithin-read_many n _ (StaysWithin-read_number 4))).at r h,
  (StaysWithin-sized _ (λ n. StaysWithin-read_many n _ (StaysWithin-read_number 8))).at r h,
)
