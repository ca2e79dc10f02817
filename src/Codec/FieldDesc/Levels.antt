-- ===== src/Codec/FieldDesc/Levels.antt =====
-- As many levels of nesting as bytes lie ahead are enough, and no read leaves its buffer.
use aura_epics.Prelude.{
  not, bit_and, ◌==◌, ℕ, zero, suc, ◌+◌, ◌≤◌, ◌≡◌, refl, ap, sym, ◌∙◌, Bool, true, false,
  Bool-cases, inl, inr, Option, none, some, ok, err, Result, pure, raise, continue, ◌>>=◌, length,
  ltb, if◌then◌else◌, arith,
}
use aura_epics.Codec.PvData.Reader.{
  protocol, null_type_code_nested, only_id_nested, PvaReader, Decoder, DecodeError, remaining,
  ensure, read_u8, read_string, read_i16, read_size_non_null, advance,
}
use aura_epics.Codec.PvData.Bounds.{
  StaysWithin, StaysWithin-if, StaysWithin-bind, StaysWithin-read_u8, StaysWithin-read_number,
  StaysWithin-read_string, StaysWithin-read_size_non_null, within_rules,
}
use aura_epics.Codec.FieldDesc.{
  scalar_of_base, null_type_code, only_id_type_code, full_with_id_code, FieldDesc, FieldType,
  ScalarType, decode_fields, decode_composite, decode_bounded, decode_complex_type, decode_scalar,
  decode_type_code, decode_full_tag, decode_full,
}
use aura_epics.Codec.FieldDesc.Registry.{
  IntrospectionRegistry, Decoded, decode, decode_levels, decode_tag, known, register, get,
}

StaysWithin-decode_scalar : (code : ℕ) (s : Option ScalarType) → StaysWithin (decode_scalar code s)
unfolding decode_scalar
StaysWithin-decode_scalar code none = search within_rules
StaysWithin-decode_scalar code (some s) = search within_rules

module _ (nested : Decoder FieldDesc) (h : StaysWithin nested) where
  StaysWithin-decode_fields : (n : ℕ) → StaysWithin (decode_fields nested n)
  unfolding decode_fields
  StaysWithin-decode_fields zero = search within_rules
  StaysWithin-decode_fields (suc n) =
      let rest = StaysWithin-decode_fields n in
      StaysWithin-bind _ _ StaysWithin-read_string (λ name.
        StaysWithin-bind _ _ h (λ d. StaysWithin-bind _ _ rest (λ fs. search within_rules)))

  StaysWithin-decode_composite : (ft : FieldType) → StaysWithin (decode_composite nested ft)
  unfolding decode_composite
  StaysWithin-decode_composite ft = search (
    within_rules, StaysWithin-read_string, StaysWithin-read_size_non_null,
    StaysWithin-decode_fields,
  )

  StaysWithin-decode_bounded : StaysWithin (decode_bounded nested)
  unfolding decode_bounded
  StaysWithin-decode_bounded = search (within_rules, StaysWithin-read_size_non_null)

  StaysWithin-decode_type_code : (code : ℕ) → StaysWithin (decode_type_code nested code)
  unfolding decode_type_code decode_complex_type
  StaysWithin-decode_type_code code =
      let complex : StaysWithin (decode_complex_type nested code) =
        search (within_rules, StaysWithin-decode_composite, StaysWithin-decode_bounded) depth 20 in
      StaysWithin-if _ _ _ complex (StaysWithin-decode_scalar code _)

  StaysWithin-decode_full_tag : (tag : ℕ) → StaysWithin (decode_full_tag nested tag)
  unfolding decode_full_tag
  StaysWithin-decode_full_tag tag = search (within_rules, StaysWithin-decode_type_code) depth 20

StaysWithin-decode_full : (n : ℕ) → StaysWithin (decode_full n)
unfolding decode_full
StaysWithin-decode_full zero = search within_rules
StaysWithin-decode_full (suc n) =
    StaysWithin-bind _ _ StaysWithin-read_u8
      (StaysWithin-decode_full_tag (decode_full n) (StaysWithin-decode_full n))

-- Two reads do the same wherever at most `n` bytes lie ahead.
record Agree {A : Type 0} (n : ℕ) (m m' : Decoder A) : Type 0 where
  at : (r : PvaReader) → r.pos ≤ length r.buf → length r.buf ≤ r.pos + n → m r ≡ m' r

module _ {A : Type 0} where
  Agree-refl : (n : ℕ) (m : Decoder A) → Agree n m m
  Agree-refl n m = record { at = λ r h b. refl }

  Agree-if :
      (n : ℕ) (b : Bool) (m m' k k' : Decoder A)
      → Agree n m m'
      → Agree n k k'
      → Agree n (if b then m else k) (if b then m' else k')
  Agree-if n true m m' k k' hm hk = hm
  Agree-if n false m m' k k' hm hk = hk

module _ {A B : Type 0} (n : ℕ) (f f' : A → Decoder B) where
  continue-Agree :
      (x : Result A DecodeError) (r : PvaReader)
      → ((a : A) → Agree n (f a) (f' a))
      → r.pos ≤ length r.buf
      → length r.buf ≤ r.pos + n
      → continue x f r ≡ continue x f' r
  continue-Agree (ok a) r h w b = (h a).at r w b
  continue-Agree (err e) r h w b = refl

  Agree-bind :
      (m m' : Decoder A)
      → Agree n m m'
      → StaysWithin m
      → ((a : A) → Agree n (f a) (f' a))
      → Agree n (m >>= f) (m' >>= f')
  unfolding ◌>>=◌
  Agree-bind m m' hm hw hf = record {
    at = λ r h b.
        let moved = hw.at r h in
        let less : length (m r).1.buf ≤ (m r).1.pos + n =
          omega (arith, ap length moved.same_buf, moved.forward, b) in
        continue-Agree (m r).0 (m r).1 hf moved.within less
        ∙ ap (λ p. continue p.0 f' p.1) (hm.at r h b);
  }

module _ (n : ℕ) (m m' : Decoder FieldDesc) (same : Agree n m m') (within : StaysWithin m) where
  Agree-decode_fields : (c : ℕ) → Agree n (decode_fields m c) (decode_fields m' c)
  unfolding decode_fields
  Agree-decode_fields zero = Agree-refl n _
  Agree-decode_fields (suc c) =
      let rest = Agree-decode_fields c in
      let stays = StaysWithin-decode_fields m within c in
      Agree-bind n _ _ read_string read_string (Agree-refl n _) StaysWithin-read_string (λ name.
        Agree-bind n _ _ m m' same within
          (λ d. Agree-bind n _ _ _ _ rest stays (λ fs. Agree-refl n _)))

  Agree-decode_composite :
      (ft : FieldType) → Agree n (decode_composite m ft) (decode_composite m' ft)
  unfolding decode_composite
  Agree-decode_composite ft =
      Agree-bind n _ _ read_string read_string (Agree-refl n _) StaysWithin-read_string (λ id.
        Agree-bind n _ _ read_size_non_null read_size_non_null (Agree-refl n _)
          StaysWithin-read_size_non_null
          (λ count.
            Agree-bind n _ _ _ _ (Agree-decode_fields count)
              (StaysWithin-decode_fields m within count) (λ fs. Agree-refl n _)))

  Agree-decode_type_code : (code : ℕ) → Agree n (decode_type_code m code) (decode_type_code m' code)
  unfolding decode_type_code decode_complex_type decode_bounded
  Agree-decode_type_code code =
      let complex : Agree n (decode_complex_type m code) (decode_complex_type m' code) =
        search (Agree-if n, Agree-refl n, Agree-decode_composite) depth 20 in
      let scalar_read = decode_scalar code (scalar_of_base (bit_and code 0xf7)) in
      Agree-if n (not (bit_and code 0x80 == 0)) _ _ scalar_read scalar_read complex
        (Agree-refl n scalar_read)

  Agree-decode_full_tag : (tag : ℕ) → Agree n (decode_full_tag m tag) (decode_full_tag m' tag)
  unfolding decode_full_tag
  Agree-decode_full_tag tag =
      let with_id : Agree n (read_i16 >>= λ id. read_u8 >>= decode_type_code m)
          (read_i16 >>= λ id. read_u8 >>= decode_type_code m') =
        Agree-bind n _ _ read_i16 read_i16 (Agree-refl n _) (StaysWithin-read_number 2) (λ id.
          Agree-bind n _ _ read_u8 read_u8 (Agree-refl n _) StaysWithin-read_u8
            Agree-decode_type_code) in
      let null : Decoder FieldDesc = raise (protocol null_type_code_nested) in
      let only_id : Decoder FieldDesc = read_i16 >>= λ id. raise (protocol (only_id_nested id)) in
      Agree-if n (tag == null_type_code) null null _ _ (Agree-refl n null) (
        Agree-if n (tag == only_id_type_code) only_id only_id _ _ (Agree-refl n only_id)
          (Agree-if n (tag == full_with_id_code) _ _ _ _ with_id (Agree-decode_type_code tag)))

  Agree-decode_tag :
      (k k' : ℕ) (g : IntrospectionRegistry) (tag : ℕ)
      → decode_full k ≡ m
      → decode_full k' ≡ m'
      → Agree n (decode_tag k g tag) (decode_tag k' g tag)
  unfolding decode_tag
  Agree-decode_tag k k' g tag e e' =
      let with_id : (keep : ℕ → FieldDesc → Decoded)
          → Agree n (read_i16 >>= λ id. m >>= λ d. pure (keep id d))
              (read_i16 >>= λ id. m' >>= λ d. pure (keep id d)) =
        λ keep.
          Agree-bind n _ _ read_i16 read_i16 (Agree-refl n _) (StaysWithin-read_number 2)
            (λ id. Agree-bind n _ _ m m' same within (λ d. Agree-refl n _)) in
      let plain : (keep : FieldDesc → Decoded)
          → Agree n (decode_type_code m tag >>= λ d. pure (keep d))
              (decode_type_code m' tag >>= λ d. pure (keep d)) =
        λ keep.
          Agree-bind n _ _ _ _ (Agree-decode_type_code tag)
            (StaysWithin-decode_type_code m within tag) (λ d. Agree-refl n _) in
      let null : Decoder Decoded = pure (none, g) in
      let only_id : Decoder Decoded = read_i16 >>= λ id. known g id (get id g) in
      rw (e, e')
        (Agree-if n (tag == null_type_code) null null _ _ (Agree-refl n null) (
          Agree-if n (tag == only_id_type_code) only_id only_id _ _ (Agree-refl n only_id) (
            Agree-if n (tag == full_with_id_code) _ _ _ _
              (with_id (λ id d. (some d, (register id d g).1))) (plain (λ d. (some d, g))))))

-- The read of a byte leaves one byte less ahead, or fails.
module _ {A : Type 0} (f f' : ℕ → Decoder A) where
  at_end : Agree 0 (read_u8 >>= f) (read_u8 >>= f')
  unfolding read_u8 ensure ◌>>=◌
  at_end = record {
    at = λ r h b.
        let none_left : ltb (length r.buf) (r.pos + 1) ≡ true = ground arith in rw none_left refl;
  }

  behind_byte :
      (n : ℕ) → ((b : ℕ) → Agree n (f b) (f' b)) → Agree (suc n) (read_u8 >>= f) (read_u8 >>= f')
  unfolding read_u8 ensure ◌>>=◌
  behind_byte n hf = record {
    at = λ r h b. elim (Bool-cases (ltb (length r.buf) (r.pos + 1))) [
      | inl over ↦ rw over refl
      | inr fits ↦
          let room : r.pos + 1 ≤ length r.buf = ground arith in
          rw fits ((hf _).at (advance r 1) room (omega (arith, b)))
    ];
  }

Agree-decode_full : (n : ℕ) → Agree n (decode_full n) (decode_full (suc n))
unfolding decode_full
Agree-decode_full zero = at_end _ _
Agree-decode_full (suc n) = behind_byte _ _ n (
    Agree-decode_full_tag n (decode_full n) (decode_full (suc n)) (Agree-decode_full n)
      (StaysWithin-decode_full n))

Agree-more : (n k : ℕ) → n ≤ k → Agree n (decode_full k) (decode_full (suc k))
Agree-more n k h = record { at = λ r w b. (Agree-decode_full k).at r w (omega (arith, b, h)) }

Agree-decode_levels :
    (n k : ℕ) (g : IntrospectionRegistry)
    → n ≤ k
    → Agree n (decode_levels k g) (decode_levels (suc k) g)
unfolding decode_levels
Agree-decode_levels n k g h =
    Agree-bind n _ _ read_u8 read_u8 (Agree-refl n _) StaysWithin-read_u8 (λ tag.
      Agree-decode_tag n (decode_full k) (decode_full (suc k)) (Agree-more n k h)
        (StaysWithin-decode_full k) k (suc k) g tag refl refl)

-- A reader whose cursor is within its buffer decodes the same with any more levels of nesting
-- than bytes lie ahead: the levels that `decode` allows never decide its result.
pub decode_levels_enough :
    (k : ℕ) (g : IntrospectionRegistry) (r : PvaReader)
    → r.pos ≤ length r.buf
    → decode_levels (k + remaining r) g r ≡ decode g r
unfolding decode
decode_levels_enough zero g r h =
    let e : 0 + remaining r ≡ remaining r = omega arith in ap (λ l. decode_levels l g r) e
decode_levels_enough (suc k) g r h =
    let ahead : length r.buf ≤ r.pos + (k + remaining r) = unfold remaining in omega (arith, h) in
    let e : suc k + remaining r ≡ suc (k + remaining r) = omega arith in
    ap (λ l. decode_levels l g r) e
    ∙ sym ((Agree-decode_levels (k + remaining r) (k + remaining r) g (omega arith)).at r h ahead)
    ∙ decode_levels_enough k g r h
