-- ===== src/Types/PvaValue/Typed.antt =====
-- A decoded value has the type of its description, where values of that type can be held at all.
use mathlib.Core.Path.{subst}
use aura_epics.Prelude.{
  ℕ, zero, suc, ◌≡◌, refl, ap, List, [], ◌∷◌, map, Bool, true, false, Bool-cases, inl, inr, Option,
  none, some, ok, pure, raise, ◌>>=◌, bind-eq-ok, length, ltb, leb, ◌==◌, if◌then◌else◌, All, arith,
}
use aura_epics.Codec.ByteOrder.{is_negative_i32}
use aura_epics.Codec.PvData.Reader.{Decoder, DecodeError, PvaReader, read_many}
use aura_epics.Codec.FieldDesc.{
  ScalarType, boolean, byte, short, int, long, ubyte, ushort, uint, ulong, float, double, string,
  scalar, scalar_array, bounded_string, structure, structure_array, union, union_array,
  variant_union, variant_union_array, FieldDesc, NamedFields, field_desc, no_fields, named_field,
  field_count,
}
use aura_epics.Types.PvaValue.Values.{
  HasType, HaveTypes, OneOf, is_scalar_of, is_array_of, is_structure, is_bounded, is_union,
  is_variant, is_no_variant, no_more, one_more, of_none, of_first, of_later, IsHeld, AreHeld,
}
use aura_epics.Types.PvaValue.{
  ScalarValue, ubyte_value, type_tag, decode_scalar, PvaValue, scalar_of, array_of, structure_of,
  union_of, null, no_values, named_value, decode_bytes, decode_elements, decode_array,
  decode_bounded_string, variant_of, decode_variant, decode_from, decode_values, decode_selected,
  is_ubyte,
}

-- Whatever the read returns has the property.
pub record Yields {A : Type 0} (P : A → Type 0) (m : Decoder A) : Type 0 where
  pub at : (r r' : PvaReader) (a : A) → m r ≡ (ok a, r') → P a

module _ {A : Type 0} (P : A → Type 0) where
  pub Yields-pure : (a : A) → P a → Yields P (pure a)
  Yields-pure a h = record { at = λ r r' b e. let same : a ≡ b = cc e in subst P same h }

  Yields-raise : (e : DecodeError) → Yields P (raise e)
  Yields-raise e = record { at = λ r r' b h. absurd (cc h) }

  pub Yields-if :
      (b : Bool) (m k : Decoder A) → Yields P m → Yields P k → Yields P (if b then m else k)
  Yields-if true m k hm hk = hm
  Yields-if false m k hm hk = hk

module _ {A B : Type 0} (Q : A → Type 0) (P : B → Type 0) where
  pub Yields-bind :
      (m : Decoder A) (f : A → Decoder B)
      → Yields Q m
      → ((a : A) → Q a → Yields P (f a))
      → Yields P (m >>= f)
  Yields-bind m f hm hf = record {
    at = λ r r' b e.
        let (a, first, then_) = bind-eq-ok m f r r' b e in
        let here : m r ≡ (ok a, (m r).1) = ap (λ x. (x, (m r).1)) first in
        (hf a (hm.at r (m r).1 a here)).at (m r).1 r' b then_;
  }

Yields-anything : {A : Type 0} (m : Decoder A) → Yields (λ a. Unit {0}) m
Yields-anything m = record { at = λ r r' a e. tt }

Yields-many :
    {A : Type 0} (P : A → Type 0) (read : Decoder A) (n : ℕ)
    → Yields P read
    → Yields (All P) (read_many n read)
unfolding read_many
Yields-many P read zero h = Yields-pure (All P) [] tt
Yields-many P read (suc n) h =
    let rest = Yields-many P read n h in
    Yields-bind P (All P) read _ h (λ x hx.
      Yields-bind (All P) (All P) _ _ rest (λ xs hxs. Yields-pure (All P) (x ∷ xs) (hx, hxs)))

-- A step whose result does not matter.
pub Yields-after :
    {A B : Type 0} (P : B → Type 0) (m : Decoder A) (f : A → Decoder B)
    → ((a : A) → Yields P (f a))
    → Yields P (m >>= f)
Yields-after P m f hf = Yields-bind (λ a. Unit {0}) P m f (Yields-anything m) (λ a u. hf a)

abbrev HasTag : ScalarType → ScalarValue → Type 0
HasTag st x = type_tag x ≡ st

Yields-scalar : (st : ScalarType) → Yields (HasTag st) (decode_scalar st)
unfolding decode_scalar type_tag
Yields-scalar boolean = Yields-after _ _ _ (λ a. Yields-pure (HasTag boolean) _ refl)
Yields-scalar byte = Yields-after _ _ _ (λ a. Yields-pure (HasTag byte) _ refl)
Yields-scalar short = Yields-after _ _ _ (λ a. Yields-pure (HasTag short) _ refl)
Yields-scalar int = Yields-after _ _ _ (λ a. Yields-pure (HasTag int) _ refl)
Yields-scalar long = Yields-after _ _ _ (λ a. Yields-pure (HasTag long) _ refl)
Yields-scalar ubyte = Yields-after _ _ _ (λ a. Yields-pure (HasTag ubyte) _ refl)
Yields-scalar ushort = Yields-after _ _ _ (λ a. Yields-pure (HasTag ushort) _ refl)
Yields-scalar uint = Yields-after _ _ _ (λ a. Yields-pure (HasTag uint) _ refl)
Yields-scalar ulong = Yields-after _ _ _ (λ a. Yields-pure (HasTag ulong) _ refl)
Yields-scalar float = Yields-after _ _ _ (λ a. Yields-pure (HasTag float) _ refl)
Yields-scalar double = Yields-after _ _ _ (λ a. Yields-pure (HasTag double) _ refl)
Yields-scalar string = Yields-after _ _ _ (λ a. Yields-pure (HasTag string) _ refl)

All-ubytes : (bytes : List ℕ) → All (HasTag ubyte) (map ubyte_value bytes)
unfolding type_tag
All-ubytes [] = tt
All-ubytes (b ∷ bs) = (refl, All-ubytes bs)

Yields-bytes : (len : ℕ) → Yields (All (HasTag ubyte)) (decode_bytes len)
unfolding decode_bytes
Yields-bytes len =
    Yields-after _ _ _ (λ bytes. Yields-pure (All (HasTag ubyte)) _ (All-ubytes bytes))

Yields-elements : (st : ScalarType) (len : ℕ) → Yields (All (HasTag st)) (decode_elements st len)
unfolding decode_elements
Yields-elements st len =
    Yields-if _ (len == 0) (pure []) _ (Yields-pure (All (HasTag st)) [] tt)
      (elim st
        as (λ s.
          Yields (All (HasTag s))
            (if is_ubyte s then decode_bytes len else read_many len (decode_scalar s))) [
              | ubyte ↦ Yields-bytes len
              | _ ↦ Yields-many _ _ len (Yields-scalar _)
            ])

Yields-bounded :
    (max_len : ℕ) (id : List ℕ) (fs : NamedFields)
    → Yields (HasType (field_desc (bounded_string max_len) id fs)) (decode_bounded_string max_len)
unfolding decode_bounded_string
Yields-bounded max_len id fs = Yields-after _ _ _ (λ s. elim (Bool-cases (ltb max_len (length s))) [
  | inl over ↦ rw over (Yields-raise _ _)
  | inr fits ↦ rw fits (Yields-pure _ _ (is_bounded s (ground arith)))
])

Yields-variant_of :
    (st : Option ScalarType) (id : List ℕ) (fs : NamedFields)
    → Yields (HasType (field_desc variant_union id fs)) (variant_of st)
Yields-variant_of none id fs = Yields-pure _ null is_no_variant
Yields-variant_of (some st) id fs =
    Yields-after _ _ _ (λ x. Yields-pure _ (scalar_of x) (is_variant x))

Yields-variant :
    (id : List ℕ) (fs : NamedFields)
    → Yields (HasType (field_desc variant_union id fs)) decode_variant
unfolding decode_variant
Yields-variant id fs = Yields-after _ _ _ (λ selector.
    Yields-if _ (is_negative_i32 selector) _ _ (Yields-pure _ null is_no_variant)
      (Yields-after _ _ _ (λ tag. Yields-variant_of _ id fs)))

Yields-array :
    (st : ScalarType) (id : List ℕ) (fs : NamedFields)
    → Yields (HasType (field_desc (scalar_array st) id fs)) (decode_array st)
unfolding decode_array
Yields-array st id fs = Yields-after _ _ _ (λ len.
    Yields-bind (All (HasTag st)) _ _ _ (Yields-elements st len)
      (λ xs h. Yields-pure _ (array_of xs) (is_array_of xs h)))

Yields-map :
    {A : Type 0} {P Q : A → Type 0} {m : Decoder A}
    → ((a : A) → P a → Q a)
    → Yields P m
    → Yields Q m
Yields-map f h = record { at = λ r r' a e. f a (h.at r r' a e) }

mutual
  unfolding decode_from decode_values decode_selected IsHeld AreHeld

  decode-HasType : (d : FieldDesc) → IsHeld d → Yields (HasType d) (decode_from d)
  decode-HasType (field_desc (scalar st) id fs) h =
      Yields-bind (HasTag st) _ _ _ (Yields-scalar st)
        (λ x hx. Yields-pure _ (scalar_of x) (is_scalar_of x hx))
  decode-HasType (field_desc (scalar_array st) id fs) h = Yields-array st id fs
  decode-HasType (field_desc structure id fs) h =
      Yields-bind (HaveTypes fs) _ _ _ (decode_values-HaveTypes fs h)
        (λ vs hvs. Yields-pure _ (structure_of vs) (is_structure vs hvs))
  decode-HasType (field_desc structure_array id fs) h = absurd h
  decode-HasType (field_desc (bounded_string max_len) id fs) h = Yields-bounded max_len id fs
  decode-HasType (field_desc union id fs) h = Yields-after _ _ _ (λ selector.
      Yields-if _ (is_negative_i32 selector) _ _ (Yields-pure _ null (is_union null of_none)) (
        Yields-if _ (leb (field_count fs) selector) _ _ (Yields-raise _ _)
          (Yields-map (λ v hv. is_union v hv) (decode_selected-OneOf selector fs h))))
  decode-HasType (field_desc union_array id fs) h = absurd h
  decode-HasType (field_desc variant_union id fs) h = Yields-variant id fs
  decode-HasType (field_desc variant_union_array id fs) h = absurd h

  decode_values-HaveTypes :
      (fs : NamedFields) → AreHeld fs → Yields (HaveTypes fs) (decode_values fs)
  decode_values-HaveTypes no_fields h = Yields-pure _ no_values no_more
  decode_values-HaveTypes (named_field name d fs) (hd, hfs) =
      Yields-bind (HasType d) _ _ _ (decode-HasType d hd) (λ v hv.
        Yields-bind (HaveTypes fs) _ _ _ (decode_values-HaveTypes fs hfs)
          (λ vs hvs. Yields-pure _ (named_value name v vs) (one_more hv hvs)))

  decode_selected-OneOf :
      (n : ℕ) (fs : NamedFields) → AreHeld fs → Yields (OneOf fs) (decode_selected n fs)
  decode_selected-OneOf n no_fields h = Yields-pure _ null of_none
  decode_selected-OneOf zero (named_field name d fs) (hd, hfs) =
      Yields-bind (HasType d) _ _ _ (decode-HasType d hd)
        (λ v hv. Yields-pure _ (union_of name v) (of_first hv))
  decode_selected-OneOf (suc n) (named_field name d fs) (hd, hfs) =
      Yields-map (λ v hv. of_later hv) (decode_selected-OneOf n fs hfs)

-- For a description without arrays of structures, unions or variants, whatever `decode_from`
-- returns has its type: a scalar of the scalar type, an array of such scalars, a structure with a
-- value for each field under its name and in order, a string within the bound, a value of one of
-- the union's fields or null, and for a variant any scalar or null.
pub decode_from-HasType :
    (d : FieldDesc) (r r' : PvaReader) (v : PvaValue)
    → IsHeld d
    → decode_from d r ≡ (ok v, r')
    → HasType d v
decode_from-HasType d r r' v held e = (decode-HasType d held).at r r' v e
