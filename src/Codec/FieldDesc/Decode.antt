-- ===== src/Codec/FieldDesc/Decode.antt =====
-- What `FieldDesc::decode` returns for each way in which a description is sent.
use aura_epics.Prelude.{
  lookup-insert, ℕ, ◌≤◌, ◌<◌, ◌^◌, ◌≡◌, List, [], ◌∷◌, ◌++◌, false, some, ok, pure, ◌>>=◌, length,
  length-append, leb, arith,
}
use aura_epics.Codec.ByteOrder.{ByteOrder, write_word}
use aura_epics.Codec.PvData.Reader.{Decoder, remaining}
use aura_epics.Codec.PvData.Reads.{
  Reads, Reads-pure, Reads-bind, Reads-then, Reads-read_u8, Reads-read_number, room_for,
}
use aura_epics.Codec.PvData.Writer.{PvaWriter, write_u8, write_i16}
use aura_epics.Codec.PvData.Writes.{
  Writes, Writes-then, Writes-write_u8, Writes-write_number, undone,
}
use aura_epics.Codec.PvData.Inverse.{reading}
use aura_epics.Codec.FieldDesc.{
  FieldDesc, field_desc, flat_field_count, encode, decode_full, full_with_id_code,
  only_id_type_code, Option,
}
use aura_epics.Codec.FieldDesc.Bytes.{tag_of, IsDesc, desc_bytes, Writes-desc}
use aura_epics.Codec.FieldDesc.Registry.{
  IntrospectionRegistry, Decoded, decode, decode_levels, decode_tag, get, register,
}
use aura_epics.Codec.FieldDesc.RoundTrip.{
  tag_of-IsPlain, Reads-type, Reads-full, flat_field_count-bytes,
}

module _ (o : ByteOrder) where
  -- Any read that is right with enough levels is right with as many as bytes lie ahead.
  Reads-decode :
      (g : IntrospectionRegistry) (bytes : List ℕ) (v : Decoded) (n : ℕ)
      → n ≤ length bytes
      → ((levels : ℕ) → n ≤ levels → Reads o (decode_levels levels g) bytes v)
      → Reads o (decode g) bytes v
  unfolding decode remaining
  Reads-decode g bytes v n h reads = record {
    at = λ r rest ho ahead.
        (reads (remaining r) (omega (arith, h, room_for r bytes rest ahead))).at r rest ho ahead;
  }

  Reads-plain :
      (g : IntrospectionRegistry) (d : FieldDesc)
      → IsDesc d
      → (levels : ℕ) → flat_field_count d ≤ levels
      → Reads o (decode_levels levels g) (desc_bytes o d) (some d, g)
  unfolding decode_levels decode_tag flat_field_count
  Reads-plain g (field_desc ft id fs) (head, hf) levels h =
      let plain = tag_of-IsPlain ft in
      Reads-bind _ _ (tag_of ft ∷ []) _ (tag_of ft) _ (Reads-read_u8 o (tag_of ft)) (
        rw (plain.not_null, plain.not_id, plain.not_both)
          (Reads-then _ _ _ (field_desc ft id fs) _
            (Reads-type o (decode_full levels) levels (Reads-full o levels) ft id fs
              (omega (arith, h)) head hf)
            (Reads-pure (some (field_desc ft id fs), g))))

  pub Reads-desc :
      (g : IntrospectionRegistry) (d : FieldDesc)
      → IsDesc d
      → Reads o (decode g) (desc_bytes o d) (some d, g)
  Reads-desc g d h =
      Reads-decode g (desc_bytes o d) (some d, g) (flat_field_count d)
        (flat_field_count-bytes o d h) (Reads-plain g d h)

  abbrev registering : ℕ → FieldDesc → List ℕ
  registering id d = (full_with_id_code ∷ []) ++ (write_word o 2 id ++ desc_bytes o d)

  Reads-both :
      (g : IntrospectionRegistry) (id : ℕ) (d : FieldDesc)
      → id < 2 ^ 16
      → IsDesc d
      → (levels : ℕ) → flat_field_count d ≤ levels
      → Reads o (decode_levels levels g) (registering id d) (some d, (register id d g).1)
  unfolding decode_levels decode_tag
  Reads-both g id d hid h levels enough =
      Reads-bind _ _ (full_with_id_code ∷ []) _ full_with_id_code _
        (Reads-read_u8 o full_with_id_code)
        (Reads-bind _ _ (write_word o 2 id) (desc_bytes o d) id _
          (Reads-read_number o 2 id (omega (arith, hid)))
          (Reads-then _ _ (desc_bytes o d) d _ (Reads-full o levels d enough h)
            (Reads-pure (some d, (register id d g).1))))

  pub Reads-registering :
      (g : IntrospectionRegistry) (id : ℕ) (d : FieldDesc)
      → id < 2 ^ 16
      → IsDesc d
      → Reads o (decode g) (registering id d) (some d, (register id d g).1)
  Reads-registering g id d hid h =
      let longer : flat_field_count d ≤ length (registering id d) =
        omega (
          arith,
          flat_field_count-bytes o d h,
          length-append (write_word o 2 id) (desc_bytes o d),
        ) in
      Reads-decode g (registering id d) (some d, (register id d g).1) (flat_field_count d) longer
        (Reads-both g id d hid h)

  abbrev referring : ℕ → List ℕ
  referring id = (only_id_type_code ∷ []) ++ write_word o 2 id

  pub Reads-referring :
      (g : IntrospectionRegistry) (id : ℕ) (d : FieldDesc)
      → id < 2 ^ 16
      → get id g ≡ some d
      → Reads o (decode g) (referring id) (some d, g)
  unfolding decode_levels decode_tag
  Reads-referring g id d hid e =
      Reads-decode g (referring id) (some d, g) 0 (omega arith)
        (λ levels enough.
          Reads-bind _ _ (only_id_type_code ∷ []) (write_word o 2 id) only_id_type_code (some d, g)
            (Reads-read_u8 o only_id_type_code)
            (Reads-then _ _ (write_word o 2 id) id (some d, g)
              (Reads-read_number o 2 id (omega (arith, hid))) (rw e (Reads-pure (some d, g)))))

get-register :
    (id : ℕ) (d : FieldDesc) (g : IntrospectionRegistry)
    → leb g.max_entries (length g.by_id) ≡ false
    → get id (register id d g).1 ≡ some d
unfolding get register
get-register id d g h = rw h (lookup-insert id d g.by_id)

module _ (id : ℕ) (d : FieldDesc) (o : ByteOrder) where
  Writes-registering :
      IsDesc d
      → Writes o (λ w. encode d (write_i16 id (write_u8 full_with_id_code w))) (registering o id d)
  Writes-registering h =
      Writes-then (write_u8 full_with_id_code) _ (full_with_id_code ∷ []) _
        (Writes-write_u8 o full_with_id_code)
        (Writes-then (write_i16 id) (encode d) (write_word o 2 id) _ (Writes-write_number o 2 id)
          (Writes-desc o d h))

  Writes-referring : Writes o (λ w. write_i16 id (write_u8 only_id_type_code w)) (referring o id)
  Writes-referring =
      Writes-then (write_u8 only_id_type_code) (write_i16 id) (only_id_type_code ∷ []) _
        (Writes-write_u8 o only_id_type_code) (Writes-write_number o 2 id)

-- A description of any depth is decoded back from its encoding as it was, the registry unchanged,
-- and the cursor stops where the writer stopped. Its strings are valid UTF-8, its sizes are below
-- 2 ^ 31, and only a structure, a union or an array of them has an id or fields.
pub desc-decode-encode :
    (d : FieldDesc) (g : IntrospectionRegistry) (w : PvaWriter) (rest : List ℕ)
    → IsDesc d
    → decode g (reading (encode d w) (length w.buf) rest)
      ≡ (ok (some d, g), reading (encode d w) (length (encode d w).buf) rest)
desc-decode-encode d g w rest h =
    undone w rest (desc_bytes w.order d) (encode d) (decode g) (some d, g) (Writes-desc w.order d h)
      (Reads-desc w.order g d h)

-- The two messages, one after the other.
abbrev pub sent_twice : ℕ → FieldDesc → PvaWriter → PvaWriter
sent_twice id d w =
    write_i16 id
      (write_u8 only_id_type_code (encode d (write_i16 id (write_u8 full_with_id_code w))))

-- Two descriptions in a row, and the registry that they leave.
abbrev decode_next : Decoded → Decoder (Option FieldDesc × Decoded)
decode_next (d, g) = do second ← decode g; pure (d, second)

abbrev pub decode_twice : IntrospectionRegistry → Decoder (Option FieldDesc × Decoded)
decode_twice g = do first ← decode g; decode_next first

-- Where the registry has room, a description that is sent with a 16-bit id and later by that id
-- alone is decoded as it was both times. It has the form that `desc-decode-encode` asks for, the
-- second result carries the registry that the first one left, and the cursor stops at the end.
pub desc_by_id :
    (id : ℕ) (d : FieldDesc) (g : IntrospectionRegistry) (w : PvaWriter) (rest : List ℕ)
    → IsDesc d
    → id < 2 ^ 16
    → leb g.max_entries (length g.by_id) ≡ false
    → decode_twice g (reading (sent_twice id d w) (length w.buf) rest) ≡ (
      ok (some d, (some d, (register id d g).1)),
      reading (sent_twice id d w) (length (sent_twice id d w).buf) rest,
    )
desc_by_id id d g w rest h fits room =
    let o = w.order in
    undone w rest (registering o id d ++ referring o id) (sent_twice id d) _ _
      (Writes-then _ _ (registering o id d) (referring o id) (Writes-registering id d o h)
        (Writes-referring id d o))
      (Reads-bind _ _ (registering o id d) (referring o id) _ _ (Reads-registering o g id d fits h)
        (Reads-then _ _ (referring o id) _ _
          (Reads-referring o (register id d g).1 id d fits (get-register id d g room))
          (Reads-pure _)))
