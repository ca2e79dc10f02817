-- ===== src/Codec/FieldDesc/Bytes.antt =====
-- The bytes of a description, by the table of type codes, and that `encode` writes them.
use aura_epics.Prelude.{ℕ, ◌<◌, ◌^◌, ◌≡◌, List, [], ◌∷◌, ◌++◌, true, bit_or, length, arith}
use aura_epics.Codec.ByteOrder.{ByteOrder}
use aura_epics.Codec.PvData.Utf8.{is_utf8}
use aura_epics.Codec.PvData.RoundTrip.{size_bytes, string_bytes}
use aura_epics.Codec.PvData.Writer.{PvaWriter, write_u8, write_size, write_string}
use aura_epics.Codec.PvData.Writes.{
  Writes, Writes-then, Writes-write_u8, Writes-write_size, Writes-write_string, Writes-nothing,
}
use aura_epics.Codec.FieldDesc.{
  FieldType, scalar, scalar_array, bounded_string, structure, structure_array, union, union_array,
  variant_union, variant_union_array, FieldDesc, NamedFields, field_desc, no_fields, named_field,
  field_count, scalar_to_wire, encode, encode_fields, composite_header,
}

abbrev pub tag_of : FieldType → ℕ
tag_of (scalar s) = scalar_to_wire s
tag_of (scalar_array s) = bit_or (scalar_to_wire s) 0x08
tag_of (bounded_string bound) = 0x86
tag_of structure = 0x80
tag_of structure_array = 0x88
tag_of union = 0x82
tag_of union_array = 0x8a
tag_of variant_union = 0x81
tag_of variant_union_array = 0x83

-- A type that is not composite has no id and no fields. Ids are valid UTF-8, and sizes fit 31 bits.
abbrev pub IsComposite : List ℕ → ℕ → Type 0
IsComposite id n = (is_utf8 id ≡ true) × (length id < 2 ^ 31) × (n < 2 ^ 31)

abbrev pub IsHead : FieldType → List ℕ → ℕ → Type 0
IsHead (scalar s) id n = (id ≡ []) × (n ≡ 0)
IsHead (scalar_array s) id n = (id ≡ []) × (n ≡ 0)
IsHead (bounded_string bound) id n = (bound < 2 ^ 31) × (id ≡ []) × (n ≡ 0)
IsHead structure id n = IsComposite id n
IsHead structure_array id n = IsComposite id n
IsHead union id n = IsComposite id n
IsHead union_array id n = IsComposite id n
IsHead variant_union id n = (id ≡ []) × (n ≡ 0)
IsHead variant_union_array id n = (id ≡ []) × (n ≡ 0)

abbrev mutual
  pub IsDesc : FieldDesc → Type 0
  IsDesc (field_desc ft id fs) = IsHead ft id (field_count fs) × AreFields fs

  pub AreFields : NamedFields → Type 0
  AreFields no_fields = Unit
  AreFields (named_field name d fs) =
      ((is_utf8 name ≡ true) × (length name < 2 ^ 31)) × (IsDesc d × AreFields fs)

abbrev pub composite_bytes : ByteOrder → List ℕ → ℕ → List ℕ → List ℕ
composite_bytes o id n fields = string_bytes o id ++ (size_bytes o n ++ fields)

-- what follows the tag, from the bytes of the fields
abbrev pub body_bytes : ByteOrder → FieldType → List ℕ → ℕ → List ℕ → List ℕ
body_bytes o (scalar s) id n fields = []
body_bytes o (scalar_array s) id n fields = []
body_bytes o (bounded_string bound) id n fields = size_bytes o bound
body_bytes o structure id n fields = composite_bytes o id n fields
body_bytes o structure_array id n fields = composite_bytes o id n fields
body_bytes o union id n fields = composite_bytes o id n fields
body_bytes o union_array id n fields = composite_bytes o id n fields
body_bytes o variant_union id n fields = []
body_bytes o variant_union_array id n fields = []

abbrev mutual
  pub desc_bytes : ByteOrder → FieldDesc → List ℕ
  desc_bytes o (field_desc ft id fs) =
      tag_of ft ∷ body_bytes o ft id (field_count fs) (fields_bytes o fs)

  pub fields_bytes : ByteOrder → NamedFields → List ℕ
  fields_bytes o no_fields = []
  fields_bytes o (named_field name d fs) =
      string_bytes o name ++ (desc_bytes o d ++ fields_bytes o fs)

module _ (o : ByteOrder) where
  Writes-composite :
      (code : ℕ) (id : List ℕ) (n : ℕ) (write : PvaWriter → PvaWriter) (fields : List ℕ)
      → IsComposite id n
      → Writes o write fields
      → Writes o
          (λ w. write (composite_header code id n w))
          ((code ∷ []) ++ composite_bytes o id n fields)
  unfolding composite_header
  Writes-composite code id n write fields (valid, short, few) h =
      Writes-then (write_u8 code) _ (code ∷ []) _ (Writes-write_u8 o code) (
        Writes-then (write_string id) _ _ _ (Writes-write_string o id (omega arith))
          (Writes-then (write_size n) write _ _ (Writes-write_size o n (omega arith)) h))

  mutual
    unfolding encode encode_fields

    encode-Writes : (d : FieldDesc) → IsDesc d → Writes o (encode d) (desc_bytes o d)
    encode-Writes (field_desc (scalar s) id fs) h = Writes-write_u8 o (scalar_to_wire s)
    encode-Writes (field_desc (scalar_array s) id fs) h =
        Writes-write_u8 o (bit_or (scalar_to_wire s) 0x08)
    encode-Writes (field_desc (bounded_string bound) id fs) ((few, e, z), hf) =
        Writes-then (write_u8 0x86) (write_size bound) (0x86 ∷ []) _ (Writes-write_u8 o 0x86)
          (Writes-write_size o bound (omega arith))
    encode-Writes (field_desc structure id fs) (h, hf) =
        Writes-composite 0x80 id (field_count fs) (encode_fields fs) _ h
          (encode_fields-Writes fs hf)
    encode-Writes (field_desc structure_array id fs) (h, hf) =
        Writes-composite 0x88 id (field_count fs) (encode_fields fs) _ h
          (encode_fields-Writes fs hf)
    encode-Writes (field_desc union id fs) (h, hf) =
        Writes-composite 0x82 id (field_count fs) (encode_fields fs) _ h
          (encode_fields-Writes fs hf)
    encode-Writes (field_desc union_array id fs) (h, hf) =
        Writes-composite 0x8a id (field_count fs) (encode_fields fs) _ h
          (encode_fields-Writes fs hf)
    encode-Writes (field_desc variant_union id fs) h = Writes-write_u8 o 0x81
    encode-Writes (field_desc variant_union_array id fs) h = Writes-write_u8 o 0x83

    encode_fields-Writes :
        (fs : NamedFields) → AreFields fs → Writes o (encode_fields fs) (fields_bytes o fs)
    encode_fields-Writes no_fields h = Writes-nothing o
    encode_fields-Writes (named_field name d fs) ((valid, short), (hd, hfs)) =
        Writes-then (write_string name) _ _ _ (Writes-write_string o name (omega arith)) (
          Writes-then (encode d) (encode_fields fs) _ _ (encode-Writes d hd)
            (encode_fields-Writes fs hfs))

  pub Writes-desc : (d : FieldDesc) → IsDesc d → Writes o (encode d) (desc_bytes o d)
  Writes-desc d h = encode-Writes d h
