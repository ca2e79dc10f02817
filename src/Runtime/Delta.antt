-- ===== src/Runtime/Delta.antt =====
-- crates/aura-net/src/runtime/session.rs: a monitor update, decoded as a whole or by its changed
-- fields. Fields have flat indices in the order of a walk through the description, the
-- description itself first.
pub mod Walk
pub mod Whole
mod Tests
use aura_epics.Prelude.{ℕ, zero, suc, ◌+◌, Bool, true, false, ◌||◌, pure, ◌>>=◌, leb, if◌then◌else◌}
use aura_epics.Codec.ByteOrder.{is_negative_i32}
use aura_epics.Codec.PvData.Reader.{Decoder, read_u8, read_i32, read_string}
use aura_epics.Codec.FieldDesc.{
  ScalarType, scalar, scalar_array, bounded_string, structure, structure_array, union, union_array,
  variant_union, variant_union_array, FieldDesc, NamedFields, field_desc, no_fields, named_field,
  field_count, flat_field_count,
}
use aura_epics.Codec.BitSet.{PvaBitSet, is_set}
use aura_epics.Types.PvaValue.{
  PvaValue, NamedValues, scalar_of, structure_of, null, no_values, named_value, string_value,
  decode_scalar, decode_array, decode_from, decode_selected,
}

unfoldable mutual
  pub skip_flat_indices : FieldDesc → ℕ → ℕ
  skip_flat_indices (field_desc structure id fs) idx = skip_fields fs (idx + 1)
  skip_flat_indices (field_desc structure_array id fs) idx = skip_fields fs (idx + 1)
  skip_flat_indices (field_desc union id fs) idx = skip_fields fs (idx + 1)
  skip_flat_indices (field_desc union_array id fs) idx = skip_fields fs (idx + 1)
  skip_flat_indices (field_desc (scalar st) id fs) idx = idx + 1
  skip_flat_indices (field_desc (scalar_array st) id fs) idx = idx + 1
  skip_flat_indices (field_desc (bounded_string max_len) id fs) idx = idx + 1
  skip_flat_indices (field_desc variant_union id fs) idx = idx + 1
  skip_flat_indices (field_desc variant_union_array id fs) idx = idx + 1

  pub skip_fields : NamedFields → ℕ → ℕ
  skip_fields no_fields idx = idx
  skip_fields (named_field name d fs) idx = skip_fields fs (skip_flat_indices d idx)

-- `*flat_idx` beside the value that is returned
abbrev pub Indexed : Type 0 → Type 0
Indexed A = Decoder (A × ℕ)

module _ (changed : PvaBitSet) where
  -- `(start..start + count).any(|i| changed.is_set(i))`
  unfoldable pub any_set : ℕ → ℕ → Bool
  any_set start zero = false
  any_set start (suc count) = is_set changed start || any_set (suc start) count

  abbrev pub if_changed : ℕ → Decoder PvaValue → Indexed PvaValue
  if_changed idx read =
      if is_set changed idx then (do v ← read; pure (v, idx + 1)) else pure (null, idx + 1)

  abbrev pub delta_string : Decoder PvaValue
  delta_string = do s ← read_string; pure (scalar_of (string_value s))

  abbrev pub delta_scalar : ScalarType → Decoder PvaValue
  delta_scalar st = do x ← decode_scalar st; pure (scalar_of x)

  -- the value of a variant union is not read beyond its tag
  abbrev pub delta_variant : Decoder PvaValue
  delta_variant = do tag ← read_u8; pure null

  abbrev pub delta_union : NamedFields → Decoder PvaValue
  delta_union fs = do
    selector ← read_i32
    if is_negative_i32 selector || leb (field_count fs) selector
        then pure null
        else decode_selected selector fs

  unfoldable mutual
    pub decode_delta_structure : FieldDesc → ℕ → Indexed PvaValue
    decode_delta_structure (field_desc (scalar st) id fs) idx = if_changed idx (delta_scalar st)
    decode_delta_structure (field_desc (scalar_array st) id fs) idx =
        if_changed idx (decode_array st)
    decode_delta_structure (field_desc (bounded_string max_len) id fs) idx =
        if_changed idx delta_string
    decode_delta_structure (field_desc structure id fs) idx =
        let fields = decode_delta_fields fs (idx + 1) in
        if any_set idx (flat_field_count (field_desc structure id fs))
        then (do (vs, next) ← fields; pure (structure_of vs, next))
        else pure (null, skip_fields fs (idx + 1))
    decode_delta_structure (field_desc structure_array id fs) idx =
        let fields = decode_delta_fields fs (idx + 1) in
        if any_set idx (flat_field_count (field_desc structure_array id fs))
        then (do (vs, next) ← fields; pure (structure_of vs, next))
        else pure (null, skip_fields fs (idx + 1))
    decode_delta_structure (field_desc variant_union id fs) idx = if_changed idx delta_variant
    decode_delta_structure (field_desc variant_union_array id fs) idx = if_changed idx delta_variant
    decode_delta_structure (field_desc union id fs) idx = if_changed idx (delta_union fs)
    decode_delta_structure (field_desc union_array id fs) idx = if_changed idx (delta_union fs)

    pub decode_delta_fields : NamedFields → ℕ → Indexed NamedValues
    decode_delta_fields no_fields idx = pure (no_values, idx)
    decode_delta_fields (named_field name d fs) idx = do
      (v, next) ← decode_delta_structure d idx
      (vs, last) ← decode_delta_fields fs next
      pure (named_value name v vs, last)

  -- `decode_result` of `handle_monitor_update`
  unfoldable pub decode_update : FieldDesc → Decoder PvaValue
  decode_update (field_desc ft id fs) =
      if is_set changed 0
      then decode_from (field_desc ft id fs)
      else (do (vs, last) ← decode_delta_fields fs 1; pure (structure_of vs))
