-- ===== src/Codec/FieldDesc/Registry.antt =====
-- `IntrospectionRegistry` and `FieldDesc::decode` of crates/aura-net/src/codec/field_desc.rs.
use aura_epics.Prelude.{
  lookup, insert, insert_le, arith, ◌≤◌, refl, not, Bool-cases, inl, inr, ℕ, List, [], Bool, true,
  false, Option, none, some, pure, raise, ◌>>=◌, length, ◌==◌, leb, if◌then◌else◌, ◌≡◌,
}
use aura_epics.Codec.PvData.Reader.{
  Decoder, remaining, protocol, unknown_introspection_id, read_u8, read_i16,
}
use aura_epics.Codec.FieldDesc.{
  FieldDesc, null_type_code, only_id_type_code, full_with_id_code, decode_full, decode_type_code,
}

-- The map as a list of pairs, one for an id.
pub record IntrospectionRegistry : Type 0 where
  pub by_id : List (ℕ × FieldDesc)
  pub max_entries : ℕ

abbrev pub new : ℕ → IntrospectionRegistry
new n = record { by_id = []; max_entries = n }

unfoldable pub is_full : IntrospectionRegistry → Bool
is_full g = leb g.max_entries (length g.by_id)

unfoldable pub register : ℕ → FieldDesc → IntrospectionRegistry → Bool × IntrospectionRegistry
register id d g =
    if leb g.max_entries (length g.by_id)
    then (false, g)
    else (true, record g { by_id = insert id d g.by_id })

unfoldable pub get : ℕ → IntrospectionRegistry → Option FieldDesc
get id g = lookup id g.by_id

unfoldable pub clear : IntrospectionRegistry → IntrospectionRegistry
clear g = record g { by_id = [] }

-- What a successful `decode` returns, and the registry that it leaves. A failing one leaves the
-- registry as it was: `register` comes last.
abbrev pub Decoded : Type 0
Decoded = Option FieldDesc × IntrospectionRegistry

-- `.cloned().map(Some).ok_or_else(..)`
abbrev pub known : IntrospectionRegistry → ℕ → Option FieldDesc → Decoder Decoded
known g id none = raise (protocol (unknown_introspection_id id))
known g id (some d) = pure (some d, g)

unfoldable pub decode_tag : ℕ → IntrospectionRegistry → ℕ → Decoder Decoded
decode_tag levels g tag =
    if tag == null_type_code
    then pure (none, g)
    else if tag == only_id_type_code
    then (do id ← read_i16; known g id (get id g))
    else if tag == full_with_id_code
    then (do id ← read_i16; d ← decode_full levels; pure (some d, (register id d g).1))
    else (do d ← decode_type_code (decode_full levels) tag; pure (some d, g))

unfoldable pub decode_levels : ℕ → IntrospectionRegistry → Decoder Decoded
decode_levels levels g = do tag ← read_u8; decode_tag levels g tag

-- As many levels as bytes lie ahead.
unfoldable pub decode : IntrospectionRegistry → Decoder Decoded
decode g r = decode_levels (remaining r) g r

-- Registering never grows the registry beyond its limit, and answers false exactly where the limit
-- is reached; it then changes nothing.
pub register_fits :
    (id : ℕ) (d : FieldDesc) (g : IntrospectionRegistry)
    → length g.by_id ≤ g.max_entries
    → (length (register id d g).1.by_id ≤ g.max_entries)
      × ((register id d g).0 ≡ not (is_full g))
      × ((register id d g).0 ≡ false → (register id d g).1 ≡ g)
unfolding register is_full
register_fits id d g h = elim (Bool-cases (leb g.max_entries (length g.by_id))) [
  | inl full ↦ rw full (h, refl, λ e. refl)
  | inr room ↦ rw room (ground (arith, insert_le id d g.by_id), refl, λ e. cc e)
]
