-- ===== src/Messages/Status.antt =====
-- crates/aura-net/src/messages/status.rs: the outcome that a server reports.
pub mod RoundTrip
use aura_epics.Prelude.{
  ℕ, ◌+◌, bit_and, bit_or, List, [], ◌∷◌, Bool, true, false, not, ◌&&◌, Option, none, some, pure,
  raise, ◌>>=◌, length, ◌==◌, if◌then◌else◌,
}
use aura_epics.Codec.PvData.Reader.{
  PvaReader, Decoder, DecodeError, protocol, unknown_status_type, read_u8, read_string,
}
use aura_epics.Codec.PvData.Writer.{PvaWriter, write_u8, write_string}

pub data StatusType : Type 0 where
  success warning error fatal : StatusType

unfoldable pub from_code : ℕ → Option StatusType
from_code code =
    let kind = bit_and code 0x07 in
    if kind == 0
    then some success
    else if kind == 1
    then some warning
    else if kind == 2
    then some error
    else if kind == 3
    then some fatal
    else none

unfoldable pub to_code : StatusType → ℕ
to_code success = 0
to_code warning = 1
to_code error = 2
to_code fatal = 3

abbrev pub is_success_type : StatusType → Bool
is_success_type success = true
is_success_type warning = true
is_success_type error = false
is_success_type fatal = false

abbrev pub status_ok_code : ℕ
status_ok_code = 0xff

abbrev pub has_call_tree_bit : ℕ
has_call_tree_bit = 0x08

pub record PvaStatus : Type 0 where
  pub status_type : StatusType
  pub message : List ℕ
  pub call_tree : Option (List ℕ)

abbrev pub status_ok : PvaStatus
status_ok = record { status_type = success; message = []; call_tree = none }

unfoldable pub is_success : PvaStatus → Bool
is_success s = is_success_type s.status_type

abbrev is_empty : List ℕ → Bool
is_empty [] = true
is_empty (b ∷ bs) = false

abbrev is_plain : StatusType → Bool
is_plain success = true
is_plain warning = false
is_plain error = false
is_plain fatal = false

unfoldable pub is_ok : PvaStatus → Bool
is_ok s = is_plain s.status_type && is_empty s.message

unfoldable pub decode_call_tree : Bool → Decoder (Option (List ℕ))
decode_call_tree true = do tree ← read_string; pure (some tree)
decode_call_tree false = pure none

-- `StatusType::from_code(code).ok_or(..)?` and what follows
unfoldable pub decode_body : ℕ → Option StatusType → Decoder PvaStatus
decode_body code none = raise (protocol (unknown_status_type code))
decode_body code (some kind) = do
  message ← read_string
  tree ← decode_call_tree (not (bit_and code has_call_tree_bit == 0))
  pure (record { status_type = kind; message = message; call_tree = tree })

unfoldable pub decode_code : ℕ → Decoder PvaStatus
decode_code code =
    if code == status_ok_code then pure status_ok else decode_body code (from_code code)

unfoldable pub decode : Decoder PvaStatus
decode = do code ← read_u8; decode_code code

unfoldable pub code_of : PvaStatus → ℕ
code_of s = elim s.call_tree [
  | none ↦ to_code s.status_type
  | some _ ↦ bit_or (to_code s.status_type) has_call_tree_bit
]

abbrev pub encode_call_tree : Option (List ℕ) → PvaWriter → PvaWriter
encode_call_tree none w = w
encode_call_tree (some tree) w = write_string tree w

unfoldable pub encode : PvaStatus → PvaWriter → PvaWriter
encode s w =
    if is_ok s
    then write_u8 status_ok_code w
    else encode_call_tree s.call_tree (write_string s.message (write_u8 (code_of s) w))

abbrev tree_size : Option (List ℕ) → ℕ
tree_size none = 0
tree_size (some tree) = 1 + length tree

unfoldable pub wire_size : PvaStatus → ℕ
wire_size s = if is_ok s then 1 else 1 + 1 + length s.message + tree_size s.call_tree
