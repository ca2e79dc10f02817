-- ===== src/Messages/Status/RoundTrip.antt =====
-- A status and its bytes.
use mathlib.Core.Path.{subst}
use aura_epics.Prelude.{
  ℕ, ◌<◌, ◌^◌, ◌≡◌, refl, ap, sym, List, [], ◌∷◌, ◌++◌, Bool, true, false, not, Option, none, some,
  ok, length, ◌==◌, bit_and, if◌then◌else◌, Bool-cases, inl, inr, arith,
}
use aura_epics.Codec.ByteOrder.{ByteOrder}
use aura_epics.Codec.PvData.Utf8.{is_utf8}
use aura_epics.Codec.PvData.Reads.{Reads, Reads-pure, Reads-bind, Reads-then, Reads-read_u8}
use aura_epics.Codec.PvData.RoundTrip.{string_bytes, Reads-read_string}
use aura_epics.Codec.PvData.Writer.{PvaWriter, write_u8, write_string}
use aura_epics.Codec.PvData.Writes.{
  Writes, Writes-then, Writes-write_u8, Writes-write_string, Writes-nothing, undone, Writes-if,
}
use aura_epics.Codec.PvData.Inverse.{reading, IsStringOption}
use aura_epics.Messages.Status.{
  PvaStatus, StatusType, success, warning, error, fatal, decode, decode_code, decode_body,
  decode_call_tree, encode, encode_call_tree, code_of, to_code, from_code, is_ok, status_ok,
  status_ok_code, has_call_tree_bit,
}

-- Strings of valid UTF-8, each below 2 ^ 31 bytes. A status that counts as OK has no call tree:
-- its encoding has no room for one.
pub record IsStatus (s : PvaStatus) : Type 0 where
  pub message : (is_utf8 s.message ≡ true) × (length s.message < 2 ^ 31)
  pub call_tree : IsStringOption s.call_tree
  pub plain : is_ok s ≡ true → s.call_tree ≡ none

abbrev tree_bytes : ByteOrder → Option (List ℕ) → List ℕ
tree_bytes o none = []
tree_bytes o (some tree) = string_bytes o tree

abbrev pub status_bytes : ByteOrder → PvaStatus → List ℕ
status_bytes o s =
    if is_ok s
    then status_ok_code ∷ []
    else (code_of s ∷ []) ++ (string_bytes o s.message ++ tree_bytes o s.call_tree)

Writes-tree :
    (o : ByteOrder) (t : Option (List ℕ))
    → IsStringOption t
    → Writes o (encode_call_tree t) (tree_bytes o t)
Writes-tree o none h = Writes-nothing o
Writes-tree o (some tree) (_, short) = Writes-write_string o tree (omega arith)

pub Writes-status :
    (o : ByteOrder) (s : PvaStatus) → IsStatus s → Writes o (encode s) (status_bytes o s)
unfolding encode
Writes-status o s h =
    Writes-if (is_ok s) _ _ (status_ok_code ∷ []) _ (λ plain. Writes-write_u8 o status_ok_code)
      (λ other.
        Writes-then (write_u8 (code_of s)) _ (code_of s ∷ []) _ (Writes-write_u8 o (code_of s)) (
          Writes-then (write_string s.message) (encode_call_tree s.call_tree) _ _
            (Writes-write_string o s.message (omega (arith, h.message)))
            (Writes-tree o s.call_tree h.call_tree)))

-- The code byte of a status that is not OK says its type and whether a call tree follows.
record IsCode (s : PvaStatus) (has_tree : Bool) : Type 0 where
  not_ok : (code_of s == status_ok_code) ≡ false
  kind : from_code (code_of s) ≡ some s.status_type
  tree : not (bit_and (code_of s) has_call_tree_bit == 0) ≡ has_tree

IsCode-plain :
    (k : StatusType) (m : List ℕ)
    → IsCode (record { status_type = k; message = m; call_tree = none }) false
unfolding code_of from_code to_code
IsCode-plain success m = record { not_ok = refl; kind = refl; tree = refl }
IsCode-plain warning m = record { not_ok = refl; kind = refl; tree = refl }
IsCode-plain error m = record { not_ok = refl; kind = refl; tree = refl }
IsCode-plain fatal m = record { not_ok = refl; kind = refl; tree = refl }

IsCode-tree :
    (k : StatusType) (m t : List ℕ)
    → IsCode (record { status_type = k; message = m; call_tree = some t }) true
unfolding code_of from_code to_code
IsCode-tree success m t = record { not_ok = refl; kind = refl; tree = refl }
IsCode-tree warning m t = record { not_ok = refl; kind = refl; tree = refl }
IsCode-tree error m t = record { not_ok = refl; kind = refl; tree = refl }
IsCode-tree fatal m t = record { not_ok = refl; kind = refl; tree = refl }

Reads-coded :
    (o : ByteOrder) (s : PvaStatus) (has_tree : Bool)
    → IsCode s has_tree
    → (is_utf8 s.message ≡ true) × (length s.message < 2 ^ 31)
    → Reads o (decode_call_tree has_tree) (tree_bytes o s.call_tree) s.call_tree
    → Reads o decode ((code_of s ∷ []) ++ (string_bytes o s.message ++ tree_bytes o s.call_tree)) s
unfolding decode decode_code decode_body
Reads-coded o s has_tree h (valid, short) tree =
    Reads-bind _ _ (code_of s ∷ []) _ (code_of s) s (Reads-read_u8 o (code_of s)) (
      rw (h.not_ok, h.kind, h.tree)
        (Reads-bind _ _ (string_bytes o s.message) (tree_bytes o s.call_tree) s.message s
          (Reads-read_string o s.message valid short)
          (Reads-then _ _ (tree_bytes o s.call_tree) s.call_tree s tree (Reads-pure s))))

Reads-ok : (o : ByteOrder) → Reads o decode (status_ok_code ∷ []) status_ok
unfolding decode decode_code
Reads-ok o =
    Reads-then _ _ (status_ok_code ∷ []) status_ok_code status_ok (Reads-read_u8 o status_ok_code)
      (Reads-pure status_ok)

Reads-tree :
    (o : ByteOrder) (tree : List ℕ)
    → (is_utf8 tree ≡ true) × (length tree < 2 ^ 31)
    → Reads o (decode_call_tree true) (string_bytes o tree) (some tree)
unfolding decode_call_tree
Reads-tree o tree (valid, short) =
    Reads-then _ _ (string_bytes o tree) tree (some tree) (Reads-read_string o tree valid short)
      (Reads-pure (some tree))

Reads-no_tree : (o : ByteOrder) → Reads o (decode_call_tree false) [] none
unfolding decode_call_tree
Reads-no_tree o = Reads-pure none

abbrev status : StatusType → List ℕ → Option (List ℕ) → PvaStatus
status k m t = record { status_type = k; message = m; call_tree = t }

Reads-not_ok :
    (o : ByteOrder) (k : StatusType) (m : List ℕ) (t : Option (List ℕ))
    → IsStatus (status k m t)
    → Reads o decode
        ((code_of (status k m t) ∷ []) ++ (string_bytes o m ++ tree_bytes o t))
        (status k m t)
Reads-not_ok o k m none h =
    Reads-coded o (status k m none) false (IsCode-plain k m) h.message (Reads-no_tree o)
Reads-not_ok o k m (some t) h =
    Reads-coded o (status k m (some t)) true (IsCode-tree k m t) h.message
      (Reads-tree o t h.call_tree)

-- Of all statuses without a call tree, only `status_ok` counts as OK.
ok_is_plain :
    (k : StatusType) (m : List ℕ) (t : Option (List ℕ))
    → is_ok (status k m t) ≡ true
    → t ≡ none
    → status k m t ≡ status_ok
unfolding is_ok
ok_is_plain success [] t h e = ap (status success []) e
ok_is_plain success (b ∷ bs) t h e = cc
ok_is_plain warning m t h e = cc
ok_is_plain error m t h e = cc
ok_is_plain fatal m t h e = cc

pub Reads-status :
    (o : ByteOrder) (s : PvaStatus) → IsStatus s → Reads o decode (status_bytes o s) s
Reads-status o s h = elim (Bool-cases (is_ok s)) [
  | inl plain ↦
      let same = ok_is_plain s.status_type s.message s.call_tree plain (h.plain plain) in
      rw plain (subst (Reads o decode (status_ok_code ∷ [])) (sym same) (Reads-ok o))
  | inr other ↦ rw other (Reads-not_ok o s.status_type s.message s.call_tree h)
]

-- A status of any severity, with or without a call tree, is decoded back as it was and the cursor
-- stops where the writer stopped. Its strings are valid UTF-8 below 2 ^ 31 bytes, and a status
-- that counts as OK has no call tree.
pub status-decode-encode :
    (s : PvaStatus) (w : PvaWriter) (rest : List ℕ)
    → IsStatus s
    → decode (reading (encode s w) (length w.buf) rest)
      ≡ (ok s, reading (encode s w) (length (encode s w).buf) rest)
status-decode-encode s w rest h =
    undone w rest (status_bytes w.order s) (encode s) decode s (Writes-status w.order s h)
      (Reads-status w.order s h)
