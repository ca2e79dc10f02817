-- ===== src/Messages/Search.antt =====
-- The addresses of crates/aura-net/src/messages/search.rs: sixteen bytes of IPv6, an IPv4 address in
-- its mapped form, and the port, whose bytes are the low one first.
pub mod Request
mod Tests
use mathlib.Core.Path.{subst}
use aura_epics.Prelude.{
  ℕ, ◌<◌, ◌^◌, ◌≡◌, refl, ap, sym, ◌∙◌, List, [], ◌∷◌, ◌++◌, Bool, true, false, Bool-cases, inl,
  inr, ◌&&◌, ◌==◌, take, drop, length, pure, ◌>>=◌, if◌then◌else◌, arith,
}
use aura_epics.Codec.ByteOrder.{ByteOrder, little_endian, read_word, write_word}
use aura_epics.Codec.ByteOrder.RoundTrip.{length-write_word, read_word-write_word}
use aura_epics.Codec.PvData.Reader.{Decoder, read_bytes}
use aura_epics.Codec.PvData.Reads.{Reads, Reads-pure, Reads-bind, Reads-then, Reads-read_bytes}
use aura_epics.Codec.PvData.Writer.{PvaWriter, write_raw}
use aura_epics.Codec.PvData.Writes.{Writes, Writes-then, Writes-write_raw}

-- four bytes, or sixteen
pub data IpAddr : Type 0 where
  v4 v6 : List ℕ → IpAddr

-- `SocketAddr` of the standard library: an IPv4 address and a port, or an IPv6 address, a port, the
-- flow information and the scope
pub data SocketAddr : Type 0 where
  socket_v4 : List ℕ → ℕ → SocketAddr
  socket_v6 : List ℕ → ℕ → ℕ → ℕ → SocketAddr

abbrev pub ip : SocketAddr → IpAddr
ip (socket_v4 a p) = v4 a
ip (socket_v6 a p flowinfo scope_id) = v6 a

abbrev pub port : SocketAddr → ℕ
port (socket_v4 a p) = p
port (socket_v6 a p flowinfo scope_id) = p

-- `SocketAddr::new`, which leaves the flow information and the scope at 0
abbrev pub new_address : IpAddr → ℕ → SocketAddr
new_address (v4 a) p = socket_v4 a p
new_address (v6 a) p = socket_v6 a p 0 0

abbrev pub mapped_prefix : List ℕ
mapped_prefix = 0 ∷ 0 ∷ 0 ∷ 0 ∷ 0 ∷ 0 ∷ 0 ∷ 0 ∷ 0 ∷ 0 ∷ 255 ∷ 255 ∷ []

abbrev pub same_bytes : List ℕ → List ℕ → Bool
same_bytes [] [] = true
same_bytes [] (b ∷ bs) = false
same_bytes (a ∷ more) [] = false
same_bytes (a ∷ more) (b ∷ bs) = (a == b) && same_bytes more bs

-- `to_ipv6_mapped` and `octets`
abbrev pub octets : IpAddr → List ℕ
octets (v4 a) = mapped_prefix ++ a
octets (v6 a) = a

-- `to_ipv4_mapped`, and IPv6 where there is none
abbrev pub from_octets : List ℕ → IpAddr
from_octets bytes =
    if same_bytes (take 12 bytes) mapped_prefix then v4 (drop 12 bytes) else v6 bytes

unfoldable pub encode_search_response_address : SocketAddr → PvaWriter → PvaWriter
encode_search_response_address a w =
    write_raw (write_word little_endian 2 (port a)) (write_raw (octets (ip a)) w)

unfoldable pub encode_search_address : SocketAddr → PvaWriter → PvaWriter
encode_search_address a w = encode_search_response_address a (write_raw (0 ∷ 0 ∷ 0 ∷ []) w)

unfoldable pub decode_ipv6_address : Decoder SocketAddr
decode_ipv6_address = do
  bytes ← read_bytes 16
  port_bytes ← read_bytes 2
  pure (new_address (from_octets bytes) (read_word little_endian port_bytes))

unfoldable pub decode_search_address : Decoder SocketAddr
decode_search_address = do reserved ← read_bytes 3; decode_ipv6_address

-- Four bytes, or sixteen, and a 16-bit port.
abbrev pub IsAddress : SocketAddr → Type 0
IsAddress (socket_v4 a p) = (length a ≡ 4) × (p < 2 ^ 16)
IsAddress (socket_v6 a p flowinfo scope_id) = (length a ≡ 16) × (p < 2 ^ 16)

-- What is received for an address that is sent: the mapped form of an IPv4 address is received as
-- that address, and the flow information and the scope are lost.
abbrev pub received : SocketAddr → SocketAddr
received (socket_v4 a p) = socket_v4 a p
received (socket_v6 a p flowinfo scope_id) =
    if same_bytes (take 12 a) mapped_prefix then socket_v4 (drop 12 a) p else socket_v6 a p 0 0

length-octets : (a : SocketAddr) → IsAddress a → length (octets (ip a)) ≡ 16
length-octets (socket_v4 a p) h = omega (arith, h.0)
length-octets (socket_v6 a p flowinfo scope_id) h = h.0

port_lt : (a : SocketAddr) → IsAddress a → port a < 2 ^ 16
port_lt (socket_v4 a p) h = h.1
port_lt (socket_v6 a p flowinfo scope_id) h = h.1

new_address-octets :
    (a : SocketAddr) → new_address (from_octets (octets (ip a))) (port a) ≡ received a
new_address-octets (socket_v4 a p) = refl
new_address-octets (socket_v6 a p flowinfo scope_id) =
    elim (Bool-cases (same_bytes (take 12 a) mapped_prefix)) [
      | inl mapped ↦ rw mapped refl
      | inr other ↦ rw other refl
    ]

abbrev pub address_bytes : SocketAddr → List ℕ
address_bytes a = octets (ip a) ++ write_word little_endian 2 (port a)

module _ (o : ByteOrder) where
  Reads-sized : (n : ℕ) (bytes : List ℕ) → length bytes ≡ n → Reads o (read_bytes n) bytes bytes
  Reads-sized n bytes h =
      subst (λ k. Reads o (read_bytes k) bytes bytes) h (Reads-read_bytes o bytes)

  pub Reads-address :
      (a : SocketAddr) → IsAddress a → Reads o decode_ipv6_address (address_bytes a) (received a)
  unfolding decode_ipv6_address
  Reads-address a h =
      let port_bytes = write_word little_endian 2 (port a) in
      let port_back : read_word little_endian port_bytes ≡ port a =
        read_word-write_word little_endian 2 (port a) (omega (arith, port_lt a h)) in
      let back : new_address (from_octets (octets (ip a))) (read_word little_endian port_bytes)
          ≡ received a =
        ap (new_address (from_octets (octets (ip a)))) port_back ∙ new_address-octets a in
      Reads-bind _ _ (octets (ip a)) port_bytes (octets (ip a)) (received a)
        (Reads-sized 16 (octets (ip a)) (length-octets a h))
        (Reads-then _ _ port_bytes port_bytes (received a)
          (Reads-sized 2 port_bytes (length-write_word little_endian 2 (port a)))
          (subst (λ x. Reads o (pure x) [] (received a)) (sym back) (Reads-pure (received a))))

  pub Writes-address :
      (a : SocketAddr) → Writes o (encode_search_response_address a) (address_bytes a)
  unfolding encode_search_response_address
  Writes-address a =
      Writes-then (write_raw (octets (ip a))) _ _ _ (Writes-write_raw o (octets (ip a)))
        (Writes-write_raw o (write_word little_endian 2 (port a)))

  pub Reads-search_address :
      (a : SocketAddr)
      → IsAddress a
      → Reads o decode_search_address ((0 ∷ 0 ∷ 0 ∷ []) ++ address_bytes a) (received a)
  unfolding decode_search_address
  Reads-search_address a h =
      Reads-bind _ _ (0 ∷ 0 ∷ 0 ∷ []) (address_bytes a) (0 ∷ 0 ∷ 0 ∷ []) (received a)
        (Reads-read_bytes o (0 ∷ 0 ∷ 0 ∷ [])) (Reads-address a h)

  pub Writes-search_address :
      (a : SocketAddr) → Writes o (encode_search_address a) ((0 ∷ 0 ∷ 0 ∷ []) ++ address_bytes a)
  unfolding encode_search_address
  Writes-search_address a =
      Writes-then (write_raw (0 ∷ 0 ∷ 0 ∷ [])) (encode_search_response_address a) _ _
        (Writes-write_raw o (0 ∷ 0 ∷ 0 ∷ [])) (Writes-address a)
