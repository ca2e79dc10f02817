-- ===== src/Messages/Search/Tests.antt =====
-- A search for one channel.
use aura_epics.Prelude.{ℕ, List, ◌≡◌, refl, [], ◌∷◌, true, false, ok, length, arith}
use aura_epics.Codec.ByteOrder.{big_endian}
use aura_epics.Codec.PvData.Utf8.{is_utf8}
use aura_epics.Codec.PvData.Writer.{PvaWriter}
use aura_epics.Codec.PvData.Inverse.{reading}
use aura_epics.Messages.Search.{socket_v6, received}
use aura_epics.Messages.Search.Request.{
  SearchRequest, IsSearch, tcp, encode, decode, search-decode-encode,
}

abbrev begun : PvaWriter
begun = record { buf = 7 ∷ []; order = big_endian }

-- fe80::1, here with scope 2
abbrev link_local : List ℕ
link_local = 0xfe ∷ 0x80 ∷ 0 ∷ 0 ∷ 0 ∷ 0 ∷ 0 ∷ 0 ∷ 0 ∷ 0 ∷ 0 ∷ 0 ∷ 0 ∷ 0 ∷ 0 ∷ 1 ∷ []

abbrev one_search : SearchRequest
one_search = record {
  search_sequence_id = 9;
  reply_required = true;
  unicast = false;
  response_address = socket_v6 link_local 5075 0 2;
  protocol = tcp;
  channels = (1, 0x76 ∷ []) ∷ [];
}

tcp-is_utf8 : is_utf8 tcp ≡ true
unfolding is_utf8
tcp-is_utf8 = refl

name-is_utf8 : is_utf8 (0x76 ∷ []) ≡ true
unfolding is_utf8
name-is_utf8 = refl

one_search-IsSearch : IsSearch one_search
one_search-IsSearch = record {
  search_sequence_id = omega arith;
  response_address = (refl, omega arith);
  protocol = (tcp-is_utf8, omega arith);
  channels = (omega arith, ((omega arith, name-is_utf8, omega arith), tt));
}

search-decode-encode_example : decode (reading (encode one_search begun) 1 (9 ∷ [])) ≡ (
  ok (record one_search { response_address = received (socket_v6 link_local 5075 0 2) }),
  reading (encode one_search begun) (length (encode one_search begun).buf) (9 ∷ []),
)
search-decode-encode_example = search-decode-encode one_search begun (9 ∷ []) one_search-IsSearch

scope_lost : received (socket_v6 link_local 5075 0 2) ≡ socket_v6 link_local 5075 0 0
scope_lost = refl
