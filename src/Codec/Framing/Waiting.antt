-- ===== src/Codec/Framing/Waiting.antt =====
-- A round that waits for more input has changed nothing.
use aura_epics.Prelude.{
  ℕ, ◌+◌, ◌≡◌, refl, List, Option, none, some, ok, length, take, ltb, Bool-cases, inl, inr, arith,
}
use aura_epics.Codec.Header
use aura_epics.Codec.Header.{
  PvaHeader, Segmentation, unsegmented, first, middle, last, segmentation, header_size,
}
use aura_epics.Codec.Framing.{
  PvaCodec, DecodeState, header, payload, return, Round, round, round_in, header_round,
  header_or_error, header_decoded, payload_round, dispatch,
}

pub record Waits (c : PvaCodec) (src : List ℕ) (r : Round) : Type 0 where
  pub flow : r.flow ≡ return (ok none)
  pub codec : r.codec ≡ c
  pub rest : r.src ≡ src

header_decoded_answers :
    (c : PvaCodec) (src : List ℕ) (h : PvaHeader)
    → (header_decoded c src h).flow ≡ return (ok none)
    → ⊥
unfolding header_decoded
header_decoded_answers c src h e = ground arith

header_or_error_answers :
    (c : PvaCodec) (src : List ℕ) (o : Option PvaHeader)
    → (header_or_error c src o).flow ≡ return (ok none)
    → ⊥
header_or_error_answers c src none e = ground arith
header_or_error_answers c src (some h) e = header_decoded_answers c src h e

dispatch_answers :
    (s : Segmentation) (h : PvaHeader) (c : PvaCodec) (src bytes : List ℕ)
    → (dispatch s h c src bytes).flow ≡ return (ok none)
    → ⊥
unfolding dispatch
dispatch_answers unsegmented h c src bytes e = ground arith
dispatch_answers first h c src bytes e = ground arith
dispatch_answers middle h c src bytes e = ground arith
dispatch_answers last h c src bytes e = ground arith

round_in-Waits :
    (s : DecodeState) (c : PvaCodec) (src : List ℕ)
    → (round_in s c src).flow ≡ return (ok none)
    → Waits c src (round_in s c src)
unfolding header_round payload_round
round_in-Waits header c src e = elim (Bool-cases (ltb (length src) header_size)) [
  | inl short ↦ rw short (record { flow = refl; codec = refl; rest = refl })
  | inr enough ↦
      absurd (header_or_error_answers c src (Header.decode (take header_size src)) (rw enough at e))
]
round_in-Waits (payload h) c src e =
    elim (Bool-cases (ltb (length src) (header_size + h.payload_size))) [
      | inl short ↦ rw short (record { flow = refl; codec = refl; rest = refl })
      | inr enough ↦ absurd (dispatch_answers (segmentation h) h _ _ _ (rw enough at e))
    ]

pub round-Waits :
    (c : PvaCodec) (src : List ℕ)
    → (round c src).flow ≡ return (ok none)
    → Waits c src (round c src)
unfolding round
round-Waits c src e = round_in-Waits c.state c src e
