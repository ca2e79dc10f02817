-- ===== src/Codec/Framing/Total.antt =====
-- The loop of `decode_frame` ends on every input.
use mathlib.Core.Option.{some-injective}
use aura_epics.Prelude.{
  sym, ◌⊎◌, inl, inr, Bool-cases, ltb→le, ℕ, zero, suc, ◌+◌, ◌*◌, ◌<◌, ◌≡◌, refl, sym, ◌∙◌, List,
  Option, none, some, length, take, drop, length-drop, ltb, arith,
}
use aura_epics.Codec.Header
use aura_epics.Codec.Header.{
  PvaHeader, Segmentation, unsegmented, first, middle, last, segmentation, header_size,
}
use aura_epics.Codec.Framing.{
  PvaCodec, DecodeState, header, payload, Flow, return, again, Decoded, Outcome, round, round_in,
  header_round, header_or_error, header_decoded, payload_round, dispatch, decode_loop, decode_frame,
}

-- What is left to do: two rounds for each byte, and one more between frames.
abbrev pub measure_in : DecodeState → List ℕ → ℕ
measure_in header src = 2 * length src + 1
measure_in (payload _) src = 2 * length src

abbrev pub measure : PvaCodec → List ℕ → ℕ
measure c src = measure_in c.state src

pub Flow-cases : (f : Flow) → ((o : Outcome) × (f ≡ return o)) ⊎ (f ≡ again)
Flow-cases (return o) = inl (o, refl)
Flow-cases again = inr refl

-- A round that goes on leaves less to do.
header_decoded_shrinks :
    (c : PvaCodec) (src : List ℕ) (h : PvaHeader)
    → (header_decoded c src h).flow ≡ again
    → measure (header_decoded c src h).codec (header_decoded c src h).src < 2 * length src + 1
unfolding header_decoded
header_decoded_shrinks c src h e = ground arith

header_or_error_shrinks :
    (c : PvaCodec) (src : List ℕ) (o : Option PvaHeader)
    → (header_or_error c src o).flow ≡ again
    → measure (header_or_error c src o).codec (header_or_error c src o).src < 2 * length src + 1
header_or_error_shrinks c src none e = cc
header_or_error_shrinks c src (some h) e = header_decoded_shrinks c src h e

header_round_shrinks :
    (c : PvaCodec) (src : List ℕ)
    → (header_round c src).flow ≡ again
    → measure (header_round c src).codec (header_round c src).src < 2 * length src + 1
unfolding header_round
header_round_shrinks c src e =
    ground (arith, header_or_error_shrinks c src (Header.decode (take header_size src)))

dispatch_shrinks :
    (s : Segmentation) (h : PvaHeader) (c : PvaCodec) (src bytes : List ℕ)
    → c.state ≡ header
    → (dispatch s h c src bytes).flow ≡ again
    → measure (dispatch s h c src bytes).codec (dispatch s h c src bytes).src ≡ 2 * length src + 1
unfolding dispatch
dispatch_shrinks unsegmented h c src bytes e f = cc
dispatch_shrinks first h c src bytes e f = ground arith
dispatch_shrinks middle h c src bytes e f = ground arith
dispatch_shrinks last h c src bytes e f = ground arith

elim_end : {T : Type 0} {o : Outcome} → return o ≡ again → T
elim_end e = cc

payload_round_shrinks :
    (h : PvaHeader) (c : PvaCodec) (src : List ℕ)
    → (payload_round h c src).flow ≡ again
    → measure (payload_round h c src).codec (payload_round h c src).src < 2 * length src
unfolding payload_round
payload_round_shrinks h c src e =
    elim (Bool-cases (ltb (length src) (header_size + h.payload_size))) [
      | inl short ↦ elim_end (rw short at e)
      | inr enough ↦ rw enough (
          omega (
            arith,
            dispatch_shrinks (segmentation h) h _ _ _ refl (rw enough at e),
            ltb→le _ _ enough,
            length-drop h.payload_size (drop header_size src),
            length-drop header_size src,
          ))
    ]

round_in_shrinks :
    (s : DecodeState) (c : PvaCodec) (src : List ℕ)
    → (round_in s c src).flow ≡ again
    → measure (round_in s c src).codec (round_in s c src).src < measure_in s src
round_in_shrinks header c src e = header_round_shrinks c src e
round_in_shrinks (payload p) c src e = payload_round_shrinks p c src e

pub round_shrinks :
    (c : PvaCodec) (src : List ℕ)
    → (round c src).flow ≡ again
    → measure (round c src).codec (round c src).src < measure c src
unfolding round
round_shrinks c src e = round_in_shrinks c.state c src e

pub decode_loop_return :
    (fuel : ℕ) (c : PvaCodec) (src : List ℕ) (o : Outcome)
    → (round c src).flow ≡ return o
    → decode_loop (suc fuel) c src
      ≡ some (record { result = o; codec = (round c src).codec; src = (round c src).src })
unfolding decode_loop
decode_loop_return fuel c src o e = ground arith

pub decode_loop_again :
    (fuel : ℕ) (c : PvaCodec) (src : List ℕ)
    → (round c src).flow ≡ again
    → decode_loop (suc fuel) c src ≡ decode_loop fuel (round c src).codec (round c src).src
unfolding decode_loop
decode_loop_again fuel c src e = ground arith

-- A run of the loop ends in its first round or goes on from it.
pub decode_loop_cases :
    (fuel : ℕ) (c : PvaCodec) (src : List ℕ) (d : Decoded)
    → decode_loop (suc fuel) c src ≡ some d
    → ((o : Outcome) × ((round c src).flow ≡ return o)
        × (record { result = o; codec = (round c src).codec; src = (round c src).src } ≡ d))
      ⊎ (((round c src).flow ≡ again)
          × (decode_loop fuel (round c src).codec (round c src).src ≡ some d))
decode_loop_cases fuel c src d h = elim (Flow-cases (round c src).flow) [
  | inl (o, e) ↦ inl (o, e, some-injective _ _ (sym (decode_loop_return fuel c src o e) ∙ h))
  | inr e ↦ inr (e, sym (decode_loop_again fuel c src e) ∙ h)
]

-- Enough fuel for the measure gives a result.
pub decode_loop_total :
    (fuel : ℕ) (c : PvaCodec) (src : List ℕ)
    → measure c src < fuel
    → (d : Decoded) × (decode_loop fuel c src ≡ some d)
decode_loop_total zero c src h = absurd (omega arith)
decode_loop_total (suc fuel) c src h = elim (Flow-cases (round c src).flow) [
  | inl (o, e) ↦ (_, decode_loop_return fuel c src o e)
  | inr e ↦
      let (d, g) =
        decode_loop_total fuel (round c src).codec (round c src).src
          (omega (arith, round_shrinks c src e)) in
      (d, decode_loop_again fuel c src e ∙ g)
]

measure_le : (c : PvaCodec) (src : List ℕ) → measure c src < 2 * length src + 2
measure_le c src = ground arith

-- `decode_frame` returns on every state of the codec and every input.
pub decode_frame_total :
    (c : PvaCodec) (src : List ℕ) → (d : Decoded) × (decode_frame c src ≡ some d)
unfolding decode_frame
decode_frame_total c src = decode_loop_total (2 * length src + 2) c src (measure_le c src)
