-- ===== src/Codec/Framing/Chunks.antt =====
-- How the stream is cut into chunks does not matter to `decode_frame`.
use mathlib.Core.Option.{some-injective}
use aura_epics.Codec.Framing.Waiting.{Waits, round-Waits}
use aura_epics.Prelude.{
  ℕ, zero, suc, ◌+◌, ◌≤◌, ◌<◌, ◌≡◌, ◌≢◌, ◌⊎◌, inl, inr, refl, ap, sym, ◌∙◌, List, [], ◌∷◌, ◌++◌,
  false, Option, none, some, ok, length, drop, length-drop, length-append, take-append_le,
  drop-append_le, ltb, ltb→le, le→ltb, Bool-cases, arith,
}
use aura_epics.Codec.Header.{
  PvaHeader, Segmentation, unsegmented, first, middle, last, segmentation, header_size, at,
}
use aura_epics.Codec.Framing.{
  PvaCodec, DecodeState, SegmentBuffer, header, payload, Flow, return, Round, Decoded, Outcome,
  round, round_in, header_round, header_or_error, header_decoded, payload_round, dispatch,
  middle_segment, last_segment, decode_loop, decode_frame,
}
use aura_epics.Codec.Framing.Total.{
  decode_loop_cases, decode_loop_return, decode_loop_again, decode_frame_total,
}

abbrev extend : Round → List ℕ → Round
extend r more = record r { src = r.src ++ more }

at_zero : (src more : List ℕ) → 0 < length src → at (src ++ more) 0 ≡ at src 0
at_zero [] more h = absurd (omega arith)
at_zero (x ∷ xs) more h = refl

header_decoded_extends :
    (c : PvaCodec) (src more : List ℕ) (h : PvaHeader)
    → header_size ≤ length src
    → header_decoded c (src ++ more) h ≡ extend (header_decoded c src h) more
unfolding header_decoded
header_decoded_extends c src more h enough =
    ground (arith, drop-append_le header_size src more enough)

header_or_error_extends :
    (c : PvaCodec) (src more : List ℕ) (o : Option PvaHeader)
    → header_size ≤ length src
    → header_or_error c (src ++ more) o ≡ extend (header_or_error c src o) more
header_or_error_extends c src more none enough = rw (at_zero src more (omega arith))
header_or_error_extends c src more (some h) enough = header_decoded_extends c src more h enough

header_round_extends :
    (c : PvaCodec) (src more : List ℕ)
    → Waits c src (header_round c src)
      ⊎ (header_round c (src ++ more) ≡ extend (header_round c src) more)
unfolding header_round
header_round_extends c src more = elim (Bool-cases (ltb (length src) header_size)) [
  | inl short ↦ inl (rw short (record { flow = refl; codec = refl; rest = refl }))
  | inr enough ↦
      let room : header_size ≤ length src = ltb→le _ _ enough in
      let still : ltb (length (src ++ more)) header_size ≡ false =
        le→ltb _ _ (omega (arith, length-append src more)) in
      inr (
        rw (enough, still, take-append_le header_size src more room)
          (header_or_error_extends c src more _ room))
]

middle_segment_extends :
    (s : Option SegmentBuffer) (c : PvaCodec) (src more bytes : List ℕ)
    → middle_segment s c (src ++ more) bytes ≡ extend (middle_segment s c src bytes) more
middle_segment_extends none c src more bytes = refl
middle_segment_extends (some seg) c src more bytes = ground arith

last_segment_extends :
    (s : Option SegmentBuffer) (c : PvaCodec) (src more bytes : List ℕ)
    → last_segment s c (src ++ more) bytes ≡ extend (last_segment s c src bytes) more
last_segment_extends none c src more bytes = refl
last_segment_extends (some seg) c src more bytes = ground arith

dispatch_extends :
    (s : Segmentation) (h : PvaHeader) (c : PvaCodec) (src more bytes : List ℕ)
    → dispatch s h c (src ++ more) bytes ≡ extend (dispatch s h c src bytes) more
unfolding dispatch
dispatch_extends unsegmented h c src more bytes = refl
dispatch_extends first h c src more bytes = refl
dispatch_extends middle h c src more bytes = middle_segment_extends c.segment_buf c src more bytes
dispatch_extends last h c src more bytes = last_segment_extends c.segment_buf c src more bytes

payload_round_extends :
    (h : PvaHeader) (c : PvaCodec) (src more : List ℕ)
    → Waits c src (payload_round h c src)
      ⊎ (payload_round h c (src ++ more) ≡ extend (payload_round h c src) more)
unfolding payload_round
payload_round_extends h c src more =
    elim (Bool-cases (ltb (length src) (header_size + h.payload_size))) [
      | inl short ↦ inl (rw short (record { flow = refl; codec = refl; rest = refl }))
      | inr enough ↦
          let room : header_size + h.payload_size ≤ length src = ltb→le _ _ enough in
          let still : ltb (length (src ++ more)) (header_size + h.payload_size) ≡ false =
            le→ltb _ _ (omega (arith, length-append src more)) in
          let behind : h.payload_size ≤ length (drop header_size src) =
            omega (arith, length-drop header_size src) in
          inr (
            rw
              (
                enough,
                still,
                drop-append_le header_size src more (omega arith),
                take-append_le h.payload_size (drop header_size src) more behind,
                drop-append_le h.payload_size (drop header_size src) more behind,
              )
              (dispatch_extends (segmentation h) h _ _ more _))
    ]

round_in_extends :
    (s : DecodeState) (c : PvaCodec) (src more : List ℕ)
    → Waits c src (round_in s c src) ⊎ (round_in s c (src ++ more) ≡ extend (round_in s c src) more)
round_in_extends header c src more = header_round_extends c src more
round_in_extends (payload h) c src more = payload_round_extends h c src more

round_extends :
    (c : PvaCodec) (src more : List ℕ)
    → Waits c src (round c src) ⊎ (round c (src ++ more) ≡ extend (round c src) more)
unfolding round
round_extends c src more = round_in_extends c.state c src more

decode_loop_mono :
    (f g : ℕ) (c : PvaCodec) (src : List ℕ) (d : Decoded)
    → f ≤ g
    → decode_loop f c src ≡ some d
    → decode_loop g c src ≡ some d
decode_loop_mono zero g c src d le h = unfold decode_loop in cc
decode_loop_mono (suc f) zero c src d le h = absurd (omega arith)
decode_loop_mono (suc f) (suc g) c src d le h = elim (decode_loop_cases f c src d h) [
  | inl (o, e, same) ↦ decode_loop_return g c src o e ∙ ap some same
  | inr (e, rest) ↦ decode_loop_again g c src e ∙ decode_loop_mono f g _ _ d (omega arith) rest
]

pub decode_loop_same :
    (f g : ℕ) (c : PvaCodec) (src : List ℕ) (d e : Decoded)
    → decode_loop f c src ≡ some d
    → decode_loop g c src ≡ some e
    → d ≡ e
decode_loop_same f g c src d e h k = some-injective _ _ (
    sym (decode_loop_mono f (f + g) c src d (omega arith) h)
    ∙ decode_loop_mono g (f + g) c src e (omega arith) k)

waiting_resumes :
    (f g : ℕ) (c : PvaCodec) (src more : List ℕ) (d e : Decoded)
    → decode_loop f c src ≡ some d
    → d.result ≡ ok none
    → decode_loop g d.codec (d.src ++ more) ≡ some e
    → decode_loop (f + g) c (src ++ more) ≡ some e
waiting_resumes zero g c src more d e h waiting k = unfold decode_loop in cc
waiting_resumes (suc f) g c src more d e h waiting k = elim (decode_loop_cases f c src d h) [
  | inl (o, stop, same) ↦
      let asked : o ≡ ok none = ap (λ (x : Decoded). x.result) same ∙ waiting in
      let w = round-Waits c src (stop ∙ ap return asked) in
      let codec : d.codec ≡ c = sym (ap (λ (x : Decoded). x.codec) same) ∙ w.codec in
      let rest : d.src ≡ src = sym (ap (λ (x : Decoded). x.src) same) ∙ w.rest in
      decode_loop_mono g (suc f + g) c (src ++ more) e (omega arith) (
        ap (λ (x : PvaCodec). decode_loop g x (src ++ more)) (sym codec)
        ∙ ap (λ l. decode_loop g d.codec (l ++ more)) (sym rest)
        ∙ k)
  | inr (on, rest) ↦ elim (round_extends c src more) [
    | inl w ↦ cc (on, w.flow)
    | inr same ↦
        let fuel : suc f + g ≡ suc (f + g) = omega arith in
        ap (λ n. decode_loop n c (src ++ more)) fuel
        ∙ decode_loop_again (f + g) c (src ++ more) (ap (λ (r : Round). r.flow) same ∙ on)
        ∙ ap (λ (r : Round). decode_loop (f + g) r.codec r.src) same
        ∙ waiting_resumes f g (round c src).codec (round c src).src more d e rest waiting k
  ]
]

answer_extends :
    (f : ℕ) (c : PvaCodec) (src more : List ℕ) (d : Decoded)
    → decode_loop f c src ≡ some d
    → d.result ≢ ok none
    → decode_loop f c (src ++ more) ≡ some (record d { src = d.src ++ more })
answer_extends zero c src more d h answered = unfold decode_loop in cc
answer_extends (suc f) c src more d h answered = elim (round_extends c src more) [
  | inl w ↦ elim (decode_loop_cases f c src d h) [
    | inl (o, stop, same) ↦
        absurd (answered (ap (λ (x : Decoded). x.result) (sym same) ∙ returned o stop w.flow))
    | inr (on, rest) ↦ cc (on, w.flow)
  ]
  | inr extended ↦ elim (decode_loop_cases f c src d h) [
    | inl (o, stop, same) ↦
        decode_loop_return f c (src ++ more) o (ap (λ (r : Round). r.flow) extended ∙ stop)
        ∙ ap (λ (r : Round). some (record { result = o; codec = r.codec; src = r.src })) extended
        ∙ ap (λ (x : Decoded). some (record x { src = x.src ++ more })) same
    | inr (on, rest) ↦
        decode_loop_again f c (src ++ more) (ap (λ (r : Round). r.flow) extended ∙ on)
        ∙ ap (λ (r : Round). decode_loop f r.codec r.src) extended
        ∙ answer_extends f (round c src).codec (round c src).src more d rest answered
  ]
]
  where
    returned : (o : Outcome) {x : Flow} → x ≡ return o → x ≡ return (ok none) → o ≡ ok none
    returned o p q = cc

-- Where `decode_frame` waits for more input, going on with the bytes that come later from the
-- state that it left gives what all the bytes at once would have given.
pub decode_frame-append_waiting :
    (c : PvaCodec) (src more : List ℕ) (d : Decoded)
    → decode_frame c src ≡ some d
    → d.result ≡ ok none
    → decode_frame c (src ++ more) ≡ decode_frame d.codec (d.src ++ more)
unfolding decode_frame
decode_frame-append_waiting c src more d h waiting =
    let (e, he) = decode_frame_total d.codec (d.src ++ more) in
    let (a, ha) = decode_frame_total c (src ++ more) in
    ha
    ∙ ap some (
        decode_loop_same _ _ c (src ++ more) a e ha
          (waiting_resumes _ _ c src more d e h waiting he))
    ∙ sym he

-- Where `decode_frame` answers with a frame or an error, bytes that come later stay behind the
-- input that it leaves, and change nothing else.
pub decode_frame-append_answered :
    (c : PvaCodec) (src more : List ℕ) (d : Decoded)
    → decode_frame c src ≡ some d
    → d.result ≢ ok none
    → decode_frame c (src ++ more) ≡ some (record d { src = d.src ++ more })
unfolding decode_frame
decode_frame-append_answered c src more d h answered =
    decode_loop_mono _ _ c (src ++ more) _ (omega (arith, length-append src more))
      (answer_extends _ c src more d h answered)
