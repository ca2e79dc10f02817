-- ===== src/Codec/Framing/Accounting.antt =====
-- `decode_frame` takes bytes from the front of its input, and `total_bytes` counts them.
use mathlib.Core.Path.{subst}
use aura_epics.Codec.Framing.{too_long}
use aura_epics.Codec.ByteOrder.{is_negative_i32}
use aura_epics.Prelude.{
  if_intro, ℕ, zero, suc, ◌+◌, ◌*◌, ◌%◌, ◌^◌, ◌≤◌, ◌<◌, ◌≡◌, inl, inr, refl, ap, ◌∙◌, List, Option,
  none, some, length, drop, length-drop, drop-drop, ltb, ltb→le, arith,
}
use aura_epics.Codec.Header.{
  PvaHeader, Segmentation, unsegmented, first, middle, last, segmentation, header_size, is_control,
}
use aura_epics.Codec.Framing.{
  PvaCodec, DecodeState, SegmentBuffer, header, payload, Round, Decoded, round, round_in,
  header_round, header_or_error, header_decoded, payload_round, dispatch, middle_segment,
  last_segment, decode_loop, decode_frame,
}
use aura_epics.Codec.Framing.Total.{decode_loop_cases}

-- `count` bytes went from the front of `src`, and the counter rose by as many, modulo 2 ^ 64.
pub record Consumed (total : ℕ) (src : List ℕ) (total' : ℕ) (src' : List ℕ) : Type 0 where
  pub count : ℕ
  pub within : count ≤ length src
  pub rest : src' ≡ drop count src
  pub counted : total' ≡ (total + count) % 2 ^ 64

abbrev RoundConsumed : PvaCodec → List ℕ → Round → Type 0
RoundConsumed c src r = Consumed c.total_bytes src r.codec.total_bytes r.src

nothing : (total : ℕ) (src : List ℕ) → total < 2 ^ 64 → Consumed total src total src
nothing total src h = record { count = 0; within = omega arith; rest = refl; counted = omega arith }

Consumed-trans :
    (t u v : ℕ) (xs ys zs : List ℕ) → Consumed t xs u ys → Consumed u ys v zs → Consumed t xs v zs
Consumed-trans t u v xs ys zs h k = record {
  count = h.count + k.count;
  within = omega (arith, h.within, k.within, ap length h.rest, length-drop h.count xs);
  rest = k.rest ∙ ap (drop k.count) h.rest ∙ drop-drop h.count k.count xs;
  counted = omega (arith, h.counted, k.counted);
}

header_decoded-Consumed :
    (c : PvaCodec) (src : List ℕ) (h : PvaHeader)
    → c.total_bytes < 2 ^ 64
    → header_size ≤ length src
    → RoundConsumed c src (header_decoded c src h)
unfolding header_decoded
header_decoded-Consumed c src h fits enough =
    if_intro P (is_control h) _ _
      (λ _. record { count = header_size; within = enough; rest = refl; counted = refl })
      (λ _.
        if_intro P (is_negative_i32 h.payload_size) _ _ (λ _. stay)
          (λ _. if_intro P (ltb c.max_payload h.payload_size) _ _ (λ _. stay) (λ _. stay)))
  where
    P : Round → Type 0
    P r = RoundConsumed c src r

    stay : Consumed c.total_bytes src c.total_bytes src
    stay = nothing c.total_bytes src fits

header_or_error-Consumed :
    (c : PvaCodec) (src : List ℕ) (o : Option PvaHeader)
    → c.total_bytes < 2 ^ 64
    → header_size ≤ length src
    → RoundConsumed c src (header_or_error c src o)
header_or_error-Consumed c src none fits enough = nothing c.total_bytes src fits
header_or_error-Consumed c src (some h) fits enough = header_decoded-Consumed c src h fits enough

header_round-Consumed :
    (c : PvaCodec) (src : List ℕ)
    → c.total_bytes < 2 ^ 64
    → RoundConsumed c src (header_round c src)
unfolding header_round
header_round-Consumed c src fits =
    if_intro (λ r. RoundConsumed c src r) (ltb (length src) header_size) _ _
      (λ _. nothing c.total_bytes src fits)
      (λ e. header_or_error-Consumed c src _ fits (ltb→le _ _ e))

record Leaves (c : PvaCodec) (src : List ℕ) (r : Round) : Type 0 where
  total : r.codec.total_bytes ≡ c.total_bytes
  rest : r.src ≡ src

middle_segment-Leaves :
    (s : Option SegmentBuffer) (c : PvaCodec) (src bytes : List ℕ)
    → Leaves c src (middle_segment s c src bytes)
middle_segment-Leaves none c src bytes = record { total = refl; rest = refl }
middle_segment-Leaves (some seg) c src bytes =
    if_intro (Leaves c src) (too_long c seg bytes) _ _ (λ _. record { total = refl; rest = refl })
      (λ _. record { total = refl; rest = refl })

last_segment-Leaves :
    (s : Option SegmentBuffer) (c : PvaCodec) (src bytes : List ℕ)
    → Leaves c src (last_segment s c src bytes)
last_segment-Leaves none c src bytes = record { total = refl; rest = refl }
last_segment-Leaves (some seg) c src bytes =
    if_intro (Leaves c src) (too_long c seg bytes) _ _ (λ _. record { total = refl; rest = refl })
      (λ _. record { total = refl; rest = refl })

dispatch-Leaves :
    (s : Segmentation) (h : PvaHeader) (c : PvaCodec) (src bytes : List ℕ)
    → Leaves c src (dispatch s h c src bytes)
unfolding dispatch
dispatch-Leaves unsegmented h c src bytes = record { total = refl; rest = refl }
dispatch-Leaves first h c src bytes = record { total = refl; rest = refl }
dispatch-Leaves middle h c src bytes = middle_segment-Leaves c.segment_buf c src bytes
dispatch-Leaves last h c src bytes = last_segment-Leaves c.segment_buf c src bytes

payload_round-Consumed :
    (h : PvaHeader) (c : PvaCodec) (src : List ℕ)
    → c.total_bytes < 2 ^ 64
    → RoundConsumed c src (payload_round h c src)
unfolding payload_round
payload_round-Consumed h c src fits =
    if_intro (λ r. RoundConsumed c src r) (ltb (length src) (header_size + h.payload_size)) _ _
      (λ _. nothing c.total_bytes src fits)
      (λ e.
        let l = dispatch-Leaves (segmentation h) h _ _ _ in
        record {
          count = header_size + h.payload_size;
          within = ltb→le _ _ e;
          rest = l.rest ∙ drop-drop header_size h.payload_size src;
          counted = l.total;
        })

round_in-Consumed :
    (s : DecodeState) (c : PvaCodec) (src : List ℕ)
    → c.total_bytes < 2 ^ 64
    → RoundConsumed c src (round_in s c src)
round_in-Consumed header c src fits = header_round-Consumed c src fits
round_in-Consumed (payload h) c src fits = payload_round-Consumed h c src fits

round-Consumed :
    (c : PvaCodec) (src : List ℕ) → c.total_bytes < 2 ^ 64 → RoundConsumed c src (round c src)
unfolding round
round-Consumed c src fits = round_in-Consumed c.state c src fits

loop-Consumed :
    (fuel : ℕ) (c : PvaCodec) (src : List ℕ) (d : Decoded)
    → c.total_bytes < 2 ^ 64
    → decode_loop fuel c src ≡ some d
    → Consumed c.total_bytes src d.codec.total_bytes d.src
loop-Consumed zero c src d fits h = unfold decode_loop in cc
loop-Consumed (suc fuel) c src d fits h = elim (decode_loop_cases fuel c src d h) [
  | inl (o, _, same) ↦
      subst (λ (x : Decoded). Consumed c.total_bytes src x.codec.total_bytes x.src) same
        (round-Consumed c src fits)
  | inr (_, rest) ↦
      let step = round-Consumed c src fits in
      Consumed-trans _ _ _ _ _ _ step (
        loop-Consumed fuel (round c src).codec (round c src).src d (omega (arith, step.counted))
          rest)
]

-- Whatever `decode_frame` answers, it has taken a number of bytes from the front of its input and
-- left the rest, and it has added this number to `total_bytes`, modulo 2 ^ 64.
pub decode_frame_accounts :
    (c : PvaCodec) (src : List ℕ) (d : Decoded)
    → c.total_bytes < 2 ^ 64
    → decode_frame c src ≡ some d
    → Consumed c.total_bytes src d.codec.total_bytes d.src
unfolding decode_frame
decode_frame_accounts c src d fits h = loop-Consumed (2 * length src + 2) c src d fits h
