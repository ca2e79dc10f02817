-- ===== src/Codec/Framing/Bounds.antt =====
-- The limits of the codec: what it holds and what it hands out stays within `max_payload`, and
-- four times that when it puts segments together.
use mathlib.Core.Path.{subst}
use aura_epics.Prelude.{
  ℕ, zero, suc, ◌+◌, ◌*◌, ◌%◌, ◌^◌, ◌≤◌, ◌<◌, ◌≡◌, ◌⊎◌, inl, inr, refl, List, [], true, false,
  Option, none, some, ok, err, length, take, drop, length-drop, length-take, length-append, ltb,
  ltb→le, if_intro, arith,
}
use aura_epics.Codec.ByteOrder.{is_negative_i32}
use aura_epics.Codec.Header.{
  PvaHeader, Segmentation, unsegmented, first, middle, last, segmentation, header_size, is_control,
  with_segmentation,
}
use aura_epics.Codec.Framing.{
  PvaCodec, PvaFrame, DecodeState, SegmentBuffer, header, payload, Flow, return, again, Round,
  Decoded, Outcome, round, round_in, header_round, header_or_error, header_decoded, payload_round,
  dispatch, middle_segment, last_segment, decode_loop, decode_frame, too_long, join, joined_frame,
  add_u64,
}
use aura_epics.Codec.Framing.Total.{decode_loop_cases}

abbrev pub PendingFits : ℕ → DecodeState → Type 0
PendingFits m header = Unit
PendingFits m (payload h) = h.payload_size ≤ m

abbrev pub SegmentFits : ℕ → Option SegmentBuffer → Type 0
SegmentFits m none = Unit
SegmentFits m (some seg) = length seg.bytes ≤ m * 4

-- A codec with the limit `m` waits for no larger payload, and holds no more than 4 * m bytes.
pub record FitsIn (m : ℕ) (c : PvaCodec) : Type 0 where
  pub limit : c.max_payload ≡ m
  pub pending : PendingFits m c.state
  pub joined : SegmentFits m c.segment_buf

-- A control frame is empty; any other has the payload that its header announces.
abbrev pub FrameFits : ℕ → PvaFrame → Type 0
FrameFits m f =
    ((is_control f.header ≡ true) × (f.payload ≡ []))
    ⊎ ((f.header.payload_size ≡ length f.payload % 2 ^ 32) × (length f.payload ≤ m * 4))

abbrev pub OutcomeFits : ℕ → Outcome → Type 0
OutcomeFits m (ok (some f)) = FrameFits m f
OutcomeFits m (ok none) = Unit
OutcomeFits m (err e) = Unit

abbrev FlowFits : ℕ → Flow → Type 0
FlowFits m (return o) = OutcomeFits m o
FlowFits m again = Unit

record RoundFits (m : ℕ) (r : Round) : Type 0 where
  codec : FitsIn m r.codec
  flow : FlowFits m r.flow

header_decoded_fits :
    (m : ℕ) (c : PvaCodec) (src : List ℕ) (h : PvaHeader)
    → FitsIn m c
    → RoundFits m (header_decoded c src h)
unfolding header_decoded
header_decoded_fits m c src h fits =
    if_intro (RoundFits m) (is_control h) _ _
      (λ control. record {
        codec = record { limit = fits.limit; pending = fits.pending; joined = fits.joined };
        flow = inl (control, refl);
      })
      (λ _.
        if_intro (RoundFits m) (is_negative_i32 h.payload_size) _ _
          (λ _. record { codec = fits; flow = tt })
          (λ _.
            if_intro (RoundFits m) (ltb c.max_payload h.payload_size) _ _
              (λ _. record { codec = fits; flow = tt })
              (λ e. record {
                codec = record {
                  limit = fits.limit;
                  pending = omega (arith, ltb→le _ _ e, fits.limit);
                  joined = fits.joined;
                };
                flow = tt;
              })))

header_or_error_fits :
    (m : ℕ) (c : PvaCodec) (src : List ℕ) (o : Option PvaHeader)
    → FitsIn m c
    → RoundFits m (header_or_error c src o)
header_or_error_fits m c src none fits = record { codec = fits; flow = tt }
header_or_error_fits m c src (some h) fits = header_decoded_fits m c src h fits

header_round_fits :
    (m : ℕ) (c : PvaCodec) (src : List ℕ) → FitsIn m c → RoundFits m (header_round c src)
unfolding header_round
header_round_fits m c src fits =
    if_intro (RoundFits m) (ltb (length src) header_size) _ _
      (λ _. record { codec = fits; flow = tt }) (λ _. header_or_error_fits m c src _ fits)

joined_fits :
    (m : ℕ) (c : PvaCodec) (seg : SegmentBuffer) (bytes : List ℕ)
    → c.max_payload ≡ m
    → too_long c seg bytes ≡ false
    → length (join seg bytes).bytes ≤ m * 4
joined_fits m c seg bytes e h = omega (arith, ltb→le _ _ h, length-append seg.bytes bytes)

middle_segment_fits :
    (m : ℕ) (s : Option SegmentBuffer) (c : PvaCodec) (src bytes : List ℕ)
    → FitsIn m c
    → RoundFits m (middle_segment s c src bytes)
middle_segment_fits m none c src bytes fits = record { codec = fits; flow = tt }
middle_segment_fits m (some seg) c src bytes fits =
    if_intro (RoundFits m) (too_long c seg bytes) _ _ (λ _. record { codec = fits; flow = tt })
      (λ e. record {
        codec = record {
          limit = fits.limit;
          pending = fits.pending;
          joined = joined_fits m c seg bytes fits.limit e;
        };
        flow = tt;
      })

last_segment_fits :
    (m : ℕ) (s : Option SegmentBuffer) (c : PvaCodec) (src bytes : List ℕ)
    → FitsIn m c
    → RoundFits m (last_segment s c src bytes)
unfolding joined_frame with_segmentation
last_segment_fits m none c src bytes fits = record { codec = fits; flow = tt }
last_segment_fits m (some seg) c src bytes fits =
    if_intro (RoundFits m) (too_long c seg bytes) _ _
      (λ _. record { codec = emptied c.total_frames; flow = tt })
      (λ e. record {
        codec = emptied (add_u64 c.total_frames 1);
        flow = inr (refl, joined_fits m c seg bytes fits.limit e);
      })
  where
    emptied : (n : ℕ) → FitsIn m (record c { segment_buf = none; total_frames = n })
    emptied n = record { limit = fits.limit; pending = fits.pending; joined = tt }

dispatch_fits :
    (m : ℕ) (s : Segmentation) (h : PvaHeader) (c : PvaCodec) (src bytes : List ℕ)
    → m < 2 ^ 32
    → h.payload_size ≤ m
    → length bytes ≡ h.payload_size
    → FitsIn m c
    → RoundFits m (dispatch s h c src bytes)
unfolding dispatch
dispatch_fits m unsegmented h c src bytes word small size fits = record {
  codec = record { limit = fits.limit; pending = fits.pending; joined = fits.joined };
  flow = inr (omega arith, omega arith);
}
dispatch_fits m first h c src bytes word small size fits = record {
  codec = record { limit = fits.limit; pending = fits.pending; joined = omega arith };
  flow = tt;
}
dispatch_fits m middle h c src bytes word small size fits =
    middle_segment_fits m c.segment_buf c src bytes fits
dispatch_fits m last h c src bytes word small size fits =
    last_segment_fits m c.segment_buf c src bytes fits

payload_round_fits :
    (m : ℕ) (h : PvaHeader) (c : PvaCodec) (src : List ℕ)
    → m < 2 ^ 32
    → h.payload_size ≤ m
    → FitsIn m c
    → RoundFits m (payload_round h c src)
unfolding payload_round
payload_round_fits m h c src word small fits =
    if_intro (RoundFits m) (ltb (length src) (header_size + h.payload_size)) _ _
      (λ _. record { codec = fits; flow = tt })
      (λ e.
        dispatch_fits m (segmentation h) h _ _ (take h.payload_size (drop header_size src)) word
          small
          (omega (
            arith,
            ltb→le _ _ e,
            length-take h.payload_size (drop header_size src),
            length-drop header_size src,
          ))
          (record { limit = fits.limit; pending = tt; joined = fits.joined }))

round_in_fits :
    (m : ℕ) (s : DecodeState) (c : PvaCodec) (src : List ℕ)
    → m < 2 ^ 32
    → PendingFits m s
    → FitsIn m c
    → RoundFits m (round_in s c src)
round_in_fits m header c src word p fits = header_round_fits m c src fits
round_in_fits m (payload h) c src word p fits = payload_round_fits m h c src word p fits

loop_fits :
    (m fuel : ℕ) (c : PvaCodec) (src : List ℕ) (d : Decoded)
    → m < 2 ^ 32
    → FitsIn m c
    → decode_loop fuel c src ≡ some d
    → FitsIn m d.codec × OutcomeFits m d.result
loop_fits m zero c src d word fits h = unfold decode_loop in cc
loop_fits m (suc fuel) c src d word fits h = elim (decode_loop_cases fuel c src d h) [
  | inl (o, e, same) ↦
      subst (λ (x : Decoded). FitsIn m x.codec × OutcomeFits m x.result) same
        (now.codec, subst (FlowFits m) e now.flow)
  | inr (_, rest) ↦ loop_fits m fuel (round c src).codec (round c src).src d word now.codec rest
]
  where
    now : RoundFits m (round c src)
    now = unfold round in round_in_fits m c.state c src word fits.pending fits

-- A codec whose limit m is a u32, which waits for a payload of at most m bytes and holds at most 4 * m bytes of
-- segments, is such a codec again after `decode_frame`. A frame that it returns is a control
-- frame without payload, or announces the length of its payload, which is at most 4 * m.
pub decode_frame_fits :
    (m : ℕ) (c : PvaCodec) (src : List ℕ) (d : Decoded)
    → m < 2 ^ 32
    → FitsIn m c
    → decode_frame c src ≡ some d
    → FitsIn m d.codec × OutcomeFits m d.result
unfolding decode_frame
decode_frame_fits m c src d word fits h = loop_fits m (2 * length src + 2) c src d word fits h
