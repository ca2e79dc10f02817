-- ===== src/Codec/Framing/Reassembly.antt =====
-- A message cut into segments comes out whole.
use mathlib.Core.Path.{subst}
use aura_epics.Prelude.{
  ℕ, suc, ◌+◌, ◌*◌, ◌≤◌, ◌<◌, ◌^◌, ◌%◌, ◌≡◌, refl, ap, sym, ◌∙◌, List, [], ◌∷◌, ◌++◌, some, length,
  length-append, append_assoc, All, arith,
}
use aura_epics.Codec.Header.{first, middle, last, unsegmented, with_segmentation, encode}
use aura_epics.Codec.Framing.{
  PvaCodec, PvaFrame, SegmentBuffer, header, Round, Decoded, dispatch, decode_loop, decode_frame,
  join, joined_frame,
}
use aura_epics.Codec.Framing.Steps.{past, message_kept, message_answered}
use aura_epics.Codec.Framing.RoundTrip.{
  decode_frame_of_loop, sent, send_all, send_all_lem, payloads, Reassembled, IsSegment,
  middle_joins, last_ends, kept_middle,
}

regrouped : (a b c d : List ℕ) → (a ++ b) ++ (c ++ d) ≡ a ++ ((b ++ c) ++ d)
regrouped a b c d = append_assoc a b (c ++ d) ∙ ap (λ l. a ++ l) (sym (append_assoc b c d))

module _ (m : ℕ) (word : m < 2 ^ 31) (final : PvaFrame) (rest : List ℕ)
    (ends : IsSegment m last final) where
  last_reassembles :
      (c : PvaCodec) (seg : SegmentBuffer)
      → c.max_payload ≡ m
      → c.state ≡ header
      → c.segment_buf ≡ some seg
      → length seg.bytes + length final.payload ≤ m * 4
      → (d : Decoded) × (decode_loop 2 c (encode final.header ++ (final.payload ++ rest)) ≡ some d)
        × Reassembled (joined_frame (join seg final.payload)) rest d
  last_reassembles c seg limit between held room =
      let e = last_ends m c limit seg held final rest room ends.part in
      (
        _,
        message_answered m final c rest limit word ends.message _ between
            (ap (λ (r : Round). r.flow) e),
        record {
          result = refl;
          src = ap (λ (r : Round). r.src) e;
          between = ap (λ (r : Round). r.codec.state) e;
          emptied = ap (λ (r : Round). r.codec.segment_buf) e;
        },
      )

  middles_reassemble :
      (mids : List PvaFrame) (c : PvaCodec) (seg : SegmentBuffer)
      → All (IsSegment m middle) mids
      → c.max_payload ≡ m
      → c.state ≡ header
      → c.segment_buf ≡ some seg
      → length seg.bytes + (length (payloads mids) + length final.payload) ≤ m * 4
      → (k : ℕ) × (d : Decoded) × (decode_loop k c
            (sent mids (encode final.header ++ (final.payload ++ rest)))
          ≡ some d)
        × Reassembled (joined_frame (join seg (payloads mids ++ final.payload))) rest d
  middles_reassemble [] c seg parts limit between held room =
      let (d, run, good) = last_reassembles c seg limit between held (omega arith) in
      (2, d, run, good)
  middles_reassemble (f ∷ fs) c seg (part, parts) limit between held room =
      let size = length-append f.payload (payloads fs) in
      let e = middle_joins m c limit seg held f tail (omega (arith, size)) part.part in
      let (k, d, run, good) =
        middles_reassemble fs (kept_middle c seg f) (join seg f.payload) parts limit refl refl
          (omega (arith, size, length-append seg.bytes f.payload)) in
      (
        suc (suc k),
        d,
        message_kept m f c tail limit word part.message k between (ap (λ (r : Round). r.flow) e)
            ∙ ap (λ (r : Round). decode_loop k r.codec r.src) e
            ∙ run,
        subst (λ l. Reassembled (joined_frame (record seg { bytes = l })) rest d)
            (regrouped seg.bytes f.payload (payloads fs) final.payload) good,
      )
    where
      tail : List ℕ
      tail = sent fs (encode final.header ++ (final.payload ++ rest))

-- What a message cut into a first segment, middle segments and a last one comes out as.
abbrev pub whole_message : PvaFrame → List PvaFrame → PvaFrame → PvaFrame
whole_message start mids final =
    let bytes = start.payload ++ (payloads mids ++ final.payload) in
    record {
      header =
          with_segmentation (record start.header { payload_size = length bytes % 2 ^ 32 })
            unsegmented;
      payload = bytes;
    }

-- The codec past a first segment.
abbrev opened : PvaCodec → PvaFrame → PvaCodec
opened c start = record (past c (length start.payload)) {
  segment_buf = some (record { header = start.header; bytes = start.payload });
}

sent-append :
    (fs : List PvaFrame) (f : PvaFrame) (tail : List ℕ)
    → sent (fs ++ (f ∷ [])) tail ≡ sent fs (encode f.header ++ (f.payload ++ tail))
sent-append [] f tail = refl
sent-append (g ∷ gs) f tail = ap (λ l. encode g.header ++ (g.payload ++ l)) (sent-append gs f tail)

-- Between frames, with a limit of m below 2 ^ 31: a first segment, any number of middle segments
-- and a last one, each an application message of at most m bytes and together of at most 4 * m,
-- that were encoded one behind the other come out as one frame. It has the header of the first segment,
-- marked whole and announcing the length of all payloads, which it holds in order. The bytes behind
-- are left, and no segment is kept.
pub decode_frame_reassembles :
    (m : ℕ) (c : PvaCodec) (start : PvaFrame) (mids : List PvaFrame) (final : PvaFrame)
    (rest : List ℕ)
    → m < 2 ^ 31
    → c.max_payload ≡ m
    → c.state ≡ header
    → IsSegment m first start
    → All (IsSegment m middle) mids
    → IsSegment m last final
    → length start.payload + (length (payloads mids) + length final.payload) ≤ m * 4
    → (d : Decoded) × (decode_frame c (send_all (start ∷ (mids ++ (final ∷ []))) [] ++ rest)
        ≡ some d)
      × Reassembled (whole_message start mids final) rest d
unfolding dispatch joined_frame
decode_frame_reassembles m c start mids final rest word limit between starts parts ends room =
    let e =
      ap (λ s. dispatch s start.header (past c (length start.payload)) tail start.payload)
        starts.part in
    let (k, d, run, good) =
      middles_reassemble m word final rest ends mids (opened c start)
        (record { header = start.header; bytes = start.payload }) parts limit refl refl room in
    (
      d,
      ap (decode_frame c) (
            send_all_lem (start ∷ (mids ++ (final ∷ []))) [] rest
            ∙ ap (λ l. encode start.header ++ (start.payload ++ l)) (sent-append mids final rest))
          ∙ decode_frame_of_loop (suc (suc k)) c _ d (
              message_kept m start c tail limit word starts.message k between
                (ap (λ (r : Round). r.flow) e)
              ∙ ap (λ (r : Round). decode_loop k r.codec r.src) e
              ∙ run),
      good,
    )
  where
    tail : List ℕ
    tail = sent mids (encode final.header ++ (final.payload ++ rest))
