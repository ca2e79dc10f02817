-- ===== src/Codec/Framing/RoundTrip.antt =====
-- What `encode_frame` writes, `decode_frame` hands out again, whole or put together from segments.
use aura_epics.Prelude.{
  ℕ, ◌+◌, ◌*◌, ◌≤◌, ◌<◌, ◌^◌, ◌≡◌, refl, ap, ◌∙◌, List, [], ◌∷◌, ◌++◌, false, none, some, ok,
  length, append_assoc, le→ltb, arith,
}
use aura_epics.Codec.Header.{Segmentation, unsegmented, middle, last, segmentation, encode}
use aura_epics.Codec.Framing.{
  PvaCodec, PvaFrame, SegmentBuffer, header, return, again, Round, Decoded, dispatch, last_segment,
  middle_segment, decode_loop, decode_frame, encode_frame, too_long, join, joined_frame, add_u64,
}
use aura_epics.Codec.Framing.Total.{decode_frame_total}
use aura_epics.Codec.Framing.Chunks.{decode_loop_same}
use aura_epics.Codec.Framing.Steps.{IsMessage, past, message_answered}

-- A run of the loop with any fuel is what `decode_frame` answers.
pub decode_frame_of_loop :
    (k : ℕ) (c : PvaCodec) (src : List ℕ) (d : Decoded)
    → decode_loop k c src ≡ some d
    → decode_frame c src ≡ some d
unfolding decode_frame
decode_frame_of_loop k c src d h =
    let (a, ha) = decode_frame_total c src in ha ∙ ap some (decode_loop_same _ _ c src a d ha h)

regroup :
    (f : PvaFrame) (dst rest : List ℕ)
    → encode_frame f dst ++ rest ≡ dst ++ (encode f.header ++ (f.payload ++ rest))
unfolding encode_frame
regroup f dst rest =
    append_assoc dst (encode f.header ++ f.payload) rest
    ∙ ap (λ l. dst ++ l) (append_assoc (encode f.header) f.payload rest)

-- A codec between frames takes an unsegmented application frame within its limit back from its
-- encoding as it was, counts it, and leaves the bytes behind it.
pub decode_frame-encode_frame :
    (m : ℕ) (c : PvaCodec) (f : PvaFrame) (rest : List ℕ)
    → c.max_payload ≡ m
    → m < 2 ^ 31
    → c.state ≡ header
    → IsMessage m f
    → segmentation f.header ≡ unsegmented
    → decode_frame c (encode_frame f [] ++ rest)
      ≡ some (record {
        result = ok (some f);
        codec = record c {
          state = header;
          total_bytes = add_u64 c.total_bytes (8 + length f.payload);
          total_frames = add_u64 c.total_frames 1;
        };
        src = rest;
      })
unfolding dispatch
decode_frame-encode_frame m c f rest limit word between msg whole =
    let e = ap (λ s. dispatch s f.header (past c (length f.payload)) rest f.payload) whole in
    ap (λ l. decode_frame c l) (regroup f [] rest)
    ∙ decode_frame_of_loop 2 c _ _ (
        message_answered m f c rest limit word msg (ok (some f)) between
          (ap (λ (r : Round). r.flow) e))
    ∙ ap (λ (r : Round). some (record { result = ok (some f); codec = r.codec; src = r.src })) e

-- A sender's loop over frames.
abbrev pub send_all : List PvaFrame → List ℕ → List ℕ
send_all [] dst = dst
send_all (f ∷ fs) dst = send_all fs (encode_frame f dst)

abbrev pub payloads : List PvaFrame → List ℕ
payloads [] = []
payloads (f ∷ fs) = f.payload ++ payloads fs

abbrev pub sent : List PvaFrame → List ℕ → List ℕ
sent [] tail = tail
sent (f ∷ fs) tail = encode f.header ++ (f.payload ++ sent fs tail)

pub send_all_lem :
    (fs : List PvaFrame) (dst tail : List ℕ) → send_all fs dst ++ tail ≡ dst ++ sent fs tail
unfolding encode_frame
send_all_lem [] dst tail = refl
send_all_lem (f ∷ fs) dst tail =
    send_all_lem fs (dst ++ (encode f.header ++ f.payload)) tail ∙ regroup f dst (sent fs tail)

-- The loop has ended with `frame`, between frames and with no segment kept.
pub record Reassembled (frame : PvaFrame) (rest : List ℕ) (d : Decoded) : Type 0 where
  pub result : d.result ≡ ok (some frame)
  pub src : d.src ≡ rest
  pub between : d.codec.state ≡ header
  pub emptied : d.codec.segment_buf ≡ none

pub record IsSegment (m : ℕ) (s : Segmentation) (f : PvaFrame) : Type 0 where
  pub message : IsMessage m f
  pub part : segmentation f.header ≡ s

-- The codec past a middle segment.
abbrev pub kept_middle : PvaCodec → SegmentBuffer → PvaFrame → PvaCodec
kept_middle c seg f = record c {
  state = header;
  segment_buf = some (join seg f.payload);
  total_bytes = add_u64 c.total_bytes (8 + length f.payload);
}

module _ (m : ℕ) (c : PvaCodec) (limit : c.max_payload ≡ m) (seg : SegmentBuffer)
    (held : c.segment_buf ≡ some seg) (f : PvaFrame) (rest : List ℕ)
    (room : length seg.bytes + length f.payload ≤ m * 4) where
  not_too_long : too_long (past c (length f.payload)) seg f.payload ≡ false
  not_too_long = le→ltb _ _ (omega (arith, limit))

  pub middle_joins :
      segmentation f.header ≡ middle
      → dispatch (segmentation f.header) f.header (past c (length f.payload)) rest f.payload
        ≡ record { flow = again; codec = kept_middle c seg f; src = rest }
  unfolding dispatch
  middle_joins part =
      ap (λ s. dispatch s f.header (past c (length f.payload)) rest f.payload) part
      ∙ ap (λ b. middle_segment b (past c (length f.payload)) rest f.payload) held
      ∙ rw not_too_long

  pub last_ends :
      segmentation f.header ≡ last
      → dispatch (segmentation f.header) f.header (past c (length f.payload)) rest f.payload
        ≡ record {
          flow = return (ok (some (joined_frame (join seg f.payload))));
          codec = record (past c (length f.payload)) {
            segment_buf = none;
            total_frames = add_u64 c.total_frames 1;
          };
          src = rest;
        }
  unfolding dispatch
  last_ends part =
      ap (λ s. dispatch s f.header (past c (length f.payload)) rest f.payload) part
      ∙ ap (λ b. last_segment b (past c (length f.payload)) rest f.payload) held
      ∙ rw not_too_long
