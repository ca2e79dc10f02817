-- ===== src/Codec/Framing/Tests.antt =====
-- Concrete streams, and the theorems at them.
use aura_epics.Prelude.{ℕ, ◌≡◌, refl, List, [], ◌∷◌, ◌++◌, none, some, ok, length, arith}
use aura_epics.Codec.ByteOrder.{ByteOrder, read_word, from_flags}
use aura_epics.Codec.Header
use aura_epics.Codec.Header.{
  PvaHeader, first, middle, last, unsegmented, is_control, segmentation, byte_order,
}
use aura_epics.Codec.Framing.{
  PvaCodec, PvaFrame, Decoded, header, payload, encode_frame, decode_frame, decode_loop, round,
  header_round, header_decoded, payload_round, dispatch,
}
use aura_epics.Codec.Framing.Total.{decode_frame_total}
use aura_epics.Codec.Framing.Accounting.{Consumed, decode_frame_accounts}
use aura_epics.Codec.Framing.Bounds.{FitsIn, OutcomeFits, decode_frame_fits}
use aura_epics.Codec.Framing.Chunks.{decode_frame-append_waiting, decode_frame-append_answered}
use aura_epics.Codec.Framing.Steps.{IsMessage}
use aura_epics.Codec.Framing.RoundTrip.{decode_frame-encode_frame, send_all, Reassembled, IsSegment}
use aura_epics.Codec.Framing.Reassembly.{decode_frame_reassembles, whole_message}

abbrev message : ℕ → List ℕ → PvaFrame
message flags bytes = record {
  header = record { version = 2; flags = flags; command = 13; payload_size = length bytes };
  payload = bytes;
}

-- A codec with a limit of 4 bytes, between frames.
abbrev small : PvaCodec
small = record {
  state = header;
  byte_order = ByteOrder.little_endian;
  max_payload = 4;
  segment_buf = none;
  total_bytes = 0;
  total_frames = 0;
}

message-IsMessage : IsMessage 4 (message 0 (1 ∷ 2 ∷ 3 ∷ []))
unfolding is_control
message-IsMessage = record { application = refl; announced = refl; small = omega arith }

abbrev stream : List ℕ
stream = 0xca ∷ 2 ∷ 0 ∷ 13 ∷ 3 ∷ 0 ∷ 0 ∷ 0 ∷ 1 ∷ 2 ∷ 3 ∷ 9 ∷ []

abbrev decoded : Decoded
decoded = record {
  result = ok (some (message 0 (1 ∷ 2 ∷ 3 ∷ [])));
  codec = record small { total_bytes = 11; total_frames = 1 };
  src = 9 ∷ [];
}

decode_stream : decode_frame small stream ≡ some decoded
unfolding decode_frame decode_loop round header_round header_decoded payload_round dispatch
    Header.decode from_flags read_word is_control segmentation
decode_stream = refl

-- the header alone: the codec remembers it
abbrev waiting : Decoded
waiting = record {
  result = ok none;
  codec = record small { state = payload (message 0 (1 ∷ 2 ∷ 3 ∷ [])).header };
  src = 0xca ∷ 2 ∷ 0 ∷ 13 ∷ 3 ∷ 0 ∷ 0 ∷ 0 ∷ 1 ∷ [];
}

decode_half : decode_frame small (0xca ∷ 2 ∷ 0 ∷ 13 ∷ 3 ∷ 0 ∷ 0 ∷ 0 ∷ 1 ∷ []) ≡ some waiting
unfolding decode_frame decode_loop round header_round header_decoded payload_round dispatch
    Header.decode from_flags read_word is_control segmentation
decode_half = refl

decode_frame_total_example : (d : Decoded) × (decode_frame small stream ≡ some d)
decode_frame_total_example = decode_frame_total small stream

decode_frame_accounts_example : Consumed 0 stream 11 (9 ∷ [])
decode_frame_accounts_example =
    decode_frame_accounts small stream decoded (omega arith) decode_stream

decode_frame_fits_example : FitsIn 4 decoded.codec × OutcomeFits 4 decoded.result
decode_frame_fits_example =
    decode_frame_fits 4 small stream decoded (omega arith)
      (record { limit = refl; pending = tt; joined = tt }) decode_stream

decode_frame-append_waiting_example :
    decode_frame small (0xca ∷ 2 ∷ 0 ∷ 13 ∷ 3 ∷ 0 ∷ 0 ∷ 0 ∷ 1 ∷ 2 ∷ 3 ∷ [])
    ≡ decode_frame waiting.codec (0xca ∷ 2 ∷ 0 ∷ 13 ∷ 3 ∷ 0 ∷ 0 ∷ 0 ∷ 1 ∷ 2 ∷ 3 ∷ [])
decode_frame-append_waiting_example =
    decode_frame-append_waiting small (0xca ∷ 2 ∷ 0 ∷ 13 ∷ 3 ∷ 0 ∷ 0 ∷ 0 ∷ 1 ∷ []) (2 ∷ 3 ∷ [])
      waiting decode_half refl

decode_frame-append_answered_example :
    decode_frame small (stream ++ (5 ∷ [])) ≡ some (record decoded { src = 9 ∷ 5 ∷ [] })
decode_frame-append_answered_example =
    decode_frame-append_answered small stream (5 ∷ []) decoded decode_stream (λ e. cc)

decode_frame-encode_frame_example :
    decode_frame small (encode_frame (message 0 (1 ∷ 2 ∷ 3 ∷ [])) [] ++ (9 ∷ []))
    ≡ some (record {
      result = ok (some (message 0 (1 ∷ 2 ∷ 3 ∷ [])));
      codec = record small { total_bytes = 11; total_frames = 1 };
      src = 9 ∷ [];
    })
unfolding segmentation
decode_frame-encode_frame_example =
    decode_frame-encode_frame 4 small (message 0 (1 ∷ 2 ∷ 3 ∷ [])) (9 ∷ []) refl (omega arith) refl
      message-IsMessage refl

segments :
    IsSegment 4 first (message 0x10 (1 ∷ 2 ∷ []))
    × IsSegment 4 middle (message 0x30 (3 ∷ []))
    × IsSegment 4 last (message 0x20 (4 ∷ 5 ∷ 6 ∷ []))
unfolding is_control segmentation
segments = (
  record {
    message = record { application = refl; announced = refl; small = omega arith };
    part = refl;
  },
  record {
    message = record { application = refl; announced = refl; small = omega arith };
    part = refl;
  },
  record {
    message = record { application = refl; announced = refl; small = omega arith };
    part = refl;
  },
)

decode_frame_reassembles_example :
    (d : Decoded) × (decode_frame small (
        send_all
          (message 0x10 (1 ∷ 2 ∷ []) ∷ message 0x30 (3 ∷ []) ∷ message 0x20 (4 ∷ 5 ∷ 6 ∷ []) ∷ [])
          []
        ++ (9 ∷ []))
      ≡ some d)
    × Reassembled
        (whole_message
          (message 0x10 (1 ∷ 2 ∷ []))
          (message 0x30 (3 ∷ []) ∷ [])
          (message 0x20 (4 ∷ 5 ∷ 6 ∷ [])))
        (9 ∷ [])
        d
decode_frame_reassembles_example =
    decode_frame_reassembles 4 small (message 0x10 (1 ∷ 2 ∷ [])) (message 0x30 (3 ∷ []) ∷ [])
      (message 0x20 (4 ∷ 5 ∷ 6 ∷ [])) (9 ∷ []) (omega arith) refl refl segments.0 (segments.1, tt)
      segments.2 (omega arith)
