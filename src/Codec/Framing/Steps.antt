-- ===== src/Codec/Framing/Steps.antt =====
-- The two rounds that take one encoded message off the input.
use aura_epics.Prelude.{
  ℕ, suc, ◌+◌, ◌≤◌, ◌<◌, ◌^◌, ◌≡◌, ap, sym, ◌∙◌, List, ◌++◌, false, some, length, take, drop,
  take-append, drop-append, length-append, ltb, leb, le→ltb, arith,
}
use aura_epics.Codec.Header.{PvaHeader, segmentation, header_size, is_control, encode}
use aura_epics.Codec.Header.RoundTrip.{decode-encode, length-encode}
use aura_epics.Codec.Framing.{
  PvaCodec, PvaFrame, header, payload, return, again, Round, round, round_in, header_round,
  header_decoded, payload_round, dispatch, decode_loop, add_u64, Outcome,
}
use aura_epics.Codec.Framing.Total.{decode_loop_again, decode_loop_return}

-- An application message that a codec with the limit `m` takes.
pub record IsMessage (m : ℕ) (f : PvaFrame) : Type 0 where
  pub application : is_control f.header ≡ false
  pub announced : f.header.payload_size ≡ length f.payload
  pub small : length f.payload ≤ m

module _ (h : PvaHeader) (tail : List ℕ) where
  take-encode : take header_size (encode h ++ tail) ≡ encode h
  take-encode =
      ap (λ n. take n (encode h ++ tail)) (sym (length-encode h)) ∙ take-append (encode h) tail

  drop-encode : drop header_size (encode h ++ tail) ≡ tail
  drop-encode =
      ap (λ n. drop n (encode h ++ tail)) (sym (length-encode h)) ∙ drop-append (encode h) tail

  -- The round in state `Header` in front of an encoded header.
  pub header_round-encode :
      (c : PvaCodec)
      → h.payload_size < 2 ^ 32
      → header_round c (encode h ++ tail) ≡ header_decoded c (encode h ++ tail) h
  unfolding header_round
  header_round-encode c fits =
      let enough : ltb (length (encode h ++ tail)) header_size ≡ false =
        le→ltb _ _ (omega (arith, length-append (encode h) tail, length-encode h)) in
      rw (enough, take-encode, decode-encode h fits)

-- The codec past a message of `n` payload bytes.
abbrev pub past : PvaCodec → ℕ → PvaCodec
past c n = record c { state = header; total_bytes = add_u64 c.total_bytes (header_size + n) }

module _ (m : ℕ) (f : PvaFrame) (c : PvaCodec) (rest : List ℕ) (limit : c.max_payload ≡ m)
    (word : m < 2 ^ 31) (msg : IsMessage m f) where
  abbrev here : List ℕ
  here = encode f.header ++ (f.payload ++ rest)

  announce : PvaCodec
  announce = record c { state = payload f.header }

  header_accepted :
      header_decoded c here f.header ≡ record { flow = again; codec = announce; src = here }
  unfolding header_decoded announce
  header_accepted =
      let positive : leb (2 ^ 31) f.header.payload_size ≡ false =
        ground (arith, msg.announced, msg.small) in
      let within : ltb c.max_payload f.header.payload_size ≡ false =
        le→ltb _ _ (omega (arith, msg.announced, msg.small, limit)) in
      rw (msg.application, positive, within)

  payload_taken :
      payload_round f.header announce here
      ≡ dispatch (segmentation f.header) f.header (past c (length f.payload)) rest f.payload
  unfolding payload_round announce
  payload_taken =
      let enough : ltb (length here) (header_size + f.header.payload_size) ≡ false = le→ltb _ _ (
        omega (
          arith,
          length-append (encode f.header) (f.payload ++ rest),
          length-append f.payload rest,
          length-encode f.header,
          msg.announced,
        )) in
      rw (
        enough,
        drop-encode f.header (f.payload ++ rest),
        msg.announced,
        take-append f.payload rest,
        drop-append f.payload rest,
      )

  abbrev dispatched : Round
  dispatched = dispatch (segmentation f.header) f.header (past c (length f.payload)) rest f.payload

  first_round :
      c.state ≡ header → round c here ≡ record { flow = again; codec = announce; src = here }
  unfolding round
  first_round between =
      ap (λ s. round_in s c here) between
      ∙ header_round-encode f.header (f.payload ++ rest) c (omega (arith, msg.announced, msg.small))
      ∙ header_accepted

  second_round : round announce here ≡ dispatched
  unfolding round announce
  second_round = payload_taken

  after_header :
      (k : ℕ) → c.state ≡ header → decode_loop (suc k) c here ≡ decode_loop k announce here
  after_header k between =
      let e = first_round between in
      decode_loop_again k c here (ap (λ (r : Round). r.flow) e)
      ∙ ap (λ (r : Round). decode_loop k r.codec r.src) e

  -- Between frames, a message that is kept for later is taken, and the loop goes on behind it.
  pub message_kept :
      (k : ℕ)
      → c.state ≡ header
      → dispatched.flow ≡ again
      → decode_loop (suc (suc k)) c here ≡ decode_loop k dispatched.codec dispatched.src
  message_kept k between kept =
      after_header (suc k) between
      ∙ decode_loop_again k announce here (ap (λ (r : Round). r.flow) second_round ∙ kept)
      ∙ ap (λ (r : Round). decode_loop k r.codec r.src) second_round

  -- Between frames, a message that is answered ends the loop.
  pub message_answered :
      (o : Outcome)
      → c.state ≡ header
      → dispatched.flow ≡ return o
      → decode_loop 2 c here
        ≡ some (record { result = o; codec = dispatched.codec; src = dispatched.src })
  message_answered o between answered =
      after_header 1 between
      ∙ decode_loop_return 0 announce here o (ap (λ (r : Round). r.flow) second_round ∙ answered)
      ∙ ap (λ (r : Round). some (record { result = o; codec = r.codec; src = r.src })) second_round
