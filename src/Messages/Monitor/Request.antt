-- ===== src/Messages/Monitor/Request.antt =====
-- `MonitorRequest` of crates/aura-net/src/messages/monitor.rs.
use mathlib.Core.Path.{subst}
use aura_epics.Prelude.{
  ℕ, ◌-◌, ◌<◌, ◌^◌, ◌≡◌, List, [], ◌∷◌, ◌++◌, Option, none, some, ok, pure, raise, ◌>>=◌, length,
  append_assoc, append-nil, sym, ap, ◌∙◌, arith,
}
use aura_epics.Codec.ByteOrder.{ByteOrder, write_word}
use aura_epics.Codec.PvData.Reader.{Decoder, protocol, unknown_monitor_sub, read_i32, read_u8}
use aura_epics.Codec.PvData.Reads.{
  Reads, Reads-pure, Reads-bind, Reads-then, Reads-read_number, Reads-read_u8,
}
use aura_epics.Codec.PvData.Writer.{PvaWriter, write_i32, write_u8, write_raw}
use aura_epics.Codec.PvData.Writes.{
  Writes, Writes-then, Writes-write_number, Writes-write_u8, Writes-write_raw, Writes-nothing,
  undone_before,
}
use aura_epics.Codec.PvData.Inverse.{reading}
use aura_epics.Messages.Monitor.{
  MonitorSubCommand, init, start, start_pipeline, stop, destroy, pipeline, from_u8, to_u8,
}

pub record MonitorRequest : Type 0 where
  pub server_channel_id : ℕ
  pub request_id : ℕ
  pub sub_command : MonitorSubCommand

-- `if let MonitorSubCommand::Pipeline(_) = sub { .. }`
unfoldable pub with_credits : MonitorSubCommand → Decoder MonitorSubCommand
with_credits init = pure init
with_credits start = pure start
with_credits start_pipeline = pure start_pipeline
with_credits stop = pure stop
with_credits destroy = pure destroy
with_credits (pipeline n) = do credits ← read_i32; pure (pipeline credits)

-- `from_u8(sub_byte).ok_or(..)?` and what follows
unfoldable pub decode_sub : ℕ → Option MonitorSubCommand → Decoder MonitorSubCommand
decode_sub byte none = raise (protocol (unknown_monitor_sub byte))
decode_sub byte (some sub) = with_credits sub

unfoldable pub decode : Decoder MonitorRequest
decode = do
  sid ← read_i32
  rid ← read_i32
  byte ← read_u8
  sub ← decode_sub byte (from_u8 byte)
  pure (record { server_channel_id = sid; request_id = rid; sub_command = sub })

-- The empty structure that asks for all fields.
abbrev pub pv_request : List ℕ
pv_request = 0xfd ∷ 0x02 ∷ 0x00 ∷ 0x80 ∷ 0x00 ∷ 0x00 ∷ []

unfoldable pub encode_sub : MonitorSubCommand → PvaWriter → PvaWriter
encode_sub init w = write_raw pv_request w
encode_sub start w = w
encode_sub start_pipeline w = w
encode_sub stop w = w
encode_sub destroy w = w
encode_sub (pipeline credits) w = write_i32 credits w

unfoldable pub encode : MonitorRequest → PvaWriter → PvaWriter
encode m w =
    encode_sub m.sub_command
      (write_u8 (to_u8 m.sub_command) (write_i32 m.request_id (write_i32 m.server_channel_id w)))

abbrev IsSubCommand : MonitorSubCommand → Type 0
IsSubCommand init = Unit
IsSubCommand start = Unit
IsSubCommand start_pipeline = Unit
IsSubCommand stop = Unit
IsSubCommand destroy = Unit
IsSubCommand (pipeline credits) = credits < 2 ^ 32

-- 32-bit ids and credits.
pub record IsRequest (m : MonitorRequest) : Type 0 where
  pub server_channel_id : m.server_channel_id < 2 ^ 32
  pub request_id : m.request_id < 2 ^ 32
  pub sub_command : IsSubCommand m.sub_command

abbrev credits_bytes : ByteOrder → MonitorSubCommand → List ℕ
credits_bytes o init = []
credits_bytes o start = []
credits_bytes o start_pipeline = []
credits_bytes o stop = []
credits_bytes o destroy = []
credits_bytes o (pipeline credits) = write_word o 4 credits

-- What the writer puts behind a request and the decoder does not read.
abbrev pub behind : MonitorSubCommand → List ℕ
behind init = pv_request
behind start = []
behind start_pipeline = []
behind stop = []
behind destroy = []
behind (pipeline credits) = []

abbrev request_bytes : ByteOrder → MonitorRequest → List ℕ
request_bytes o m =
    write_word o 4 m.server_channel_id
    ++ (write_word o 4 m.request_id
        ++ ((to_u8 m.sub_command ∷ []) ++ credits_bytes o m.sub_command))

module _ (o : ByteOrder) where
  Writes-sub : (s : MonitorSubCommand) → Writes o (encode_sub s) (credits_bytes o s ++ behind s)
  unfolding encode_sub
  Writes-sub init = Writes-write_raw o pv_request
  Writes-sub start = Writes-nothing o
  Writes-sub start_pipeline = Writes-nothing o
  Writes-sub stop = Writes-nothing o
  Writes-sub destroy = Writes-nothing o
  Writes-sub (pipeline credits) =
      rw (append-nil (write_word o 4 credits)) (Writes-write_number o 4 credits)

  Reads-sub :
      (s : MonitorSubCommand)
      → IsSubCommand s
      → Reads o (decode_sub (to_u8 s) (from_u8 (to_u8 s))) (credits_bytes o s) s
  unfolding decode_sub with_credits from_u8 to_u8
  Reads-sub init h = Reads-pure init
  Reads-sub start h = Reads-pure start
  Reads-sub start_pipeline h = Reads-pure start_pipeline
  Reads-sub stop h = Reads-pure stop
  Reads-sub destroy h = Reads-pure destroy
  Reads-sub (pipeline credits) h =
      Reads-then _ _ (write_word o 4 credits) credits (pipeline credits)
        (Reads-read_number o 4 credits (omega (arith, h))) (Reads-pure (pipeline credits))

  Reads-request : (m : MonitorRequest) → IsRequest m → Reads o decode (request_bytes o m) m
  unfolding decode
  Reads-request m h =
      Reads-bind _ _ (write_word o 4 m.server_channel_id) _ m.server_channel_id m
        (Reads-read_number o 4 m.server_channel_id (omega (arith, h.server_channel_id)))
        (Reads-bind _ _ (write_word o 4 m.request_id) _ m.request_id m
          (Reads-read_number o 4 m.request_id (omega (arith, h.request_id)))
          (Reads-bind _ _ (to_u8 m.sub_command ∷ []) _ (to_u8 m.sub_command) m
            (Reads-read_u8 o (to_u8 m.sub_command))
            (Reads-then _ _ (credits_bytes o m.sub_command) m.sub_command m
              (Reads-sub m.sub_command h.sub_command) (Reads-pure m))))

  reassociated :
      (m : MonitorRequest)
      → write_word o 4 m.server_channel_id
          ++ (write_word o 4 m.request_id
              ++ ((to_u8 m.sub_command ∷ [])
                  ++ (credits_bytes o m.sub_command ++ behind m.sub_command)))
        ≡ request_bytes o m ++ behind m.sub_command
  reassociated m =
      let sid = write_word o 4 m.server_channel_id in
      let rid = write_word o 4 m.request_id in
      let code = to_u8 m.sub_command ∷ [] in
      let credits = credits_bytes o m.sub_command in
      ap (λ l. sid ++ l)
        (ap (λ l. rid ++ l) (sym (append_assoc code credits (behind m.sub_command)))
          ∙ sym (append_assoc rid (code ++ credits) (behind m.sub_command)))
      ∙ sym (append_assoc sid (rid ++ (code ++ credits)) (behind m.sub_command))

  Writes-request :
      (m : MonitorRequest) → Writes o (encode m) (request_bytes o m ++ behind m.sub_command)
  unfolding encode
  Writes-request m = subst (Writes o (encode m)) (reassociated m) (
      Writes-then (write_i32 m.server_channel_id) _ _ _
        (Writes-write_number o 4 m.server_channel_id)
        (Writes-then (write_i32 m.request_id) _ _ _ (Writes-write_number o 4 m.request_id) (
          Writes-then (write_u8 (to_u8 m.sub_command)) (encode_sub m.sub_command) _ _
            (Writes-write_u8 o (to_u8 m.sub_command)) (Writes-sub m.sub_command))))

-- Every monitor request, with 32-bit ids and credits, is decoded back as it was. The cursor stops
-- where the writer stopped, save that behind an INIT it stops at the six bytes that ask for all
-- fields.
pub monitor_request-decode-encode :
    (m : MonitorRequest) (w : PvaWriter) (rest : List ℕ)
    → IsRequest m
    → decode (reading (encode m w) (length w.buf) rest)
      ≡ (ok m, reading (encode m w) (length (encode m w).buf - length (behind m.sub_command)) rest)
monitor_request-decode-encode m w rest h =
    undone_before w rest (request_bytes w.order m) (behind m.sub_command) (encode m) decode m
      (Writes-request w.order m) (Reads-request w.order m h)
