-- ===== src/Messages/Tests.antt =====
-- The theorems on the messages at concrete inputs.
use aura_epics.Prelude.{ℕ, ◌-◌, ◌≡◌, refl, List, [], ◌∷◌, true, false, some, ok, length, arith}
use aura_epics.Codec.ByteOrder.{little_endian}
use aura_epics.Codec.PvData.Utf8.{is_utf8}
use aura_epics.Codec.PvData.Writer.{PvaWriter}
use aura_epics.Codec.PvData.Inverse.{reading}
use aura_epics.Messages.Status
use aura_epics.Messages.Status.{PvaStatus, error, is_ok, status_ok}
use aura_epics.Messages.Status.RoundTrip.{IsStatus, status-decode-encode}
use aura_epics.Messages.ChannelList.{AreChannels}
use aura_epics.Messages.Channel.CreateRequest
use aura_epics.Messages.Channel.CreateRequest.{CreateChannelRequest, request-decode-encode}
use aura_epics.Messages.Channel.CreateResponse
use aura_epics.Messages.Channel.CreateResponse.{
  CreateChannelResponse, IsResponse, response-decode-encode,
}
use aura_epics.Messages.Monitor.{init}
use aura_epics.Messages.Monitor.Request
use aura_epics.Messages.Monitor.Request.{
  MonitorRequest, IsRequest, behind, monitor_request-decode-encode,
}

-- A writer that already holds a byte.
abbrev begun : PvaWriter
begun = record { buf = 7 ∷ []; order = little_endian }

abbrev more : List ℕ
more = 9 ∷ []

abbrev text : List ℕ
text = 0x70 ∷ 0x76 ∷ []

text-is_utf8 : is_utf8 text ≡ true
unfolding is_utf8
text-is_utf8 = refl

abbrev traced : PvaStatus
traced = record { status_type = error; message = text; call_tree = some text }

traced_not_ok : is_ok traced ≡ false
unfolding is_ok
traced_not_ok = refl

traced-IsStatus : IsStatus traced
traced-IsStatus = record {
  message = (text-is_utf8, omega arith);
  call_tree = (text-is_utf8, omega arith);
  plain = λ h. absurd (cc (h, traced_not_ok));
}

status-decode-encode_example : Status.decode (reading (Status.encode traced begun) 1 more) ≡ (
  ok traced,
  reading (Status.encode traced begun) (length (Status.encode traced begun).buf) more,
)
status-decode-encode_example = status-decode-encode traced begun more traced-IsStatus

abbrev two_channels : CreateChannelRequest
two_channels = record { channels = (1, text) ∷ (0xffff_ffff, []) ∷ [] }

empty-is_utf8 : is_utf8 [] ≡ true
unfolding is_utf8
empty-is_utf8 = refl

two_channels-AreChannels : AreChannels two_channels.channels
two_channels-AreChannels = (
  omega arith,
  ((omega arith, text-is_utf8, omega arith), ((omega arith, empty-is_utf8, omega arith), tt)),
)

request-decode-encode_example :
    CreateRequest.decode (reading (CreateRequest.encode two_channels begun) 1 more) ≡ (
      ok two_channels,
      reading
          (CreateRequest.encode two_channels begun)
          (length (CreateRequest.encode two_channels begun).buf)
          more,
    )
request-decode-encode_example =
    request-decode-encode two_channels begun more two_channels-AreChannels

abbrev refused : CreateChannelResponse
refused = record { client_channel_id = 5; server_channel_id = 0xffff_ffff; status = traced }

refused-IsResponse : IsResponse refused
refused-IsResponse = record {
  client_channel_id = omega arith;
  server_channel_id = omega arith;
  status = traced-IsStatus;
}

response-decode-encode_example :
    CreateResponse.decode (reading (CreateResponse.encode refused begun) 1 more) ≡ (
      ok refused,
      reading
          (CreateResponse.encode refused begun)
          (length (CreateResponse.encode refused begun).buf)
          more,
    )
response-decode-encode_example = response-decode-encode refused begun more refused-IsResponse

abbrev subscribe : MonitorRequest
subscribe = record { server_channel_id = 3; request_id = 4; sub_command = init }

subscribe-IsRequest : IsRequest subscribe
subscribe-IsRequest = record {
  server_channel_id = omega arith;
  request_id = omega arith;
  sub_command = tt;
}

monitor_request-decode-encode_example :
    Request.decode (reading (Request.encode subscribe begun) 1 more) ≡ (
      ok subscribe,
      reading
          (Request.encode subscribe begun)
          (length (Request.encode subscribe begun).buf - length (behind subscribe.sub_command))
          more,
    )
monitor_request-decode-encode_example =
    monitor_request-decode-encode subscribe begun more subscribe-IsRequest
