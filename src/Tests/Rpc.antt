-- ===== src/Tests/Rpc.antt =====
-- src/rpc/mod.rs at concrete inputs.
use busrt.Rpc.Event.{event_id}
use busrt.Wire.LittleEndian.{from_le}
use busrt.Protocol.Error.{ok}
use busrt.Protocol.Codes.{message_kind}
use busrt.Protocol.Frame.{FrameData, payload}
use busrt.Rpc.Event.{
  RpcEvent, reply, event_of, event_method, event_payload, IsReadable, event_of-IsReadable,
}
use busrt.Rpc.Client.{
  Options, RpcClient, init, begin_call, processor, call_result, Response, respond,
}
use busrt.Rpc.Client.Once.{Run, begins, calls, hears, AnswersOnce, Run-AnswersOnce}
use busrt.Rpc.Client.Calls.{IsCode, IsResult, call-answered}
use busrt.Rpc.Error.{RpcResult}
use busrt.Rpc.Message.{RpcMessage, call, header_of, seen, sent, seen-sent}
use busrt.Base.{get, del, ◌≡◌, refl, false, Option, none, some, [], ◌∷◌, ◌++◌, arith, Bytes, codes}

abbrev frame_with : Option Bytes → Bytes → FrameData
frame_with header buf = record {
  kind = message_kind;
  sender = some (codes "me");
  topic = none;
  header = header;
  buf = buf;
  payload_pos = 0;
  is_realtime = false;
}

abbrev ask : RpcMessage
ask = call 258 (codes "info")

seen-sent_example :
    (seen (frame_with (some (header_of ask)) (9 ∷ [])) ≡ sent ask (9 ∷ []))
    × (seen (frame_with none (header_of ask ++ 9 ∷ [])) ≡ sent ask (9 ∷ []))
unfolding payload header_of
seen-sent_example =
    seen-sent ask (9 ∷ []) (frame_with (some (header_of ask)) (9 ∷ []))
      (frame_with none (header_of ask ++ 9 ∷ []))
      (omega arith, ((λ e. cc), ((λ e. cc), ((λ e. cc), ((λ e. cc), tt))))) refl refl refl refl

abbrev reply_bytes : Bytes
reply_bytes = 0x11 ∷ 1 ∷ 0 ∷ 0 ∷ 0 ∷ 42 ∷ []

abbrev reply_event : RpcEvent
reply_event = record {
  kind = reply;
  frame = frame_with none reply_bytes;
  payload_pos = 5;
  use_header = false;
}

payload-reply : payload (frame_with none reply_bytes) ≡ some reply_bytes
unfolding payload
payload-reply = refl

event_of-reply : event_of (frame_with none reply_bytes) ≡ some (ok reply_event)
unfolding event_of payload
event_of-reply = refl

event_of-IsReadable_example : IsReadable reply_event
event_of-IsReadable_example =
    event_of-IsReadable (frame_with none reply_bytes) reply_bytes reply_event payload-reply
      event_of-reply

abbrev no_blocking : Options
no_blocking = record { blocking_notifications = false; blocking_frames = false }

abbrev asking : RpcClient
asking = (begin_call init (codes "info")).2

abbrev answered : RpcClient
answered = record asking { calls = []; answered = (0, reply_event) ∷ [] }

asked-Run : Run answered
unfolding processor event_of payload event_id begin_call get from_le
asked-Run = hears no_blocking (frame_with none reply_bytes) refl (calls (codes "info") begins)

Run-AnswersOnce_example : AnswersOnce answered
Run-AnswersOnce_example = Run-AnswersOnce asked-Run

abbrev request_frame : FrameData
request_frame = frame_with none (1 ∷ 2 ∷ 0 ∷ 0 ∷ 0 ∷ b'i' ∷ 0 ∷ 9 ∷ [])

call-answered_example :
    let d = (begin_call asking (codes "i")).2 in
    (ev : RpcEvent) × (event_of request_frame ≡ some (ok ev))
    × (event_method ev ≡ some (codes "i"))
    × (event_payload ev ≡ some (9 ∷ []))
    × ((result : RpcResult (Option Bytes))
        → IsCode result
        → (r : Response) × (respond ev result ≡ some (some r))
          × (r.target ≡ request_frame.sender)
          × ((f : FrameData)
              → f.kind ≡ message_kind
              → f.header ≡ none
              → payload f ≡ some (r.header ++ r.payload)
              → (e : RpcEvent) × (o : RpcResult RpcEvent) × (processor no_blocking d f
                  ≡ some (record d {
                    calls = del d.call_id d.calls;
                    answered = (asking.channels, e) ∷ asking.answered;
                  }))
                × (call_result e ≡ some o)
                × IsResult result e o))
unfolding payload begin_call
call-answered_example =
    call-answered no_blocking asking (codes "i") (9 ∷ []) request_frame (omega arith)
      ((λ e. cc), tt) refl refl
