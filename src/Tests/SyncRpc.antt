-- ===== src/Tests/SyncRpc.antt =====
-- The synchronous RPC client at concrete inputs: a call that is answered, and one that waits while a
-- request comes in.
use busrt.Protocol.Error.{ok}
use busrt.Protocol.Codes.{message_kind, processed}
use busrt.Protocol.Frame.{FrameData, payload}
use busrt.Wire.LittleEndian.{from_le}
use busrt.Rpc.Event.{RpcEvent, request, event_of, event_id, event_method, event_payload}
use busrt.Rpc.Error.{RpcResult}
use busrt.Rpc.Client.Calls.{IsCode, IsResult}
use busrt.Sync.Rpc.{
  Sending, called, RpcClient, init, zc_send, begin_call, send_call, event, end_call, launch,
  handle_request, processor,
}
use busrt.Sync.Rpc.History.{begins, hears}
use busrt.Sync.Rpc.Held.{IsBlocked, call-IsBlocked}
use busrt.Sync.Rpc.Answered.{send_call-answered}
use busrt.Base.{◌≡◌, refl, false, Option, none, some, [], ◌∷◌, ◌++◌, arith, Bytes, codes}

abbrev frame_with : Bytes → FrameData
frame_with buf = record {
  kind = message_kind;
  sender = some (codes "me");
  topic = none;
  header = none;
  buf = buf;
  payload_pos = 0;
  is_realtime = false;
}

abbrev request_frame : FrameData
request_frame = frame_with (1 ∷ 1 ∷ 0 ∷ 0 ∷ 0 ∷ b'i' ∷ 0 ∷ 9 ∷ [])

abbrev asking : RpcClient
asking = (begin_call init (codes "i")).1

abbrev waits : RpcClient
waits =
    record (zc_send
      (record {
        target = codes "you";
        header = (begin_call init (codes "i")).0.header;
        payload = 9 ∷ [];
        qos = processed;
      })
      asking) { holder = some 0 }

waits-sent :
    send_call asking (begin_call init (codes "i")).0 (codes "you") (9 ∷ []) processed (ok tt)
    ≡ some (none, waits)
unfolding send_call begin_call
waits-sent = refl

abbrev asked : RpcClient
asked =
    launch
      (called
        (record { kind = request; frame = request_frame; payload_pos = 7; use_header = false }))
      waits

asked-heard : processor waits request_frame ≡ some asked
unfolding processor payload event_of event_id from_le
asked-heard = refl

call-IsBlocked_example : (asked.sendings ≡ waits.sendings) × IsBlocked asked
call-IsBlocked_example =
    call-IsBlocked asking (begin_call init (codes "i")).0 (codes "you") (9 ∷ []) processed
      waits-sent (hears request_frame asked-heard begins)

send_call-answered_example :
    let (b, begun) = begin_call init (codes "i") in
    (d : RpcClient) × (send_call begun b (codes "you") (9 ∷ []) processed (ok tt) ≡ some (none, d))
    × (ev : RpcEvent) × (event_of request_frame ≡ some (ok ev))
    × (event_method ev ≡ some (codes "i"))
    × (event_payload ev ≡ some (9 ∷ []))
    × ((result : RpcResult (Option Bytes))
        → IsCode result
        → (s : Sending) × (handle_request init ev result ≡ some (some (zc_send s init)))
          × (s.target ≡ codes "me")
          × ((f : FrameData)
              → f.kind ≡ message_kind
              → f.header ≡ none
              → payload f ≡ some (s.header ++ s.payload)
              → (e : RpcEvent) × (o : RpcResult RpcEvent) × (x : RpcClient) × (processor d f
                  ≡ some x)
                × (x.answered ≡ (b.channel, e) ∷ [])
                × (end_call x b.id (event e) ≡ some (o, record x { holder = none }))
                × IsResult result e o))
unfolding payload begin_call
send_call-answered_example =
    send_call-answered init init (codes "you") (codes "i") (9 ∷ []) (codes "me") processed
      request_frame refl refl (omega arith) ((λ e. cc), tt) refl refl refl
