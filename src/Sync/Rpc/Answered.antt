-- ===== src/Sync/Rpc/Answered.antt =====
-- A call between two synchronous RPC clients: its request, the handler's result, its reply.
use busrt.Wire.Split.{NoZero}
use busrt.Protocol.Error.{ok}
use busrt.Protocol.Codes.{message_kind, QoS}
use busrt.Protocol.Frame.{FrameData, payload}
use busrt.Rpc.Event.{
  RpcEventKind, notification, request, reply, error_reply, RpcEvent, event_id, event_method,
  event_payload, event_of,
}
use busrt.Rpc.Message.{header_of}
use busrt.Rpc.Error.{RpcResult}
use busrt.Rpc.Client.{respond, response_of}
use busrt.Rpc.Client.Calls.{
  at_front, event_of-call, IsCode, IsResult, IsAnswer, response-IsAnswer, response_of-target,
}
use busrt.Sync.Rpc.{
  Sending, RpcClient, zc_send, next_call_id, begin_call, sent_call, send_call, event, end_call,
  received, reply_to, reply_with, handle_request, deliver, by_event_kind, by_event, by_frame_kind,
  processor,
}
use busrt.Base.{
  get, del, get-put, ℕ, ◌+◌, ◌^◌, ◌≤◌, ◌<◌, ◌≡◌, refl, ap, ◌∙◌, ◌⊎◌, Option, none, some, ◌∷◌, ◌++◌,
  arith, lt→ltb, Bytes, length,
}

next_call_id-bounds : (n : ℕ) → n < 2 ^ 32 → (1 ≤ next_call_id n) × (next_call_id n < 2 ^ 32)
unfolding next_call_id
next_call_id-bounds n h = ground arith

by_event_kind-reply :
    (c : RpcClient) (ev : RpcEvent) (k : RpcEventKind) (id ch : ℕ)
    → (k ≡ reply) ⊎ (k ≡ error_reply)
    → event_id ev ≡ some id
    → get id c.calls ≡ some ch
    → by_event_kind c ev k
      ≡ some (record c { calls = del id c.calls; answered = (ch, ev) ∷ c.answered })
unfolding by_event_kind deliver
by_event_kind-reply c ev reply id ch k e g = rw (e, g) refl
by_event_kind-reply c ev error_reply id ch k e g = rw (e, g) refl
by_event_kind-reply c ev notification id ch k e g = absurd (ground arith)
by_event_kind-reply c ev request id ch k e g = absurd (ground arith)

-- The reply reaches the call that waits for it, which then ends.
processor-IsAnswer :
    (c : RpcClient) (id ch : ℕ) (result : RpcResult (Option Bytes)) (f : FrameData)
    → f.kind ≡ message_kind
    → get id c.calls ≡ some ch
    → IsAnswer result id f
    → (e : RpcEvent) × (o : RpcResult RpcEvent) × (d : RpcClient) × (processor c f ≡ some d)
      × (d.answered ≡ (ch, e) ∷ c.answered)
      × (end_call d id (event e) ≡ some (o, record d { holder = none }))
      × IsResult result e o
unfolding processor by_frame_kind by_event end_call received
processor-IsAnswer c id ch result f k g a = (
  a.event,
  a.outcome,
  record c { calls = del id c.calls; answered = (ch, a.event) ∷ c.answered },
  ap (by_frame_kind c f) k
      ∙ rw (a.seen) (by_event_kind-reply c a.event a.event.kind id ch a.is_reply a.has_id g),
  refl,
  rw (a.gives) refl,
  a.fits,
)

-- What the thread of a request hands to its bus client.
handle_request-sends :
    (k : RpcClient) (ev : RpcEvent) (id : ℕ) (result : RpcResult (Option Bytes)) (sender : Bytes)
    → k.holder ≡ none
    → event_id ev ≡ some id
    → 1 ≤ id
    → ev.frame.sender ≡ some sender
    → (s : Sending) × (handle_request k ev result ≡ some (some (zc_send s k)))
      × (s.target ≡ sender)
      × (s.header ≡ (response_of ev id result).header)
      × (s.payload ≡ (response_of ev id result).payload)
unfolding handle_request respond reply_with reply_to
handle_request-sends k ev id result sender h e l t =
    let r = response_of ev id result in
    (
      record { target = sender; header = r.header; payload = r.payload; qos = r.qos },
      rw (e, lt→ltb 0 id l, response_of-target ev id result, t, h) refl,
      refl,
      refl,
      refl,
    )

-- A call of a synchronous RPC client whose mutex is free and whose last call id is a u32, for a
-- method without a zero byte: it is sent, and waits. The callee, to which its header and its
-- parameters come at the front of a frame with a sender, sees a request with that method and those
-- parameters, and whatever its handler gives, its thread sends a reply to the sender if the callee's
-- mutex is free; when that comes back at the front of a message, the processor answers this call,
-- which ends with the handler's payload, or its error with its code and data, and frees the mutex.
pub send_call-answered :
    (c k : RpcClient) (target method params sender : Bytes) (qos : QoS) (g : FrameData)
    → c.holder ≡ none
    → k.holder ≡ none
    → c.call_id < 2 ^ 32
    → NoZero method
    → g.header ≡ none
    → g.sender ≡ some sender
    → payload g ≡ some ((begin_call c method).0.header ++ params)
    → let (b, begun) = begin_call c method in
      (d : RpcClient) × (send_call begun b target params qos (ok tt) ≡ some (none, d))
      × (ev : RpcEvent) × (event_of g ≡ some (ok ev))
      × (event_method ev ≡ some method)
      × (event_payload ev ≡ some params)
      × ((result : RpcResult (Option Bytes))
          → IsCode result
          → (s : Sending) × (handle_request k ev result ≡ some (some (zc_send s k)))
            × (s.target ≡ sender)
            × ((f : FrameData)
                → f.kind ≡ message_kind
                → f.header ≡ none
                → payload f ≡ some (s.header ++ s.payload)
                → (e : RpcEvent) × (o : RpcResult RpcEvent) × (x : RpcClient) × (processor d f
                    ≡ some x)
                  × (x.answered ≡ (b.channel, e) ∷ c.answered)
                  × (end_call x b.id (event e) ≡ some (o, record x { holder = none }))
                  × IsResult result e o))
unfolding begin_call send_call sent_call header_of
send_call-answered c k target method params sender qos g hc hk hi z n t p =
    let (b, begun) = begin_call c method in
    let i = next_call_id-bounds c.call_id hi in
    let x = event_of-call g b.id method params n p i.1 z in
    let ev = at_front request g (6 + length method) in
    let d =
      record (zc_send (record { target = target; header = b.header; payload = params; qos = qos })
        begun) { holder = some c.channels } in
    (
      d,
      rw hc refl,
      ev,
      x.0,
      x.2,
      x.3,
      λ result h.
          let (s, e, st, sh, sp) = handle_request-sends k ev b.id result sender hk x.1 i.0 t in
          (
            s,
            e,
            st,
            λ f fk fn fp.
                processor-IsAnswer d b.id c.channels result f fk (get-put b.id c.channels c.calls) (
                  response-IsAnswer ev b.id result f fn
                    (fp
                      ∙ ap some (
                          ap (λ a. a ++ s.payload) sh
                          ∙ ap (λ a. (response_of ev b.id result).header ++ a) sp))
                    i.1 h),
          ),
    )
