-- ===== src/Rpc/Client/Calls.antt =====
-- A call between two RPC clients over sockets: its request, the handler's result, its reply.
use busrt.Wire.LittleEndian.{from_le-to_le_u16, from_le-to_le_u32}
use busrt.Wire.Split.{NoZero, break_zero-append}
use busrt.Protocol.Error.{ok}
use busrt.Protocol.Codes.{message_kind, QoS}
use busrt.Protocol.Frame.{FrameData, payload}
use busrt.Rpc.Event.{
  RpcEventKind, notification, request, reply, error_reply, RpcEvent, event_id, event_method,
  event_payload, event_code, event_of, rpc_request,
}
use busrt.Rpc.Message.{call, answer, fail, header_of, slice_method, slice_params}
use busrt.Rpc.Error.{RpcResult, succeeded, errored, rpc_error_of}
use busrt.Rpc.Client.{
  Options, RpcClient, next_call_id, begin_call, deliver, by_event_kind, by_event, by_frame_kind,
  processor, call_result, Response, respond, response_of, or_empty, call0,
}
use busrt.Base.{
  get, del, get-put, ℕ, ◌+◌, ◌/◌, ◌%◌, ◌^◌, ◌≤◌, ◌<◌, ◌≡◌, refl, ap, ◌∙◌, ◌⊎◌, inl, inr, false,
  Option, none, some, [], ◌∷◌, ◌++◌, append_assoc, arith, lt→ltb, Bytes, length, length-append,
}

abbrev pub at_front : RpcEventKind → FrameData → ℕ → RpcEvent
at_front k f pos = record { kind = k; frame = f; payload_pos = pos; use_header = false }

event_of-answer :
    (f : FrameData) (id : ℕ) (p : Bytes)
    → f.header ≡ none
    → payload f ≡ some (header_of (answer id) ++ p)
    → id < 2 ^ 32
    → (event_of f ≡ some (ok (at_front reply f 5)))
      × (event_id (at_front reply f 5) ≡ some id)
      × (event_payload (at_front reply f 5) ≡ some p)
unfolding event_of header_of event_id event_payload
event_of-answer f id p e ep h = ground (arith, from_le-to_le_u32 id h)

event_of-fail :
    (f : FrameData) (id code : ℕ) (p : Bytes)
    → f.header ≡ none
    → payload f ≡ some (header_of (fail id code) ++ p)
    → id < 2 ^ 32
    → code < 2 ^ 16
    → (event_of f ≡ some (ok (at_front error_reply f 7)))
      × (event_id (at_front error_reply f 7) ≡ some id)
      × (event_code (at_front error_reply f 7) ≡ some code)
      × (event_payload (at_front error_reply f 7) ≡ some p)
unfolding event_of header_of event_id event_payload event_code
event_of-fail f id code p e ep h hc =
    ground (arith, from_le-to_le_u32 id h, from_le-to_le_u16 code hc)

pub event_of-call :
    (f : FrameData) (id : ℕ) (m p : Bytes)
    → f.header ≡ none
    → payload f ≡ some (header_of (call id m) ++ p)
    → id < 2 ^ 32
    → NoZero m
    → let ev = at_front request f (6 + length m) in
      (event_of f ≡ some (ok ev))
      × (event_id ev ≡ some id)
      × (event_method ev ≡ some m)
      × (event_payload ev ≡ some p)
unfolding event_of header_of event_id event_payload event_method
event_of-call f id m p e ep h z = ground (
  arith,
  append_assoc m (0 ∷ []) p,
  length-append m (0 ∷ p),
  break_zero-append m p z,
  slice_method m p (5 + length m) refl rpc_request (id % 256) (id / 256 % 256)
      (id / 256 / 256 % 256) (id / 256 / 256 / 256 % 256),
  slice_params m p (6 + length m) refl rpc_request (id % 256) (id / 256 % 256)
      (id / 256 / 256 % 256) (id / 256 / 256 / 256 % 256),
  from_le-to_le_u32 id h,
)

-- What the caller is to get for what the handler gives.
unfoldable pub IsResult : RpcResult (Option Bytes) → RpcEvent → RpcResult RpcEvent → Type 0
IsResult (succeeded v) ev (succeeded e) = (e ≡ ev) × (event_payload ev ≡ some (or_empty v))
IsResult (errored x) ev (errored y) = (y.code ≡ x.code) × (y.«data» ≡ some (or_empty x.«data»))
IsResult _ ev _ = ⊥

abbrev pub IsCode : RpcResult (Option Bytes) → Type 0
IsCode (succeeded v) = Unit {0}
IsCode (errored x) = x.code < 2 ^ 16

-- What the caller's client makes of the reply that the callee's task sends for the call with this id.
pub record IsAnswer (result : RpcResult (Option Bytes)) (id : ℕ) (f : FrameData) : Type 0 where
  pub event : RpcEvent
  pub outcome : RpcResult RpcEvent
  pub seen : event_of f ≡ some (ok event)
  pub is_reply : (event.kind ≡ reply) ⊎ (event.kind ≡ error_reply)
  pub has_id : event_id event ≡ some id
  pub gives : call_result event ≡ some outcome
  pub fits : IsResult result event outcome

pub response-IsAnswer :
    (ev : RpcEvent) (id : ℕ) (result : RpcResult (Option Bytes)) (f : FrameData)
    → f.header ≡ none
    → payload f ≡ some ((response_of ev id result).header ++ (response_of ev id result).payload)
    → id < 2 ^ 32
    → IsCode result
    → IsAnswer result id f
unfolding call_result rpc_error_of response_of IsResult
response-IsAnswer ev id (succeeded v) f n p h hc =
    let x = event_of-answer f id (or_empty v) n p h in
    record {
      event = at_front reply f 5;
      outcome = succeeded (at_front reply f 5);
      seen = x.0;
      is_reply = inl refl;
      has_id = x.1;
      gives = refl;
      fits = (refl, x.2);
    }
response-IsAnswer ev id (errored r) f n p h hc =
    let x = event_of-fail f id r.code (or_empty r.«data») n p h hc in
    record {
      event = at_front error_reply f 7;
      outcome = errored (record { code = r.code; «data» = some (or_empty r.«data») });
      seen = x.0;
      is_reply = inr refl;
      has_id = x.1;
      gives = rw (x.2, x.3) refl;
      fits = (refl, refl);
    }

by_event_kind-reply :
    (opts : Options) (c : RpcClient) (ev : RpcEvent) (k : RpcEventKind) (id ch : ℕ)
    → (k ≡ reply) ⊎ (k ≡ error_reply)
    → event_id ev ≡ some id
    → get id c.calls ≡ some ch
    → by_event_kind opts c ev k
      ≡ some (record c { calls = del id c.calls; answered = (ch, ev) ∷ c.answered })
unfolding by_event_kind deliver
by_event_kind-reply opts c ev reply id ch k e g = rw (e, g) refl
by_event_kind-reply opts c ev error_reply id ch k e g = rw (e, g) refl
by_event_kind-reply opts c ev notification id ch k e g = absurd (ground arith)
by_event_kind-reply opts c ev request id ch k e g = absurd (ground arith)

-- The reply that the callee's task sends for the call with this id.
processor-response :
    (opts : Options) (c : RpcClient) (ev : RpcEvent) (id ch : ℕ) (result : RpcResult (Option Bytes))
    (f : FrameData)
    → f.kind ≡ message_kind
    → f.header ≡ none
    → payload f ≡ some ((response_of ev id result).header ++ (response_of ev id result).payload)
    → id < 2 ^ 32
    → IsCode result
    → get id c.calls ≡ some ch
    → (e : RpcEvent) × (o : RpcResult RpcEvent) × (processor opts c f
        ≡ some (record c { calls = del id c.calls; answered = (ch, e) ∷ c.answered }))
      × (call_result e ≡ some o)
      × IsResult result e o
unfolding processor by_frame_kind by_event
processor-response opts c ev id ch result f k n p h hc g =
    let a = response-IsAnswer ev id result f n p h hc in
    (
      a.event,
      a.outcome,
      ap (by_frame_kind opts c f) k
          ∙ rw (a.seen)
              (by_event_kind-reply opts c a.event a.event.kind id ch a.is_reply a.has_id g),
      a.gives,
      a.fits,
    )

pub response_of-target :
    (ev : RpcEvent) (id : ℕ) (result : RpcResult (Option Bytes))
    → (response_of ev id result).target ≡ ev.frame.sender
unfolding response_of
response_of-target ev id (succeeded v) = refl
response_of-target ev id (errored e) = refl

next_call_id-bounds : (n : ℕ) → n < 2 ^ 32 → (1 ≤ next_call_id n) × (next_call_id n < 2 ^ 32)
unfolding next_call_id
next_call_id-bounds n h = ground arith

-- A call of an RPC client whose last call id is a u32, for a method without a zero byte: the
-- callee, to which its header and its parameters come at the front of a frame, sees a request with
-- that method and those parameters, and whatever its handler gives, it sends a reply to the frame's
-- sender; when that comes back at the front of a message, the caller gets it on this call's channel
-- and on no other: the handler's payload, or its error with its code and its data.
pub call-answered :
    (opts : Options) (c : RpcClient) (method params : Bytes) (g : FrameData)
    → c.call_id < 2 ^ 32
    → NoZero method
    → g.header ≡ none
    → payload g ≡ some ((begin_call c method).1 ++ params)
    → let d = (begin_call c method).2 in
      (ev : RpcEvent) × (event_of g ≡ some (ok ev))
      × (event_method ev ≡ some method)
      × (event_payload ev ≡ some params)
      × ((result : RpcResult (Option Bytes))
          → IsCode result
          → (r : Response) × (respond ev result ≡ some (some r))
            × (r.target ≡ g.sender)
            × ((f : FrameData)
                → f.kind ≡ message_kind
                → f.header ≡ none
                → payload f ≡ some (r.header ++ r.payload)
                → (e : RpcEvent) × (o : RpcResult RpcEvent) × (processor opts d f
                    ≡ some (record d {
                      calls = del d.call_id d.calls;
                      answered = (c.channels, e) ∷ c.answered;
                    }))
                  × (call_result e ≡ some o)
                  × IsResult result e o))
unfolding begin_call respond
call-answered opts c method params g hc z n p =
    let id = next_call_id c.call_id in
    let b = next_call_id-bounds c.call_id hc in
    let d = (begin_call c method).2 in
    let x = event_of-call g id method params n p b.1 z in
    let ev = at_front request g (6 + length method) in
    (
      ev,
      x.0,
      x.2,
      x.3,
      λ result k. (
        response_of ev id result,
        rw (x.1, lt→ltb 0 id b.0) refl,
        response_of-target ev id result,
        λ f fk fn fp.
            processor-response opts d ev id c.channels result f fk fn fp b.1 k
              (get-put id c.channels c.calls),
      ),
    )

-- A call without an answer, for a method without a zero byte: the callee, to which its header and its
-- parameters come at the front of a frame, sees a request with that method and those parameters, and
-- sends nothing back, whatever its handler gives.
pub call0-unanswered :
    (target method params : Bytes) (qos : QoS) (g : FrameData) (result : RpcResult (Option Bytes))
    → NoZero method
    → g.header ≡ none
    → payload g ≡ some ((call0 target method params qos).header ++ params)
    → (ev : RpcEvent) × (event_of g ≡ some (ok ev))
      × (event_method ev ≡ some method)
      × (event_payload ev ≡ some params)
      × (respond ev result ≡ some none)
unfolding call0 respond
call0-unanswered target method params qos g result z n p =
    let x = event_of-call g 0 method params n p (omega arith) z in
    (at_front request g (6 + length method), x.0, x.2, x.3, rw (x.1) refl)
