-- ===== src/Sync/Rpc/History.antt =====
-- A synchronous RPC client over time: its threads one after the other, each as far as its next use
-- of what they share.
use busrt.Rpc.Client.{called}
use mathlib.Core.Option.{some_inj}
use busrt.Protocol.Error.{Result, ok, err}
use busrt.Protocol.Codes.{FrameKind, message_kind, QoS}
use busrt.Protocol.Frame.{FrameData}
use busrt.Protocol.Waiting.{IsOnce, none-IsOnce, waits-IsOnce, answers-IsOnce, cancels-IsOnce}
use busrt.Rpc.Event.{
  RpcEventKind, notification, request, reply, error_reply, RpcEvent, event_id, event_of, and_then,
}
use busrt.Rpc.Error.{RpcError, RpcResult}
use busrt.Rpc.Client.{Response, respond, call_result}
use busrt.Rpc.Client.Once.{and_then-some}
use busrt.Sync.Rpc.{
  Sending, RpcClient, init, if_free, zc_send, called, notify, call0, next_call_id, Begun,
  begin_call, sent_call, send_call, Received, event, late, lost, received, end_call, reply_to,
  reply_with, handle_request, launch, deliver, spawn, by_event_kind, by_event, by_frame_kind,
  processor,
}
use busrt.Base.{
  get, ℕ, suc, ◌≡◌, refl, sym, ap, subst, ◌⊎◌, inl, inr, Option, none, some, arith, Bytes,
}

-- A client after steps of its threads, and how many calls have ended in them.
pub data Run (a : RpcClient) : RpcClient → ℕ → Type 0 where
  begins : Run a a 0
  begins_call :
      {c : RpcClient} {n : ℕ} (method : Bytes) → Run a c n → Run a (begin_call c method).1 n
  sends_call :
      {c d : RpcClient} {n : ℕ} (b : Begun) (target params : Bytes) (qos : QoS)
      (r : Result (Unit {0})) (o : Option RpcError)
      → send_call c b target params qos r ≡ some (o, d)
      → Run a c n
      → Run a d n
  ends_call :
      {c d : RpcClient} {n : ℕ} (id ch : ℕ) (r : Received) (o : RpcResult RpcEvent)
      → c.holder ≡ some ch
      → end_call c id r ≡ some (o, d)
      → Run a c n
      → Run a d (suc n)
  notifies :
      {c d : RpcClient} {n : ℕ} (target payload : Bytes) (qos : QoS)
      → notify c target payload qos ≡ some d
      → Run a c n
      → Run a d n
  calls0 :
      {c d : RpcClient} {n : ℕ} (target method params : Bytes) (qos : QoS)
      → call0 c target method params qos ≡ some d
      → Run a c n
      → Run a d n
  replies :
      {c d : RpcClient} {n : ℕ} (ev : RpcEvent) (result : RpcResult (Option Bytes))
      → handle_request c ev result ≡ some (some d)
      → Run a c n
      → Run a d n
  hears :
      {c d : RpcClient} {n : ℕ} (frame : FrameData)
      → processor c frame ≡ some d
      → Run a c n
      → Run a d n

-- What a client has of its calls, and who holds the mutex and what was sent
abbrev pub AnswersOnce : RpcClient → Type 0
AnswersOnce c = IsOnce c.calls c.channels c.answered

abbrev pub HasSent : RpcClient → RpcClient → Type 0
HasSent c d = (d.holder ≡ c.holder) × (d.sendings ≡ c.sendings)

-- What the processor does with one frame
abbrev pub Heard : RpcClient → RpcClient → Type 0
Heard c d = HasSent c d × (AnswersOnce c → AnswersOnce d)

some-Heard : (c d e : RpcClient) → some d ≡ some e → Heard c d → Heard c e
some-Heard c d e h = subst (Heard c) (some_inj.0 h)

deliver-Heard :
    (c : RpcClient) (id : ℕ) (ev : RpcEvent) (o : Option ℕ)
    → get id c.calls ≡ o
    → Heard c (deliver c id ev o)
unfolding deliver
deliver-Heard c id ev none e = ((refl, refl), λ h. h)
deliver-Heard c id ev (some ch) e =
    ((refl, refl), answers-IsOnce c.calls c.channels c.answered id ch ev e)

spawn-launch :
    (c d : RpcClient) (ev : RpcEvent) (id : ℕ) → spawn c ev id ≡ some d → d ≡ launch (called ev) c
unfolding spawn
spawn-launch c d ev id e = ground arith

spawn-Heard : (c d : RpcClient) (ev : RpcEvent) (id : ℕ) → spawn c ev id ≡ some d → Heard c d
unfolding spawn
spawn-Heard c d ev id e = subst (Heard c) (sym (spawn-launch c d ev id e)) ((refl, refl), λ h. h)

answer-Heard :
    (c d : RpcClient) (ev : RpcEvent)
    → and_then (event_id ev) (λ id. some (deliver c id ev (get id c.calls))) ≡ some d
    → Heard c d
answer-Heard c d ev e =
    let (id, _, f) = and_then-some (event_id ev) _ d e in
    some-Heard c _ d f (deliver-Heard c id ev (get id c.calls) refl)

by_event_kind-Heard :
    (c d : RpcClient) (ev : RpcEvent) (k : RpcEventKind) → by_event_kind c ev k ≡ some d → Heard c d
unfolding by_event_kind
by_event_kind-Heard c d ev notification e = some-Heard c _ d e ((refl, refl), λ h. h)
by_event_kind-Heard c d ev request e =
    let (id, _, f) = and_then-some (event_id ev) (spawn c ev) d e in spawn-Heard c d ev id f
by_event_kind-Heard c d ev reply e = answer-Heard c d ev e
by_event_kind-Heard c d ev error_reply e = answer-Heard c d ev e

by_event-Heard : (c d : RpcClient) (o : Result RpcEvent) → by_event c o ≡ some d → Heard c d
unfolding by_event
by_event-Heard c d (err x) e = some-Heard c c d e ((refl, refl), λ h. h)
by_event-Heard c d (ok ev) e = by_event_kind-Heard c d ev ev.kind e

by_frame_kind-Heard :
    (c d : RpcClient) (frame : FrameData) (k : FrameKind)
    → by_frame_kind c frame k ≡ some d
    → Heard c d
unfolding by_frame_kind
by_frame_kind-Heard c d frame message_kind e =
    let (o, _, f) = and_then-some (event_of frame) (by_event c) d e in by_event-Heard c d o f
by_frame_kind-Heard c d frame _ e = some-Heard c _ d e ((refl, refl), λ h. h)

pub processor-Heard : (c d : RpcClient) (frame : FrameData) → processor c frame ≡ some d → Heard c d
unfolding processor
processor-Heard c d frame e = by_frame_kind-Heard c d frame frame.kind e

pub if_free-some :
    {A : Type 0} (o : Option ℕ) (a x : A) → if_free o a ≡ some x → (o ≡ none) × (a ≡ x)
if_free-some none a x e = (refl, some_inj.0 e)
if_free-some (some ch) a x e = absurd (ground arith)

pub if_free-held : {A : Type 0} (o : Option ℕ) (ch : ℕ) (a : A) → o ≡ some ch → if_free o a ≡ none
if_free-held o ch a h = rw h refl

-- The use of a mutex that is taken is blocked, so a step that uses it found it free.
pub not_held :
    {A : Type 0} (c : RpcClient) (ch : ℕ) (a x : A)
    → c.holder ≡ some ch
    → if_free c.holder a ≡ some x
    → ⊥
not_held c ch a x h e = let f = (if_free-some c.holder a x e).0 in ground arith

sent_call-AnswersOnce :
    (b : Begun) (r : Result (Unit {0})) (c : RpcClient)
    → AnswersOnce c
    → AnswersOnce (sent_call b r c).1
unfolding sent_call
sent_call-AnswersOnce b (err e) c h = h
sent_call-AnswersOnce b (ok _) c h = h

received-AnswersOnce :
    (c d : RpcClient) (id : ℕ) (r : Received) (o : RpcResult RpcEvent)
    → received c id r ≡ some (o, d)
    → AnswersOnce c
    → AnswersOnce d
unfolding received
received-AnswersOnce c d id (event ev) o e h =
    let (x, _, f) = and_then-some (call_result ev) _ (o, d) e in
    subst AnswersOnce (ap (λ (p : RpcResult RpcEvent × RpcClient). p.1) (some_inj.0 f)) h
received-AnswersOnce c d id late o e h =
    subst AnswersOnce (ap (λ (p : RpcResult RpcEvent × RpcClient). p.1) (some_inj.0 e))
      (cancels-IsOnce c.calls c.channels c.answered id h)
received-AnswersOnce c d id (lost text) o e h =
    subst AnswersOnce (ap (λ (p : RpcResult RpcEvent × RpcClient). p.1) (some_inj.0 e))
      (cancels-IsOnce c.calls c.channels c.answered id h)

-- What the thread of a request does
reply_with-cases :
    (c d : RpcClient) (r : Option Response)
    → reply_with c r ≡ some (some d)
    → (d ≡ c) ⊎ ((s : Sending) × (if_free c.holder (zc_send s c) ≡ some d))
unfolding reply_with reply_to
reply_with-cases c d none e = inl (sym (some_inj.0 (some_inj.0 e)))
reply_with-cases c d (some r) e =
    let (t, _, f) = and_then-some r.target _ (some d) e in inr (_, some_inj.0 f)

pub handle_request-cases :
    (c d : RpcClient) (ev : RpcEvent) (result : RpcResult (Option Bytes))
    → handle_request c ev result ≡ some (some d)
    → (d ≡ c) ⊎ ((s : Sending) × (if_free c.holder (zc_send s c) ≡ some d))
unfolding handle_request
handle_request-cases c d ev result e =
    let (r, _, f) = and_then-some (respond ev result) (reply_with c) (some d) e in
    reply_with-cases c d r f

zc_send-AnswersOnce :
    (c d : RpcClient) (s : Sending)
    → if_free c.holder (zc_send s c) ≡ some d
    → AnswersOnce c
    → AnswersOnce d
zc_send-AnswersOnce c d s e h = subst AnswersOnce (if_free-some c.holder (zc_send s c) d e).1 h

-- In every history of a synchronous RPC client, with whatever frames its processor gets, however its
-- calls are sent and end, and with the threads of requests in between: no call is answered twice, a
-- call that still waits has got nothing, and no two calls wait on the same channel.
pub Run-IsOnce : {c : RpcClient} {n : ℕ} → Run init c n → AnswersOnce c
unfolding begin_call send_call end_call notify call0
Run-IsOnce begins = none-IsOnce
Run-IsOnce (begins_call {c = c} method r) =
    waits-IsOnce c.calls c.channels c.answered (next_call_id c.call_id) (Run-IsOnce r)
Run-IsOnce (sends_call {c = c} {d = d} b target params qos x o e r) =
    subst (λ (p : Option RpcError × RpcClient). AnswersOnce p.1)
      (if_free-some c.holder _ (o, d) e).1 (sent_call-AnswersOnce b x _ (Run-IsOnce r))
Run-IsOnce (ends_call {c = c} {d = d} id ch x o h e r) =
    received-AnswersOnce _ d id x o e (Run-IsOnce r)
Run-IsOnce (notifies {c = c} {d = d} target payload qos e r) =
    zc_send-AnswersOnce c d _ e (Run-IsOnce r)
Run-IsOnce (calls0 {c = c} {d = d} target method params qos e r) =
    zc_send-AnswersOnce c d _ e (Run-IsOnce r)
Run-IsOnce (replies {c = c} {d = d} ev result e r) = elim (handle_request-cases c d ev result e) [
  | inl h ↦ subst AnswersOnce (sym h) (Run-IsOnce r)
  | inr (s, f) ↦ zc_send-AnswersOnce c d s f (Run-IsOnce r)
]
Run-IsOnce (hears {c = c} {d = d} frame e r) = (processor-Heard c d frame e).1 (Run-IsOnce r)
