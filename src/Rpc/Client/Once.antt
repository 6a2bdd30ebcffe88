-- ===== src/Rpc/Client/Once.antt =====
-- The calls of an RPC client over time: each gets at most one answer.
use mathlib.Core.Option.{some_inj}
use busrt.Protocol.Error.{Result, ok, err}
use busrt.Protocol.Codes.{FrameKind, message_kind}
use busrt.Protocol.Frame.{FrameData}
use busrt.Protocol.Waiting.{IsOnce, none-IsOnce, waits-IsOnce, answers-IsOnce, cancels-IsOnce}
use busrt.Rpc.Event.{
  RpcEventKind, notification, request, reply, error_reply, RpcEvent, event_id, event_of, and_then,
}
use busrt.Rpc.Client.{
  Options, RpcClient, init, next_call_id, begin_call, sent_call, cancel_call, deliver, spawn_call,
  launch, called, by_event_kind, by_event, by_frame_kind, processor,
}
use busrt.Base.{get, ℕ, ◌≡◌, refl, sym, subst, false, Option, none, some, arith, Bytes}

abbrev pub AnswersOnce : RpcClient → Type 0
AnswersOnce c = IsOnce c.calls c.channels c.answered

-- The client after some calls, answers to their sending, abandoned or not, and incoming frames.
pub data Run : RpcClient → Type 0 where
  begins : Run init
  calls : {c : RpcClient} (method : Bytes) → Run c → Run (begin_call c method).2
  sends : {c : RpcClient} (id : ℕ) (r : Result (Unit {0})) → Run c → Run (sent_call c id r).1
  hears :
      {c d : RpcClient} (opts : Options) (frame : FrameData)
      → processor opts c frame ≡ some d
      → Run c
      → Run d

pub and_then-some :
    {A B : Type 0} (o : Option A) (f : A → Option B) (b : B)
    → and_then o f ≡ some b
    → (a : A) × (o ≡ some a) × (f a ≡ some b)
and_then-some none f b e = absurd (ground arith)
and_then-some (some a) f b e = (a, refl, e)

deliver-AnswersOnce :
    (c : RpcClient) (id : ℕ) (ev : RpcEvent) (o : Option ℕ)
    → get id c.calls ≡ o
    → AnswersOnce c
    → AnswersOnce (deliver c id ev o)
unfolding deliver
deliver-AnswersOnce c id ev none e h = h
deliver-AnswersOnce c id ev (some ch) e h =
    answers-IsOnce c.calls c.channels c.answered id ch ev e h

delivered-AnswersOnce :
    (c d : RpcClient) (ev : RpcEvent)
    → and_then (event_id ev) (λ id. some (deliver c id ev (get id c.calls))) ≡ some d
    → AnswersOnce c
    → AnswersOnce d
delivered-AnswersOnce c d ev e h =
    let (id, _, f) = and_then-some (event_id ev) _ d e in
    subst AnswersOnce (some_inj.0 f) (deliver-AnswersOnce c id ev (get id c.calls) refl h)

spawn_call-launch :
    (c d : RpcClient) (ev : RpcEvent) (id : ℕ)
    → spawn_call c ev id ≡ some d
    → d ≡ launch (called false ev) c
unfolding spawn_call
spawn_call-launch c d ev id e = ground arith

spawn_call-AnswersOnce :
    (c d : RpcClient) (ev : RpcEvent) (id : ℕ)
    → spawn_call c ev id ≡ some d
    → AnswersOnce c
    → AnswersOnce d
spawn_call-AnswersOnce c d ev id e h = subst AnswersOnce (sym (spawn_call-launch c d ev id e)) h

by_event_kind-AnswersOnce :
    (opts : Options) (c d : RpcClient) (ev : RpcEvent) (k : RpcEventKind)
    → by_event_kind opts c ev k ≡ some d
    → AnswersOnce c
    → AnswersOnce d
unfolding by_event_kind
by_event_kind-AnswersOnce opts c d ev notification e h = subst AnswersOnce (some_inj.0 e) h
by_event_kind-AnswersOnce opts c d ev request e h =
    let (id, _, f) = and_then-some (event_id ev) (spawn_call c ev) d e in
    spawn_call-AnswersOnce c d ev id f h
by_event_kind-AnswersOnce opts c d ev reply e h = delivered-AnswersOnce c d ev e h
by_event_kind-AnswersOnce opts c d ev error_reply e h = delivered-AnswersOnce c d ev e h

by_event-AnswersOnce :
    (opts : Options) (c d : RpcClient) (o : Result RpcEvent)
    → by_event opts c o ≡ some d
    → AnswersOnce c
    → AnswersOnce d
unfolding by_event
by_event-AnswersOnce opts c d (err x) e h = subst AnswersOnce (some_inj.0 e) h
by_event-AnswersOnce opts c d (ok ev) e h = by_event_kind-AnswersOnce opts c d ev ev.kind e h

by_frame_kind-AnswersOnce :
    (opts : Options) (c d : RpcClient) (frame : FrameData) (k : FrameKind)
    → by_frame_kind opts c frame k ≡ some d
    → AnswersOnce c
    → AnswersOnce d
unfolding by_frame_kind
by_frame_kind-AnswersOnce opts c d frame message_kind e h =
    let (o, _, f) = and_then-some (event_of frame) (by_event opts c) d e in
    by_event-AnswersOnce opts c d o f h
by_frame_kind-AnswersOnce opts c d frame _ e h = subst AnswersOnce (some_inj.0 e) h

sent_call-AnswersOnce :
    (c : RpcClient) (id : ℕ) (r : Result (Unit {0}))
    → AnswersOnce c
    → AnswersOnce (sent_call c id r).1
unfolding sent_call cancel_call
sent_call-AnswersOnce c id (ok _) h = h
sent_call-AnswersOnce c id (err e) h = cancels-IsOnce c.calls c.channels c.answered id h

-- In every history of an RPC client, with whatever frames come in and however its calls are sent: no
-- call is answered twice, a call that still waits has got nothing, and no two calls wait on the same
-- channel, also where the call ids start over.
pub Run-AnswersOnce : {c : RpcClient} → Run c → AnswersOnce c
unfolding begin_call processor
Run-AnswersOnce begins = none-IsOnce
Run-AnswersOnce (calls {c = c} method r) =
    waits-IsOnce c.calls c.channels c.answered (next_call_id c.call_id) (Run-AnswersOnce r)
Run-AnswersOnce (sends {c = c} id x r) = sent_call-AnswersOnce c id x (Run-AnswersOnce r)
Run-AnswersOnce (hears {c = c} {d = d} opts frame e r) =
    by_frame_kind-AnswersOnce opts c d frame frame.kind e (Run-AnswersOnce r)
