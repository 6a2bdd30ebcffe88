-- ===== src/Sync/Rpc/Held.antt =====
-- A call of a synchronous RPC client holds the bus client's mutex until it ends, also while it waits
-- for its answer.
use busrt.Protocol.Error.{Result, ok, err, Error}
use busrt.Protocol.Codes.{QoS}
use busrt.Rpc.Event.{RpcEvent}
use busrt.Rpc.Error.{RpcError, RpcResult, rpc_error_from}
use busrt.Rpc.Client.{Response, respond}
use busrt.Sync.Rpc.{
  RpcClient, zc_send, notify, call0, Begun, begin_call, sent_call, send_call, reply_to, reply_with,
  handle_request,
}
use busrt.Sync.Rpc.History.{
  Run, begins, begins_call, sends_call, ends_call, notifies, calls0, replies, hears, HasSent,
  if_free-some, if_free-held, not_held, handle_request-cases, processor-Heard,
}
use busrt.Base.{
  get, get-put, ℕ, ◌≡◌, refl, sym, ap, ◌∙◌, subst, inl, inr, Option, none, some, arith, Bytes,
}

-- While no call ends, the mutex stays with the call that has it, and nothing is sent.
Run-held : {c d : RpcClient} {n ch : ℕ} → c.holder ≡ some ch → Run c d n → n ≡ 0 → HasSent c d
unfolding begin_call send_call notify call0
Run-held h begins z = (refl, refl)
Run-held h (begins_call method r) z = Run-held h r z
Run-held {ch = ch} h (sends_call {c = c} b target params qos x o e r) z =
    absurd (not_held c ch _ _ ((Run-held h r z).0 ∙ h) e)
Run-held h (ends_call id k x o g e r) z = absurd (ground arith)
Run-held {ch = ch} h (notifies {c = c} target payload qos e r) z =
    absurd (not_held c ch _ _ ((Run-held h r z).0 ∙ h) e)
Run-held {ch = ch} h (calls0 {c = c} target method params qos e r) z =
    absurd (not_held c ch _ _ ((Run-held h r z).0 ∙ h) e)
Run-held {c = a} {ch = ch} h (replies {c = c} {d = d} ev result e r) z =
    elim (handle_request-cases c d ev result e) [
      | inl k ↦ subst (HasSent a) (sym k) (Run-held h r z)
      | inr (s, f) ↦ absurd (not_held c ch _ _ ((Run-held h r z).0 ∙ h) f)
    ]
Run-held h (hears {c = c} {d = d} frame e r) z =
    let s = Run-held h r z in let k = (processor-Heard c d frame e).0 in (k.0 ∙ s.0, k.1 ∙ s.1)

-- Every thread that has something to send is blocked.
pub record IsBlocked (c : RpcClient) : Type 0 where
  pub no_notification : (target payload : Bytes) (qos : QoS) → notify c target payload qos ≡ none
  pub no_call0 :
      (target method params : Bytes) (qos : QoS) → call0 c target method params qos ≡ none
  pub no_call :
      (b : Begun) (target params : Bytes) (qos : QoS) (r : Result (Unit {0}))
      → send_call c b target params qos r ≡ none
  pub no_reply :
      (ev : RpcEvent) (result : RpcResult (Option Bytes)) (r : Response) (target : Bytes)
      → respond ev result ≡ some (some r)
      → r.target ≡ some target
      → handle_request c ev result ≡ some none

held-IsBlocked : (c : RpcClient) (ch : ℕ) → c.holder ≡ some ch → IsBlocked c
unfolding notify call0 send_call handle_request reply_with reply_to
held-IsBlocked c ch h = record {
  no_notification = λ target payload qos. if_free-held c.holder ch _ h;
  no_call0 = λ target method params qos. if_free-held c.holder ch _ h;
  no_call = λ b target params qos r. if_free-held c.holder ch _ h;
  no_reply = λ ev result r target e t. rw (e, t) (ap some (if_free-held c.holder ch _ h));
}

send_call-holder :
    (c d : RpcClient) (b : Begun) (target params : Bytes) (qos : QoS)
    → send_call c b target params qos (ok tt) ≡ some (none, d)
    → d.holder ≡ some b.channel
unfolding send_call sent_call
send_call-holder c d b target params qos e =
    let f = (if_free-some c.holder _ (none, d) e).1 in
    sym (ap (λ (p : Option RpcError × RpcClient). p.1.holder) f)

-- From when a call of a synchronous RPC client was sent, and for as long as neither it nor another
-- call ends, whatever frames the processor gets and whatever the other threads do: nothing goes out,
-- and every thread with something to send is blocked: notifications, calls, and the replies that the
-- threads of requests have ready.
pub call-IsBlocked :
    (c : RpcClient) {d e : RpcClient} (b : Begun) (target params : Bytes) (qos : QoS)
    → send_call c b target params qos (ok tt) ≡ some (none, d)
    → Run d e 0
    → (e.sendings ≡ d.sendings) × IsBlocked e
call-IsBlocked c {d = d} {e = e} b target params qos s r =
    let h = send_call-holder c d b target params qos s in
    let k = Run-held h r refl in (k.1, held-IsBlocked e b.channel (k.0 ∙ h))

-- A call that cannot be sent, of a client whose mutex is free, ends with the error; the mutex is
-- free again, but the call stays in the map of calls, on a channel that nobody listens to.
pub call-refused :
    (c : RpcClient) (method target params : Bytes) (qos : QoS) (x : Error)
    → c.holder ≡ none
    → let (b, d) = begin_call c method in
      (f : RpcClient) × (send_call d b target params qos (err x)
        ≡ some (some (rpc_error_from x), f))
      × (f.holder ≡ none)
      × (get b.id f.calls ≡ some b.channel)
unfolding begin_call send_call sent_call
call-refused c method target params qos x h =
    let (b, d) = begin_call c method in
    (
      zc_send (record { target = target; header = b.header; payload = params; qos = qos }) d,
      rw h refl,
      h,
      get-put b.id c.channels c.calls,
    )
