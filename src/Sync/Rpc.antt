-- ===== src/Sync/Rpc.antt =====
-- src/sync/rpc.rs: `RpcClient`, its calls, and its `Processor`. The bus client under it is shared by
-- the threads under a mutex: what its `zc_send` comes to is given, and a thread that finds the mutex
-- taken is blocked.
pub mod History
pub mod Held
pub mod Answered
use busrt.Wire.LittleEndian.{to_le}
use busrt.Protocol.Error.{Result, ok, err, Error, timeout, error_bare, io, error_of, str}
use busrt.Protocol.Codes.{FrameKind, message_kind, QoS}
use busrt.Protocol.Frame.{FrameData}
use busrt.Rpc.Event.{
  RpcEventKind, notification, request, reply, error_reply, RpcEvent, event_id, event_of, and_then,
  rpc_notification, prepare_call_payload,
}
use busrt.Rpc.Error.{
  method, RpcError, RpcResult, succeeded, errored, rpc_error_from, rpc_error_code_method_not_found,
}
use busrt.Rpc.Client.{Response, respond, call_result}
use busrt.Base.{
  Table, get, put, del, get-del, get-del_other, get-put, get-put_other, byte_at, ℕ, zero, suc, ◌+◌,
  ◌-◌, ◌*◌, ◌/◌, ◌%◌, ◌^◌, ◌≤◌, ◌<◌, bit_and, bit_or, String, ◌≡◌, refl, sym, ap, ◌∙◌, subst, ◌≢◌,
  ◌↔◌, ◌⊎◌, inl, inr, Bool, true, false, not, ◌&&◌, ◌||◌, Option, none, some, List, [], ◌∷◌, ◌++◌,
  map, append-nil, append_assoc, arith, ltb, leb, ◌==◌, if◌then◌else◌, ltb→lt, lt→ltb, leb→le,
  le→leb, lt→leb, le→ltb, ==_iff, Bool-cases, Option-cases, Bytes, codes, bytes_eq, bytes_eq_iff,
  length, take, drop, is_empty, length-append, length-drop, take-append, drop-append,
  take-append-drop, slice_from, slice,
}

-- What a thread asks of the bus client: `zc_send`.
pub record Sending : Type 0 where
  pub target : Bytes
  pub header : Bytes
  pub payload : Bytes
  pub qos : QoS

-- A call of one of the client's handlers, in the processor's thread or, for `called`, in one of its
-- own.
pub data Job : Type 0 where
  notified called : RpcEvent → Job
  framed : FrameData → Job

-- The channels of calls are numbered in the order in which they are made. `answered` holds what was
-- sent on them, `jobs` the handlers' calls and `sendings` what the bus client was asked to send, the
-- last one first. `holder` is the call that holds the bus client's mutex while it waits for its
-- answer; every other use of the mutex is over at once.
pub record RpcClient : Type 0 where
  pub call_id : ℕ
  pub calls : Table ℕ
  pub channels : ℕ
  pub answered : Table RpcEvent
  pub jobs : List Job
  pub holder : Option ℕ
  pub sendings : List Sending

-- `RpcClient::init`
abbrev pub init : RpcClient
init = record {
  call_id = 0;
  calls = [];
  channels = 0;
  answered = [];
  jobs = [];
  holder = none;
  sendings = [];
}

abbrev pub if_free {ℓ} : {A : Type ℓ} → Option ℕ → A → Option A
if_free none a = some a
if_free (some ch) a = none

-- `client.lock()`; `none` is a thread that is blocked.
abbrev pub lock {ℓ} : {A : Type ℓ} → RpcClient → (RpcClient → A) → Option A
lock c next = if_free c.holder (next c)

-- `zc_send`, under the mutex
abbrev pub zc_send : Sending → RpcClient → RpcClient
zc_send s c = record c { sendings = s ∷ c.sendings }

module _ (c : RpcClient) where
  unfoldable pub notify : Bytes → Bytes → QoS → Option RpcClient
  notify target payload qos = lock c (
      zc_send
        (record { target = target; header = rpc_notification ∷ []; payload = payload; qos = qos }))

  unfoldable pub call0 : Bytes → Bytes → Bytes → QoS → Option RpcClient
  unfolding prepare_call_payload to_le
  call0 target method params qos = lock c (
      zc_send (record {
        target = target;
        header = prepare_call_payload method (to_le 4 0);
        payload = params;
        qos = qos;
      }))

-- The id of the next call
unfoldable pub next_call_id : ℕ → ℕ
next_call_id call_id = if call_id == 2 ^ 32 - 1 then 1 else call_id + 1

-- A call up to the lock of the bus client: its id, its channel and its header.
pub record Begun : Type 0 where
  pub id : ℕ
  pub channel : ℕ
  pub header : Bytes

unfoldable pub begin_call : RpcClient → Bytes → Begun × RpcClient
unfolding next_call_id prepare_call_payload to_le put
begin_call c method =
    let id = next_call_id c.call_id in
    (
      record { id = id; channel = c.channels; header = prepare_call_payload method (to_le 4 id) },
      record c { call_id = id; calls = put id c.channels c.calls; channels = c.channels + 1 },
    )

-- The call once the bus client has tried to send it: it ends with the error, and the mutex is free;
-- or it waits for its event, and the mutex is its own. The confirmation is not looked at.
unfoldable pub sent_call : Begun → Result (Unit {0}) → RpcClient → Option RpcError × RpcClient
unfolding rpc_error_from
sent_call b (err e) c = (some (rpc_error_from e), c)
sent_call b (ok _) c = (none, record c { holder = some b.channel })

-- `client.lock()` and `client.zc_send(…)?`
unfoldable pub send_call :
    RpcClient
    → Begun
    → Bytes
    → Bytes
    → QoS
    → Result (Unit {0})
    → Option (Option RpcError × RpcClient)
unfolding sent_call
send_call c b target params qos r = lock c (λ d.
    sent_call b r
      (zc_send (record { target = target; header = b.header; payload = params; qos = qos }) d))

-- What `rx.recv_timeout`, or `rx.recv` where there is no timeout, gives; the text of the error of a
-- lost channel is given.
pub data Received : Type 0 where
  event : RpcEvent → Received
  late : Received
  lost : Bytes → Received

abbrev pub remove_call : ℕ → RpcClient → RpcClient
remove_call id c = record c { calls = del id c.calls }

-- The end of `call`, with which the mutex is free again; the outer `none` is a panic.
unfoldable pub received : RpcClient → ℕ → Received → Option (RpcResult RpcEvent × RpcClient)
unfolding rpc_error_from del call_result
received c id (event ev) = and_then (call_result ev) (λ o. some (o, c))
received c id late = some (errored (rpc_error_from (error_bare timeout)), remove_call id c)
received c id (lost text) =
    some (errored (rpc_error_from (error_of io (str text ∷ []))), remove_call id c)

unfoldable pub end_call : RpcClient → ℕ → Received → Option (RpcResult RpcEvent × RpcClient)
unfolding received
end_call c id r = received (record c { holder = none }) id r

-- The trait's own `handle_call`, and that of `DummyHandlers`
abbrev pub default_handle_call : RpcResult (Option Bytes)
default_handle_call = errored (method none)

abbrev pub dummy_handle_call : RpcResult (Option Bytes)
dummy_handle_call = errored (record {
  code = rpc_error_code_method_not_found;
  «data» = some (codes "RPC handler is not implemented");
})

unfoldable pub reply_to : RpcClient → Response → Bytes → Option RpcClient
reply_to c r target =
    lock c
      (zc_send (record { target = target; header = r.header; payload = r.payload; qos = r.qos }))

-- The thread of a request sends what its handler's result asks for, if that is anything.
unfoldable pub reply_with : RpcClient → Option Response → Option (Option RpcClient)
unfolding reply_to
reply_with c none = some (some c)
reply_with c (some r) = and_then r.target (λ target. some (reply_to c r target))

-- The thread of a request once its handler is done. The outer `none` is a panic.
unfoldable pub handle_request :
    RpcClient → RpcEvent → RpcResult (Option Bytes) → Option (Option RpcClient)
unfolding respond reply_with
handle_request c ev result = and_then (respond ev result) (reply_with c)

abbrev pub launch : Job → RpcClient → RpcClient
launch job c = record c { jobs = job ∷ c.jobs }

unfoldable pub deliver : RpcClient → ℕ → RpcEvent → Option ℕ → RpcClient
unfolding del
deliver c id ev (some ch) = record c { calls = del id c.calls; answered = (ch, ev) ∷ c.answered }
deliver c id ev none = c

-- A request that wants a response: its thread keeps the sender, without which the processor panics.
unfoldable pub spawn : RpcClient → RpcEvent → ℕ → Option RpcClient
spawn c ev id =
    if ltb 0 id
    then and_then ev.frame.sender (λ sender. some (launch (called ev) c))
    else some (launch (called ev) c)

unfoldable pub by_event_kind : RpcClient → RpcEvent → RpcEventKind → Option RpcClient
unfolding deliver spawn event_id get
by_event_kind c ev notification = some (launch (notified ev) c)
by_event_kind c ev request = and_then (event_id ev) (spawn c ev)
by_event_kind c ev _ = and_then (event_id ev) (λ id. some (deliver c id ev (get id c.calls)))

unfoldable pub by_event : RpcClient → Result RpcEvent → Option RpcClient
unfolding by_event_kind
by_event c (err e) = some c
by_event c (ok ev) = by_event_kind c ev ev.kind

unfoldable pub by_frame_kind : RpcClient → FrameData → FrameKind → Option RpcClient
unfolding by_event event_of
by_frame_kind c frame message_kind = and_then (event_of frame) (by_event c)
by_frame_kind c frame _ = some (launch (framed frame) c)

-- One round of `Processor::run`; `none` is a panic of its thread.
unfoldable pub processor : RpcClient → FrameData → Option RpcClient
unfolding by_frame_kind
processor c frame = by_frame_kind c frame frame.kind
