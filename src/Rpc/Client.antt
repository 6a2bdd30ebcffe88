-- ===== src/Rpc/Client.antt =====
-- src/rpc/async_client.rs: `RpcClient`, its calls and its processor. The bus client under it is
-- that of src/ipc.rs or of the broker's process: what its `zc_send` comes to is given.
pub mod Calls
pub mod Once
use busrt.Wire.LittleEndian.{to_le}
use busrt.Protocol.Error.{Result, ok, err, Error, timeout, error_bare, error_of, eof}
use busrt.Protocol.Codes.{FrameKind, message_kind, QoS, processed, realtime_processed}
use busrt.Protocol.Frame.{FrameData}
use busrt.Rpc.Event.{
  RpcEventKind, notification, request, reply, error_reply, RpcEvent, event_id, event_of, and_then,
}
use busrt.Rpc.Error.{RpcError, RpcResult, succeeded, errored, rpc_error_from, rpc_error_of}
use busrt.Rpc.Message.{RpcMessage, call, answer, fail, header_of}
use busrt.Base.{
  Table, get, put, del, get-del, get-del_other, get-put, get-put_other, byte_at, ℕ, zero, suc, ◌+◌,
  ◌-◌, ◌*◌, ◌/◌, ◌%◌, ◌^◌, ◌≤◌, ◌<◌, bit_and, bit_or, String, ◌≡◌, refl, sym, ap, ◌∙◌, subst, ◌≢◌,
  ◌↔◌, ◌⊎◌, inl, inr, Bool, true, false, not, ◌&&◌, ◌||◌, Option, none, some, List, [], ◌∷◌, ◌++◌,
  map, append-nil, append_assoc, arith, ltb, leb, ◌==◌, if◌then◌else◌, ltb→lt, lt→ltb, leb→le,
  le→leb, lt→leb, le→ltb, ==_iff, Bool-cases, Option-cases, Bytes, codes, bytes_eq, bytes_eq_iff,
  length, take, drop, is_empty, length-append, length-drop, take-append, drop-append, slice_from,
  slice,
}

pub record Options : Type 0 where
  pub blocking_notifications : Bool
  pub blocking_frames : Bool

-- A call of one of the client's handlers, in the processor's own task or in one of its own.
pub data Job : Type 0 where
  notified called : Bool → RpcEvent → Job
  framed : Bool → FrameData → Job

-- The channels of calls are numbered in the order in which they are made. `answered` holds what was
-- sent on them, and `jobs` the handlers' calls, the last one first.
pub record RpcClient : Type 0 where
  pub call_id : ℕ
  pub calls : Table ℕ
  pub channels : ℕ
  pub answered : Table RpcEvent
  pub jobs : List Job

-- `RpcClient::init`
abbrev pub init : RpcClient
init = record { call_id = 0; calls = []; channels = 0; answered = []; jobs = [] }

unfoldable pub next_call_id : ℕ → ℕ
next_call_id call_id = if call_id == 2 ^ 32 - 1 then 1 else call_id + 1

-- A call up to its `zc_send`: the channel, the header, and the client that waits.
unfoldable pub begin_call : RpcClient → Bytes → ℕ × Bytes × RpcClient
unfolding next_call_id header_of put
begin_call c method =
    let id = next_call_id c.call_id in
    (
      c.channels,
      header_of (call id method),
      record c { call_id = id; calls = put id c.channels c.calls; channels = c.channels + 1 },
    )

-- What comes of the `zc_send`, under the client's timeout, and of the confirmation, if there is one:
-- the operation's result, or a lost channel.
pub data Sending : Type 0 where
  sends : Result (Option (Result (Result (Unit {0})))) → Sending
  times_out : Sending

-- `unwrap_or_cancel!`, for both
unfoldable pub sending_result : Sending → Result (Unit {0})
sending_result times_out = err (error_bare timeout)
sending_result (sends (err e)) = err e
sending_result (sends (ok none)) = ok tt
sending_result (sends (ok (some (err e)))) = err e
sending_result (sends (ok (some (ok r)))) = r

unfoldable pub cancel_call : RpcClient → ℕ → RpcClient
unfolding del
cancel_call c id = record c { calls = del id c.calls }

-- The call after its `zc_send`: it gives the error, or waits.
unfoldable pub sent_call : RpcClient → ℕ → Result (Unit {0}) → Option RpcError × RpcClient
unfolding cancel_call rpc_error_from
sent_call c id (err e) = (some (rpc_error_from e), cancel_call c id)
sent_call c id (ok _) = (none, c)

result_of : RpcEvent → Option RpcError → RpcResult RpcEvent
result_of ev (some e) = errored e
result_of ev none = succeeded ev

-- The call once its event is there; `none` is a panic.
unfoldable pub call_result : RpcEvent → Option (RpcResult RpcEvent)
unfolding result_of rpc_error_of
call_result ev = and_then (rpc_error_of ev) (λ e. some (result_of ev e))

-- What the request's task sends once its handler is done: the target, the header, the payload and
-- the QoS, and nothing where no response is required.
pub record Response : Type 0 where
  pub target : Option Bytes
  pub header : Bytes
  pub payload : Bytes
  pub qos : QoS

-- `notify` and `call0`: what the bus client is asked to send
unfoldable pub notify : Bytes → Bytes → QoS → Response
unfolding header_of
notify target payload qos = record {
  target = some target;
  header = header_of RpcMessage.notify;
  payload = payload;
  qos = qos;
}

unfoldable pub call0 : Bytes → Bytes → Bytes → QoS → Response
unfolding header_of
call0 target method params qos = record {
  target = some target;
  header = header_of (call 0 method);
  payload = params;
  qos = qos;
}

unfoldable pub or_empty : Option Bytes → Bytes
or_empty none = []
or_empty (some b) = b

unfoldable pub response_of : RpcEvent → ℕ → RpcResult (Option Bytes) → Response
unfolding or_empty header_of
response_of ev id (succeeded v) = record {
  target = ev.frame.sender;
  header = header_of (answer id);
  payload = or_empty v;
  qos = if ev.frame.is_realtime then realtime_processed else processed;
}
response_of ev id (errored e) = record {
  target = ev.frame.sender;
  header = header_of (fail id e.code);
  payload = or_empty e.«data»;
  qos = if ev.frame.is_realtime then realtime_processed else processed;
}

-- The task of a request; the outer `none` is a panic.
unfoldable pub respond : RpcEvent → RpcResult (Option Bytes) → Option (Option Response)
unfolding response_of event_id
respond ev result =
    and_then (event_id ev) (λ id. some (if ltb 0 id then some (response_of ev id result) else none))

abbrev pub launch : Job → RpcClient → RpcClient
launch job c = record c { jobs = job ∷ c.jobs }

unfoldable pub deliver : RpcClient → ℕ → RpcEvent → Option ℕ → RpcClient
deliver c id ev (some ch) = record c { calls = del id c.calls; answered = (ch, ev) ∷ c.answered }
deliver c id ev none = c

-- A request that wants a response: its task keeps the sender, without which the processor panics.
unfoldable pub spawn_call : RpcClient → RpcEvent → ℕ → Option RpcClient
spawn_call c ev id =
    if ltb 0 id
    then and_then ev.frame.sender (λ sender. some (launch (called false ev) c))
    else some (launch (called false ev) c)

unfoldable pub by_event_kind : Options → RpcClient → RpcEvent → RpcEventKind → Option RpcClient
unfolding deliver event_id spawn_call
by_event_kind opts c ev notification = some (launch (notified opts.blocking_notifications ev) c)
by_event_kind opts c ev request = and_then (event_id ev) (spawn_call c ev)
by_event_kind opts c ev _ = and_then (event_id ev) (λ id. some (deliver c id ev (get id c.calls)))

unfoldable pub by_event : Options → RpcClient → Result RpcEvent → Option RpcClient
unfolding by_event_kind
by_event opts c (err e) = some c
by_event opts c (ok ev) = by_event_kind opts c ev ev.kind

unfoldable pub by_frame_kind : Options → RpcClient → FrameData → FrameKind → Option RpcClient
unfolding by_event event_of
by_frame_kind opts c frame message_kind = and_then (event_of frame) (by_event opts c)
by_frame_kind opts c frame _ = some (launch (framed opts.blocking_frames frame) c)

-- One round of `processor`; `none` is a panic of its task.
unfoldable pub processor : Options → RpcClient → FrameData → Option RpcClient
unfolding by_frame_kind
processor opts c frame = by_frame_kind opts c frame frame.kind
