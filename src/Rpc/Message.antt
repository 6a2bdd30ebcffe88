-- ===== src/Rpc/Message.antt =====
-- The messages of the RPC layer, as src/rpc/async_client.rs and src/rpc/mod.rs build their headers,
-- and the events that the receiver makes of them. Between threads the header travels beside the
-- payload; over a socket it travels at the payload's front.
use busrt.Wire.LittleEndian.{to_le, from_le-to_le_u16, from_le-to_le_u32}
use busrt.Wire.Split.{NoZero, break_zero-append}
use busrt.Protocol.Error.{Result, ok, err}
use busrt.Protocol.Frame.{FrameData, payload}
use busrt.Rpc.Event.{
  RpcEventKind, notification, request, reply, error_reply, RpcEvent, event_payload, event_id,
  event_method, event_code, event_of, prepare_call_payload, rpc_request, rpc_notification,
  rpc_reply, rpc_error,
}
use busrt.Base.{
  ℕ, ◌+◌, ◌-◌, ◌/◌, ◌%◌, ◌^◌, ◌<◌, ◌≡◌, refl, Option, none, some, [], ◌∷◌, ◌++◌, append_assoc,
  arith, Bytes, length, length-append, take-append, drop-append, slice_from, slice,
}

pub data RpcMessage : Type 0 where
  notify : RpcMessage
  call : ℕ → Bytes → RpcMessage
  answer : ℕ → RpcMessage
  fail : ℕ → ℕ → RpcMessage

-- `notify`, `call` and `call0`, and the two branches of `processor` that send a reply
unfoldable pub header_of : RpcMessage → Bytes
unfolding prepare_call_payload to_le
header_of notify = rpc_notification ∷ []
header_of (call id method) = prepare_call_payload method (to_le 4 id)
header_of (answer id) = rpc_reply ∷ to_le 4 id
header_of (fail id code) = rpc_error ∷ (to_le 4 id ++ to_le 2 code)

-- What a handler can ask of an event of each kind.
pub data RpcView : Type 0 where
  notified : Bytes → RpcView
  called : ℕ → Bytes → Bytes → RpcView
  answered : ℕ → Bytes → RpcView
  failed : ℕ → ℕ → Bytes → RpcView
  panicked : RpcView
  refused : RpcView

notified_with : Option Bytes → RpcView
notified_with (some p) = notified p
notified_with none = panicked

called_with : Option ℕ → Option Bytes → Option Bytes → RpcView
called_with (some id) (some m) (some p) = called id m p
called_with _ _ _ = panicked

answered_with : Option ℕ → Option Bytes → RpcView
answered_with (some id) (some p) = answered id p
answered_with _ _ = panicked

failed_with : Option ℕ → Option ℕ → Option Bytes → RpcView
failed_with (some id) (some c) (some p) = failed id c p
failed_with _ _ _ = panicked

view_as : RpcEventKind → RpcEvent → RpcView
view_as notification ev = notified_with (event_payload ev)
view_as request ev = called_with (event_id ev) (event_method ev) (event_payload ev)
view_as reply ev = answered_with (event_id ev) (event_payload ev)
view_as error_reply ev = failed_with (event_id ev) (event_code ev) (event_payload ev)

view_result : Option (Result RpcEvent) → RpcView
view_result none = panicked
view_result (some (err e)) = refused
view_result (some (ok ev)) = view_as ev.kind ev

unfoldable pub seen : FrameData → RpcView
unfolding view_result view_as notified_with called_with answered_with failed_with event_of
    event_payload event_id event_method event_code
seen f = view_result (event_of f)

abbrev pub sent : RpcMessage → Bytes → RpcView
sent notify p = notified p
sent (call id m) p = called id m p
sent (answer id) p = answered id p
sent (fail id c) p = failed id c p

abbrev pub IsMessage : RpcMessage → Type 0
IsMessage notify = Unit {0}
IsMessage (call id m) = (id < 2 ^ 32) × NoZero m
IsMessage (answer id) = id < 2 ^ 32
IsMessage (fail id c) = (id < 2 ^ 32) × (c < 2 ^ 16)

-- Between threads.
seen-header :
    (m : RpcMessage) (p : Bytes) (f : FrameData)
    → IsMessage m
    → f.header ≡ some (header_of m)
    → payload f ≡ some p
    → seen f ≡ sent m p
unfolding seen header_of
seen-header notify p f h e ep = ground arith
seen-header (call id m) p f h e ep = ground (
  arith,
  length-append m (0 ∷ []),
  take-append (length (m ++ 0 ∷ []) + 4 - 5) m (0 ∷ []),
  from_le-to_le_u32 id h.0,
)
seen-header (answer id) p f h e ep = ground (arith, from_le-to_le_u32 id h)
seen-header (fail id c) p f h e ep =
    ground (arith, from_le-to_le_u32 id h.0, from_le-to_le_u16 c h.1)

pub slice_method :
    (m p : Bytes) (n : ℕ)
    → n ≡ 5 + length m
    → (b0 b1 b2 b3 b4 : ℕ) → slice 5 n (b0 ∷ b1 ∷ b2 ∷ b3 ∷ b4 ∷ (m ++ 0 ∷ p)) ≡ some m
slice_method m p n e b0 b1 b2 b3 b4 =
    ground (arith, length-append m (0 ∷ p), take-append (n - 5) m (0 ∷ p))

pub slice_params :
    (m p : Bytes) (n : ℕ)
    → n ≡ 6 + length m
    → (b0 b1 b2 b3 b4 : ℕ) → slice_from n (b0 ∷ b1 ∷ b2 ∷ b3 ∷ b4 ∷ (m ++ 0 ∷ p)) ≡ some p
slice_params m p n e b0 b1 b2 b3 b4 =
    let h = b0 ∷ b1 ∷ b2 ∷ b3 ∷ b4 ∷ m in
    ground (
      arith,
      length-append h (0 ∷ p),
      append_assoc h (0 ∷ []) p,
      length-append h (0 ∷ []),
      drop-append n (h ++ 0 ∷ []) p,
    )

-- Over a socket.
seen-payload :
    (m : RpcMessage) (p : Bytes) (f : FrameData)
    → IsMessage m
    → f.header ≡ none
    → payload f ≡ some (header_of m ++ p)
    → seen f ≡ sent m p
unfolding seen header_of
seen-payload notify p f h e ep = ground arith
seen-payload (call id m) p f h e ep = ground (
  arith,
  append_assoc m (0 ∷ []) p,
  length-append m (0 ∷ p),
  break_zero-append m p h.1,
  slice_method m p (5 + length m) refl rpc_request (id % 256) (id / 256 % 256)
      (id / 256 / 256 % 256) (id / 256 / 256 / 256 % 256),
  slice_params m p (6 + length m) refl rpc_request (id % 256) (id / 256 % 256)
      (id / 256 / 256 % 256) (id / 256 / 256 / 256 % 256),
  from_le-to_le_u32 id h.0,
)
seen-payload (answer id) p f h e ep = ground (arith, from_le-to_le_u32 id h)
seen-payload (fail id c) p f h e ep =
    ground (arith, from_le-to_le_u32 id h.0, from_le-to_le_u16 c h.1)

-- A notification, call, reply or error reply is seen by the receiver as it was sent, with its id,
-- method, code and payload, and with no panic, both when the header travels beside the payload
-- and when it travels at the payload's front.
pub seen-sent :
    (m : RpcMessage) (p : Bytes) (f g : FrameData)
    → IsMessage m
    → f.header ≡ some (header_of m)
    → payload f ≡ some p
    → g.header ≡ none
    → payload g ≡ some (header_of m ++ p)
    → (seen f ≡ sent m p) × (seen g ≡ sent m p)
seen-sent m p f g h ef pf eg pg = (seen-header m p f h ef pf, seen-payload m p g h eg pg)
