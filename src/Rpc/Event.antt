-- ===== src/Rpc/Event.antt =====
-- src/rpc/mod.rs: RPC events. A panic of an accessor is `none`. An i16 is its 16-bit pattern.
use mathlib.Core.Option
use busrt.Wire.LittleEndian.{from_le}
use busrt.Wire.Split.{break_zero, Rejoins, break_zero-Rejoins}
use busrt.Protocol.Error.{Result, ok, err, Error, invalid, error_of, lit, dec}
use busrt.Protocol.Frame.{FrameData, payload}
use busrt.Base.{
  ℕ, zero, suc, ◌+◌, ◌≤◌, ◌≡◌, refl, sym, ap, ◌∙◌, ◌≢◌, Bool, true, false, not, Option, none, some,
  [], ◌∷◌, ◌++◌, arith, ltb, ◌==◌, if◌then◌else◌, Bytes, length, drop, length-append, length-drop,
  slice_from, slice,
}

abbrev pub rpc_notification : ℕ
rpc_notification = 0x00

abbrev pub rpc_request : ℕ
rpc_request = 0x01

abbrev pub rpc_reply : ℕ
rpc_reply = 0x11

abbrev pub rpc_error : ℕ
rpc_error = 0x12

pub data RpcEventKind : Type 0 where
  notification request reply error_reply : RpcEventKind

pub record RpcEvent : Type 0 where
  pub kind : RpcEventKind
  pub frame : FrameData
  pub payload_pos : ℕ
  pub use_header : Bool

abbrev pub and_then {ℓ κ} : {A : Type ℓ} {B : Type κ} → Option A → (A → Option B) → Option B
and_then none f = none
and_then (some a) f = f a

-- The bytes that hold the id and the code.
abbrev head_of : RpcEvent → Option Bytes
head_of ev = if ev.use_header then ev.frame.header else payload ev.frame

unfoldable pub event_payload : RpcEvent → Option Bytes
event_payload ev = and_then (payload ev.frame) (slice_from ev.payload_pos)

unfoldable pub event_id : RpcEvent → Option ℕ
event_id ev = Option.map from_le (and_then (head_of ev) (slice 1 5))

unfoldable pub is_response_required : RpcEvent → Option Bool
unfolding event_id
is_response_required ev = Option.map (λ id. not (id == 0)) (event_id ev)

-- `usize` subtraction below zero is a panic.
abbrev less_one : ℕ → Option ℕ
less_one zero = none
less_one (suc n) = some n

unfoldable pub event_method : RpcEvent → Option Bytes
event_method ev =
    if ev.use_header
    then and_then ev.frame.header (λ h. and_then (less_one (length h)) (λ n. slice 5 n h))
    else and_then (payload ev.frame) (λ p. and_then (less_one ev.payload_pos) (λ n. slice 5 n p))

code_of : RpcEventKind → RpcEvent → Option ℕ
code_of error_reply ev = Option.map from_le (and_then (head_of ev) (slice 5 7))
code_of _ ev = some 0

unfoldable pub event_code : RpcEvent → Option ℕ
unfolding code_of
event_code ev = code_of ev.kind ev

abbrev invalid_frame : Error
invalid_frame = error_of invalid (lit "Invalid RPC frame" ∷ [])

request_at : FrameData → ℕ → Option Bytes → Result RpcEvent
request_at f pos none = err (error_of invalid (lit "No RPC params block" ∷ []))
request_at f pos (some _) =
    ok (record { kind = request; frame = f; payload_pos = pos; use_header = false })

request_of : FrameData → Bytes → Bool → Result RpcEvent
request_of f body true =
    ok (record { kind = request; frame = f; payload_pos = 0; use_header = true })
request_of f body false =
    let (method, rest) = break_zero (drop 5 body) in request_at f (6 + length method) rest

by_code : FrameData → ℕ → Bytes → Bool → Result RpcEvent
by_code f v body use_header =
    if v == rpc_notification
    then ok (record {
      kind = notification;
      frame = f;
      payload_pos = if use_header then 0 else 1;
      use_header = false;
    })
    else if v == rpc_request
    then (if ltb (length body) 6 then err invalid_frame else request_of f body use_header)
    else if v == rpc_reply
    then (if ltb (length body) 5
        then err invalid_frame
        else ok (record {
          kind = reply;
          frame = f;
          payload_pos = if use_header then 0 else 5;
          use_header = use_header;
        }))
    else if v == rpc_error
    then (if ltb (length body) 7
        then err invalid_frame
        else ok (record {
          kind = error_reply;
          frame = f;
          payload_pos = if use_header then 0 else 7;
          use_header = use_header;
        }))
    else err (error_of invalid (lit "Unsupported RPC frame code " ∷ dec v ∷ []))

from_body : FrameData → Bytes → Bool → Result RpcEvent
from_body f [] use_header = err (error_of invalid (lit "Empty RPC frame" ∷ []))
from_body f (v ∷ rest) use_header = by_code f v (v ∷ rest) use_header

with_header : FrameData → Option Bytes → Option (Result RpcEvent)
with_header f none = Option.map (λ p. from_body f p false) (payload f)
with_header f (some h) = some (from_body f h true)

-- `RpcEvent::try_from`
unfoldable pub event_of : FrameData → Option (Result RpcEvent)
unfolding with_header from_body by_code request_of request_at break_zero
event_of f = with_header f f.header

-- `prepare_call_payload`
unfoldable pub prepare_call_payload : Bytes → Bytes → Bytes
prepare_call_payload m id_bytes = rpc_request ∷ (id_bytes ++ (m ++ 0 ∷ []))

-- The parts of an event that its kind has can be read without a panic.
pub record IsReadable (ev : RpcEvent) : Type 0 where
  pub payload_some : event_payload ev ≢ none
  pub id_some : ev.kind ≢ notification → event_id ev ≢ none
  pub method_some : ev.kind ≡ request → event_method ev ≢ none
  pub code_some : event_code ev ≢ none

request_at-IsReadable :
    (f : FrameData) (p : Bytes) (broken : Bytes × Option Bytes) (ev : RpcEvent)
    → payload f ≡ some p
    → 6 ≤ length p
    → Rejoins (drop 5 p) broken
    → request_at f (6 + length broken.0) broken.1 ≡ ok ev
    → IsReadable ev
unfolding request_at event_payload event_id event_method event_code
request_at-IsReadable f p (m, none) ev ep l r e = cc
request_at-IsReadable f p (m, some rest) ev ep l r e =
    ground (arith, length-drop 5 p, ap length r, length-append m (0 ∷ rest))

by_code-IsReadable :
    (f : FrameData) (v : ℕ) (body p : Bytes) (use_header : Bool) (ev : RpcEvent)
    → payload f ≡ some p
    → (if use_header then f.header else payload f) ≡ some body
    → body ≢ []
    → by_code f v body use_header ≡ ok ev
    → IsReadable ev
unfolding by_code request_of event_payload event_id event_method event_code
by_code-IsReadable f v body p true ev ep eb ne e = ground arith
by_code-IsReadable f v body p false ev ep eb ne e =
    ground (
      arith,
      request_at-IsReadable f p (break_zero (drop 5 p)) ev ep,
      break_zero-Rejoins (drop 5 p),
    )

from_body-IsReadable :
    (f : FrameData) (body p : Bytes) (use_header : Bool) (ev : RpcEvent)
    → payload f ≡ some p
    → (if use_header then f.header else payload f) ≡ some body
    → from_body f body use_header ≡ ok ev
    → IsReadable ev
unfolding from_body
from_body-IsReadable f [] p use_header ev ep eb e = cc
from_body-IsReadable f (v ∷ rest) p use_header ev ep eb e =
    by_code-IsReadable f v (v ∷ rest) p use_header ev ep eb (λ h. cc) e

some-ok-inj : (a b : Result RpcEvent) → some a ≡ some b → a ≡ b
some-ok-inj a b e = cc

event_of-with :
    (f : FrameData) (h : Option Bytes) (p : Bytes) (ev : RpcEvent)
    → f.header ≡ h
    → payload f ≡ some p
    → with_header f h ≡ some (ok ev)
    → IsReadable ev
unfolding with_header
event_of-with f none p ev eh ep e =
    from_body-IsReadable f p p false ev ep ep
      (some-ok-inj _ _ (ap (Option.map (λ b. from_body f b false)) (sym ep) ∙ e))
event_of-with f (some h) p ev eh ep e = from_body-IsReadable f h p true ev ep eh (some-ok-inj _ _ e)

-- The comments "Should not panic" hold for what an event's kind has: for every frame whose payload
-- position lies within its buffer, an event that the conversion accepts gives its payload and its
-- code, its id unless it is a notification, and its method if it is a request, with no slice out
-- of range.
pub event_of-IsReadable :
    (f : FrameData) (p : Bytes) (ev : RpcEvent)
    → payload f ≡ some p
    → event_of f ≡ some (ok ev)
    → IsReadable ev
unfolding event_of
event_of-IsReadable f p ev ep e = event_of-with f f.header p ev refl ep e

-- They do not hold for the rest: the method of a reply that came over a socket is a panic, since
-- its slice would end before it starts.
pub reply-method :
    (f : FrameData) (p : Bytes) (ev : RpcEvent)
    → f.header ≡ none
    → payload f ≡ some p
    → event_of f ≡ some (ok ev)
    → ev.kind ≡ reply
    → event_method ev ≡ none
unfolding event_of event_method
reply-method f p ev eh ep e k = ground arith
