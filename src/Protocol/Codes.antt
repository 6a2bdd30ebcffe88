-- ===== src/Protocol/Codes.antt =====
-- src/lib.rs: frame operations, QoS levels and frame kinds, with their codes.
use busrt.Protocol.Error.{Result, ok, err, invalid, error_of, lit, dec, hex}
use busrt.Base.{
  ℕ, ◌*◌, ◌/◌, ◌%◌, bit_and, bit_or, ◌≡◌, ◌≢◌, ◌↔◌, Bool, not, [], ◌∷◌, arith, ◌==◌, if◌then◌else◌,
  Bytes,
}

abbrev pub op_nop : ℕ
op_nop = 0x00

abbrev pub op_publish : ℕ
op_publish = 0x01

abbrev pub op_subscribe : ℕ
op_subscribe = 0x02

abbrev pub op_unsubscribe : ℕ
op_unsubscribe = 0x03

abbrev pub op_exclude : ℕ
op_exclude = 0x04

abbrev pub op_unexclude : ℕ
op_unexclude = 0x05

abbrev pub op_publish_for : ℕ
op_publish_for = 0x06

abbrev pub op_message : ℕ
op_message = 0x12

abbrev pub op_broadcast : ℕ
op_broadcast = 0x13

abbrev pub op_ack : ℕ
op_ack = 0xfe

abbrev pub protocol_version : ℕ
protocol_version = 0x01

abbrev pub greetings : ℕ
greetings = 0xeb

abbrev pub ping_frame : Bytes
ping_frame = 0 ∷ 0 ∷ 0 ∷ 0 ∷ 0 ∷ 0 ∷ 0 ∷ 0 ∷ 0 ∷ []

pub data FrameOp : Type 0 where
  nop message broadcast publish_topic publish_topic_for : FrameOp
  subscribe_topic unsubscribe_topic exclude_topic unexclude_topic : FrameOp

unfoldable pub frame_op_code : FrameOp → ℕ
frame_op_code nop = op_nop
frame_op_code message = op_message
frame_op_code broadcast = op_broadcast
frame_op_code publish_topic = op_publish
frame_op_code publish_topic_for = op_publish_for
frame_op_code subscribe_topic = op_subscribe
frame_op_code unsubscribe_topic = op_unsubscribe
frame_op_code exclude_topic = op_exclude
frame_op_code unexclude_topic = op_unexclude

unfoldable pub frame_op_of : ℕ → Result FrameOp
frame_op_of tp =
    if tp == op_nop
    then ok nop
    else if tp == op_message
    then ok message
    else if tp == op_broadcast
    then ok broadcast
    else if tp == op_publish
    then ok publish_topic
    else if tp == op_publish_for
    then ok publish_topic_for
    else if tp == op_subscribe
    then ok subscribe_topic
    else if tp == op_unsubscribe
    then ok unsubscribe_topic
    else if tp == op_exclude
    then ok exclude_topic
    else if tp == op_unexclude
    then ok unexclude_topic
    else err (error_of invalid (lit "Invalid frame type: " ∷ dec tp ∷ []))

pub data QoS : Type 0 where
  no_qos processed realtime realtime_processed : QoS

-- `qos as u8`
unfoldable pub qos_code : QoS → ℕ
qos_code no_qos = 0
qos_code processed = 1
qos_code realtime = 2
qos_code realtime_processed = 3

unfoldable pub is_realtime : QoS → Bool
unfolding qos_code
is_realtime q = not (bit_and (qos_code q) 0b10 == 0)

unfoldable pub needs_ack : QoS → Bool
unfolding qos_code
needs_ack q = not (bit_and (qos_code q) 0b1 == 0)

unfoldable pub qos_of : ℕ → Result QoS
qos_of q =
    if q == 0
    then ok no_qos
    else if q == 1
    then ok processed
    else if q == 2
    then ok realtime
    else if q == 3
    then ok realtime_processed
    else err (error_of invalid (lit "Invalid QoS: " ∷ dec q ∷ []))

-- The kind of a frame to a client. `prepared` frames hold bytes that are ready to be written.
pub data FrameKind : Type 0 where
  prepared message_kind broadcast_kind publish_kind acknowledge nop_kind : FrameKind

unfoldable pub frame_kind_code : FrameKind → ℕ
frame_kind_code prepared = 0xff
frame_kind_code message_kind = op_message
frame_kind_code broadcast_kind = op_broadcast
frame_kind_code publish_kind = op_publish
frame_kind_code acknowledge = op_ack
frame_kind_code nop_kind = op_nop

unfoldable pub frame_kind_of : ℕ → Result FrameKind
frame_kind_of code =
    if code == op_message
    then ok message_kind
    else if code == op_broadcast
    then ok broadcast_kind
    else if code == op_publish
    then ok publish_kind
    else if code == op_ack
    then ok acknowledge
    else if code == op_nop
    then ok nop_kind
    else err (error_of invalid (lit "Invalid frame type: " ∷ hex code ∷ []))

-- The one byte that holds the operation in its low six bits and the QoS in its high two:
-- `op as u8 | (qos as u8) << 6`.
unfoldable pub flags : FrameOp → QoS → ℕ
unfolding frame_op_code qos_code
flags op q = bit_or (frame_op_code op) (qos_code q * 64 % 256)

-- `(flags & 0b0011_1111).try_into()` and `(flags >> 6 & 0b0011_1111).try_into()`
unfoldable pub op_of_flags : ℕ → Result FrameOp
unfolding frame_op_of
op_of_flags f = frame_op_of (bit_and f 0b11_1111)

unfoldable pub qos_of_flags : ℕ → Result QoS
unfolding qos_of
qos_of_flags f = qos_of (bit_and (f / 64) 0b11_1111)

-- Every operation and QoS are recovered from the flags byte.
pub flags_roundtrip :
    (op : FrameOp) (q : QoS)
    → (op_of_flags (flags op q) ≡ ok op) × (qos_of_flags (flags op q) ≡ ok q)
unfolding flags op_of_flags qos_of_flags
flags_roundtrip nop q = ground arith
flags_roundtrip op q = ground arith

-- The flags byte is zero, which the broker takes for a ping, for a Nop with QoS No only.
pub flags-zero : (op : FrameOp) (q : QoS) → flags op q ≡ 0 → (op ≡ nop) × (q ≡ no_qos)
unfolding flags
flags-zero nop q e = ground arith
flags-zero op q e = ground arith

-- Every frame kind but Prepared is recovered from its code; the code of Prepared is refused.
frame_kind_of-frame_kind_code :
    (k : FrameKind) → (frame_kind_of (frame_kind_code k) ≡ ok k) ↔ (k ≢ prepared)
unfolding frame_kind_of frame_kind_code
frame_kind_of-frame_kind_code prepared = ground arith
frame_kind_of-frame_kind_code k = ground arith

-- A number is accepted as a frame operation exactly when it is the code of that operation.
frame_op_of_iff : (c : ℕ) (op : FrameOp) → (frame_op_of c ≡ ok op) ↔ (c ≡ frame_op_code op)
unfolding frame_op_of frame_op_code
frame_op_of_iff c nop = ground arith
frame_op_of_iff c op = ground arith
