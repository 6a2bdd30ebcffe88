-- ===== src/Ipc/Encode.antt =====
-- src/ipc.rs: the frames that a client writes, each as its header buffer and its payload.
use busrt.Wire.LittleEndian.{to_le}
use busrt.Protocol.Codes.{FrameOp, QoS, flags}
use busrt.Base.{ℕ, ◌+◌, ◌-◌, ◌%◌, ◌^◌, [], ◌∷◌, ◌++◌, ◌==◌, if◌then◌else◌, Bytes, length}

-- `prepare_frame_buf!`, with the frame id that it has just drawn
unfoldable pub prepare_frame_buf : ℕ → FrameOp → QoS → Bytes
unfolding to_le flags
prepare_frame_buf frame_id op qos = to_le 4 frame_id ++ (flags op qos ∷ [])

-- `n as u32` of a usize, in bytes
abbrev pub len_bytes : ℕ → Bytes
len_bytes n = to_le 4 (n % 2 ^ 32)

-- `send_frame!` with a target
unfoldable pub target_frame : ℕ → FrameOp → QoS → Bytes → Bytes → Bytes × Bytes
unfolding prepare_frame_buf
target_frame id op qos t payload = (
  prepare_frame_buf id op qos ++ (len_bytes (length t + length payload + 1) ++ (t ++ 0 ∷ [])),
  payload,
)

-- `send_frame!` with a topic and a receiver
unfoldable pub receiver_frame : ℕ → FrameOp → QoS → Bytes → Bytes → Bytes → Bytes × Bytes
unfolding prepare_frame_buf
receiver_frame id op qos t r payload = (
  prepare_frame_buf id op qos
      ++ (len_bytes (length t + length r + length payload + 2) ++ (t ++ 0 ∷ (r ++ 0 ∷ []))),
  payload,
)

-- `send_frame!` without a target
unfoldable pub plain_frame : ℕ → FrameOp → QoS → Bytes → Bytes × Bytes
unfolding prepare_frame_buf
plain_frame id op qos payload = (prepare_frame_buf id op qos ++ len_bytes (length payload), payload)

-- `send_zc_frame!`: the payload's header goes out with the frame's
unfoldable pub zc_frame : ℕ → FrameOp → QoS → Bytes → Bytes → Bytes → Bytes × Bytes
unfolding prepare_frame_buf
zc_frame id op qos t header payload = (
  prepare_frame_buf id op qos
      ++ (len_bytes (length t + length payload + length header + 1) ++ (t ++ 0 ∷ header)),
  payload,
)

-- `increment_frame_id`: ids run from 1 to u32::MAX and start over at 1.
unfoldable pub increment_frame_id : ℕ → ℕ
increment_frame_id id = if id == 2 ^ 32 - 1 then 1 else id + 1
