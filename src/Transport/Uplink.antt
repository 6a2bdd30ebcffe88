-- ===== src/Transport/Uplink.antt =====
-- From the client's `send_frame!` to the packet that the broker's `handle_reader` gets.
use busrt.Wire.LittleEndian.{to_le, from_le-to_le_u32}
use busrt.Wire.Source.{Source, before, read_exact-before}
use busrt.Protocol.Codes.{FrameOp, nop, QoS, flags, flags_roundtrip, flags-zero}
use busrt.Ipc.Encode.{prepare_frame_buf, len_bytes}
use busrt.Broker.Packet.{Limits, Packet, packet, read_packet, Admits, read_packet_lem}
use busrt.Broker.Target.{
  split_target, split_receiver, IsField, split_target-append, split_receiver-append,
  slice_from-field,
}
use busrt.Ipc.Encode.{target_frame, receiver_frame, plain_frame, zc_frame}
use busrt.Protocol.Error.{ok}
use busrt.Base.{
  ℕ, ◌+◌, ◌%◌, ◌^◌, ◌≡◌, refl, sym, ap, ◌∙◌, ◌≢◌, some, [], ◌∷◌, ◌++◌, append_assoc, arith, Bytes,
  length, length-append, slice_from,
}

-- What goes over the wire for a frame: the two writes of `send_frame_and_confirm!`.
abbrev pub wire : Bytes × Bytes → Bytes
wire (buf, payload) = buf ++ payload

abbrev pub received : ℕ → FrameOp → QoS → Bytes → Packet
received id op q body = record {
  op_id = to_le 4 id;
  op = op;
  qos = q;
  len = length body;
  buf = body;
}

read_packet-body :
    (l : Limits) (name : Bytes) (id : ℕ) (op : FrameOp) (q : QoS) (body : Bytes) (s : Source)
    → op ≢ nop
    → Admits l name (length body)
    → read_packet l name (before (prepare_frame_buf id op q ++ (len_bytes (length body) ++ body)) s)
      ≡ packet (received id op q body) s
unfolding read_packet prepare_frame_buf to_le
read_packet-body l name id op q body s h a =
    let n = length body % 2 ^ 32 in
    let head = prepare_frame_buf id op q ++ to_le 4 n in
    let (eo, eq) = flags_roundtrip op q in
    read_packet_lem l name (to_le 4 id) (flags op q) (to_le 4 n) op q body _ _ _
      (read_exact-before 9 head (before body s) refl) refl (λ e. h (flags-zero op q e).0) eo eq
      (from_le-to_le_u32 n (omega arith) ∙ omega (arith, a.fits_u32)) a
      (read_exact-before (length body) body s refl)

wire-body :
    (id : ℕ) (op : FrameOp) (q : QoS) (n : ℕ) (pre payload body : Bytes)
    → pre ++ payload ≡ body
    → n ≡ length body
    → wire (prepare_frame_buf id op q ++ (len_bytes n ++ pre), payload)
      ≡ prepare_frame_buf id op q ++ (len_bytes (length body) ++ body)
unfolding prepare_frame_buf to_le
wire-body id op q n pre payload body e el =
    ap (λ b. prepare_frame_buf id op q ++ (len_bytes n ++ b)) e
    ∙ ap (λ m. prepare_frame_buf id op q ++ (len_bytes m ++ body)) el

module _ (l : Limits) (name : Bytes) (id : ℕ) (op : FrameOp) (q : QoS) (s : Source)
    (h : op ≢ nop) where
  read-framed :
      (n : ℕ) (pre payload body : Bytes)
      → pre ++ payload ≡ body
      → n ≡ length body
      → Admits l name (length body)
      → read_packet l name
          (before (wire (prepare_frame_buf id op q ++ (len_bytes n ++ pre), payload)) s)
        ≡ packet (received id op q body) s
  read-framed n pre payload body e el a =
      ap (λ b. read_packet l name (before b s)) (wire-body id op q n pre payload body e el)
      ∙ read_packet-body l name id op q body s h a

  -- A frame with a target, of any operation but Nop and any QoS, is read by the broker as that
  -- operation with that QoS and frame id, whatever follows it on the stream; the broker finds the
  -- target at the front of the buffer and the payload behind it. The target is UTF-8 without a
  -- zero byte, and the length is within u32 and the broker's limits.
  pub target_frame-received :
      (t payload : Bytes)
      → IsField t
      → Admits l name (length (t ++ 0 ∷ payload))
      → (read_packet l name (before (wire (target_frame id op q t payload)) s)
          ≡ packet (received id op q (t ++ 0 ∷ payload)) s)
        × (split_target (t ++ 0 ∷ payload) ≡ ok (t, length t + 1))
        × (slice_from (length t + 1) (t ++ 0 ∷ payload) ≡ some payload)
  unfolding target_frame
  target_frame-received t payload f a = (
    read-framed _ (t ++ 0 ∷ []) payload _ (append_assoc t (0 ∷ []) payload)
        (omega (arith, length-append t (0 ∷ payload))) a,
    split_target-append t payload f,
    slice_from-field t payload,
  )

  -- A zero-copy frame is read by the broker as the plain frame whose payload is the header and the
  -- payload together: of any operation but Nop and any QoS, for a target that is UTF-8 without a
  -- zero byte, with a length within u32 and the broker's limits.
  pub zc_frame-received :
      (t header payload : Bytes)
      → IsField t
      → Admits l name (length (t ++ 0 ∷ (header ++ payload)))
      → read_packet l name (before (wire (zc_frame id op q t header payload)) s)
        ≡ read_packet l name (before (wire (target_frame id op q t (header ++ payload))) s)
  unfolding zc_frame
  zc_frame-received t header payload f a =
      read-framed _ (t ++ 0 ∷ header) payload _ (append_assoc t (0 ∷ header) payload)
        (omega (arith, length-append t (0 ∷ (header ++ payload)), length-append header payload)) a
      ∙ sym (target_frame-received t (header ++ payload) f a).0

  -- A frame with a topic and a receiver, of any operation but Nop and any QoS, is read by the
  -- broker as that operation with that QoS and frame id, and the broker finds the topic, the
  -- receiver and the payload. Both are UTF-8 without a zero byte, and the length is within u32 and
  -- the broker's limits.
  pub receiver_frame-received :
      (t r payload : Bytes)
      → IsField t
      → IsField r
      → Admits l name (length (t ++ 0 ∷ (r ++ 0 ∷ payload)))
      → (read_packet l name (before (wire (receiver_frame id op q t r payload)) s)
          ≡ packet (received id op q (t ++ 0 ∷ (r ++ 0 ∷ payload))) s)
        × (split_target (t ++ 0 ∷ (r ++ 0 ∷ payload)) ≡ ok (t, length t + 1))
        × (split_receiver (t ++ 0 ∷ (r ++ 0 ∷ payload)) (length t + 1)
            ≡ ok (r, length t + 1 + length r + 1))
        × (slice_from (length t + 1 + length r + 1) (t ++ 0 ∷ (r ++ 0 ∷ payload)) ≡ some payload)
  unfolding receiver_frame
  receiver_frame-received t r payload ft fr a = (
    read-framed _ (t ++ 0 ∷ (r ++ 0 ∷ [])) payload _
        (append_assoc t (0 ∷ (r ++ 0 ∷ [])) payload
          ∙ ap (λ b. t ++ 0 ∷ b) (append_assoc r (0 ∷ []) payload))
        (omega (arith, length-append t (0 ∷ (r ++ 0 ∷ payload)), length-append r (0 ∷ payload))) a,
    split_target-append t (r ++ 0 ∷ payload) ft,
    ap (λ b. split_receiver b (length t + 1)) (sym (append_assoc t (0 ∷ []) (r ++ 0 ∷ payload)))
        ∙ split_receiver-append (t ++ 0 ∷ []) r payload (length t + 1)
            (omega (arith, length-append t (0 ∷ []))) fr,
    ap (λ n. slice_from n (t ++ 0 ∷ (r ++ 0 ∷ payload))) (omega (arith, length-append t (0 ∷ r)))
        ∙ ap (slice_from (length (t ++ 0 ∷ r) + 1)) (sym (append_assoc t (0 ∷ r) (0 ∷ payload)))
        ∙ slice_from-field (t ++ 0 ∷ r) payload,
  )

  -- A frame without a target, of any operation but Nop and any QoS, is read by the broker with its
  -- payload as it is, where the length is within u32 and the broker's limits.
  pub plain_frame-received :
      (payload : Bytes)
      → Admits l name (length payload)
      → read_packet l name (before (wire (plain_frame id op q payload)) s)
        ≡ packet (received id op q payload) s
  unfolding plain_frame prepare_frame_buf to_le
  plain_frame-received payload a = read-framed _ [] payload payload refl refl a
