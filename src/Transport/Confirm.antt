-- ===== src/Transport/Confirm.antt =====
-- From the acknowledgement that the broker puts into a client's queue to the client's `handle_read`.
use busrt.Wire.LittleEndian.{to_le, from_le-to_le_u32}
use busrt.Wire.Source.{Source, before, read_exact-before}
use busrt.Broker.Maps.{Maps}
use busrt.Broker.Dispatch.{ack_frame}
use busrt.Broker.Writer.{encode_frame}
use busrt.Ipc.Encode.{increment_frame_id}
use busrt.Ipc.Client.{
  Client, taken, submit, sent, send_frame_and_confirm, await_ack, send_payload, send_data,
  handle_read, resolve,
}
use busrt.Ipc.Client.History.{Anyhow, Run, submit-frame_id}
use busrt.Protocol.Error.{to_busrt_result}
use busrt.Ipc.Decode.{read_incoming, acked, read_incoming-acked}
use busrt.Protocol.Codes.{op_ack, QoS, needs_ack}
use busrt.Base.{
  get, get-put, ℕ, ◌^◌, ◌<◌, ◌≡◌, refl, ap, ◌∙◌, Bool, true, some, List, [], ◌∷◌, ◌++◌, Bytes,
}

-- The acknowledgement of the frame with the number `id` reaches the client as just that, with the
-- code that the broker gave, whatever follows it on the stream.
ack_frame-arrives :
    (m : Maps) (id code : ℕ) (realtime : Bool) (s : Source)
    → id < 2 ^ 32
    → (w : Bytes) × (encode_frame (ack_frame m (to_le 4 id) code realtime) ≡ some w)
      × (read_incoming (before w s) ≡ acked id code s)
unfolding encode_frame ack_frame to_le
ack_frame-arrives m id code realtime s h = (
  op_ack ∷ (to_le 4 id ++ code ∷ []),
  refl,
  read_incoming-acked _ _ _ _ code _ s
        (read_exact-before 6 (op_ack ∷ (to_le 4 id ++ code ∷ [])) s refl)
      ∙ ap (λ n. acked n code s) (from_le-to_le_u32 id h),
)

-- What a frame with an acknowledgement leaves behind: its channel waits under its id.
submit-awaits :
    (c : Client) (frame : ℕ → Bytes × Bytes) (qos : QoS)
    → needs_ack qos ≡ true
    → let d = submit c frame qos taken taken in
      (d.0 ≡ sent (some c.channels))
      × (get d.1.frame_id d.1.responses ≡ some c.channels)
      × (d.1.confirmed ≡ c.confirmed)
unfolding submit send_frame_and_confirm await_ack send_payload send_data
submit-awaits c frame qos h =
    let id = increment_frame_id c.frame_id in rw h (refl, get-put id c.channels c.responses, refl)

resolve-confirmed :
    (c : Client) (id code ch : ℕ) (s : Source)
    → get id c.responses ≡ some ch
    → (handle_read c (acked id code s)).confirmed ≡ (ch, to_busrt_result code) ∷ c.confirmed
unfolding handle_read resolve
resolve-confirmed c id code ch s h = rw (h, resolve) refl

-- A frame of any kind that a client has written whole, after any history, also with pings that were
-- cancelled in the middle, and whose QoS asks for an
-- acknowledgement, gets a confirmation; the broker's acknowledgement of its id, as the broker's
-- writer encodes it, is read by the client, and just this confirmation comes, with the result that
-- the broker's code stands for.
pub submit-confirmed :
    {c : Client} {fs : List Bytes} (m : Maps) (frame : ℕ → Bytes × Bytes) (qos : QoS) (code : ℕ)
    (realtime : Bool) (s : Source)
    → Run Anyhow c fs
    → needs_ack qos ≡ true
    → let d = submit c frame qos taken taken in
      (d.0 ≡ sent (some c.channels))
      × (w : Bytes) × (encode_frame (ack_frame m (to_le 4 d.1.frame_id) code realtime) ≡ some w)
      × ((handle_read d.1 (read_incoming (before w s))).confirmed
          ≡ (c.channels, to_busrt_result code) ∷ c.confirmed)
submit-confirmed {c = c} m frame qos code realtime s r h =
    let d = (submit c frame qos taken taken).1 in
    let k = submit-awaits c frame qos h in
    let a =
      ack_frame-arrives m d.frame_id code realtime s (submit-frame_id frame qos taken taken r).1 in
    (
      k.0,
      a.0,
      a.1,
      ap (λ i. (handle_read d i).confirmed) a.2
          ∙ resolve-confirmed d d.frame_id code c.channels s k.1
          ∙ ap (λ t. (c.channels, to_busrt_result code) ∷ t) k.2,
    )
