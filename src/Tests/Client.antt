-- ===== src/Tests/Client.antt =====
-- A client's connection: a message that is acknowledged, and a ping.
use busrt.Protocol.Error.{to_busrt_result}
use busrt.Wire.Source.{Source, closed, before}
use busrt.Wire.LittleEndian.{to_le}
use busrt.Protocol.Error.{ok}
use busrt.Protocol.Codes.{message, processed, needs_ack, ping_frame}
use busrt.Broker.Dispatch.{ack_frame}
use busrt.Broker.Writer.{encode_frame}
use busrt.Ipc.Encode.{target_frame, increment_frame_id}
use busrt.Ipc.Decode.{read_incoming, acked}
use busrt.Ipc.Client.{Client, new, taken, cancelled, sent, submit, ping, handle_read}
use busrt.Ipc.Client.History.{
  IsKept, Anyhow, Run, begins, submits, pings, hears, kept_taken, concat, bytes_of, Run-output,
  submit-frame_id,
}
use busrt.Ipc.Client.Once.{ConfirmsOnce, Run-ConfirmsOnce}
use busrt.Transport.Confirm.{submit-confirmed}
use busrt.Tests.Maps.{exact_maps}
use busrt.Base.{
  get, put, ℕ, ◌^◌, ◌≤◌, ◌<◌, ◌≡◌, refl, ◌≢◌, false, some, List, [], ◌∷◌, Bytes, codes,
}

abbrev frame : ℕ → Bytes × Bytes
frame id = target_frame id message processed (codes "b") (1 ∷ 2 ∷ [])

abbrev nothing : Source
nothing = record { bytes = []; tail = closed }

abbrev after_send : Client
after_send = (submit new frame processed taken taken).1

abbrev after_ack : Client
after_ack = handle_read after_send (acked 1 1 nothing)

abbrev after_ping : Client
after_ping = (ping after_ack taken).1

abbrev frames : List Bytes
frames = bytes_of (frame 1) ∷ ping_frame ∷ []

client-Run : Run IsKept after_ping frames
unfolding submit increment_frame_id needs_ack
client-Run =
    pings taken kept_taken
      (hears (acked 1 1 nothing) refl (submits frame processed taken taken begins))

-- The same, and a ping of which one byte went out before it was cancelled
abbrev after_cancel : Client
after_cancel = (ping after_ping (cancelled 1)).1

cancelled-Run : Run Anyhow after_cancel (bytes_of (frame 1) ∷ ping_frame ∷ ping_frame ∷ [])
unfolding submit increment_frame_id needs_ack
cancelled-Run =
    pings (cancelled 1) tt
      (pings taken tt (hears (acked 1 1 nothing) refl (submits frame processed taken taken begins)))

Run-output_example : after_ping.output ≡ concat frames
unfolding submit handle_read ping get needs_ack put
Run-output_example = Run-output client-Run refl

submit-frame_id_example :
    let id = (submit after_cancel frame processed taken taken).1.frame_id in
    (1 ≤ id) × (id < 2 ^ 32) × (id ≢ after_cancel.frame_id)
submit-frame_id_example = submit-frame_id frame processed taken taken cancelled-Run

Run-ConfirmsOnce_example : ConfirmsOnce after_cancel
Run-ConfirmsOnce_example = Run-ConfirmsOnce cancelled-Run

submit-confirmed_example :
    let d = submit after_cancel frame processed taken taken in
    (d.0 ≡ sent (some after_cancel.channels))
    × (w : Bytes) × (encode_frame (ack_frame exact_maps (to_le 4 d.1.frame_id) 1 false) ≡ some w)
    × ((handle_read d.1 (read_incoming (before w nothing))).confirmed
        ≡ (after_cancel.channels, ok tt) ∷ after_cancel.confirmed)
unfolding to_busrt_result needs_ack
submit-confirmed_example =
    submit-confirmed exact_maps frame processed 1 false nothing cancelled-Run refl
