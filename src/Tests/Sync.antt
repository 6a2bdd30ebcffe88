-- ===== src/Tests/Sync.antt =====
-- The synchronous clients at concrete inputs: a frame that is acknowledged, a ping that breaks, a
-- frame on the closed socket; a call that waits while a notification is to go out.
use busrt.Wire.LittleEndian.{from_le}
use busrt.Protocol.Codes.{frame_kind_of}
use busrt.Wire.Source.{read_exact, Source, closed, stalled}
use busrt.Protocol.Error.{ok, Error, io, error_bare, timeout}
use busrt.Protocol.Codes.{message, processed, no_qos, needs_ack, ping_frame}
use busrt.Protocol.Waiting.{count}
use busrt.Ipc.Encode.{target_frame}
use busrt.Ipc.Decode
use busrt.Ipc.Decode.{acked, failed, waiting}
use busrt.Ipc.Client.History.{bytes_of, concat}
use busrt.Sync.Incoming.{read_incoming, read_incoming-Agree}
use busrt.Sync.Client.{Client, new, taken, broken, submit, ping, increment_frame_id, handle_read}
use busrt.Sync.Client.History.{Run, begins, submits, pings, hears, IsFront, Run-IsFront}
use busrt.Sync.Client.Once.{submit-forsaken}
use busrt.Base.{get, put, ℕ, ◌≡◌, refl, ◌⊎◌, some, List, [], ◌∷◌, Bytes, codes}

abbrev frame : ℕ → Bytes × Bytes
frame id = target_frame id message processed (codes "b") (1 ∷ 2 ∷ [])

abbrev nothing : Source
nothing = record { bytes = []; tail = closed }

abbrev failure : Error
failure = error_bare io

abbrev acknowledged : Client
acknowledged = handle_read (submit new frame processed taken taken).1 (acked 1 1 nothing)

abbrev broken_off : Client
broken_off = (ping acknowledged (broken failure 3)).1

abbrev afterwards : Client
afterwards = (submit broken_off frame no_qos (broken failure 0) (broken failure 0)).1

abbrev frames : List Bytes
frames = bytes_of (frame 1) ∷ ping_frame ∷ bytes_of (frame 2) ∷ []

client-Run : Run new afterwards frames
unfolding submit increment_frame_id needs_ack ping handle_read get put
client-Run =
    submits frame no_qos (broken failure 0) (broken failure 0) (λ e. refl) (λ e. refl)
      (pings (broken failure 3) (λ e. absurd (cc e))
        (hears (acked 1 1 nothing) refl
          (submits frame processed taken taken (λ e. absurd (cc e)) (λ e. absurd (cc e)) begins)))

Run-IsFront_example : IsFront afterwards (concat frames)
Run-IsFront_example = Run-IsFront client-Run

-- The reader ends on the closed stream; then a frame is sent, and an acknowledgement of it could
-- still come.
abbrev deaf : Client
deaf = handle_read new (failed failure)

abbrev deaf_sent : Client
deaf_sent = (submit deaf frame processed taken taken).1

submit-forsaken_example :
    ((submit deaf frame processed taken taken).0 ≡ ok (some 0))
    × (count 0 (ping deaf_sent taken).1.confirmed ≡ 0)
unfolding submit handle_read needs_ack
submit-forsaken_example =
    submit-forsaken frame processed (hears (failed failure) refl begins) refl refl
      (pings taken (λ e. absurd (cc e)) begins)

-- A message whose sender and payload do not come
abbrev half : Source
half = record { bytes = 0x12 ∷ 9 ∷ 0 ∷ 0 ∷ 0 ∷ 0 ∷ b'a' ∷ []; tail = stalled }

read_incoming-Agree_example :
    (read_incoming half ≡ Decode.read_incoming half)
    ⊎ ((half.tail ≡ stalled)
        × (read_incoming half ≡ waiting)
        × (Decode.read_incoming half ≡ failed (error_bare timeout)))
read_incoming-Agree_example = read_incoming-Agree half

half-waiting : read_incoming half ≡ waiting
unfolding read_incoming read_exact frame_kind_of from_le
half-waiting = refl
