-- ===== src/Ipc/Client/Once.antt =====
-- Confirmations of a client: each comes at most once, and for the frame that it was made for.
use busrt.Protocol.Error.{to_busrt_result}
use busrt.Protocol.Codes.{QoS, needs_ack}
use busrt.Protocol.Waiting.{IsOnce, none-IsOnce, waits-IsOnce, answers-IsOnce}
use busrt.Ipc.Encode.{increment_frame_id}
use busrt.Ipc.Decode.{Incoming, waiting, failed, skipped, acked, arrived}
use busrt.Ipc.Client.{
  drop_receiver, WriteEnd, taken, broken, Client, send_data, await_ack, send_payload,
  send_frame_and_confirm, submit, ping, resolve, handle_read, drop_client,
}
use busrt.Ipc.Client.History.{Anyhow, Run, begins, submits, pings, hears, drops, stops_receiving}
use busrt.Base.{get, ℕ, ◌≡◌, refl, inl, inr, Option, none, some, List, Bool-cases, Bytes}

abbrev pub ConfirmsOnce : Client → Type 0
ConfirmsOnce c = IsOnce c.responses c.channels c.confirmed

-- What ConfirmsOnce reads of a client
HasSame : Client → Client → Type 0
HasSame c d = (d.responses ≡ c.responses) × (d.channels ≡ c.channels) × (d.confirmed ≡ c.confirmed)

ConfirmsOnce-HasSame : (c d : Client) → HasSame c d → ConfirmsOnce c → ConfirmsOnce d
unfolding HasSame
ConfirmsOnce-HasSame c d (er, en, ec) o = rw (er, en, ec) o

await_ack-ConfirmsOnce :
    (c : Client) (qos : QoS) → ConfirmsOnce c → ConfirmsOnce (await_ack c qos).1
unfolding await_ack
await_ack-ConfirmsOnce c qos o = elim (Bool-cases (needs_ack qos)) [
  | inl h ↦ rw (h, await_ack) (waits-IsOnce c.responses c.channels c.confirmed c.frame_id o)
  | inr h ↦ rw (h, await_ack) o
]

send_payload-HasSame :
    (rx : Option ℕ) (c : Client) (buf payload : Bytes) (w1 w2 : WriteEnd)
    → HasSame c (send_payload rx (send_data c buf w1) payload w2).1
unfolding HasSame send_payload send_data
send_payload-HasSame rx c buf payload taken taken = (refl, refl, refl)
send_payload-HasSame rx c buf payload taken w2 = (refl, refl, refl)
send_payload-HasSame rx c buf payload (broken e k) w2 = (refl, refl, refl)
send_payload-HasSame rx c buf payload w1 w2 = (refl, refl, refl)

submit-ConfirmsOnce :
    (c : Client) (frame : ℕ → Bytes × Bytes) (qos : QoS) (w1 w2 : WriteEnd)
    → ConfirmsOnce c
    → ConfirmsOnce (submit c frame qos w1 w2).1
unfolding submit send_frame_and_confirm HasSame
submit-ConfirmsOnce c frame qos w1 w2 o =
    let id = increment_frame_id c.frame_id in
    let d : Client = record c { frame_id = id } in
    ConfirmsOnce-HasSame (await_ack d qos).1 (submit c frame qos w1 w2).1
      (send_payload-HasSame (await_ack d qos).0 (await_ack d qos).1 (frame id).0 (frame id).1 w1 w2)
      (await_ack-ConfirmsOnce d qos o)

ping-HasSame : (c : Client) (w : WriteEnd) → HasSame c (ping c w).1
unfolding HasSame ping send_data
ping-HasSame c taken = (refl, refl, refl)
ping-HasSame c w = (refl, refl, refl)

resolve-ConfirmsOnce :
    (c : Client) (id code : ℕ) (o : Option ℕ)
    → get id c.responses ≡ o
    → ConfirmsOnce c
    → ConfirmsOnce (resolve c id code o)
unfolding resolve
resolve-ConfirmsOnce c id code none e o = o
resolve-ConfirmsOnce c id code (some ch) e o =
    answers-IsOnce c.responses c.channels c.confirmed id ch (to_busrt_result code) e o

handle_read-ConfirmsOnce :
    (c : Client) (i : Incoming) → ConfirmsOnce c → ConfirmsOnce (handle_read c i)
unfolding handle_read HasSame
handle_read-ConfirmsOnce c (acked id code s) o =
    resolve-ConfirmsOnce c id code (get id c.responses) refl o
handle_read-ConfirmsOnce c waiting o = o
handle_read-ConfirmsOnce c (failed e) o = o
handle_read-ConfirmsOnce c (skipped s) o = o
handle_read-ConfirmsOnce c (arrived f s) o = elim (Bool-cases c.has_receiver) [
  | inl h ↦ rw (h, handle_read) o
  | inr h ↦ rw (h, handle_read) o
]

-- In every history of a client, with writes that fail, time out or are cancelled anywhere, also in
-- the middle of a ping, and with whatever acknowledgements from the broker, wanted or not: no
-- confirmation comes twice, none comes for a channel that was not made, a channel that still waits
-- has got nothing, and no two frames wait on the same channel.
pub Run-ConfirmsOnce : {c : Client} {fs : List Bytes} → Run Anyhow c fs → ConfirmsOnce c
unfolding drop_client drop_receiver HasSame get
Run-ConfirmsOnce begins = none-IsOnce
Run-ConfirmsOnce (submits {c = c} frame qos w1 w2 r) =
    submit-ConfirmsOnce c frame qos w1 w2 (Run-ConfirmsOnce r)
Run-ConfirmsOnce (pings {c = c} w k r) =
    ConfirmsOnce-HasSame c (ping c w).1 (ping-HasSame c w) (Run-ConfirmsOnce r)
Run-ConfirmsOnce (hears {c = c} i e r) = handle_read-ConfirmsOnce c i (Run-ConfirmsOnce r)
Run-ConfirmsOnce (drops {c = c} r) = (Run-ConfirmsOnce r)
Run-ConfirmsOnce (stops_receiving r) = Run-ConfirmsOnce r
