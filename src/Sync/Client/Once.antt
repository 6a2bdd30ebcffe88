-- ===== src/Sync/Client/Once.antt =====
-- Confirmations of a synchronous client: each comes at most once, and none once the reader has
-- ended.
use busrt.Protocol.Codes.{ping_frame}
use busrt.Protocol.Error.{ok, to_busrt_result}
use busrt.Protocol.Codes.{QoS, needs_ack}
use busrt.Protocol.Waiting.{IsOnce, count, none-IsOnce, waits-IsOnce, answers-IsOnce}
use busrt.Ipc.Decode.{Incoming, waiting, failed, skipped, acked, arrived}
use busrt.Sync.Client.{
  WriteEnd, taken, broken, Client, new, send_data, await_ack, send_payload, send_frame_and_confirm,
  increment_frame_id, submit, ping, take_event_channel, drop_receiver, drop_client, resolve,
  handle_read,
}
use busrt.Sync.Client.History.{
  Run, begins, submits, pings, hears, takes_channel, stops_receiving, drops,
}
use busrt.Base.{
  get, ℕ, ◌≡◌, refl, ap, ◌∙◌, inl, inr, true, false, Option, none, some, List, arith, Bool-cases,
  Bytes,
}

abbrev pub ConfirmsOnce : Client → Type 0
ConfirmsOnce c = IsOnce c.responses c.channels c.confirmed

-- What ConfirmsOnce reads of a client, and whether its reader runs
HasSame : Client → Client → Type 0
HasSame c d =
    (d.responses ≡ c.responses)
    × (d.channels ≡ c.channels)
    × (d.confirmed ≡ c.confirmed)
    × (d.is_reading ≡ c.is_reading)

ConfirmsOnce-HasSame : (c d : Client) → HasSame c d → ConfirmsOnce c → ConfirmsOnce d
unfolding HasSame
ConfirmsOnce-HasSame c d (er, en, ec, _) o = rw (er, en, ec) o

await_ack-ConfirmsOnce :
    (c : Client) (qos : QoS) → ConfirmsOnce c → ConfirmsOnce (await_ack c qos).1
unfolding await_ack
await_ack-ConfirmsOnce c qos o = elim (Bool-cases (needs_ack qos)) [
  | inl h ↦ rw (h, await_ack) (waits-IsOnce c.responses c.channels c.confirmed c.frame_id o)
  | inr h ↦ rw (h, await_ack) o
]

send_data-HasSame : (c : Client) (b : Bytes) (w : WriteEnd) → HasSame c (send_data c b w).1
unfolding HasSame send_data
send_data-HasSame c b taken = (refl, refl, refl, refl)
send_data-HasSame c b (broken e k) = (refl, refl, refl, refl)

send_payload-HasSame :
    (rx : Option ℕ) (c : Client) (buf payload : Bytes) (w1 w2 : WriteEnd)
    → HasSame c (send_payload rx (send_data c buf w1) payload w2).1
unfolding HasSame send_payload send_data
send_payload-HasSame rx c buf payload taken taken = (refl, refl, refl, refl)
send_payload-HasSame rx c buf payload taken (broken e k) = (refl, refl, refl, refl)
send_payload-HasSame rx c buf payload (broken e k) w2 = (refl, refl, refl, refl)

submit-ConfirmsOnce :
    (c : Client) (frame : ℕ → Bytes × Bytes) (qos : QoS) (w1 w2 : WriteEnd)
    → ConfirmsOnce c
    → ConfirmsOnce (submit c frame qos w1 w2).1
unfolding submit send_frame_and_confirm
submit-ConfirmsOnce c frame qos w1 w2 o =
    let id = increment_frame_id c.frame_id in
    let d : Client = record c { frame_id = id } in
    ConfirmsOnce-HasSame (await_ack d qos).1 (submit c frame qos w1 w2).1
      (send_payload-HasSame (await_ack d qos).0 (await_ack d qos).1 (frame id).0 (frame id).1 w1 w2)
      (await_ack-ConfirmsOnce d qos o)

resolve-ConfirmsOnce :
    (c : Client) (id code : ℕ) (o : Option ℕ)
    → get id c.responses ≡ o
    → ConfirmsOnce c
    → ConfirmsOnce (resolve c id code o)
unfolding resolve
resolve-ConfirmsOnce c id code none e o = o
resolve-ConfirmsOnce c id code (some ch) e o =
    answers-IsOnce c.responses c.channels c.confirmed id ch (to_busrt_result code) e o

handle_read-ConfirmsOnce :
    (c : Client) (i : Incoming) → ConfirmsOnce c → ConfirmsOnce (handle_read c i)
unfolding handle_read
handle_read-ConfirmsOnce c (acked id code s) o =
    resolve-ConfirmsOnce c id code (get id c.responses) refl o
handle_read-ConfirmsOnce c waiting o = o
handle_read-ConfirmsOnce c (failed e) o = o
handle_read-ConfirmsOnce c (skipped s) o = o
handle_read-ConfirmsOnce c (arrived f s) o = elim (Bool-cases c.has_receiver) [
  | inl h ↦ rw (h, handle_read) o
  | inr h ↦ rw (h, handle_read) o
]

-- In every history of a synchronous client, with whatever acknowledgements its reader reads: no
-- confirmation comes twice, none comes for a channel that was not made, a channel that still waits
-- has got nothing, and no two frames wait on the same channel.
pub Run-ConfirmsOnce : {c : Client} {fs : List Bytes} → Run new c fs → ConfirmsOnce c
unfolding ping take_event_channel drop_receiver drop_client
Run-ConfirmsOnce begins = none-IsOnce
Run-ConfirmsOnce (submits {c = c} frame qos w1 w2 o1 o2 r) =
    submit-ConfirmsOnce c frame qos w1 w2 (Run-ConfirmsOnce r)
Run-ConfirmsOnce (pings {c = c} w o r) =
    ConfirmsOnce-HasSame c (ping c w).1 (send_data-HasSame c ping_frame w) (Run-ConfirmsOnce r)
Run-ConfirmsOnce (hears {c = c} i e r) = handle_read-ConfirmsOnce c i (Run-ConfirmsOnce r)
Run-ConfirmsOnce (takes_channel r) = Run-ConfirmsOnce r
Run-ConfirmsOnce (stops_receiving r) = Run-ConfirmsOnce r
Run-ConfirmsOnce (drops r) = Run-ConfirmsOnce r

-- Nothing was sent on a channel, and the reader does not run.
abbrev HasEnded : Client → Client → Type 0
HasEnded c d = (d.confirmed ≡ c.confirmed) × (d.is_reading ≡ false)

await_ack-HasEnded :
    (c : Client) (qos : QoS)
    → ((await_ack c qos).1.confirmed ≡ c.confirmed)
      × ((await_ack c qos).1.is_reading ≡ c.is_reading)
unfolding await_ack
await_ack-HasEnded c qos = elim (Bool-cases (needs_ack qos)) [
  | inl h ↦ rw (h, await_ack) (refl, refl)
  | inr h ↦ rw (h, await_ack) (refl, refl)
]

submit-HasEnded :
    (c : Client) (frame : ℕ → Bytes × Bytes) (qos : QoS) (w1 w2 : WriteEnd)
    → c.is_reading ≡ false
    → HasEnded c (submit c frame qos w1 w2).1
unfolding submit send_frame_and_confirm HasSame
submit-HasEnded c frame qos w1 w2 e =
    let id = increment_frame_id c.frame_id in
    let d : Client = record c { frame_id = id } in
    let a = await_ack-HasEnded d qos in
    let s =
      send_payload-HasSame (await_ack d qos).0 (await_ack d qos).1 (frame id).0 (frame id).1 w1
        w2 in
    (s.2 ∙ a.0, s.3 ∙ a.1 ∙ e)

Run-HasEnded : {a c : Client} {fs : List Bytes} → a.is_reading ≡ false → Run a c fs → HasEnded a c
unfolding ping take_event_channel drop_receiver drop_client HasSame
Run-HasEnded e begins = (refl, e)
Run-HasEnded e (submits {c = c} frame qos w1 w2 o1 o2 r) =
    let h = Run-HasEnded e r in let s = submit-HasEnded c frame qos w1 w2 h.1 in (s.0 ∙ h.0, s.1)
Run-HasEnded e (pings {c = c} w o r) =
    let h = Run-HasEnded e r in let s = send_data-HasSame c ping_frame w in (s.2 ∙ h.0, s.3 ∙ h.1)
Run-HasEnded e (hears i on r) = absurd (let h = (Run-HasEnded e r).1 in ground arith)
Run-HasEnded e (takes_channel r) = Run-HasEnded e r
Run-HasEnded e (stops_receiving r) = Run-HasEnded e r
Run-HasEnded e (drops r) = Run-HasEnded e r

submit-sent :
    (c : Client) (frame : ℕ → Bytes × Bytes) (qos : QoS)
    → needs_ack qos ≡ true
    → (submit c frame qos taken taken).0 ≡ ok (some c.channels)
unfolding submit send_frame_and_confirm await_ack send_payload send_data
submit-sent c frame qos h = rw (h, await_ack) refl

-- Once the reader has ended, after any history, a frame that is written whole and asks for an
-- acknowledgement is still answered with success and a confirmation to wait for, and whatever
-- happens to the client from then on, nothing ever comes on it.
pub submit-forsaken :
    {c d : Client} {fs gs : List Bytes} (frame : ℕ → Bytes × Bytes) (qos : QoS)
    → Run new c fs
    → c.is_reading ≡ false
    → needs_ack qos ≡ true
    → Run (submit c frame qos taken taken).1 d gs
    → ((submit c frame qos taken taken).0 ≡ ok (some c.channels))
      × (count c.channels d.confirmed ≡ 0)
submit-forsaken {c = c} frame qos r e h s =
    let k = submit-HasEnded c frame qos taken taken e in
    (
      submit-sent c frame qos h,
      ap (count c.channels) ((Run-HasEnded k.1 s).0 ∙ k.0)
          ∙ (Run-ConfirmsOnce r).unmade c.channels (omega arith),
    )
