-- ===== src/Ipc/Client/History.antt =====
-- A client's connection over time: what it has written stays a sequence of whole frames for as long
-- as the client takes itself for connected.
use busrt.Protocol.Codes.{no_qos}
use busrt.Protocol.Codes.{needs_ack, QoS, ping_frame}
use busrt.Ipc.Encode.{increment_frame_id}
use busrt.Ipc.Decode.{Incoming, waiting, failed, skipped, acked, arrived}
use busrt.Protocol.Error.{Error}
use busrt.Ipc.Client.{
  drop_receiver, sent, WriteEnd, taken, broken, timed_out, cancelled, Client, new, send_data,
  await_ack, send_payload, send_frame_and_confirm, submit, ping, resolve, handle_read, drop_client,
}
use busrt.Base.{
  get, ℕ, ◌^◌, ◌≤◌, ◌<◌, ◌≡◌, refl, sym, ap, ◌∙◌, subst, ◌≢◌, true, false, Option, none, some, List,
  [], ◌∷◌, ◌++◌, append-nil, append_assoc, arith, Bytes, take,
}

abbrev pub bytes_of : Bytes × Bytes → Bytes
bytes_of (buf, payload) = buf ++ payload

abbrev pub concat : List Bytes → Bytes
concat [] = []
concat (f ∷ fs) = f ++ concat fs

-- A ping that is not cancelled in the middle.
pub data IsKept : WriteEnd → Type 0 where
  kept_taken : IsKept taken
  kept_broken : {e : Error} {k : ℕ} → IsKept (broken e k)
  kept_timed_out : {k : ℕ} → IsKept (timed_out k)

-- Any ping
abbrev pub Anyhow : WriteEnd → Type 0
Anyhow w = Unit {0}

-- The client after some calls, with pings whose writes end as `Pings` says, and the frames that these
-- were to send, in order.
pub data Run (Pings : WriteEnd → Type 0) : Client → List Bytes → Type 0 where
  begins : Run Pings new []
  submits :
      {c : Client} {fs : List Bytes} (frame : ℕ → Bytes × Bytes) (qos : QoS) (w1 w2 : WriteEnd)
      → Run Pings c fs
      → Run Pings
          (submit c frame qos w1 w2).1
          (fs ++ bytes_of (frame (increment_frame_id c.frame_id)) ∷ [])
  pings :
      {c : Client} {fs : List Bytes} (w : WriteEnd)
      → Pings w
      → Run Pings c fs
      → Run Pings (ping c w).1 (fs ++ ping_frame ∷ [])
  hears :
      {c : Client} {fs : List Bytes} (i : Incoming)
      → c.is_reading ≡ true
      → Run Pings c fs
      → Run Pings (handle_read c i) fs
  drops : {c : Client} {fs : List Bytes} → Run Pings c fs → Run Pings (drop_client c) fs
  stops_receiving : {c : Client} {fs : List Bytes} → Run Pings c fs → Run Pings (drop_receiver c) fs

pub concat-append_one : (fs : List Bytes) (f : Bytes) → concat (fs ++ f ∷ []) ≡ concat fs ++ f
concat-append_one [] f = append-nil f
concat-append_one (g ∷ fs) f =
    ap (◌++◌ g) (concat-append_one fs f) ∙ sym (append_assoc g (concat fs) f)

await_ack-output : (c : Client) (qos : QoS) → (await_ack c qos).1.output ≡ c.output
unfolding await_ack
await_ack-output c qos = ground arith

await_ack-connected : (c : Client) (qos : QoS) → (await_ack c qos).1.connected ≡ c.connected
unfolding await_ack
await_ack-connected c qos = ground arith

-- A client that is still connected after it was to send this frame has sent all of it.
IsSent : Client → Bytes → Client → Type 0
IsSent c f d = (d.connected ≡ true) → (c.connected ≡ true) × (d.output ≡ c.output ++ f)

send_payload-IsSent :
    (rx : Option ℕ) (c : Client) (buf payload : Bytes) (w1 w2 : WriteEnd)
    → IsSent c (buf ++ payload) (send_payload rx (send_data c buf w1) payload w2).1
unfolding IsSent send_payload send_data
send_payload-IsSent rx c buf payload taken taken h = (h, append_assoc c.output buf payload)
send_payload-IsSent rx c buf payload taken (broken e k) h = absurd (ground arith)
send_payload-IsSent rx c buf payload taken (timed_out k) h = absurd (ground arith)
send_payload-IsSent rx c buf payload taken (cancelled k) h = absurd (ground arith)
send_payload-IsSent rx c buf payload (broken e k) w2 h = absurd (ground arith)
send_payload-IsSent rx c buf payload (timed_out k) w2 h = absurd (ground arith)
send_payload-IsSent rx c buf payload (cancelled k) w2 h = absurd (ground arith)

submit-IsSent :
    (c : Client) (frame : ℕ → Bytes × Bytes) (qos : QoS) (w1 w2 : WriteEnd)
    → IsSent c (bytes_of (frame (increment_frame_id c.frame_id))) (submit c frame qos w1 w2).1
unfolding IsSent submit send_frame_and_confirm
submit-IsSent c frame qos w1 w2 h =
    let id = increment_frame_id c.frame_id in
    let d : Client = record c { frame_id = id } in
    let s =
      send_payload-IsSent (await_ack d qos).0 (await_ack d qos).1 (frame id).0 (frame id).1 w1 w2
        h in
    (
      sym (await_ack-connected d qos) ∙ s.0,
      s.1 ∙ ap (λ o. o ++ bytes_of (frame id)) (await_ack-output d qos),
    )

ping-IsSent : (c : Client) (w : WriteEnd) → IsKept w → IsSent c ping_frame (ping c w).1
unfolding IsSent ping send_data
ping-IsSent c taken k h = (h, refl)
ping-IsSent c (broken e n) k h = absurd (ground arith)
ping-IsSent c (timed_out n) k h = absurd (ground arith)
ping-IsSent c (cancelled n) k h = elim k [ ]

resolve-output :
    (c : Client) (id code : ℕ) (o : Option ℕ)
    → ((resolve c id code o).connected ≡ c.connected) × ((resolve c id code o).output ≡ c.output)
unfolding resolve
resolve-output c id code none = (refl, refl)
resolve-output c id code (some ch) = (refl, refl)

handle_read-output :
    (c : Client) (i : Incoming)
    → (handle_read c i).connected ≡ true
    → (c.connected ≡ true) × ((handle_read c i).output ≡ c.output)
unfolding handle_read resolve
handle_read-output c waiting h = (h, refl)
handle_read-output c (failed e) h = absurd (ground arith)
handle_read-output c (skipped s) h = (h, refl)
handle_read-output c (acked id code s) h =
    let k = resolve-output c id code (get id c.responses) in (sym k.0 ∙ h, k.1)
handle_read-output c (arrived f s) h = ground arith

sent_whole :
    (c d : Client) (fs : List Bytes) (f : Bytes)
    → IsSent c f d
    → (c.connected ≡ true → c.output ≡ concat fs)
    → d.connected ≡ true
    → d.output ≡ concat (fs ++ f ∷ [])
unfolding IsSent
sent_whole c d fs f s k h = (s h).1 ∙ ap (λ o. o ++ f) (k (s h).0) ∙ sym (concat-append_one fs f)

-- After any history of calls with frames of any kind, of pings, of frames and acknowledgements from
-- the broker and of the end of the reader, with writes that fail, time out or are cancelled anywhere,
-- but no ping cancelled in the middle: if the client takes itself for connected, the bytes that it
-- has written are the frames of all the calls and pings, whole and in their order.
pub Run-output :
    {c : Client} {fs : List Bytes} → Run IsKept c fs → c.connected ≡ true → c.output ≡ concat fs
unfolding drop_client drop_receiver
Run-output begins h = refl
Run-output (submits {c = c} {fs = fs} frame qos w1 w2 r) h =
    sent_whole c _ fs _ (submit-IsSent c frame qos w1 w2) (Run-output r) h
Run-output (pings {c = c} {fs = fs} w k r) h =
    sent_whole c _ fs _ (ping-IsSent c w k) (Run-output r) h
Run-output (hears {c = c} {fs = fs} i e r) h =
    let s = handle_read-output c i h in s.1 ∙ Run-output r s.0
Run-output (drops r) h = Run-output r h
Run-output (stops_receiving r) h = Run-output r h

increment_frame_id-bounds :
    (n : ℕ)
    → n < 2 ^ 32
    → (1 ≤ increment_frame_id n) × (increment_frame_id n < 2 ^ 32) × (increment_frame_id n ≢ n)
unfolding increment_frame_id
increment_frame_id-bounds n h = ground arith

await_ack-frame_id : (c : Client) (qos : QoS) → (await_ack c qos).1.frame_id ≡ c.frame_id
unfolding await_ack
await_ack-frame_id c qos = ground arith

send_payload-frame_id :
    (rx : Option ℕ) (c : Client) (buf payload : Bytes) (w1 w2 : WriteEnd)
    → (send_payload rx (send_data c buf w1) payload w2).1.frame_id ≡ c.frame_id
unfolding send_payload send_data
send_payload-frame_id rx c buf payload taken taken = refl
send_payload-frame_id rx c buf payload taken w2 = elim w2 [
  | taken ↦ refl
  | broken e k ↦ refl
  | timed_out k ↦ refl
  | cancelled k ↦ refl
]
send_payload-frame_id rx c buf payload w1 w2 = refl

submit-frame_id_lem :
    (c : Client) (frame : ℕ → Bytes × Bytes) (qos : QoS) (w1 w2 : WriteEnd)
    → (submit c frame qos w1 w2).1.frame_id ≡ increment_frame_id c.frame_id
unfolding submit send_frame_and_confirm
submit-frame_id_lem c frame qos w1 w2 =
    let id = increment_frame_id c.frame_id in
    let d : Client = record c { frame_id = id } in
    send_payload-frame_id (await_ack d qos).0 (await_ack d qos).1 (frame id).0 (frame id).1 w1 w2
    ∙ await_ack-frame_id d qos

ping-frame_id : (c : Client) (w : WriteEnd) → (ping c w).1.frame_id ≡ c.frame_id
unfolding ping send_data
ping-frame_id c taken = refl
ping-frame_id c w = refl

resolve-frame_id :
    (c : Client) (id code : ℕ) (o : Option ℕ) → (resolve c id code o).frame_id ≡ c.frame_id
unfolding resolve
resolve-frame_id c id code none = refl
resolve-frame_id c id code (some ch) = refl

handle_read-frame_id : (c : Client) (i : Incoming) → (handle_read c i).frame_id ≡ c.frame_id
unfolding handle_read
handle_read-frame_id c (acked id code s) = resolve-frame_id c id code (get id c.responses)
handle_read-frame_id c waiting = refl
handle_read-frame_id c (arrived f s) = ground arith
handle_read-frame_id c i = refl

Run-frame_id :
    {Pings : WriteEnd → Type 0} {c : Client} {fs : List Bytes}
    → Run Pings c fs
    → c.frame_id < 2 ^ 32
unfolding drop_client drop_receiver
Run-frame_id begins = omega arith
Run-frame_id (submits {c = c} frame qos w1 w2 r) =
    let b = increment_frame_id-bounds c.frame_id (Run-frame_id r) in
    subst (λ n. n < 2 ^ 32) (sym (submit-frame_id_lem c frame qos w1 w2)) b.1
Run-frame_id (pings {c = c} w k r) =
    subst (λ n. n < 2 ^ 32) (sym (ping-frame_id c w)) (Run-frame_id r)
Run-frame_id (hears {c = c} i e r) =
    subst (λ n. n < 2 ^ 32) (sym (handle_read-frame_id c i)) (Run-frame_id r)
Run-frame_id (drops r) = Run-frame_id r
Run-frame_id (stops_receiving r) = Run-frame_id r

-- After any history, also with pings that are cancelled in the middle, the next frame's id is a u32,
-- is not zero, and is not the id of the frame before it, also where the ids start over.
pub submit-frame_id :
    {c : Client} {fs : List Bytes} (frame : ℕ → Bytes × Bytes) (qos : QoS) (w1 w2 : WriteEnd)
    → Run Anyhow c fs
    → let id = (submit c frame qos w1 w2).1.frame_id in (1 ≤ id) × (id < 2 ^ 32) × (id ≢ c.frame_id)
submit-frame_id {c = c} frame qos w1 w2 r =
    subst (λ id. (1 ≤ id) × (id < 2 ^ 32) × (id ≢ c.frame_id))
      (sym (submit-frame_id_lem c frame qos w1 w2))
      (increment_frame_id-bounds c.frame_id (Run-frame_id r))

-- A frame whose payload times out after some bytes, of a connected client, disconnects it, but the
-- next frame, of any kind, is still written, in the place of the missing bytes, and answered with
-- success where it needs no acknowledgement.
pub submit-timed_out :
    (c : Client) (frame next : ℕ → Bytes × Bytes) (k : ℕ)
    → let d = (submit c frame no_qos taken (timed_out k)).1 in
      let first = frame (increment_frame_id c.frame_id) in
      let second = next (increment_frame_id d.frame_id) in
      (d.connected ≡ false)
      × ((submit d next no_qos taken taken).0 ≡ sent none)
      × ((submit d next no_qos taken taken).1.output
          ≡ ((c.output ++ first.0) ++ take k first.1) ++ second.0 ++ second.1)
unfolding submit send_frame_and_confirm await_ack send_payload send_data needs_ack
submit-timed_out c frame next k = (refl, refl, refl)

-- A ping that is cancelled after some bytes leaves a connected client with a part of a frame in its
-- output.
pub ping-cancelled :
    (c : Client) (k : ℕ)
    → ((ping c (cancelled k)).1.connected ≡ c.connected)
      × ((ping c (cancelled k)).1.output ≡ c.output ++ take k ping_frame)
unfolding ping send_data
ping-cancelled c k = (refl, refl)
