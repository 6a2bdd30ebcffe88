-- ===== src/Sync/Client/History.antt =====
-- The connection of a synchronous client over time: what it has written never has a hole.
use busrt.Protocol.Codes.{needs_ack, QoS, ping_frame}
use busrt.Protocol.Error.{Result, ok, err}
use busrt.Ipc.Decode.{Incoming, waiting, failed, skipped, acked, arrived}
use busrt.Ipc.Client.History.{bytes_of, concat, concat-append_one}
use busrt.Sync.Client.{put_out, answered_with}
use busrt.Sync.Client.{
  WriteEnd, taken, broken, Client, new, send_data, await_ack, send_payload, send_frame_and_confirm,
  increment_frame_id, submit, ping, take_event_channel, drop_receiver, drop_client, resolve,
  handle_read,
}
use busrt.Base.{
  get, ℕ, ◌≡◌, refl, sym, ap, ◌∙◌, subst, inl, inr, Bool, true, false, Option, none, some, List, [],
  ◌∷◌, ◌++◌, append-nil, append_assoc, arith, Bool-cases, Bytes, take, drop, take-append-drop,
}

-- What a write puts on the socket.
abbrev pub went : Bytes → WriteEnd → Bytes
went b taken = b
went b (broken e k) = take k b

-- A socket that has been shut down takes nothing more.
abbrev pub Obeys : Bool → Bytes → WriteEnd → Type 0
Obeys shut b w = shut ≡ true → went b w ≡ []

-- A client after some calls and after what its reader reads, and the frames that these calls were
-- to send, in order.
pub data Run (a : Client) : Client → List Bytes → Type 0 where
  begins : Run a a []
  submits :
      {c : Client} {fs : List Bytes} (frame : ℕ → Bytes × Bytes) (qos : QoS) (w1 w2 : WriteEnd)
      → Obeys c.is_shut (frame (increment_frame_id c.frame_id)).0 w1
      → Obeys c.is_shut (frame (increment_frame_id c.frame_id)).1 w2
      → Run a c fs
      → Run a
          (submit c frame qos w1 w2).1
          (fs ++ bytes_of (frame (increment_frame_id c.frame_id)) ∷ [])
  pings :
      {c : Client} {fs : List Bytes} (w : WriteEnd)
      → Obeys c.is_shut ping_frame w
      → Run a c fs
      → Run a (ping c w).1 (fs ++ ping_frame ∷ [])
  hears :
      {c : Client} {fs : List Bytes} (i : Incoming)
      → c.is_reading ≡ true
      → Run a c fs
      → Run a (handle_read c i) fs
  takes_channel : {c : Client} {fs : List Bytes} → Run a c fs → Run a (take_event_channel c).1 fs
  stops_receiving : {c : Client} {fs : List Bytes} → Run a c fs → Run a (drop_receiver c) fs
  drops : {c : Client} {fs : List Bytes} → Run a c fs → Run a (drop_client c) fs

-- Of all these bytes, the client has written those in front; `rest` is what is missing, and nothing
-- is while the socket is open.
pub record IsFront (c : Client) (all : Bytes) : Type 0 where
  pub rest : Bytes
  pub front : c.output ++ rest ≡ all
  pub whole : c.is_shut ≡ false → rest ≡ []

-- What IsFront reads of a client
HasSame : Client → Client → Type 0
HasSame c d = (d.output ≡ c.output) × (d.is_shut ≡ c.is_shut)

IsFront-HasSame : (c d : Client) (all : Bytes) → HasSame c d → IsFront c all → IsFront d all
unfolding HasSame
IsFront-HasSame c d all (eo, es) f = record {
  rest = f.rest;
  front = ap (λ o. o ++ f.rest) eo ∙ f.front;
  whole = λ h. f.whole (sym es ∙ h);
}

-- A socket that has been shut down takes nothing of what follows.
IsFront-shut :
    (c d : Client) (all b : Bytes)
    → c.is_shut ≡ true
    → d.is_shut ≡ true
    → d.output ≡ c.output
    → IsFront c all
    → IsFront d (all ++ b)
IsFront-shut c d all b hc hd e f = record {
  rest = f.rest ++ b;
  front =
      ap (λ o. o ++ (f.rest ++ b)) e
      ∙ sym (append_assoc c.output f.rest b)
      ∙ ap (λ a. a ++ b) f.front;
  whole = λ k. absurd (ground arith);
}

-- The bytes `b` of a socket that is open go out up to `r`.
IsFront-open :
    (c d : Client) (all b r : Bytes)
    → c.is_shut ≡ false
    → d.output ++ r ≡ c.output ++ b
    → (d.is_shut ≡ false → r ≡ [])
    → IsFront c all
    → IsFront d (all ++ b)
IsFront-open c d all b r hc e h f = record {
  rest = r;
  front =
      e
      ∙ ap (λ o. o ++ b)
          (sym (append-nil c.output) ∙ ap (λ x. c.output ++ x) (sym (f.whole hc)) ∙ f.front);
  whole = h;
}

send_data-is_shut :
    (c : Client) (b : Bytes) (w : WriteEnd) → c.is_shut ≡ true → (send_data c b w).1.is_shut ≡ true
unfolding send_data
send_data-is_shut c b taken h = h
send_data-is_shut c b (broken e k) h = refl

send_data-output :
    (c : Client) (b : Bytes) (w : WriteEnd) → (send_data c b w).1.output ≡ c.output ++ went b w
unfolding send_data
send_data-output c b taken = refl
send_data-output c b (broken e k) = refl

send_data-open :
    (c : Client) (all b : Bytes) (w : WriteEnd)
    → c.is_shut ≡ false
    → IsFront c all
    → IsFront (send_data c b w).1 (all ++ b)
unfolding send_data
send_data-open c all b taken h f =
    IsFront-open c (send_data c b taken).1 all b [] h (append-nil (c.output ++ b)) (λ k. refl) f
send_data-open c all b (broken e k) h f =
    IsFront-open c (send_data c b (broken e k)).1 all b (drop k b) h
      (append_assoc c.output (take k b) (drop k b) ∙ ap (λ x. c.output ++ x) (take-append-drop k b))
      (λ k. absurd (ground arith)) f

send_data-IsFront :
    (c : Client) (all b : Bytes) (w : WriteEnd)
    → Obeys c.is_shut b w
    → IsFront c all
    → IsFront (send_data c b w).1 (all ++ b)
send_data-IsFront c all b w o f = elim (Bool-cases c.is_shut) [
  | inr h ↦ send_data-open c all b w h f
  | inl h ↦
      IsFront-shut c (send_data c b w).1 all b h (send_data-is_shut c b w h)
        (send_data-output c b w ∙ ap (λ x. c.output ++ x) (o h) ∙ append-nil c.output) f
]

answered_with-client :
    (rx : Option ℕ) (p : Result (Unit {0}) × Client) → (answered_with rx p).1 ≡ p.1
answered_with-client rx (err e, c) = refl
answered_with-client rx (ok _, c) = refl

send_payload-IsFront :
    (rx : Option ℕ) (c : Client) (all buf payload : Bytes) (w1 w2 : WriteEnd)
    → Obeys c.is_shut buf w1
    → Obeys c.is_shut payload w2
    → IsFront c all
    → IsFront (send_payload rx (send_data c buf w1) payload w2).1 (all ++ (buf ++ payload))
unfolding send_payload send_data
send_payload-IsFront rx c all buf payload taken w2 o1 o2 f =
    let d : Client = put_out buf c in
    subst (IsFront (send_payload rx (ok tt, d) payload w2).1) (append_assoc all buf payload) (
      subst (λ e. IsFront e ((all ++ buf) ++ payload))
        (sym (answered_with-client rx (send_data d payload w2)))
        (send_data-IsFront d (all ++ buf) payload w2 o2 (send_data-IsFront c all buf taken o1 f)))
send_payload-IsFront rx c all buf payload (broken e k) w2 o1 o2 f =
    let d : Client = (send_data c buf (broken e k)).1 in
    subst (IsFront d) (append_assoc all buf payload) (
      IsFront-shut d d (all ++ buf) payload refl refl refl
        (send_data-IsFront c all buf (broken e k) o1 f))

await_ack-HasSame : (c : Client) (qos : QoS) → HasSame c (await_ack c qos).1
unfolding await_ack HasSame
await_ack-HasSame c qos = elim (Bool-cases (needs_ack qos)) [
  | inl h ↦ rw (h, await_ack) (refl, refl)
  | inr h ↦ rw (h, await_ack) (refl, refl)
]

submit-IsFront :
    (c : Client) (all : Bytes) (frame : ℕ → Bytes × Bytes) (qos : QoS) (w1 w2 : WriteEnd)
    → Obeys c.is_shut (frame (increment_frame_id c.frame_id)).0 w1
    → Obeys c.is_shut (frame (increment_frame_id c.frame_id)).1 w2
    → IsFront c all
    → IsFront (submit c frame qos w1 w2).1 (all ++ bytes_of (frame (increment_frame_id c.frame_id)))
unfolding submit send_frame_and_confirm HasSame
submit-IsFront c all frame qos w1 w2 o1 o2 f =
    let id = increment_frame_id c.frame_id in
    let d : Client = record c { frame_id = id } in
    let (rx, e) = await_ack d qos in
    let s = await_ack-HasSame d qos in
    send_payload-IsFront rx e all (frame id).0 (frame id).1 w1 w2 (λ h. o1 (sym s.1 ∙ h))
      (λ h. o2 (sym s.1 ∙ h)) (IsFront-HasSame d e all s (IsFront-HasSame c d all (refl, refl) f))

resolve-HasSame : (c : Client) (id code : ℕ) (o : Option ℕ) → HasSame c (resolve c id code o)
unfolding resolve HasSame
resolve-HasSame c id code none = (refl, refl)
resolve-HasSame c id code (some ch) = (refl, refl)

handle_read-HasSame : (c : Client) (i : Incoming) → HasSame c (handle_read c i)
unfolding handle_read HasSame
handle_read-HasSame c (acked id code s) = resolve-HasSame c id code (get id c.responses)
handle_read-HasSame c waiting = (refl, refl)
handle_read-HasSame c (failed e) = (refl, refl)
handle_read-HasSame c (skipped s) = (refl, refl)
handle_read-HasSame c (arrived f s) = elim (Bool-cases c.has_receiver) [
  | inl h ↦ rw (h, handle_read) (refl, refl)
  | inr h ↦ rw (h, handle_read) (refl, refl)
]

drop_client-IsFront : (c : Client) (all : Bytes) → IsFront c all → IsFront (drop_client c) all
unfolding drop_client
drop_client-IsFront c all f = record {
  rest = f.rest;
  front = f.front;
  whole = λ k. absurd (ground arith);
}

concat-IsFront :
    (c : Client) (fs : List Bytes) (f : Bytes)
    → IsFront c (concat fs ++ f)
    → IsFront c (concat (fs ++ f ∷ []))
concat-IsFront c fs f = subst (IsFront c) (sym (concat-append_one fs f))

-- After any history of a synchronous client, of frames, pings, what its reader reads and its drop,
-- with writes that fail anywhere, and if a socket that was shut down takes nothing more: what it has
-- written is the front part of all its frames in their order, with no hole, and all of them while
-- the socket has not been shut down.
pub Run-IsFront : {c : Client} {fs : List Bytes} → Run new c fs → IsFront c (concat fs)
unfolding ping take_event_channel drop_receiver HasSame
Run-IsFront begins = record { rest = []; front = refl; whole = λ h. refl }
Run-IsFront (submits {c = c} {fs = fs} frame qos w1 w2 o1 o2 r) =
    concat-IsFront _ fs _ (submit-IsFront c (concat fs) frame qos w1 w2 o1 o2 (Run-IsFront r))
Run-IsFront (pings {c = c} {fs = fs} w o r) =
    concat-IsFront _ fs _ (send_data-IsFront c (concat fs) ping_frame w o (Run-IsFront r))
Run-IsFront (hears {c = c} i e r) =
    IsFront-HasSame c (handle_read c i) _ (handle_read-HasSame c i) (Run-IsFront r)
Run-IsFront (takes_channel {c = c} r) = IsFront-HasSame c _ _ (refl, refl) (Run-IsFront r)
Run-IsFront (stops_receiving {c = c} r) = IsFront-HasSame c _ _ (refl, refl) (Run-IsFront r)
Run-IsFront (drops {c = c} r) = drop_client-IsFront c _ (Run-IsFront r)
