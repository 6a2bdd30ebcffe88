-- ===== src/Ipc/Client.antt =====
-- src/ipc.rs: `Client`, the connection of a client over time. What one `write` of its buffered
-- writer comes to, under the client's timeout, is given.
pub mod History
pub mod Once
use busrt.Protocol.Error.{Result, Error, timeout, error_bare, to_busrt_result}
use busrt.Protocol.Codes.{
  FrameOp, QoS, message, broadcast, publish_topic, publish_topic_for, subscribe_topic,
  unsubscribe_topic, exclude_topic, unexclude_topic, needs_ack, ping_frame,
}
use busrt.Protocol.Frame.{FrameData}
use busrt.Ipc.Encode.{target_frame, receiver_frame, plain_frame, zc_frame, increment_frame_id}
use busrt.Ipc.Bulk.{topics_payload}
use busrt.Ipc.Decode.{Incoming, waiting, failed, skipped, acked, arrived}
use busrt.Base.{
  Table, get, put, del, get-del, get-del_other, get-put, get-put_other, byte_at, ℕ, zero, suc, ◌+◌,
  ◌-◌, ◌*◌, ◌/◌, ◌%◌, ◌^◌, ◌≤◌, ◌<◌, bit_and, bit_or, String, ◌≡◌, refl, sym, ap, ◌∙◌, subst, ◌≢◌,
  ◌↔◌, ◌⊎◌, inl, inr, Bool, true, false, not, ◌&&◌, ◌||◌, Option, none, some, List, [], ◌∷◌, ◌++◌,
  map, append-nil, append_assoc, arith, ltb, leb, ◌==◌, if◌then◌else◌, ltb→lt, lt→ltb, leb→le,
  le→leb, lt→leb, le→ltb, ==_iff, Bool-cases, Option-cases, Bytes, codes, bytes_eq, bytes_eq_iff,
  length, take, drop, is_empty, length-append, length-drop, take-append, drop-append, slice_from,
  slice,
}

-- A write takes all its bytes, or only the first so many of them: it fails, times out, or the
-- operation that it stands in is cancelled.
pub data WriteEnd : Type 0 where
  taken : WriteEnd
  broken : Error → ℕ → WriteEnd
  timed_out cancelled : ℕ → WriteEnd

-- The channels of confirmations are numbered in the order in which they are made. `confirmed` holds
-- what was sent on them, and `output` what the writer has taken.
pub record Client : Type 0 where
  pub connected : Bool
  pub is_reading : Bool
  pub frame_id : ℕ
  pub responses : Table ℕ
  pub channels : ℕ
  pub confirmed : Table (Result (Unit {0}))
  pub queue : List FrameData
  pub has_receiver : Bool
  pub output : Bytes

-- The client that `connect_broker` makes.
abbrev pub new : Client
new = record {
  connected = true;
  is_reading = true;
  frame_id = 0;
  responses = [];
  channels = 0;
  confirmed = [];
  queue = [];
  has_receiver = true;
  output = [];
}

-- How an operation ends: with a confirmation, if one is to come, with an error, or cancelled.
pub data Sent : Type 0 where
  sent : Option ℕ → Sent
  refused : Error → Sent
  dropped : Sent

-- `reader_fut.abort()` and `connected.store(false)`
abbrev pub mark_disconnected : Client → Client
mark_disconnected c = record c { connected = false; is_reading = false }

abbrev pub put_out : Bytes → Client → Client
put_out b c = record c { output = c.output ++ b }

pub data Written : Type 0 where
  whole : Client → Written
  left : Error → Client → Written
  stopped : Client → Written

-- `send_data_or_mark_disconnected!`
unfoldable pub send_data : Client → Bytes → WriteEnd → Written
send_data c b taken = whole (put_out b c)
send_data c b (broken e k) = left e (mark_disconnected (put_out (take k b) c))
send_data c b (timed_out k) = left (error_bare timeout) (mark_disconnected (put_out (take k b) c))
send_data c b (cancelled k) = stopped (put_out (take k b) c)

-- The channel of the confirmation of the frame whose id was drawn last
unfoldable pub await_ack : Client → QoS → Option ℕ × Client
await_ack c qos =
    if needs_ack qos
    then (
      some c.channels,
      record c { responses = put c.frame_id c.channels c.responses; channels = c.channels + 1 },
    )
    else (none, c)

-- The frame's second write, and `disarm`. While the guard is armed, an end of any kind marks the
-- client.
unfoldable pub send_payload : Option ℕ → Written → Bytes → WriteEnd → Sent × Client
unfolding send_data
send_payload rx (left e c) payload w = (refused e, mark_disconnected c)
send_payload rx (stopped c) payload w = (dropped, mark_disconnected c)
send_payload rx (whole c) payload w = elim (send_data c payload w) [
  | whole d ↦ (sent rx, d)
  | left e d ↦ (refused e, mark_disconnected d)
  | stopped d ↦ (dropped, mark_disconnected d)
]

-- `send_frame_and_confirm!`
unfoldable pub send_frame_and_confirm :
    Client → Bytes × Bytes → QoS → WriteEnd → WriteEnd → Sent × Client
unfolding await_ack send_data send_payload
send_frame_and_confirm c (buf, payload) qos w1 w2 =
    let (rx, d) = await_ack c qos in send_payload rx (send_data d buf w1) payload w2

-- A frame, made with the id that is drawn for it, goes out.
unfoldable pub submit : Client → (ℕ → Bytes × Bytes) → QoS → WriteEnd → WriteEnd → Sent × Client
unfolding increment_frame_id send_frame_and_confirm
submit c frame qos w1 w2 =
    let id = increment_frame_id c.frame_id in
    send_frame_and_confirm (record c { frame_id = id }) (frame id) qos w1 w2

module _ (c : Client) where
  unfoldable pub send : Bytes → Bytes → QoS → WriteEnd → WriteEnd → Sent × Client
  unfolding submit target_frame
  send target payload qos = submit c (λ id. target_frame id message qos target payload) qos

  unfoldable pub zc_send : Bytes → Bytes → Bytes → QoS → WriteEnd → WriteEnd → Sent × Client
  unfolding submit zc_frame
  zc_send target header payload qos =
      submit c (λ id. zc_frame id message qos target header payload) qos

  unfoldable pub send_broadcast : Bytes → Bytes → QoS → WriteEnd → WriteEnd → Sent × Client
  unfolding submit target_frame
  send_broadcast target payload qos =
      submit c (λ id. target_frame id broadcast qos target payload) qos

  unfoldable pub publish : Bytes → Bytes → QoS → WriteEnd → WriteEnd → Sent × Client
  unfolding submit target_frame
  publish target payload qos = submit c (λ id. target_frame id publish_topic qos target payload) qos

  unfoldable pub publish_for : Bytes → Bytes → Bytes → QoS → WriteEnd → WriteEnd → Sent × Client
  unfolding submit receiver_frame
  publish_for target receiver payload qos =
      submit c (λ id. receiver_frame id publish_topic_for qos target receiver payload) qos

  -- `subscribe`, `unsubscribe`, `exclude` and `unexclude`, by the operation
  unfoldable pub with_topic : FrameOp → Bytes → QoS → WriteEnd → WriteEnd → Sent × Client
  unfolding submit plain_frame
  with_topic op topic qos = submit c (λ id. plain_frame id op qos topic) qos

  -- The same four in bulk
  unfoldable pub with_topics : FrameOp → List Bytes → QoS → WriteEnd → WriteEnd → Sent × Client
  unfolding submit plain_frame topics_payload
  with_topics op topics qos = submit c (λ id. plain_frame id op qos (topics_payload topics)) qos

  -- No guard is armed here.
  unfoldable pub ping : WriteEnd → Sent × Client
  unfolding send_data
  ping w = elim (send_data c ping_frame w) [
    | whole d ↦ (sent none, d)
    | left e d ↦ (refused e, d)
    | stopped d ↦ (dropped, d)
  ]

  unfoldable pub resolve : ℕ → ℕ → Option ℕ → Client
  resolve id code (some ch) = record c {
    responses = del id c.responses;
    confirmed = (ch, to_busrt_result code) ∷ c.confirmed;
  }
  resolve id code none = c

  -- What the reader's task does with what it reads: its end, by an error, disconnects the client.
  -- A full queue of frames keeps the task waiting, which is a later `arrived`; a queue whose receiver
  -- is gone ends it.
  unfoldable pub handle_read : Incoming → Client
  unfolding resolve get del to_busrt_result
  handle_read waiting = c
  handle_read (failed e) = mark_disconnected c
  handle_read (skipped s) = c
  handle_read (acked id code s) = resolve id code (get id c.responses)
  handle_read (arrived frame s) =
      if c.has_receiver then record c { queue = c.queue ++ frame ∷ [] } else mark_disconnected c

  -- `Drop`
  unfoldable pub drop_client : Client
  drop_client = record c { is_reading = false }

  -- The receiver of `take_event_channel` is dropped.
  unfoldable pub drop_receiver : Client
  drop_receiver = record c { has_receiver = false }
