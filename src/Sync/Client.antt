-- ===== src/Sync/Client.antt =====
-- src/sync/ipc.rs: `Client` and its `Reader` over time. What one `write_all` on the socket comes to
-- is given; under the socket's write timeout it may fail after some of the bytes.
pub mod History
pub mod Once
use busrt.Protocol.Error.{Result, ok, err, Error, error_of, not_supported, lit, to_busrt_result}
use busrt.Protocol.Codes.{
  FrameOp, QoS, message, broadcast, publish_topic, publish_topic_for, subscribe_topic,
  unsubscribe_topic, exclude_topic, unexclude_topic, needs_ack, ping_frame,
}
use busrt.Protocol.Frame.{FrameData}
use busrt.Ipc.Encode.{target_frame, receiver_frame, plain_frame, zc_frame}
use busrt.Ipc.Bulk.{topics_payload}
use busrt.Ipc.Decode.{Incoming, waiting, failed, skipped, acked, arrived}
use busrt.Base.{
  Table, get, put, del, get-del, get-del_other, get-put, get-put_other, byte_at, ℕ, zero, suc, ◌+◌,
  ◌-◌, ◌*◌, ◌/◌, ◌%◌, ◌^◌, ◌≤◌, ◌<◌, bit_and, bit_or, String, ◌≡◌, refl, sym, ap, ◌∙◌, subst, ◌≢◌,
  ◌↔◌, ◌⊎◌, inl, inr, Bool, true, false, not, ◌&&◌, ◌||◌, Option, none, some, List, [], ◌∷◌, ◌++◌,
  map, append-nil, append_assoc, arith, ltb, leb, ◌==◌, if◌then◌else◌, ltb→lt, lt→ltb, leb→le,
  le→leb, lt→leb, le→ltb, ==_iff, Bool-cases, Option-cases, Bytes, codes, bytes_eq, bytes_eq_iff,
  length, take, drop, is_empty, length-append, length-drop, take-append, drop-append,
  take-append-drop, slice_from, slice,
}

-- A write takes all its bytes, or fails when it has taken only the first so many of them.
pub data WriteEnd : Type 0 where
  taken : WriteEnd
  broken : Error → ℕ → WriteEnd

-- `is_shut`: the socket has been shut down for both directions. The channels of confirmations are
-- numbered in the order in which they are made; `confirmed` holds what was sent on them, and
-- `output` what the socket has taken. `has_receiver` and `queue` are the channel of frames, whose
-- receiver is in the client until it is taken out (`has_rx`).
pub record Client : Type 0 where
  pub connected : Bool
  pub is_shut : Bool
  pub is_reading : Bool
  pub frame_id : ℕ
  pub responses : Table ℕ
  pub channels : ℕ
  pub confirmed : Table (Result (Unit {0}))
  pub queue : List FrameData
  pub has_receiver : Bool
  pub has_rx : Bool
  pub output : Bytes

-- The client that `connect_broker` makes, with a reader that runs.
abbrev pub new : Client
new = record {
  connected = true;
  is_shut = false;
  is_reading = true;
  frame_id = 0;
  responses = [];
  channels = 0;
  confirmed = [];
  queue = [];
  has_receiver = true;
  has_rx = true;
  output = [];
}

abbrev pub put_out : Bytes → Client → Client
put_out b c = record c { output = c.output ++ b }

-- `send_data_or_mark_disconnected!`
unfoldable pub send_data : Client → Bytes → WriteEnd → Result (Unit {0}) × Client
send_data c b taken = (ok tt, put_out b c)
send_data c b (broken e k) =
    (err e, record c { connected = false; is_shut = true; output = c.output ++ take k b })

-- The channel of the confirmation of the frame whose id was drawn last
unfoldable pub await_ack : Client → QoS → Option ℕ × Client
unfolding put
await_ack c qos =
    if needs_ack qos
    then (
      some c.channels,
      record c { responses = put c.frame_id c.channels c.responses; channels = c.channels + 1 },
    )
    else (none, c)

abbrev pub answered_with : Option ℕ → Result (Unit {0}) × Client → Result (Option ℕ) × Client
answered_with rx (err e, c) = (err e, c)
answered_with rx (ok _, c) = (ok rx, c)

-- The frame's second write, if the first one went well
unfoldable pub send_payload :
    Option ℕ → Result (Unit {0}) × Client → Bytes → WriteEnd → Result (Option ℕ) × Client
unfolding send_data
send_payload rx (err e, c) payload w = (err e, c)
send_payload rx (ok _, c) payload w = answered_with rx (send_data c payload w)

-- `send_frame_and_confirm!`
unfoldable pub send_frame_and_confirm :
    Client → Bytes × Bytes → QoS → WriteEnd → WriteEnd → Result (Option ℕ) × Client
unfolding await_ack send_data send_payload
send_frame_and_confirm c (buf, payload) qos w1 w2 =
    let (rx, d) = await_ack c qos in send_payload rx (send_data d buf w1) payload w2

-- `increment_frame_id`
unfoldable pub increment_frame_id : ℕ → ℕ
increment_frame_id id = if id == 2 ^ 32 - 1 then 1 else id + 1

-- A frame, made with the id that is drawn for it, goes out.
unfoldable pub submit :
    Client → (ℕ → Bytes × Bytes) → QoS → WriteEnd → WriteEnd → Result (Option ℕ) × Client
unfolding increment_frame_id send_frame_and_confirm
submit c frame qos w1 w2 =
    let id = increment_frame_id c.frame_id in
    send_frame_and_confirm (record c { frame_id = id }) (frame id) qos w1 w2

abbrev pub Sends : Type 0
Sends = QoS → WriteEnd → WriteEnd → Result (Option ℕ) × Client

module _ (c : Client) where
  -- `send_frame!` with a target
  unfoldable pub send_frame : FrameOp → Bytes → Bytes → Sends
  unfolding submit target_frame
  send_frame op target payload qos = submit c (λ id. target_frame id op qos target payload) qos

  -- `send_frame!` with a topic and a receiver
  unfoldable pub send_frame_for : FrameOp → Bytes → Bytes → Bytes → Sends
  unfolding submit receiver_frame
  send_frame_for op target receiver payload qos =
      submit c (λ id. receiver_frame id op qos target receiver payload) qos

  -- `send_frame!` without a target
  unfoldable pub send_plain_frame : FrameOp → Bytes → Sends
  unfolding submit plain_frame
  send_plain_frame op payload qos = submit c (λ id. plain_frame id op qos payload) qos

  -- `send_zc_frame!`
  unfoldable pub send_zc_frame : FrameOp → Bytes → Bytes → Bytes → Sends
  unfolding submit zc_frame
  send_zc_frame op target header payload qos =
      submit c (λ id. zc_frame id op qos target header payload) qos

  unfoldable pub send : Bytes → Bytes → Sends
  unfolding send_frame
  send = send_frame message

  unfoldable pub zc_send : Bytes → Bytes → Bytes → Sends
  unfolding send_zc_frame
  zc_send = send_zc_frame message

  unfoldable pub send_broadcast : Bytes → Bytes → Sends
  unfolding send_frame
  send_broadcast = send_frame broadcast

  unfoldable pub publish : Bytes → Bytes → Sends
  unfolding send_frame
  publish = send_frame publish_topic

  unfoldable pub publish_for : Bytes → Bytes → Bytes → Sends
  unfolding send_frame_for
  publish_for = send_frame_for publish_topic_for

  unfoldable pub subscribe : Bytes → Sends
  unfolding send_plain_frame
  subscribe = send_plain_frame subscribe_topic

  unfoldable pub unsubscribe : Bytes → Sends
  unfolding send_plain_frame
  unsubscribe = send_plain_frame unsubscribe_topic

  unfoldable pub exclude : Bytes → Sends
  unfolding send_plain_frame
  exclude = send_plain_frame exclude_topic

  unfoldable pub unexclude : Bytes → Sends
  unfolding send_plain_frame
  unexclude = send_plain_frame unexclude_topic

  unfoldable pub subscribe_bulk : List Bytes → Sends
  unfolding send_plain_frame topics_payload
  subscribe_bulk topics = send_plain_frame subscribe_topic (topics_payload topics)

  unfoldable pub unsubscribe_bulk : List Bytes → Sends
  unfolding send_plain_frame topics_payload
  unsubscribe_bulk topics = send_plain_frame unsubscribe_topic (topics_payload topics)

  unfoldable pub exclude_bulk : List Bytes → Sends
  unfolding send_plain_frame topics_payload
  exclude_bulk topics = send_plain_frame exclude_topic (topics_payload topics)

  unfoldable pub unexclude_bulk : List Bytes → Sends
  unfolding send_plain_frame topics_payload
  unexclude_bulk topics = send_plain_frame unexclude_topic (topics_payload topics)

  unfoldable pub ping : WriteEnd → Result (Unit {0}) × Client
  unfolding send_data
  ping w = send_data c ping_frame w

  unfoldable pub take_event_channel : Bool × Client
  take_event_channel = (c.has_rx, record c { has_rx = false })

  -- The receiver of the frames is dropped.
  unfoldable pub drop_receiver : Client
  drop_receiver = record c { has_receiver = false; has_rx = false }

  -- `Drop`: the socket is shut down, and with the client goes the receiver that it still holds.
  unfoldable pub drop_client : Client
  drop_client = record c {
    is_shut = true;
    has_receiver = if c.has_rx then false else c.has_receiver;
    has_rx = false;
  }

  unfoldable pub resolve : ℕ → ℕ → Option ℕ → Client
  unfolding del to_busrt_result
  resolve id code (some ch) = record c {
    responses = del id c.responses;
    confirmed = (ch, to_busrt_result code) ∷ c.confirmed;
  }
  resolve id code none = c

  -- `Reader::run` after an error of `handle_read`. Whoever waits in `responses` stays there.
  abbrev pub end_reader : Client
  end_reader = record c { connected = false; is_reading = false }

  -- What the reader does with what it reads. A full queue of frames keeps it waiting, which is a
  -- later `arrived`; a queue whose receiver is gone ends it.
  unfoldable pub handle_read : Incoming → Client
  unfolding resolve get
  handle_read waiting = c
  handle_read (failed e) = end_reader
  handle_read (skipped s) = c
  handle_read (acked id code s) = resolve id code (get id c.responses)
  handle_read (arrived frame s) =
      if c.has_receiver then record c { queue = c.queue ++ frame ∷ [] } else end_reader
