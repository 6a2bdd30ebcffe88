-- ===== src/Broker/Send.antt =====
-- src/broker.rs: `safe_send_frame!`, `send!`, `send_broadcast!`, both forms of `publish!`,
-- `announce` and `unregister_client`.
pub mod Deliver
pub mod Publish
pub mod Overflow
pub mod Event
pub mod Consistent
pub mod Stall
pub use busrt.Protocol.Outcome.{Outcome, ◌>>=◌, done, returned, waiting, deadlock}
use busrt.Protocol.Codes.{FrameKind, message_kind, broadcast_kind, publish_kind}
use busrt.Protocol.Error.{
  Result, ok, err, Error, ErrorKind, not_registered, not_delivered, timeout, eof, error_bare,
}
use busrt.Protocol.Frame.{FrameData}
use busrt.Broker.Maps.{Maps, lookup}
use busrt.Broker.Db.{Db, Client, change, add64}
use busrt.Broker.Registry.{is_internal, drop_client}
use busrt.Base.{
  ℕ, zero, suc, ◌+◌, ◌-◌, ◌*◌, ◌/◌, ◌%◌, ◌^◌, ◌≤◌, ◌<◌, bit_and, bit_or, String, ◌≡◌, refl, sym, ap,
  ◌∙◌, subst, ◌≢◌, ◌↔◌, ◌⊎◌, inl, inr, Bool, true, false, not, ◌&&◌, ◌||◌, Option, none, some, List,
  [], ◌∷◌, ◌++◌, map, append-nil, append_assoc, arith, ltb, leb, ◌==◌, if◌then◌else◌, ltb→lt,
  lt→ltb, leb→le, le→leb, lt→leb, le→ltb, ==_iff, Bool-cases, Option-cases, Bytes, codes, bytes_eq,
  bytes_eq_iff, length, take, drop, is_empty, length-append, length-drop, take-append, drop-append,
  slice_from, slice,
}

-- What lies outside of the broker: whether the task of an internal client takes a frame from its
-- full queue before a send gives up, and the encoding of an announcement by rmp_serde.
pub record Env : Type 0 where
  pub makes_room : ℕ → Bool
  pub encode_event : Bytes → Bytes → Result Bytes

abbrev pub broker_info_topic : Bytes
broker_info_topic = codes ".broker/info"

-- The fields of a frame that the sender decides.
pub record Content : Type 0 where
  pub header : Option Bytes
  pub buf : Bytes
  pub payload_pos : ℕ
  pub len : ℕ
  pub is_realtime : Bool

unfoldable pub frame_of : FrameKind → Bytes → Option Bytes → Content → FrameData
frame_of kind sender topic c = record {
  kind = kind;
  sender = some sender;
  topic = topic;
  header = c.header;
  buf = c.buf;
  payload_pos = c.payload_pos;
  is_realtime = c.is_realtime;
}

module _ (m : Maps) where
  abbrev pub counted_in : ℕ → Client m → Client m
  counted_in len x = record x { r_frames = add64 x.r_frames 1; r_bytes = add64 x.r_bytes len }

  abbrev pub counted_out : ℕ → Client m → Client m
  counted_out len x = record x { w_frames = add64 x.w_frames 1; w_bytes = add64 x.w_bytes len }

  abbrev pub queued : FrameData → Client m → Client m
  queued frame x = record x { queue = x.queue ++ frame ∷ [] }

  abbrev pub drained : Client m → Client m
  drained x = record x { queue = drop 1 x.queue }

  abbrev pub closed_queue : Client m → Client m
  closed_queue x = record x { queue_closed = true }

  unfoldable pub count_read : Db m → ℕ → ℕ → Db m
  count_read db r len = record (change m db r (counted_in len)) {
    r_frames = add64 db.r_frames 1;
    r_bytes = add64 db.r_bytes len;
  }

  unfoldable pub count_written : Db m → ℕ → ℕ → Db m
  count_written db n len = record db {
    w_frames = add64 db.w_frames n;
    w_bytes = add64 db.w_bytes (len * n);
  }

  unfoldable pub is_full : Client m → Bool
  is_full x = leb x.queue_size (length x.queue)

  -- `tx.send(frame)` where the queue has room
  unfoldable pub push : Db m → ℕ → FrameData → Outcome (Db m) (Result (Unit {0}))
  push db r frame =
      if (db.objects r).queue_closed
      then done (err (error_bare eof)) db
      else done (ok tt) (change m db r (queued frame))

  -- `announce`, given as an argument where it is called from below itself
  abbrev pub Announce : Type 0
  Announce = Db m → Bytes → Bytes → Outcome (Db m) (Result (Unit {0}))

  unfoldable pub unregister_with : Announce → Db m → ℕ → Outcome (Db m) (Unit {0})
  unregister_with announce db r =
      let x = db.objects r in
      let d = drop_client m db r in
      if x.primary && x.registered
      then announce d (codes "unreg") x.name >>= (λ _ d'. done tt d')
      else done tt d

  -- The queue of an internal client is full: `time::timeout(…).await?` or no timeout at all. To a
  -- closed queue the send fails at once.
  wait_for_room : Env → Db m → ℕ → FrameData → Bool → Outcome (Db m) (Result (Unit {0}))
  wait_for_room env db r frame has_timeout =
      if (db.objects r).queue_closed
      then done (err (error_bare eof)) db
      else if env.makes_room r
      then push (change m db r drained) r frame
      else if has_timeout
      then returned (error_bare timeout) db
      else waiting

  unfoldable pub safe_send_frame :
      Env → Announce → Db m → ℕ → FrameData → Bool → Outcome (Db m) (Result (Unit {0}))
  unfolding wait_for_room
  safe_send_frame env announce db r frame has_timeout =
      let x = db.objects r in
      if is_full x
      then (if is_internal x.kind
          then wait_for_room env db r frame has_timeout
          else unregister_with announce db r
            >>= (λ _ d. done (err (error_bare not_delivered)) (change m d r closed_queue)))
      else push db r frame

  -- `for sub in subs`: what one send answers is dropped, but the `?` inside of it ends the loop and
  -- all that follows.
  unfoldable pub send_all :
      Env → Announce → Db m → List ℕ → FrameData → ℕ → Bool → Outcome (Db m) (Unit {0})
  send_all env announce db [] frame len has_timeout = done tt db
  send_all env announce db (r ∷ rest) frame len has_timeout =
      safe_send_frame env announce (change m db r (counted_out len)) r frame has_timeout
      >>= (λ _ d. send_all env announce d rest frame len has_timeout)

  unfoldable pub fan_out :
      Env → Announce → Db m → List ℕ → FrameData → ℕ → Bool → Outcome (Db m) (Unit {0})
  fan_out env announce db subs frame len has_timeout =
      if is_empty subs
      then done tt db
      else send_all env announce (count_written db (length subs) len) subs frame len has_timeout

  send_to :
      Env → Announce → Db m → Option ℕ → FrameData → ℕ → Bool → Outcome (Db m) (Result (Unit {0}))
  send_to env announce db none frame len has_timeout = done (err (error_bare not_registered)) db
  send_to env announce db (some r) frame len has_timeout =
      safe_send_frame env announce (count_written (change m db r (counted_out len)) 1 len) r frame
        has_timeout

  -- `send!`
  unfoldable pub send :
      Env → Announce → Db m → ℕ → Bytes → Content → Bool → Outcome (Db m) (Result (Unit {0}))
  unfolding send_to
  send env announce db client target c has_timeout =
      send_to env announce (count_read db client c.len) (lookup target db.clients)
        (frame_of message_kind (db.objects client).name none c) c.len has_timeout

  -- `send_broadcast!`
  unfoldable pub send_broadcast :
      Env → Announce → Db m → ℕ → Bytes → Content → Bool → Outcome (Db m) (Unit {0})
  unfolding fan_out
  send_broadcast env announce db client target c has_timeout =
      fan_out env announce (count_read db client c.len) (m.get_clients_by_mask target db.broadcasts)
        (frame_of broadcast_kind (db.objects client).name none c) c.len has_timeout

  unfoldable pub is_excluded : Db m → Bytes → ℕ → Bool
  is_excluded db topic r =
      (db.objects r).has_exclusions && m.acl_matches (db.objects r).exclusions topic

  unfoldable pub is_receiver : Db m → Option Bytes → ℕ → Bool
  is_receiver db none r = true
  is_receiver db (some receiver) r = bytes_eq (db.objects r).primary_name receiver

  -- `subs.retain`
  unfoldable pub retain : Db m → Bytes → Option Bytes → List ℕ → List ℕ
  retain db topic receiver [] = []
  retain db topic receiver (r ∷ rest) =
      let more = retain db topic receiver rest in
      if is_receiver db receiver r && not (is_excluded db topic r) then r ∷ more else more

  -- `publish!`, with a receiver or without
  unfoldable pub publish :
      Env → Announce → Db m → ℕ → Bytes → Option Bytes → Content → Bool → Outcome (Db m) (Unit {0})
  unfolding fan_out
  publish env announce db client topic receiver c has_timeout =
      fan_out env announce (count_read db client c.len)
        (retain db topic receiver (m.get_subscribers topic db.subscriptions))
        (frame_of publish_kind (db.objects client).name (some topic) c) c.len has_timeout

  plain : Bytes → Content
  plain p = record { header = none; buf = p; payload_pos = 0; len = length p; is_realtime = false }

  publish_event :
      Env → Announce → Db m → Option ℕ → Result Bytes → Outcome (Db m) (Result (Unit {0}))
  publish_event env announce db none event = done (ok tt) db
  publish_event env announce db (some r) (err e) = done (err e) db
  publish_event env announce db (some r) (ok event) =
      publish env announce db r broker_info_topic none (plain event) false
      >>= (λ _ d. done (ok tt) d)

  -- `announce` while the lock of the RPC client is held by this task: the RPC client is there, as
  -- the lock was taken to use it, and the task waits for itself.
  unfoldable pub announce_again : Announce
  announce_again db subject name = deadlock

  -- `announce` of BrokerEvent::reg and BrokerEvent::unreg. The lock of the RPC client is held
  -- until the event is published.
  unfoldable pub announce : Env → Announce
  unfolding publish_event announce_again plain
  announce env db subject name =
      publish_event env announce_again db db.rpc_client (env.encode_event subject name)

  unfoldable pub unregister_client : Env → Db m → ℕ → Outcome (Db m) (Unit {0})
  unfolding unregister_with
  unregister_client env = unregister_with (announce env)

  -- `Client::unregister`
  unfoldable pub client_unregister : Env → Db m → ℕ → Outcome (Db m) (Unit {0})
  unfolding unregister_client
  client_unregister env db r =
      unregister_client env (change m db r (λ x. record x { registered = false })) r
