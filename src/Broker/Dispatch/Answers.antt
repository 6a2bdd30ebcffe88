-- ===== src/Broker/Dispatch/Answers.antt =====
-- src/broker.rs: `handle_reader`, what a client gets in answer to its packets.
use mathlib.Core.Option
use busrt.Broker.Send.Stall.{IsStalled, publish-returned}
use busrt.Broker.Send.{returned, retain, publish}
use busrt.Protocol.Error.{timeout}
use busrt.Broker.Dispatch.{silently, left_with, Content}
use busrt.Protocol.Frame.{FrameData}
use busrt.Broker.Dispatch.{answer, send_message}
use busrt.Broker.Maps.{is_in}
use busrt.Broker.Dispatch.{by_op, with_target, allowed_then, enqueue}
use busrt.Protocol.Error.{
  error_code, Result, err, error_bare, not_registered, err_client_not_registered,
}
use busrt.Broker.Send.{count_read}
use busrt.Protocol.Error.{ok, err_access, response_ok}
use busrt.Protocol.Codes.{
  FrameOp, message, broadcast, publish_topic, publish_topic_for, is_realtime, needs_ack,
  message_kind,
}
use busrt.Broker.Packet.{Packet}
use busrt.Broker.Target.{split_target, split_receiver}
use busrt.Broker.Maps.{Maps, lookup}
use busrt.Broker.Db.{Db, change}
use busrt.Broker.Aaa.{Rule, ClientAaa, is_allowed}
use busrt.Broker.Send.{
  count_written, counted_out, queued, Outcome, done, Env, send, announce, is_full, push, frame_of,
}
use busrt.Broker.Send.Deliver.{IsReady, Delivered, one, one-Delivered, change-IsReady}
use busrt.Broker.Send.Publish.{
  SameQueues-AllReady, count_read-SameQueues, Delivered-nil, send-Delivered,
}
use busrt.Broker.Dispatch.{handle_packet, ack_frame, send_ack, ack, content}
use busrt.Base.{
  ℕ, ◌≡◌, refl, sym, ap, ◌∙◌, ◌≢◌, inl, inr, true, false, Option, none, some, List, [], ◌∷◌,
  append-nil, arith, if◌then◌else◌, Bool-cases, Bytes,
}

module _ (m : Maps) (env : Env) (r : ℕ) where
  -- The operations on a target, and the rights that they need; behind the target at `pos`, a
  -- publication for one receiver has the receiver's name.
  pub data Needs {Network : Type 0} (p : Packet) (pos : ℕ)
      : FrameOp → (ClientAaa m Network → Rule m.Acl) → Type 0 where
    to_client : Needs p pos message (λ a. a.p2p)
    to_clients : Needs p pos broadcast (λ a. a.broadcast)
    to_topic : Needs p pos publish_topic (λ a. a.publish)
    to_topic_for :
        (receiver : Bytes) (behind : ℕ)
        → split_receiver p.buf pos ≡ ok (receiver, behind)
        → Needs p pos publish_topic_for (λ a. a.publish)

  -- The publications, with their receiver, if there is one, and where their payload begins.
  pub data Publishes (p : Packet) (pos : ℕ) : FrameOp → Option Bytes → ℕ → Type 0 where
    for_all : Publishes p pos publish_topic none pos
    for_one :
        (receiver : Bytes) (behind : ℕ)
        → split_receiver p.buf pos ≡ ok (receiver, behind)
        → Publishes p pos publish_topic_for (some receiver) behind

  send_ack-Delivered :
      (p : Packet) (code : ℕ) (db : Db m)
      → IsReady m (db.objects r)
      → (d : Db m) × (send_ack m env r p code db ≡ done (ok tt) d)
        × Delivered m db d (r ∷ []) (ack_frame m p.op_id code (is_realtime p.qos))
  unfolding send_ack enqueue push count_written one
  send_ack-Delivered p code db h =
      let frame = ack_frame m p.op_id code (is_realtime p.qos) in
      let d = count_written m (change m db r (counted_out m 6)) 1 6 in
      let h' = change-IsReady m env (announce m env) frame 6 false db r h in
      let x = one-Delivered m env (announce m env) frame 6 false db r in
      (
        change m d r (queued m frame),
        rw (h'.0, enqueue) (rw (h'.1, push) refl),
        record {
          queues = x.queues;
          sizes = x.sizes;
          open_ones = x.open_ones;
          same_clients = x.same_clients;
          same_subscriptions = x.same_subscriptions;
          same_broadcasts = x.same_broadcasts;
        },
      )

  -- The reader goes on, and the acknowledgement with this code, if the packet asks for one, is all
  -- that is put into a queue: at the end of the client's own.
  abbrev pub IsAnswered : Packet → ℕ → Db m → Outcome (Db m) (Result (Unit {0})) → Type 0
  IsAnswered p code db o =
      (d : Db m) × (o ≡ done (ok tt) d)
      × Delivered m db d (if needs_ack p.qos then r ∷ [] else [])
          (ack_frame m p.op_id code (is_realtime p.qos))

  ack-IsAnswered :
      (p : Packet) (code : ℕ) (db : Db m)
      → IsReady m (db.objects r)
      → IsAnswered p code db (ack m env r p code db)
  unfolding ack is_in
  ack-IsAnswered p code db h = elim (Bool-cases (needs_ack p.qos)) [
    | inl e ↦ rw e (send_ack-Delivered p code db h)
    | inr e ↦ rw e (
      db,
      refl,
      record {
        queues = λ q. sym (append-nil (db.objects q).queue);
        sizes = λ q. refl;
        open_ones = λ q. refl;
        same_clients = refl;
        same_subscriptions = refl;
        same_broadcasts = refl;
      },
    )
  ]

  module _ {Network : Type 0} (aaa : Option (ClientAaa m Network)) where
    by_op-right :
        (op : FrameOp) (p : Packet) (db : Db m) (rule : ClientAaa m Network → Rule m.Acl)
        (target : Bytes) (pos : ℕ)
        → split_target p.buf ≡ ok (target, pos)
        → Needs p pos op rule
        → by_op m env r aaa op p db ≡ with_target m env r aaa op p target pos db
    unfolding by_op
    by_op-right op p db rule target pos es to_client = rw (es, by_op) refl
    by_op-right op p db rule target pos es to_clients = rw (es, by_op) refl
    by_op-right op p db rule target pos es to_topic = rw (es, by_op) refl
    by_op-right op p db rule target pos es (to_topic_for receiver behind e) = rw (es, by_op) refl

    with_target-denied :
        (op : FrameOp) (p : Packet) (db : Db m) (rule : ClientAaa m Network → Rule m.Acl)
        (target : Bytes) (pos : ℕ)
        → Needs p pos op rule
        → is_allowed m (Option.map rule aaa) target ≡ false
        → with_target m env r aaa op p target pos db ≡ ack m env r p err_access db
    unfolding with_target allowed_then
    with_target-denied op p db rule target pos to_client ea = rw (ea, with_target) refl
    with_target-denied op p db rule target pos to_clients ea = rw (ea, with_target) refl
    with_target-denied op p db rule target pos to_topic ea = rw (ea, with_target) refl
    with_target-denied op p db rule target pos (to_topic_for x behind e) ea =
        rw (e, with_target) (rw (ea) refl)

    answered :
        (p : Packet) (db d : Db m) (code : ℕ)
        → by_op m env r aaa p.op p db ≡ ack m env r p code d
        → IsReady m (d.objects r)
        → IsAnswered p code d (handle_packet m env r aaa p db)
    unfolding handle_packet left_with
    answered p db d code e h =
        let (d', e', x) = ack-IsAnswered p code d h in (d', ap (left_with m) (e ∙ e'), x)

    -- A message, broadcast or publication, for all or for one receiver, to a target that the client
    -- may not use goes to nobody: the reader goes on, the maps stay as they are, and only if the packet asks for it does the
    -- client get an acknowledgement, with ERR_ACCESS, where it has room for it.
    pub handle_packet-denied :
        (p : Packet) (db : Db m) (rule : ClientAaa m Network → Rule m.Acl) (target : Bytes)
        (pos : ℕ)
        → split_target p.buf ≡ ok (target, pos)
        → Needs p pos p.op rule
        → is_allowed m (Option.map rule aaa) target ≡ false
        → IsReady m (db.objects r)
        → IsAnswered p err_access db (handle_packet m env r aaa p db)
    handle_packet-denied p db rule target pos es er ea h =
        answered p db db err_access
          (by_op-right p.op p db rule target pos es er
            ∙ with_target-denied p.op p db rule target pos er ea)
          h

    with_target-message :
        (p : Packet) (db d : Db m) (target : Bytes) (pos : ℕ) (res : Result (Unit {0}))
        → is_allowed m (Option.map (λ a. a.p2p) aaa) target ≡ true
        → send m env (announce m env) db r target (content m p pos) true ≡ done res d
        → with_target m env r aaa message p target pos db ≡ ack m env r p (answer m res) d
    unfolding with_target allowed_then send_message
    with_target-message p db d target pos res ea e = rw (ea, with_target) (rw e refl)

    IsReady-after :
        (db d : Db m) (q : ℕ) (frame : FrameData)
        → q ≢ r
        → Delivered m db d (q ∷ []) frame
        → IsReady m (db.objects r)
        → IsReady m (d.objects r)
    unfolding is_full is_in
    IsReady-after db d q frame ne x h =
        ground (arith, x.queues r, x.sizes r, x.open_ones r, append-nil (db.objects r).queue)

    -- A message that is allowed, by the client's rights or as the broker has no map of rights, to
    -- another registered client with room: it goes to the end of that client's queue, under the sender's name and with the packet's bytes behind the target, into no
    -- other queue, and then the sender gets an acknowledgement of success if it asked for one.
    pub handle_packet-message :
        (p : Packet) (db : Db m) (target : Bytes) (pos q : ℕ)
        → p.op ≡ message
        → split_target p.buf ≡ ok (target, pos)
        → is_allowed m (Option.map (λ a. a.p2p) aaa) target ≡ true
        → lookup target db.clients ≡ some q
        → q ≢ r
        → IsReady m (db.objects q)
        → IsReady m (db.objects r)
        → (d : Db m) × Delivered m db d
            (q ∷ [])
            (frame_of message_kind (db.objects r).name none (content m p pos))
          × IsAnswered p response_ok d (handle_packet m env r aaa p db)
    unfolding answer
    handle_packet-message p db target pos q eo es ea el ne hq hr =
        let (d, e, x) =
          send-Delivered m env (announce m env) db r true target q (content m p pos) el hq in
        let run : by_op m env r aaa p.op p db ≡ ack m env r p response_ok d =
          ap (λ o. by_op m env r aaa o p db) eo
          ∙ by_op-right message p db (λ a. a.p2p) target pos es to_client
          ∙ with_target-message p db d target pos (ok tt) ea e in
        (d, x, answered p db d response_ok run (IsReady-after db d q _ ne x hr))

    send-unknown :
        (db : Db m) (target : Bytes) (c : Content)
        → lookup target db.clients ≡ none
        → send m env (announce m env) db r target c true
          ≡ done (err (error_bare not_registered)) (count_read m db r c.len)
    unfolding send count_read
    send-unknown db target c e = rw e refl

    -- A message that is allowed, to a name that nobody has, goes to nobody, and the sender gets an
    -- acknowledgement with ERR_CLIENT_NOT_REGISTERED if it asked for one and has room for it.
    pub handle_packet-unknown :
        (p : Packet) (db : Db m) (target : Bytes) (pos : ℕ)
        → p.op ≡ message
        → split_target p.buf ≡ ok (target, pos)
        → is_allowed m (Option.map (λ a. a.p2p) aaa) target ≡ true
        → lookup target db.clients ≡ none
        → IsReady m (db.objects r)
        → (d : Db m) × ((frame : FrameData) → Delivered m db d [] frame)
          × IsAnswered p err_client_not_registered d (handle_packet m env r aaa p db)
    unfolding answer error_code
    handle_packet-unknown p db target pos eo es ea el h =
        let d = count_read m db r (content m p pos).len in
        let s = count_read-SameQueues m db r (content m p pos).len in
        let run : by_op m env r aaa p.op p db ≡ ack m env r p err_client_not_registered d =
          ap (λ o. by_op m env r aaa o p db) eo
          ∙ by_op-right message p db (λ a. a.p2p) target pos es to_client
          ∙ with_target-message p db d target pos _ ea
              (send-unknown db target (content m p pos) el) in
        (
          d,
          λ frame. Delivered-nil m db d frame s,
          answered p db d err_client_not_registered run
              (SameQueues-AllReady m db d (r ∷ []) s (h, tt)).0,
        )

    -- A publication that leaves its macro leaves the handling of the packet.
    by_op-stuck :
        (op : FrameOp) (p : Packet) (db d : Db m) (topic : Bytes) (pos behind : ℕ)
        (receiver : Option Bytes)
        → Publishes p pos op receiver behind
        → split_target p.buf ≡ ok (topic, pos)
        → is_allowed m (Option.map (λ a. a.publish) aaa) topic ≡ true
        → publish m env (announce m env) db r topic receiver (content m p behind) true
          ≡ returned (error_bare timeout) d
        → by_op m env r aaa op p db ≡ returned (error_bare timeout) d
    unfolding with_target allowed_then silently
    by_op-stuck op p db d topic pos behind receiver for_all es ea e =
        by_op-right publish_topic p db (λ a. a.publish) topic pos es to_topic
        ∙ rw (ea, with_target) (rw e refl)
    by_op-stuck op p db d topic pos behind receiver (for_one x y er) es ea e =
        by_op-right publish_topic_for p db (λ a. a.publish) topic pos es (to_topic_for x y er)
        ∙ rw (er, with_target) (rw (ea) (rw e refl))

    -- A publication, for all or for one receiver, that is allowed, and whose first subscriber, of
    -- those who are to get it and do not exclude the topic, is a client of the broker's process with
    -- an open, full queue of which nothing is taken within the timeout: the reader of the publisher
    -- ends with the error Timeout, which ends its connection, and no subscriber gets anything.
    pub handle_packet-stuck :
        (p : Packet) (db : Db m) (topic : Bytes) (pos behind q : ℕ) (receiver : Option Bytes)
        (rest : List ℕ)
        → Publishes p pos p.op receiver behind
        → split_target p.buf ≡ ok (topic, pos)
        → is_allowed m (Option.map (λ a. a.publish) aaa) topic ≡ true
        → retain m db topic receiver (m.get_subscribers topic db.subscriptions) ≡ q ∷ rest
        → IsStalled m env db q
        → (d : Db m) × (handle_packet m env r aaa p db ≡ done (err (error_bare timeout)) d)
          × ((frame : FrameData) → Delivered m db d [] frame)
    unfolding handle_packet left_with
    handle_packet-stuck p db topic pos behind q receiver rest eo es ea er h =
        let (d, e, s) =
          publish-returned m env (announce m env) db r topic receiver (content m p behind) q rest er
            h in
        (
          d,
          ap (left_with m) (by_op-stuck p.op p db d topic pos behind receiver eo es ea e),
          λ frame. Delivered-nil m db d frame s,
        )
