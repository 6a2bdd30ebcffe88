-- ===== src/Broker/Send/Publish.antt =====
-- `send!`, `send_broadcast!` and `publish!` with room in the queues.
use busrt.Broker.Send.Deliver.{one-Delivered}
use busrt.Broker.Send.Deliver.{one}
use busrt.Broker.Send.Deliver.{change-IsReady}
use busrt.Broker.Send.{counted_out}
use busrt.Protocol.Codes.{message_kind, publish_kind, broadcast_kind}
use busrt.Protocol.Error.{ok}
use busrt.Protocol.Frame.{FrameData}
use busrt.Broker.Maps.{Maps, lookup, is_in}
use busrt.Broker.Db.{Db, change}
use busrt.Broker.Send.Deliver.{IsReady, AllReady, Distinct, Delivered, send_all-Delivered}
use busrt.Broker.Send.{
  done, Env, Content, frame_of, count_read, count_written, is_full, Announce, fan_out, send_to,
  send, send_broadcast, is_excluded, is_receiver, retain, publish,
}
use busrt.Broker.Send.Deliver.{safe_send_frame-IsReady, one, one-Delivered, change-IsReady}
use busrt.Broker.Send.{counted_out, queued}
use busrt.Base.{
  ℕ, ◌≡◌, refl, sym, ap, ◌∙◌, Bool, not, ◌&&◌, Option, none, some, List, [], ◌∷◌, append-nil, arith,
  Bytes, length,
}

module _ (m : Maps) where
  pub record SameQueues (db d : Db m) : Type 0 where
    pub queue : (q : ℕ) → (d.objects q).queue ≡ (db.objects q).queue
    pub size : (q : ℕ) → (d.objects q).queue_size ≡ (db.objects q).queue_size
    pub closed : (q : ℕ) → (d.objects q).queue_closed ≡ (db.objects q).queue_closed
    pub clients : d.clients ≡ db.clients
    pub subscriptions : d.subscriptions ≡ db.subscriptions
    pub broadcasts : d.broadcasts ≡ db.broadcasts

  pub SameQueues-AllReady :
      (db d : Db m) (rs : List ℕ) → SameQueues db d → AllReady m db rs → AllReady m d rs
  unfolding is_full
  SameQueues-AllReady db d [] s a = tt
  SameQueues-AllReady db d (r ∷ rs) s a =
      (ground (arith, s.queue r, s.size r, s.closed r), SameQueues-AllReady db d rs s a.1)

  pub count_read-SameQueues : (db : Db m) (r len : ℕ) → SameQueues db (count_read m db r len)
  unfolding count_read
  count_read-SameQueues db r len = record {
    queue = λ q. ground arith;
    size = λ q. ground arith;
    closed = λ q. ground arith;
    clients = refl;
    subscriptions = refl;
    broadcasts = refl;
  }

  pub count_written-SameQueues :
      (db d : Db m) (n len : ℕ) → SameQueues db d → SameQueues db (count_written m d n len)
  unfolding count_written
  count_written-SameQueues db d n len s = record {
    queue = s.queue;
    size = s.size;
    closed = s.closed;
    clients = s.clients;
    subscriptions = s.subscriptions;
    broadcasts = s.broadcasts;
  }

  SameQueues-Delivered :
      (db d e : Db m) (rs : List ℕ) (frame : FrameData)
      → SameQueues db d
      → Delivered m d e rs frame
      → Delivered m db e rs frame
  SameQueues-Delivered db d e rs frame s x = record {
    queues = λ q. ground (arith, x.queues q, s.queue q);
    sizes = λ q. x.sizes q ∙ s.size q;
    open_ones = λ q. x.open_ones q ∙ s.closed q;
    same_clients = x.same_clients ∙ s.clients;
    same_subscriptions = x.same_subscriptions ∙ s.subscriptions;
    same_broadcasts = x.same_broadcasts ∙ s.broadcasts;
  }

  pub Delivered-nil :
      (db d : Db m) (frame : FrameData) → SameQueues db d → Delivered m db d [] frame
  unfolding is_in
  Delivered-nil db d frame s = record {
    queues = λ q. s.queue q ∙ sym (append-nil (db.objects q).queue);
    sizes = s.size;
    open_ones = s.closed;
    same_clients = s.clients;
    same_subscriptions = s.subscriptions;
    same_broadcasts = s.broadcasts;
  }

  module _ (env : Env) (ann : Announce m) (frame : FrameData) (len : ℕ) (t : Bool) where
    fan_out-Delivered :
        (db d : Db m) (rs : List ℕ)
        → SameQueues db d
        → Distinct m rs
        → AllReady m db rs
        → (e : Db m) × (fan_out m env ann d rs frame len t ≡ done tt e) × Delivered m db e rs frame
    unfolding fan_out
    fan_out-Delivered db d [] s u a = (d, refl, Delivered-nil db d frame s)
    fan_out-Delivered db d (r ∷ rs) s u a =
        let d' = count_written m d (length (r ∷ rs)) len in
        let s' = count_written-SameQueues db d (length (r ∷ rs)) len s in
        let (e, x, y) =
          send_all-Delivered m env ann frame len t d' (r ∷ rs) u
            (SameQueues-AllReady db d' (r ∷ rs) s' a) in
        (e, x, SameQueues-Delivered db d' e (r ∷ rs) frame s' y)

  is_in-retain :
      (db : Db m) (topic : Bytes) (receiver : Option Bytes) (q : ℕ) (rs : List ℕ)
      → is_in q (retain m db topic receiver rs)
        ≡ (is_in q rs && is_receiver m db receiver q && not (is_excluded m db topic q))
  unfolding retain is_in
  is_in-retain db topic receiver q [] = refl
  is_in-retain db topic receiver q (r ∷ rs) = ground (arith, is_in-retain db topic receiver q rs)

  Distinct-retain :
      (db : Db m) (topic : Bytes) (receiver : Option Bytes) (rs : List ℕ)
      → Distinct m rs
      → Distinct m (retain m db topic receiver rs)
  unfolding retain
  Distinct-retain db topic receiver [] u = tt
  Distinct-retain db topic receiver (r ∷ rs) u =
      ground (arith, Distinct-retain db topic receiver rs u.1, is_in-retain db topic receiver r rs)

  module _ (env : Env) (ann : Announce m) (db : Db m) (client : ℕ) (t : Bool) where
    -- A publication, for all or for one receiver, ends, and puts its frame at the end of the queue
    -- of exactly the clients that subscribe to the topic, are the receiver's if there is one, and
    -- do not exclude the topic: once each, into no other queue, and with no change of the broker's
    -- maps. The subscribers come once each from the map, and those that get the frame have room.
    pub publish-Delivered :
        (topic : Bytes) (receiver : Option Bytes) (c : Content)
        → Distinct m (m.get_subscribers topic db.subscriptions)
        → AllReady m db (retain m db topic receiver (m.get_subscribers topic db.subscriptions))
        → (d : Db m) × (publish m env ann db client topic receiver c t ≡ done tt d)
          × Delivered m db d
              (retain m db topic receiver (m.get_subscribers topic db.subscriptions))
              (frame_of publish_kind (db.objects client).name (some topic) c)
          × ((q : ℕ)
              → is_in q (retain m db topic receiver (m.get_subscribers topic db.subscriptions)) ≡ (
                  is_in q (m.get_subscribers topic db.subscriptions)
                  && is_receiver m db receiver q
                  && not (is_excluded m db topic q)))
    unfolding publish
    publish-Delivered topic receiver c u a =
        let rs = m.get_subscribers topic db.subscriptions in
        let (d, e, x) =
          fan_out-Delivered env ann (frame_of publish_kind (db.objects client).name (some topic) c)
            c.len t db (count_read m db client c.len) (retain m db topic receiver rs)
            (count_read-SameQueues db client c.len) (Distinct-retain db topic receiver rs u) a in
        (d, e, x, λ q. is_in-retain db topic receiver q rs)

    -- A broadcast ends and puts its frame at the end of the queue of each client whose name the
    -- mask covers, once, and into no other. These clients have room, and come once each.
    pub send_broadcast-Delivered :
        (target : Bytes) (c : Content)
        → Distinct m (m.get_clients_by_mask target db.broadcasts)
        → AllReady m db (m.get_clients_by_mask target db.broadcasts)
        → (d : Db m) × (send_broadcast m env ann db client target c t ≡ done tt d)
          × Delivered m db d
              (m.get_clients_by_mask target db.broadcasts)
              (frame_of broadcast_kind (db.objects client).name none c)
    unfolding send_broadcast
    send_broadcast-Delivered target c u a =
        fan_out-Delivered env ann (frame_of broadcast_kind (db.objects client).name none c) c.len t
          db (count_read m db client c.len) (m.get_clients_by_mask target db.broadcasts)
          (count_read-SameQueues db client c.len) u a

    -- A message to a registered name whose client has room is answered with success and put at the
    -- end of that client's queue, under the sender's name, and into no other queue.
    pub send-Delivered :
        (target : Bytes) (r : ℕ) (c : Content)
        → lookup target db.clients ≡ some r
        → IsReady m (db.objects r)
        → (d : Db m) × (send m env ann db client target c t ≡ done (ok tt) d)
          × Delivered m db d (r ∷ []) (frame_of message_kind (db.objects client).name none c)
    unfolding send send_to count_written one
    send-Delivered target r c e a =
        let frame = frame_of message_kind (db.objects client).name none c in
        let d1 = count_read m db client c.len in
        let s1 = count_read-SameQueues db client c.len in
        let a1 = (SameQueues-AllReady db d1 (r ∷ []) s1 (a, tt)).0 in
        let d2 = count_written m (change m d1 r (counted_out m c.len)) 1 c.len in
        let a2 = change-IsReady m env ann frame c.len t d1 r a1 in
        let x = one-Delivered m env ann frame c.len t d1 r in
        let y : Delivered m d1 (change m d2 r (queued m frame)) (r ∷ []) frame = record {
          queues = x.queues;
          sizes = x.sizes;
          open_ones = x.open_ones;
          same_clients = x.same_clients;
          same_subscriptions = x.same_subscriptions;
          same_broadcasts = x.same_broadcasts;
        } in
        (
          change m d2 r (queued m frame),
          ap (λ o. send_to m env ann d1 o frame c.len t) e
              ∙ safe_send_frame-IsReady m env ann d2 r frame t a2,
          SameQueues-Delivered db d1 (change m d2 r (queued m frame)) (r ∷ []) frame s1 y,
        )
