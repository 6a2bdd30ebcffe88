-- ===== src/Broker/Send/Stall.antt =====
-- src/broker.rs: `publish!` in the reader of a client, where a subscriber of the broker's own
-- process does not take from its full queue within the timeout.
use busrt.Protocol.Codes.{publish_kind}
use busrt.Protocol.Error.{timeout, error_bare}
use busrt.Protocol.Frame.{FrameData}
use busrt.Broker.Maps.{Maps}
use busrt.Broker.Db.{Db, change}
use busrt.Broker.Registry.{is_internal}
use busrt.Broker.Send.{
  ◌>>=◌, returned, Env, Announce, Content, is_full, safe_send_frame, wait_for_room, fan_out,
  send_all, publish, retain, counted_out, count_read, count_written, frame_of,
}
use busrt.Broker.Send.Publish.{SameQueues, count_read-SameQueues, count_written-SameQueues}
use busrt.Base.{ℕ, ◌≡◌, refl, ap, ◌∙◌, true, false, Option, some, List, ◌∷◌, arith, Bytes, length}

module _ (m : Maps) where
  -- A client of the broker's process whose queue is open and full, and of which nothing is taken in
  -- time.
  pub record IsStalled (env : Env) (db : Db m) (q : ℕ) : Type 0 where
    pub full : is_full m (db.objects q) ≡ true
    pub inside : is_internal (db.objects q).kind ≡ true
    pub no_room : env.makes_room q ≡ false
    pub is_open : (db.objects q).queue_closed ≡ false

  SameQueues-IsStalled :
      (env : Env) (db d : Db m) (q : ℕ)
      → SameQueues m db d
      → ((d.objects q).kind ≡ (db.objects q).kind)
      → IsStalled env db q
      → IsStalled env d q
  unfolding is_full
  SameQueues-IsStalled env db d q s k h = record {
    full = ground (arith, h.full, s.queue q, s.size q);
    inside = ap is_internal k ∙ h.inside;
    no_room = h.no_room;
    is_open = s.closed q ∙ h.is_open;
  }

  counted_out-SameQueues :
      (db d : Db m) (r len : ℕ)
      → SameQueues m db d
      → SameQueues m db (change m d r (counted_out m len))
  counted_out-SameQueues db d r len s = record {
    queue = λ q. ground (arith, s.queue q);
    size = λ q. ground (arith, s.size q);
    closed = λ q. ground (arith, s.closed q);
    clients = s.clients;
    subscriptions = s.subscriptions;
    broadcasts = s.broadcasts;
  }

  safe_send_frame-returned :
      (env : Env) (ann : Announce m) (db : Db m) (q : ℕ) (frame : FrameData)
      → IsStalled env db q
      → safe_send_frame m env ann db q frame true ≡ returned (error_bare timeout) db
  unfolding safe_send_frame wait_for_room
  safe_send_frame-returned env ann db q frame h =
      rw (h.full, safe_send_frame) (rw (h.inside) (rw (h.is_open) (rw (h.no_room) refl)))

  counted-kind :
      (db : Db m) (client len n k q : ℕ)
      → ((change m (count_written m (count_read m db client len) n k) q (counted_out m len)).objects
          q).kind
        ≡ (db.objects q).kind
  unfolding count_read count_written
  counted-kind db client len n k q = ground arith

  -- The macro leaves the function that it stands in, and no queue has changed.
  pub publish-returned :
      (env : Env) (ann : Announce m) (db : Db m) (client : ℕ) (topic : Bytes)
      (receiver : Option Bytes) (c : Content) (q : ℕ) (rest : List ℕ)
      → retain m db topic receiver (m.get_subscribers topic db.subscriptions) ≡ q ∷ rest
      → IsStalled env db q
      → (d : Db m) × (publish m env ann db client topic receiver c true
          ≡ returned (error_bare timeout) d)
        × SameQueues m db d
  unfolding publish fan_out send_all
  publish-returned env ann db client topic receiver c q rest e h =
      let n = length (q ∷ rest) in
      let frame = frame_of publish_kind (db.objects client).name (some topic) c in
      let d1 = count_written m (count_read m db client c.len) n c.len in
      let d = change m d1 q (counted_out m c.len) in
      let s = counted_out-SameQueues db d1 q c.len (
        count_written-SameQueues m db (count_read m db client c.len) n c.len
          (count_read-SameQueues m db client c.len)) in
      (
        d,
        ap (λ l. fan_out m env ann (count_read m db client c.len) l frame c.len true) e
            ∙ ap (λ o. o >>= (λ _ d'. send_all m env ann d' rest frame c.len true))
                (safe_send_frame-returned env ann d q frame
                  (SameQueues-IsStalled env db d q s (counted-kind db client c.len n c.len q) h)),
        s,
      )
