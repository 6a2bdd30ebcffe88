-- ===== src/Broker/Dispatch/Keeps.antt =====
-- src/broker.rs: `handle_reader`, every packet leaves the broker's maps consistent.
use mathlib.Core.Option
use busrt.Protocol.Error.{Result, ok, err, err_access, response_ok}
use busrt.Protocol.Codes.{
  FrameOp, message, broadcast, publish_topic, publish_topic_for, subscribe_topic, unsubscribe_topic,
  exclude_topic, unexclude_topic, needs_ack, is_realtime,
}
use busrt.Protocol.Text.{from_utf8}
use busrt.Protocol.Frame.{FrameData}
use busrt.Wire.Split.{split_zero}
use busrt.Broker.Packet.{Packet}
use busrt.Broker.Target.{split_target, split_receiver}
use busrt.Broker.Maps.{Maps, MapsLaws}
use busrt.Broker.Db.{Db, change}
use busrt.Broker.Aaa.{Rule, ClientAaa, is_allowed}
use busrt.Broker.Registry.Laws.{IsConsistent, change-IsConsistent}
use busrt.Broker.Send.{
  Outcome, done, returned, waiting, deadlock, Env, send, send_broadcast, publish, announce,
  counted_out, drained, count_read, count_written, is_full,
}
use busrt.Broker.Send.Consistent.{
  Ends, Ends-if, Ends->>=, push-Ok, count_read-Ok, count_written-Ok, send-Ok, send_broadcast-Ok,
  publish-announcing-Ok,
}
use busrt.Broker.Dispatch.{
  continue, M, ret, lift, ◌>>=◌, modify, ack_frame, enqueue, send_ack, ack, gather, subscribe_each,
  each_topic, unsubscribe_one, exclude_one, unexclude_one, some_exclusions, maybe_exclusions,
  content, send_message, silently, left_with, allowed_then, with_target, by_op, handle_packet,
}
use busrt.Base.{
  ℕ, ◌≡◌, refl, ◌∙◌, Bool, true, false, not, ◌&&◌, Option, none, some, List, [], ◌∷◌, if◌then◌else◌,
  Bytes,
}

module _ (m : Maps) (laws : MapsLaws m) where
  pub subs-IsConsistent :
      (db : Db m) (s : m.Subs)
      → IsConsistent m laws db
      → ((n : Bytes) → laws.subs_owner s n ≡ laws.subs_owner db.subscriptions n)
      → IsConsistent m laws (record db { subscriptions = s })
  subs-IsConsistent db s c h = record {
    subs_agree = λ n. h n ∙ c.subs_agree n;
    casts_agree = c.casts_agree;
    named = c.named;
    marked = c.marked;
    listed = c.listed;
  }

  -- A step of the reader that keeps the maps consistent, however it ends.
  abbrev Keeps : {A : Type 0} → M m A → Type 0
  Keeps x = (db : Db m) → IsConsistent m laws db → Ends (IsConsistent m laws) (x db)

  Keeps->>= :
      {A B : Type 0} (x : M m A) (f : A → M m B)
      → Keeps x
      → ((a : A) → Keeps (f a))
      → Keeps (◌>>=◌ m x f)
  Keeps->>= {A} {B} x f h k db c = Ends->>= (IsConsistent m laws) (x db) _ (h db c) continued
    where
      continued :
          (r : Result A) (d : Db m)
          → IsConsistent m laws d
          → Ends (IsConsistent m laws) (continue m f r d)
      continued (ok a) d o = k a d o
      continued (err e) d o = o

  Keeps-if : {A : Type 0} (b : Bool) (x y : M m A) → Keeps x → Keeps y → Keeps (if b then x else y)
  Keeps-if true x y h k = h
  Keeps-if false x y h k = k

  Keeps-modify :
      (f : Db m → Db m)
      → ((db : Db m) → IsConsistent m laws db → IsConsistent m laws (f db))
      → Keeps (modify m f)
  Keeps-modify f h = h

  Keeps-lift : {A : Type 0} (r : Result A) → Keeps (lift m r)
  Keeps-lift r db c = c

  module _ (env : Env) (r : ℕ) where
    enqueue-Keeps : (frame : FrameData) → Keeps (enqueue m env r frame)
    unfolding enqueue
    enqueue-Keeps frame db c =
        Ends-if (IsConsistent m laws) (is_full m (db.objects r) && not (db.objects r).queue_closed)
          _ _
          (Ends-if (IsConsistent m laws) (env.makes_room r) _ _
            (push-Ok m laws (change m db r (drained m)) r frame
              (change-IsConsistent m laws db r (drained m) (λ y. refl) (λ y. refl) c))
            tt)
          (push-Ok m laws db r frame c)

    ack-Keeps : (p : Packet) (code : ℕ) → Keeps (ack m env r p code)
    unfolding ack send_ack
    ack-Keeps p code =
        Keeps-if (needs_ack p.qos) _ _
          (Keeps->>= (modify m (λ db. count_written m (change m db r (counted_out m 6)) 1 6)) _
            (λ db c.
              count_written-Ok m laws (change m db r (counted_out m 6)) 1 6
                (change-IsConsistent m laws db r (counted_out m 6) (λ y. refl) (λ y. refl) c))
            (λ _. enqueue-Keeps (ack_frame m p.op_id code (is_realtime p.qos))))
          (λ db c. c)

    gather-Keeps :
        (p : Packet) (rule : Option (Rule m.Acl)) (ts : List Bytes)
        → Keeps (gather m env r p rule ts)
    unfolding gather
    gather-Keeps p rule [] = λ db c. c
    gather-Keeps p rule (t ∷ ts) =
        Keeps->>= (lift m (from_utf8 t)) _ (Keeps-lift (from_utf8 t)) (λ topic.
          Keeps->>= (if is_allowed m rule topic then ret m tt else ack m env r p err_access) _
            (Keeps-if (is_allowed m rule topic) _ _ (λ db c. c) (ack-Keeps p err_access))
            (λ _. Keeps->>= (gather m env r p rule ts) _ (gather-Keeps p rule ts) (λ rest db c. c)))

    subscribe_each-IsConsistent :
        (ts : List Bytes) (db : Db m)
        → IsConsistent m laws db
        → IsConsistent m laws (subscribe_each m r ts db)
    unfolding subscribe_each
    subscribe_each-IsConsistent [] db c = c
    subscribe_each-IsConsistent (t ∷ ts) db c = subscribe_each-IsConsistent ts _ (
        subs-IsConsistent db _ c
          (λ n. laws.subs_owner-subscribe t (db.objects r).name n db.subscriptions))

    each_topic-Keeps :
        (f : Bytes → Db m → Db m) (ts : List Bytes)
        → ((t : Bytes) (db : Db m) → IsConsistent m laws db → IsConsistent m laws (f t db))
        → Keeps (each_topic m f ts)
    unfolding each_topic
    each_topic-Keeps f [] h = λ db c. c
    each_topic-Keeps f (t ∷ ts) h =
        Keeps->>= (lift m (from_utf8 t)) _ (Keeps-lift (from_utf8 t))
          (λ topic. Keeps->>= (modify m (f topic)) _ (h topic) (λ _. each_topic-Keeps f ts h))

    allowed_then-Keeps :
        (p : Packet) (b : Bool) (act : M m ℕ) → Keeps act → Keeps (allowed_then m env r p b act)
    unfolding allowed_then
    allowed_then-Keeps p b act h =
        Keeps-if b _ _ (Keeps->>= act _ h (λ code. ack-Keeps p code)) (ack-Keeps p err_access)

    -- `let _r = …`, then the code of success
    silently-Keeps :
        (o : Db m → Outcome (Db m) (Unit {0}))
        → ((db : Db m) → IsConsistent m laws db → Ends (IsConsistent m laws) (o db))
        → Keeps (◌>>=◌ m (λ db. silently m (o db)) (λ _. ret m response_ok))
    unfolding silently
    silently-Keeps o h =
        Keeps->>= (λ db. silently m (o db)) _
          (λ db c. Ends->>= (IsConsistent m laws) (o db) _ (h db c) (λ _ d k. k)) (λ _ db c. c)

    send_message-Keeps :
        (p : Packet) (target : Bytes) (pos : ℕ) → Keeps (send_message m env r p target pos)
    unfolding send_message
    send_message-Keeps p target pos db c =
        Ends->>= (IsConsistent m laws)
          (send m env (announce m env) db r target (content m p pos) true) _
          (send-Ok m laws env db r target (content m p pos) true c) (λ _ d k. k)

    publish-Keeps :
        (p : Packet) (target : Bytes) (receiver : Option Bytes) (pos : ℕ)
        → Keeps (
            ◌>>=◌ m
              (λ db.
                silently m
                  (publish m env (announce m env) db r target receiver (content m p pos) true))
              (λ _. ret m response_ok))
    publish-Keeps p target receiver pos =
        silently-Keeps
          (λ db. publish m env (announce m env) db r target receiver (content m p pos) true)
          (λ db c. publish-announcing-Ok m laws env db r target receiver (content m p pos) true c)

    module _ {Network : Type 0} (aaa : Option (ClientAaa m Network)) where
      with_target-Keeps :
          (op : FrameOp) (p : Packet) (target : Bytes) (pos : ℕ)
          → Keeps (with_target m env r aaa op p target pos)
      unfolding with_target
      with_target-Keeps message p target pos =
          allowed_then-Keeps p _ _ (send_message-Keeps p target pos)
      with_target-Keeps broadcast p target pos = allowed_then-Keeps p _ _ (
          silently-Keeps
            (λ db. send_broadcast m env (announce m env) db r target (content m p pos) true)
            (λ db c. send_broadcast-Ok m laws env db r target (content m p pos) true c))
      with_target-Keeps publish_topic p target pos =
          allowed_then-Keeps p _ _ (publish-Keeps p target none pos)
      with_target-Keeps publish_topic_for p target pos =
          Keeps->>= (lift m (split_receiver p.buf pos)) _ (Keeps-lift (split_receiver p.buf pos))
            (λ (receiver, pos').
              allowed_then-Keeps p _ _ (publish-Keeps p target (some receiver) pos'))
      with_target-Keeps _ p target pos = λ db c. c

      count_read-Keeps : (len : ℕ) → Keeps (modify m (λ db. count_read m db r len))
      count_read-Keeps len db c = count_read-Ok m laws db r len c

      to_target-Keeps :
          (op : FrameOp) (p : Packet)
          → Keeps (
              ◌>>=◌ m
                (lift m (split_target p.buf))
                (λ (target, pos). with_target m env r aaa op p target pos))
      to_target-Keeps op p =
          Keeps->>= (lift m (split_target p.buf)) _ (Keeps-lift (split_target p.buf))
            (λ (target, pos). with_target-Keeps op p target pos)

      excluded_one :
          (t : Bytes) (db : Db m)
          → IsConsistent m laws db
          → IsConsistent m laws (exclude_one m r t db)
      unfolding exclude_one
      excluded_one t db c =
          change-IsConsistent m laws db r
            (λ x. record x { exclusions = m.acl_insert t x.exclusions }) (λ x. refl) (λ x. refl) c

      unexcluded_one :
          (t : Bytes) (db : Db m)
          → IsConsistent m laws db
          → IsConsistent m laws (unexclude_one m r t db)
      unfolding unexclude_one
      unexcluded_one t db c =
          change-IsConsistent m laws db r
            (λ x. record x { exclusions = m.acl_remove t x.exclusions }) (λ x. refl) (λ x. refl) c

      unsubscribed_one :
          (t : Bytes) (db : Db m)
          → IsConsistent m laws db
          → IsConsistent m laws (unsubscribe_one m r t db)
      unfolding unsubscribe_one
      unsubscribed_one t db c =
          subs-IsConsistent db _ c
            (λ n. laws.subs_owner-unsubscribe t (db.objects r).name n db.subscriptions)

      by_op-Keeps : (op : FrameOp) (p : Packet) → Keeps (by_op m env r aaa op p)
      unfolding by_op some_exclusions maybe_exclusions
      by_op-Keeps subscribe_topic p =
          Keeps->>= (modify m (λ db. count_read m db r p.len)) _ (count_read-Keeps p.len) (λ _.
            Keeps->>= (gather m env r p (Option.map (λ a. a.subscribe) aaa) (split_zero p.buf)) _
              (gather-Keeps p (Option.map (λ a. a.subscribe) aaa) (split_zero p.buf))
              (λ topics.
                Keeps->>= (modify m (subscribe_each m r topics)) _
                  (subscribe_each-IsConsistent topics) (λ _. ack-Keeps p response_ok)))
      by_op-Keeps exclude_topic p =
          Keeps->>= (modify m (λ db. count_read m db r p.len)) _ (count_read-Keeps p.len) (λ _.
            Keeps->>= (each_topic m (exclude_one m r) (split_zero p.buf)) _
              (each_topic-Keeps (exclude_one m r) (split_zero p.buf) excluded_one)
              (λ _.
                Keeps->>= (modify m (λ db. change m db r (some_exclusions m))) _
                  (λ db c.
                    change-IsConsistent m laws db r (some_exclusions m) (λ x. refl) (λ x. refl) c)
                  (λ _. ack-Keeps p response_ok)))
      by_op-Keeps unexclude_topic p =
          Keeps->>= (modify m (λ db. count_read m db r p.len)) _ (count_read-Keeps p.len) (λ _.
            Keeps->>= (each_topic m (unexclude_one m r) (split_zero p.buf)) _
              (each_topic-Keeps (unexclude_one m r) (split_zero p.buf) unexcluded_one)
              (λ _.
                Keeps->>= (modify m (λ db. change m db r (maybe_exclusions m))) _
                  (λ db c.
                    change-IsConsistent m laws db r (maybe_exclusions m) (λ x. refl) (λ x. refl) c)
                  (λ _. ack-Keeps p response_ok)))
      by_op-Keeps unsubscribe_topic p =
          Keeps->>= (modify m (λ db. count_read m db r p.len)) _ (count_read-Keeps p.len) (λ _.
            Keeps->>= (each_topic m (unsubscribe_one m r) (split_zero p.buf)) _
              (each_topic-Keeps (unsubscribe_one m r) (split_zero p.buf) unsubscribed_one)
              (λ _. ack-Keeps p response_ok))
      by_op-Keeps op p = to_target-Keeps op p

      left_with-Ends :
          (o : Outcome (Db m) (Result (Unit {0})))
          → Ends (IsConsistent m laws) o
          → Ends (IsConsistent m laws) (left_with m o)
      unfolding left_with
      left_with-Ends (returned e d) h = h
      left_with-Ends (done a d) h = h
      left_with-Ends waiting h = h
      left_with-Ends deadlock h = h

      pub handle_packet-Ok :
          (p : Packet) (db : Db m)
          → IsConsistent m laws db
          → Ends (IsConsistent m laws) (handle_packet m env r aaa p db)
      unfolding handle_packet
      handle_packet-Ok p db c =
          left_with-Ends (by_op m env r aaa p.op p db) (by_op-Keeps p.op p db c)
