-- ===== src/Broker/Dispatch.antt =====
-- src/broker.rs: `handle_reader`, what the broker does with a packet that it has read.
pub mod Answers
pub mod Keeps
use mathlib.Core.Option
use busrt.Wire.Split.{split_zero}
use busrt.Protocol.Error.{Result, ok, err, Error, error_code, err_access, response_ok}
use busrt.Protocol.Codes.{
  FrameOp, nop, message, broadcast, publish_topic, publish_topic_for, subscribe_topic,
  unsubscribe_topic, exclude_topic, unexclude_topic, QoS, is_realtime, needs_ack, prepared, op_ack,
}
use busrt.Protocol.Text.{from_utf8}
use busrt.Protocol.Frame.{FrameData}
use busrt.Broker.Packet.{Packet}
use busrt.Broker.Target.{split_target, split_receiver}
use busrt.Broker.Maps.{Maps}
use busrt.Broker.Db.{Db, Client, change}
use busrt.Broker.Aaa.{Rule, ClientAaa, is_allowed}
use busrt.Broker.Send.{
  Outcome, done, returned, waiting, deadlock, Env, Content, send, send_broadcast, publish, announce,
  counted_out, drained, count_read, count_written, is_full, push,
}
use busrt.Broker.Send as S
use busrt.Base.{
  ℕ, zero, suc, ◌+◌, ◌-◌, ◌*◌, ◌/◌, ◌%◌, ◌^◌, ◌≤◌, ◌<◌, bit_and, bit_or, String, ◌≡◌, refl, sym, ap,
  ◌∙◌, subst, ◌≢◌, ◌↔◌, ◌⊎◌, inl, inr, Bool, true, false, not, ◌&&◌, ◌||◌, Option, none, some, List,
  [], ◌∷◌, ◌++◌, map, append-nil, append_assoc, arith, ltb, leb, ◌==◌, if◌then◌else◌, ltb→lt,
  lt→ltb, leb→le, le→leb, lt→leb, le→ltb, ==_iff, Bool-cases, Option-cases, Bytes, codes, bytes_eq,
  bytes_eq_iff, length, take, drop, is_empty, length-append, length-drop, take-append, drop-append,
  slice_from, slice,
}

module _ (m : Maps) where
  -- A step of the reader: an error ends the connection.
  abbrev pub M : Type 0 → Type 0
  M A = Db m → Outcome (Db m) (Result A)

  abbrev ret : {A : Type 0} → A → M A
  ret a db = done (ok a) db

  abbrev lift : {A : Type 0} → Result A → M A
  lift r db = done r db

  abbrev continue : {A B : Type 0} → (A → M B) → Result A → M B
  continue f (ok a) db = f a db
  continue f (err e) db = done (err e) db

  infixl 5 ◌>>=◌
  abbrev ◌>>=◌ : {A B : Type 0} → M A → (A → M B) → M B
  ◌>>=◌ x f db = S.◌>>=◌ (x db) (continue f)

  abbrev modify : (Db m → Db m) → M (Unit {0})
  modify f db = done (ok tt) (f db)

  unfoldable pub ack_frame : Bytes → ℕ → Bool → FrameData
  ack_frame op_id code realtime = record {
    kind = prepared;
    sender = none;
    topic = none;
    header = none;
    buf = op_ack ∷ (op_id ++ code ∷ []);
    payload_pos = 0;
    is_realtime = realtime;
  }

  -- A send into the client's own queue waits for room as long as it takes, unless it is closed.
  enqueue : Env → ℕ → FrameData → M (Unit {0})
  enqueue env r frame db =
      if is_full m (db.objects r) && not (db.objects r).queue_closed
      then (if env.makes_room r then push m (change m db r (drained m)) r frame else waiting)
      else push m db r frame

  -- `send_ack!`
  send_ack : Env → ℕ → Packet → ℕ → M (Unit {0})
  unfolding ack_frame enqueue
  send_ack env r p code = do
    _ ← modify (λ db. count_written m (change m db r (counted_out m 6)) 1 6)
    enqueue env r (ack_frame p.op_id code (is_realtime p.qos))

  ack : Env → ℕ → Packet → ℕ → M (Unit {0})
  unfolding send_ack
  ack env r p code = if needs_ack p.qos then send_ack env r p code else ret tt

  -- `subscribe`: the topics that are allowed; each that is not is acknowledged with the error.
  gather : Env → ℕ → Packet → Option (Rule m.Acl) → List Bytes → M (List Bytes)
  gather env r p rule [] = ret []
  gather env r p rule (t ∷ ts) = do
    topic ← lift (from_utf8 t)
    _ ← if is_allowed m rule topic then ret tt else ack env r p err_access
    rest ← gather env r p rule ts
    ret (if is_allowed m rule topic then topic ∷ rest else rest)

  subscribe_each : ℕ → List Bytes → Db m → Db m
  subscribe_each r [] db = db
  subscribe_each r (t ∷ ts) db =
      subscribe_each r ts
        (record db { subscriptions = (m.subscribe t (db.objects r).name db.subscriptions).0 })

  -- `for t in sp`: a step for each part that is UTF-8, up to one that is not.
  each_topic : (Bytes → Db m → Db m) → List Bytes → M (Unit {0})
  each_topic f [] = ret tt
  each_topic f (t ∷ ts) = do topic ← lift (from_utf8 t); _ ← modify (f topic); each_topic f ts

  unsubscribe_one : ℕ → Bytes → Db m → Db m
  unsubscribe_one r t db = record db {
    subscriptions = (m.unsubscribe t (db.objects r).name db.subscriptions).0;
  }

  exclude_one : ℕ → Bytes → Db m → Db m
  exclude_one r t db = change m db r (λ x. record x { exclusions = m.acl_insert t x.exclusions })

  unexclude_one : ℕ → Bytes → Db m → Db m
  unexclude_one r t db = change m db r (λ x. record x { exclusions = m.acl_remove t x.exclusions })

  some_exclusions : Client m → Client m
  some_exclusions x = record x { has_exclusions = true }

  maybe_exclusions : Client m → Client m
  maybe_exclusions x = record x {
    has_exclusions = if m.acl_is_empty x.exclusions then false else x.has_exclusions;
  }

  pub content : Packet → ℕ → Content
  content p pos = record {
    header = none;
    buf = p.buf;
    payload_pos = pos;
    len = length p.buf;
    is_realtime = is_realtime p.qos;
  }

  -- What `send!` answers goes into the acknowledgement, unless it leaves the reader.
  answer : Result (Unit {0}) → ℕ
  answer (ok _) = response_ok
  answer (err e) = error_code e.kind

  send_message : Env → ℕ → Packet → Bytes → ℕ → M ℕ
  send_message env r p target pos db =
      S.◌>>=◌ (send m env (announce m env) db r target (content p pos) true)
        (λ res d. done (ok (answer res)) d)

  silently : Outcome (Db m) (Unit {0}) → Outcome (Db m) (Result (Unit {0}))
  silently o = S.◌>>=◌ o (λ _ d. done (ok tt) d)

  -- An error that leaves a macro by `?` ends the reader.
  left_with : Outcome (Db m) (Result (Unit {0})) → Outcome (Db m) (Result (Unit {0}))
  left_with (returned e d) = done (err e) d
  left_with o = o

  allowed_then : Env → ℕ → Packet → Bool → M ℕ → M (Unit {0})
  allowed_then env r p allowed act =
      if allowed then (do code ← act; ack env r p code) else ack env r p err_access

  module _ {Network : Type 0} (env : Env) (r : ℕ) (aaa : Option (ClientAaa m Network)) where
    with_target : FrameOp → Packet → Bytes → ℕ → M (Unit {0})
    with_target message p target pos =
        allowed_then env r p (is_allowed m (Option.map (λ a. a.p2p) aaa) target)
          (send_message env r p target pos)
    with_target broadcast p target pos =
        allowed_then env r p (is_allowed m (Option.map (λ a. a.broadcast) aaa) target) (do
          _ ← λ db.
              silently (send_broadcast m env (announce m env) db r target (content p pos) true)
          ret response_ok)
    with_target publish_topic p target pos =
        allowed_then env r p (is_allowed m (Option.map (λ a. a.publish) aaa) target) (do
          _ ← λ db. silently (publish m env (announce m env) db r target none (content p pos) true)
          ret response_ok)
    with_target publish_topic_for p target pos = do
      (receiver, pos') ← lift (split_receiver p.buf pos)
      allowed_then env r p (is_allowed m (Option.map (λ a. a.publish) aaa) target) (do
        _ ← λ db.
            silently
              (publish m env (announce m env) db r target (some receiver) (content p pos') true)
        ret response_ok)
    with_target _ p target pos = ret tt

    by_op : FrameOp → Packet → M (Unit {0})
    by_op subscribe_topic p = do
      _ ← modify (λ db. count_read m db r p.len)
      topics ← gather env r p (Option.map (λ a. a.subscribe) aaa) (split_zero p.buf)
      _ ← modify (subscribe_each r topics)
      ack env r p response_ok
    by_op exclude_topic p = do
      _ ← modify (λ db. count_read m db r p.len)
      _ ← each_topic (exclude_one r) (split_zero p.buf)
      _ ← modify (λ db. change m db r some_exclusions)
      ack env r p response_ok
    by_op unexclude_topic p = do
      _ ← modify (λ db. count_read m db r p.len)
      _ ← each_topic (unexclude_one r) (split_zero p.buf)
      _ ← modify (λ db. change m db r maybe_exclusions)
      ack env r p response_ok
    by_op unsubscribe_topic p = do
      _ ← modify (λ db. count_read m db r p.len)
      _ ← each_topic (unsubscribe_one r) (split_zero p.buf)
      ack env r p response_ok
    by_op op p = do (target, pos) ← lift (split_target p.buf); with_target op p target pos

    -- One packet, for the client with the number r and the rights `aaa`.
    unfoldable pub handle_packet : Packet → Db m → Outcome (Db m) (Result (Unit {0}))
    unfolding left_with by_op with_target allowed_then silently send_message answer content
        maybe_exclusions some_exclusions unexclude_one exclude_one unsubscribe_one each_topic
        subscribe_each gather ack send_ack enqueue ack_frame
    handle_packet p db = left_with (by_op p.op p db)
