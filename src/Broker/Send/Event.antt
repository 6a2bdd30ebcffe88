-- ===== src/Broker/Send/Event.antt =====
-- src/broker.rs: `BrokerEvent` and `Broker::announce` of any event. The event's encoding, with the
-- time that it gets, is given.
use busrt.Protocol.Error.{Result, ok, err}
use busrt.Protocol.Codes.{publish_kind}
use busrt.Broker.Maps.{Maps}
use busrt.Broker.Db.{Db}
use busrt.Broker.Registry.{broker_warn_topic}
use busrt.Broker.Send.{
  Outcome, ◌>>=◌, done, deadlock, Env, announce, announce_again, broker_info_topic, plain, publish,
  publish_event, frame_of, fan_out, retain, count_read,
}
use busrt.Broker.Send.Overflow.{IsStuck, fan_out-deadlock}
use busrt.Base.{ℕ, ◌≡◌, refl, ap, ◌∙◌, false, Option, none, some, List, ◌∷◌, Bytes, codes}

-- The fields that the sender of an event chooses.
pub record BrokerEvent : Type 0 where
  pub subject : Bytes
  pub name : Option Bytes
  pub topic : Bytes

abbrev pub shutdown : BrokerEvent
shutdown = record { subject = codes "shutdown"; name = none; topic = broker_warn_topic }

abbrev pub reg : Bytes → BrokerEvent
reg name = record { subject = codes "reg"; name = some name; topic = broker_info_topic }

abbrev pub unreg : Bytes → BrokerEvent
unreg name = record { subject = codes "unreg"; name = some name; topic = broker_info_topic }

module _ (m : Maps) (encode : BrokerEvent → Result Bytes) where
  unfoldable pub publish_on :
      Env → Db m → Option ℕ → BrokerEvent → Result Bytes → Outcome (Db m) (Result (Unit {0}))
  unfolding plain
  publish_on env db none e event = done (ok tt) db
  publish_on env db (some r) e (err x) = done (err x) db
  publish_on env db (some r) e (ok event) =
      publish m env (announce_again m) db r e.topic none (plain m event) false
      >>= (λ _ d. done (ok tt) d)

  -- The lock of the RPC client is held until the event is published.
  unfoldable pub announce_event : Env → Db m → BrokerEvent → Outcome (Db m) (Result (Unit {0}))
  unfolding publish_on
  announce_event env db e = publish_on env db db.rpc_client e (encode e)

  publish_on-eq-publish_event :
      (env : Env) (db : Db m) (o : Option ℕ) (name : Bytes) (x : Result Bytes)
      → publish_event m env (announce_again m) db o x ≡ publish_on env db o (unreg name) x
  unfolding publish_event publish_on
  publish_on-eq-publish_event env db none name x = refl
  publish_on-eq-publish_event env db (some r) name (err e) = refl
  publish_on-eq-publish_event env db (some r) name (ok event) = refl

  -- `announce` of a client that goes is that of this event.
  announce-eq-announce_event :
      (env : Env) (db : Db m) (name : Bytes)
      → env.encode_event (codes "unreg") name ≡ encode (unreg name)
      → announce m env db (codes "unreg") name ≡ announce_event env db (unreg name)
  unfolding announce announce_event
  announce-eq-announce_event env db name h =
      ap (publish_event m env (announce_again m) db db.rpc_client) h
      ∙ publish_on-eq-publish_event env db db.rpc_client name (encode (unreg name))

  -- Where the first subscriber of the event's topic that does not exclude it has a full queue and is
  -- a registered primary client of a socket, the announcement never ends.
  pub announce_event-deadlock :
      (env : Env) (db : Db m) (e : BrokerEvent) (b s : ℕ) (rest : List ℕ) (event : Bytes)
      → db.rpc_client ≡ some b
      → encode e ≡ ok event
      → retain m db e.topic none (m.get_subscribers e.topic db.subscriptions) ≡ s ∷ rest
      → IsStuck m (db.objects s)
      → announce_event env db e ≡ deadlock
  unfolding announce_event publish_on publish
  announce_event-deadlock env db e b s rest event eb ee er h =
      let c = plain m event in
      let frame = frame_of publish_kind (db.objects b).name (some e.topic) c in
      let dead : publish m env (announce_again m) db b e.topic none c false ≡ deadlock =
        ap (λ l. fan_out m env (announce_again m) (count_read m db b c.len) l frame c.len false) er
        ∙ fan_out-deadlock m env db b s rest frame c.len c.len false h in
      ap (λ o. publish_on env db o e (encode e)) eb
      ∙ ap (publish_on env db (some b) e) ee
      ∙ ap (λ o. o >>= (λ _ d. done (ok tt) d)) dead
