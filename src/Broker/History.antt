-- ===== src/Broker/History.antt =====
-- The broker over time: whatever calls are made, in any order, its maps stay consistent.
use busrt.Broker.Maps.{Maps, MapsLaws, lookup}
use busrt.Broker.Db.{new_at, Db, Client, change}
use busrt.Broker.Registry.{drop_client}
use busrt.Broker.Registry.Laws.{
  IsConsistent, new_at-IsConsistent, change-IsConsistent, drop_client-IsConsistent,
}
use busrt.Broker.Send.{
  Outcome, done, returned, waiting, deadlock, Env, Content, send, send_broadcast, publish, announce,
  unregister_client,
}
use busrt.Broker.Register.{register_client, register_client-Ok}
use busrt.Broker.Calls.{create, subscribe, unsubscribe, excluded, unexcluded}
use busrt.Broker.Send.Consistent.{
  Ends, send-Ok, send_broadcast-Ok, publish-announcing-Ok, unregister_client-Ok,
}
use busrt.Protocol.Codes.{QoS}
use busrt.Broker.Aaa.{ClientAaa}
use busrt.Broker.Peer.{PeerHandlerParams, handshake}
use busrt.Broker.Peer.Keeps.{handshake-IsConsistent}
use busrt.Broker.Connection.{handle_pinger, handle_pinger-Ok, finish_peer, finish_peer-Ok}
use busrt.Protocol.Talk.{Line, run}
use busrt.Protocol.Error.{Result}
use busrt.Broker.Packet.{Packet}
use busrt.Broker.Dispatch.{handle_packet}
use busrt.Broker.Dispatch.Keeps.{subs-IsConsistent, handle_packet-Ok}
use busrt.Base.{ℕ, ◌≡◌, refl, subst, Bool, false, Option, List, arith, Bytes}

-- How an operation ends: with a result, or by leaving its function with an error.
unfoldable pub EndsIn : {D A : Type 0} → Outcome D A → D → Type 0
EndsIn (done a d) e = d ≡ e
EndsIn (returned x d) e = d ≡ e
EndsIn _ e = ⊥

-- One call that ends, in a broker with this environment. A client that registers is a new object,
-- at a number that no registered client has.
pub data Step (m : Maps) (Network Addr : Type 0) (env : Env) (db : Db m) : Db m → Type 0 where
  registers :
      {d : Db m} (r : ℕ) (x : Client m)
      → (db.objects r).registered ≡ false
      → x.registered ≡ false
      → EndsIn (register_client m env (new_at m db r x) r) d
      → Step m Network Addr env db d
  unregisters :
      {d : Db m} (r : ℕ) → EndsIn (unregister_client m env db r) d → Step m Network Addr env db d
  is_dropped : (r : ℕ) → Step m Network Addr env db (drop_client m db r)
  sends :
      {d : Db m} (r : ℕ) (target : Bytes) (c : Content) (timeout : Bool)
      → EndsIn (send m env (announce m env) db r target c timeout) d
      → Step m Network Addr env db d
  broadcasts :
      {d : Db m} (r : ℕ) (target : Bytes) (c : Content) (timeout : Bool)
      → EndsIn (send_broadcast m env (announce m env) db r target c timeout) d
      → Step m Network Addr env db d
  publishes :
      {d : Db m} (r : ℕ) (topic : Bytes) (receiver : Option Bytes) (c : Content) (timeout : Bool)
      → EndsIn (publish m env (announce m env) db r topic receiver c timeout) d
      → Step m Network Addr env db d
  -- A packet of a client with these rights is handled.
  handles :
      {d : Db m} (r : ℕ) (aaa : Option (ClientAaa m Network)) (p : Packet)
      → EndsIn (handle_packet m env r aaa p db) d
      → Step m Network Addr env db d
  -- A peer shakes hands on a connection, to become the client r.
  greets :
      {d : Db m} (contains : Network → Addr → Bool) (addr_text : Addr → Bytes)
      (params : PeerHandlerParams m Network Addr) (r : ℕ) (l : Line)
      → (db.objects r).registered ≡ false
      → EndsIn (run (handshake m contains addr_text env params r) l db).outcome d
      → Step m Network Addr env db d
  pings : {d : Db m} (r : ℕ) → EndsIn (handle_pinger m db r) d → Step m Network Addr env db d
  finishes :
      {d : Db m} (r : ℕ) (result : Result (Unit {0}))
      → EndsIn (finish_peer m env db r result) d
      → Step m Network Addr env db d
  subscribes :
      (r : ℕ) (topic : Bytes) (qos : QoS)
      → Step m Network Addr env db (subscribe m db r topic qos).0
  unsubscribes :
      (r : ℕ) (topic : Bytes) (qos : QoS)
      → Step m Network Addr env db (unsubscribe m db r topic qos).0
  excludes :
      (r : ℕ) (topics : List Bytes) → Step m Network Addr env db (change m db r (excluded m topics))
  unexcludes :
      (r : ℕ) (topics : List Bytes)
      → Step m Network Addr env db (change m db r (unexcluded m topics))

pub data Reach (m : Maps) (Network Addr : Type 0) (env : Env) (db : Db m) : Db m → Type 0 where
  here : Reach m Network Addr env db db
  next :
      {d e : Db m}
      → Reach m Network Addr env db d
      → Step m Network Addr env d e
      → Reach m Network Addr env db e

ended : {D A : Type 0} (P : D → Type 0) (o : Outcome D A) {d : D} → EndsIn o d → Ends P o → P d
unfolding EndsIn
ended P (done a d) e h = subst P e h
ended P (returned x d) e h = subst P e h
ended P waiting e h = absurd e
ended P deadlock e h = absurd e

module _ (m : Maps) (laws : MapsLaws m) (Network Addr : Type 0) (env : Env) where
  Step-IsConsistent :
      {db d : Db m} → Step m Network Addr env db d → IsConsistent m laws db → IsConsistent m laws d
  unfolding excluded unexcluded subscribe unsubscribe
  Step-IsConsistent {db} (registers r x h hx e) c = ended (IsConsistent m laws) _ e (
      register_client-Ok m laws env (new_at m db r x) r (new_at-IsConsistent m laws db r x h hx c)
        (ground arith))
  Step-IsConsistent {db} (unregisters r e) c =
      ended (IsConsistent m laws) _ e (unregister_client-Ok m laws env db r c)
  Step-IsConsistent {db} (is_dropped r) c = drop_client-IsConsistent m laws db r c
  Step-IsConsistent {db} (sends r target x t e) c =
      ended (IsConsistent m laws) _ e (send-Ok m laws env db r target x t c)
  Step-IsConsistent {db} (broadcasts r target x t e) c =
      ended (IsConsistent m laws) _ e (send_broadcast-Ok m laws env db r target x t c)
  Step-IsConsistent {db} (publishes r topic receiver x t e) c =
      ended (IsConsistent m laws) _ e (publish-announcing-Ok m laws env db r topic receiver x t c)
  Step-IsConsistent {db} (handles r aaa p e) c =
      ended (IsConsistent m laws) _ e (handle_packet-Ok m laws env r aaa p db c)
  Step-IsConsistent {db} (greets contains addr_text params r l h e) c =
      ended (IsConsistent m laws) _ e
        (handshake-IsConsistent m laws contains addr_text env params r l db c h)
  Step-IsConsistent {db} (pings r e) c =
      ended (IsConsistent m laws) _ e (handle_pinger-Ok m laws db r c)
  Step-IsConsistent {db} (finishes r result e) c =
      ended (IsConsistent m laws) _ e (finish_peer-Ok m laws env db r result c)
  Step-IsConsistent {db} (subscribes r topic qos) c =
      subs-IsConsistent m laws db _ c
        (λ n. laws.subs_owner-subscribe topic (db.objects r).name n db.subscriptions)
  Step-IsConsistent {db} (unsubscribes r topic qos) c =
      subs-IsConsistent m laws db _ c
        (λ n. laws.subs_owner-unsubscribe topic (db.objects r).name n db.subscriptions)
  Step-IsConsistent {db} (excludes r topics) c =
      change-IsConsistent m laws db r (excluded m topics) (λ x. refl) (λ x. refl) c
  Step-IsConsistent {db} (unexcludes r topics) c =
      change-IsConsistent m laws db r (unexcluded m topics) (λ x. refl) (λ x. refl) c

  create-IsConsistent :
      (objects : ℕ → Client m) (force : Bool)
      → ((r : ℕ) → (objects r).registered ≡ false)
      → IsConsistent m laws (create m objects force)
  unfolding create lookup
  create-IsConsistent objects force h = record {
    subs_agree = λ n. laws.subs_owner-none n;
    casts_agree = λ n. laws.casts_owner-none n;
    named = λ n r e. cc;
    marked = λ n r e. cc;
    listed = λ r e. cc (h r);
  }

  Reach-Step-IsConsistent :
      {db d : Db m} → Reach m Network Addr env db d → IsConsistent m laws db → IsConsistent m laws d
  Reach-Step-IsConsistent here c = c
  Reach-Step-IsConsistent (next r s) c = Step-IsConsistent s (Reach-Step-IsConsistent r c)

  -- After any history of a new broker, of clients that register (with force or without), unregister
  -- through the broker or are dropped, of peers that shake hands, whatever they send and wherever
  -- their connections fail, of pings and ends of connections, of messages, broadcasts and
  -- publications, of subscriptions and exclusions, and of packets of any operation that the readers
  -- handle, in any order, whatever queues overflow on the way and with whatever error a call or a
  -- reader ends: the subscriptions and the broadcasts hold the same clients under the same names as
  -- the map of clients, and these are the clients with the flag `registered`.
  pub Reach-IsConsistent :
      {d : Db m} (objects : ℕ → Client m) (force : Bool)
      → ((r : ℕ) → (objects r).registered ≡ false)
      → Reach m Network Addr env (create m objects force) d
      → IsConsistent m laws d
  Reach-IsConsistent objects force h r =
      Reach-Step-IsConsistent r (create-IsConsistent objects force h)
