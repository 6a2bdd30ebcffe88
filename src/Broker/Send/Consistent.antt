-- ===== src/Broker/Send/Consistent.antt =====
-- Sending keeps the broker's maps consistent, whatever clients it unregisters on the way.
use busrt.Protocol.Error.{Result, ok, err}
use busrt.Protocol.Frame.{FrameData}
use busrt.Broker.Maps.{Maps, MapsLaws}
use busrt.Broker.Db.{Db, change}
use busrt.Broker.Registry.{is_internal, drop_client}
use busrt.Broker.Registry.Laws.{IsConsistent, change-IsConsistent, drop_client-IsConsistent}
use busrt.Broker.Send.{
  Outcome, ◌>>=◌, done, returned, waiting, deadlock, Env, Content, closed_queue, counted_in,
  counted_out, queued, drained, count_read, count_written, is_full, push, Announce, unregister_with,
  wait_for_room, safe_send_frame, send_all, fan_out, send_to, send, send_broadcast, publish,
  publish_event, announce, announce_again, unregister_client,
}
use busrt.Base.{
  ℕ, refl, Bool, true, false, ◌&&◌, Option, none, some, List, [], ◌∷◌, if◌then◌else◌, Bytes, codes,
  length,
}

-- If the operation ends, then in such a state.
abbrev pub Ends {κ} : {D A : Type 0} → (D → Type κ) → Outcome D A → Type κ
Ends P (done a d) = P d
Ends P (returned e d) = P d
Ends P waiting = Unit
Ends P deadlock = Unit

pub Ends->>= {κ} :
    {D A B : Type 0} (P : D → Type κ) (o : Outcome D A) (f : A → D → Outcome D B)
    → Ends P o
    → ((a : A) (d : D) → P d → Ends P (f a d))
    → Ends P (o >>= f)
Ends->>= P (done a d) f h k = k a d h
Ends->>= P (returned e d) f h k = h
Ends->>= P waiting f h k = tt
Ends->>= P deadlock f h k = tt

pub Ends-if {κ} :
    {D A : Type 0} (P : D → Type κ) (b : Bool) (x y : Outcome D A)
    → Ends P x
    → Ends P y
    → Ends P (if b then x else y)
Ends-if P true x y h k = h
Ends-if P false x y h k = k

module _ (m : Maps) (laws : MapsLaws m) where
  abbrev pub Ok : Db m → Type 0
  Ok = IsConsistent m laws

  pub count_read-Ok : (db : Db m) (r len : ℕ) → Ok db → Ok (count_read m db r len)
  unfolding count_read
  count_read-Ok db r len c =
      let x = change-IsConsistent m laws db r (counted_in m len) (λ y. refl) (λ y. refl) c in
      record {
        subs_agree = x.subs_agree;
        casts_agree = x.casts_agree;
        named = x.named;
        marked = x.marked;
        listed = x.listed;
      }

  pub count_written-Ok : (db : Db m) (n len : ℕ) → Ok db → Ok (count_written m db n len)
  unfolding count_written
  count_written-Ok db n len x = record {
    subs_agree = x.subs_agree;
    casts_agree = x.casts_agree;
    named = x.named;
    marked = x.marked;
    listed = x.listed;
  }

  pub push-Ok : (db : Db m) (r : ℕ) (frame : FrameData) → Ok db → Ends Ok (push m db r frame)
  unfolding push
  push-Ok db r frame c =
      Ends-if Ok (db.objects r).queue_closed _ _ c
        (change-IsConsistent m laws db r (queued m frame) (λ y. refl) (λ y. refl) c)

  module _ (env : Env) (ann : Announce m)
      (keep : (db : Db m) (subject name : Bytes) → Ok db → Ends Ok (ann db subject name)) where
    unregister_with-Ok : (db : Db m) (r : ℕ) → Ok db → Ends Ok (unregister_with m ann db r)
    unfolding unregister_with
    unregister_with-Ok db r c =
        let x = db.objects r in
        let c' = drop_client-IsConsistent m laws db r c in
        Ends-if Ok (x.primary && x.registered) _ _
          (Ends->>= Ok (ann (drop_client m db r) (codes "unreg") x.name) (λ _ d'. done tt d')
            (keep (drop_client m db r) (codes "unreg") x.name c') (λ _ d k. k))
          c'

    wait_for_room-Ok :
        (db : Db m) (r : ℕ) (frame : FrameData) (t : Bool)
        → Ok db
        → Ends Ok (wait_for_room m env db r frame t)
    unfolding wait_for_room
    wait_for_room-Ok db r frame t c = Ends-if Ok (db.objects r).queue_closed _ _ c (
        Ends-if Ok (env.makes_room r) _ _
          (push-Ok (change m db r (drained m)) r frame
            (change-IsConsistent m laws db r (drained m) (λ y. refl) (λ y. refl) c))
          (Ends-if Ok t _ _ c tt))

    safe_send_frame-Ok :
        (db : Db m) (r : ℕ) (frame : FrameData) (t : Bool)
        → Ok db
        → Ends Ok (safe_send_frame m env ann db r frame t)
    unfolding safe_send_frame
    safe_send_frame-Ok db r frame t c =
        Ends-if Ok (is_full m (db.objects r)) _ _
          (Ends-if Ok (is_internal (db.objects r).kind) _ _ (wait_for_room-Ok db r frame t c) (
            Ends->>= Ok (unregister_with m ann db r) _ (unregister_with-Ok db r c)
              (λ _ d k. change-IsConsistent m laws d r (closed_queue m) (λ y. refl) (λ y. refl) k)))
          (push-Ok db r frame c)

    send_all-Ok :
        (db : Db m) (rs : List ℕ) (frame : FrameData) (len : ℕ) (t : Bool)
        → Ok db
        → Ends Ok (send_all m env ann db rs frame len t)
    unfolding send_all
    send_all-Ok db [] frame len t c = c
    send_all-Ok db (r ∷ rest) frame len t c =
        Ends->>= Ok (safe_send_frame m env ann (change m db r (counted_out m len)) r frame t)
          (λ _ d. send_all m env ann d rest frame len t)
          (safe_send_frame-Ok (change m db r (counted_out m len)) r frame t
            (change-IsConsistent m laws db r (counted_out m len) (λ y. refl) (λ y. refl) c))
          (λ _ d k. send_all-Ok d rest frame len t k)

    fan_out-Ok :
        (db : Db m) (rs : List ℕ) (frame : FrameData) (len : ℕ) (t : Bool)
        → Ok db
        → Ends Ok (fan_out m env ann db rs frame len t)
    unfolding fan_out
    fan_out-Ok db [] frame len t c = c
    fan_out-Ok db (r ∷ rs) frame len t c =
        send_all-Ok (count_written m db (length (r ∷ rs)) len) (r ∷ rs) frame len t
          (count_written-Ok db (length (r ∷ rs)) len c)

    send_to-Ok :
        (db : Db m) (o : Option ℕ) (frame : FrameData) (len : ℕ) (t : Bool)
        → Ok db
        → Ends Ok (send_to m env ann db o frame len t)
    unfolding send_to
    send_to-Ok db none frame len t c = c
    send_to-Ok db (some r) frame len t c =
        safe_send_frame-Ok (count_written m (change m db r (counted_out m len)) 1 len) r frame t (
          count_written-Ok (change m db r (counted_out m len)) 1 len
            (change-IsConsistent m laws db r (counted_out m len) (λ y. refl) (λ y. refl) c))

    publish-Ok :
        (db : Db m) (client : ℕ) (topic : Bytes) (receiver : Option Bytes) (x : Content) (t : Bool)
        → Ok db
        → Ends Ok (publish m env ann db client topic receiver x t)
    unfolding publish
    publish-Ok db client topic receiver x t c =
        fan_out-Ok (count_read m db client x.len) _ _ x.len t (count_read-Ok db client x.len c)

  publish_event-Ok :
      (env : Env) (db : Db m) (o : Option ℕ) (e : Result Bytes)
      → Ok db
      → Ends Ok (publish_event m env (announce_again m) db o e)
  unfolding publish_event announce_again
  publish_event-Ok env db none e c = c
  publish_event-Ok env db (some r) (err e) c = c
  publish_event-Ok env db (some r) (ok event) c =
      Ends->>= Ok (publish m env (announce_again m) db r _ none _ false) _
        (publish-Ok env (announce_again m) (λ d s n k. tt) db r _ none _ false c) (λ _ d k. k)

  pub announce-Ok :
      (env : Env) (db : Db m) (subject name : Bytes)
      → IsConsistent m laws db
      → Ends (IsConsistent m laws) (announce m env db subject name)
  unfolding announce
  announce-Ok env db subject name c =
      publish_event-Ok env db db.rpc_client (env.encode_event subject name) c

  pub send-Ok :
      (env : Env) (db : Db m) (r : ℕ) (target : Bytes) (x : Content) (t : Bool)
      → IsConsistent m laws db
      → Ends (IsConsistent m laws) (send m env (announce m env) db r target x t)
  unfolding send
  send-Ok env db r target x t c =
      send_to-Ok env (announce m env) (announce-Ok env) (count_read m db r x.len) _ _ x.len t
        (count_read-Ok db r x.len c)

  pub send_broadcast-Ok :
      (env : Env) (db : Db m) (r : ℕ) (target : Bytes) (x : Content) (t : Bool)
      → IsConsistent m laws db
      → Ends (IsConsistent m laws) (send_broadcast m env (announce m env) db r target x t)
  unfolding send_broadcast
  send_broadcast-Ok env db r target x t c =
      fan_out-Ok env (announce m env) (announce-Ok env) (count_read m db r x.len) _ _ x.len t
        (count_read-Ok db r x.len c)

  pub publish-announcing-Ok :
      (env : Env) (db : Db m) (r : ℕ) (topic : Bytes) (receiver : Option Bytes) (x : Content)
      (t : Bool)
      → IsConsistent m laws db
      → Ends (IsConsistent m laws) (publish m env (announce m env) db r topic receiver x t)
  publish-announcing-Ok env = publish-Ok env (announce m env) (announce-Ok env)

  pub unregister_client-Ok :
      (env : Env) (db : Db m) (r : ℕ)
      → IsConsistent m laws db
      → Ends (IsConsistent m laws) (unregister_client m env db r)
  unfolding unregister_client
  unregister_client-Ok env = unregister_with-Ok env (announce m env) (announce-Ok env)
