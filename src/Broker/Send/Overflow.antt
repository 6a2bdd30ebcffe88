-- ===== src/Broker/Send/Overflow.antt =====
-- A client whose queue is full, and what a client's own `unregister` does.
use busrt.Protocol.Error.{ok, err, error_bare, not_delivered}
use busrt.Protocol.Frame.{FrameData}
use busrt.Broker.Maps.{Maps, MapsLaws}
use busrt.Broker.Db.{Db, Client, change}
use busrt.Broker.Registry.{is_internal, drop_client}
use busrt.Broker.Registry.Laws.{IsConsistent, change-IsConsistent}
use busrt.Broker.Registry.Drop.{IsGone, drop_client-IsGone, drop_client-unregistered}
use busrt.Broker.Send.{
  ◌>>=◌, done, deadlock, Env, closed_queue, counted_out, count_read, is_full, Announce,
  unregister_with, safe_send_frame, send_all, fan_out, retain, publish, broker_info_topic, announce,
  announce_again, client_unregister, count_written,
}
use busrt.Broker.Send.{publish_event, plain, frame_of}
use busrt.Protocol.Codes.{publish_kind}
use busrt.Base.{
  ℕ, ◌≡◌, refl, ap, ◌∙◌, Bool, true, false, none, some, List, ◌∷◌, arith, Bytes, length,
}

module _ (m : Maps) where
  unregister_with-unregistered :
      (ann : Announce m) (db : Db m) (r : ℕ)
      → (db.objects r).registered ≡ false
      → unregister_with m ann db r ≡ done tt (drop_client m db r)
  unfolding unregister_with
  unregister_with-unregistered ann db r e = ground arith

  -- `Client::unregister` clears the flag that `drop_client` tests before it does anything. So for
  -- every client the call ends with the three maps as they were, the client's entry included, and
  -- dropping the client later changes nothing either.
  pub client_unregister-keeps :
      (env : Env) (db : Db m) (r : ℕ)
      → (d : Db m) × (client_unregister m env db r ≡ done tt d)
        × (d.clients ≡ db.clients)
        × (d.subscriptions ≡ db.subscriptions)
        × (d.broadcasts ≡ db.broadcasts)
        × (drop_client m d r ≡ d)
  unfolding client_unregister
  client_unregister-keeps env db r =
      let d = change m db r (λ x. record x { registered = false }) in
      let off : (d.objects r).registered ≡ false = ground arith in
      let same = drop_client-unregistered m d r off in
      (
        d,
        unregister_with-unregistered (announce m env) d r off ∙ ap (done tt) same,
        refl,
        refl,
        refl,
        same,
      )

  -- A registered primary client of a socket, with a full queue.
  pub record IsStuck (x : Client m) : Type 0 where
    pub full : is_full m x ≡ true
    pub external : is_internal x.kind ≡ false
    pub is_primary : x.primary ≡ true
    pub is_registered : x.registered ≡ true

  change-IsStuck :
      (db : Db m) (r q len : ℕ)
      → IsStuck (db.objects q)
      → IsStuck ((change m db r (counted_out m len)).objects q)
  unfolding is_full
  change-IsStuck db r q len h = ground arith

  counted-IsStuck :
      (db : Db m) (r q n len k : ℕ)
      → IsStuck (db.objects q)
      → IsStuck ((count_written m (count_read m db r len) n k).objects q)
  unfolding is_full count_read count_written
  counted-IsStuck db r q n len k h = ground arith

  safe_send_frame-deadlock :
      (env : Env) (db : Db m) (r : ℕ) (frame : FrameData) (t : Bool)
      → IsStuck (db.objects r)
      → safe_send_frame m env (announce_again m) db r frame t ≡ deadlock
  unfolding safe_send_frame unregister_with announce_again
  safe_send_frame-deadlock env db r frame t h = ground arith

  pub fan_out-deadlock :
      (env : Env) (db : Db m) (b r : ℕ) (rest : List ℕ) (frame : FrameData) (len k : ℕ) (t : Bool)
      → IsStuck (db.objects r)
      → fan_out m env (announce_again m) (count_read m db b k) (r ∷ rest) frame len t ≡ deadlock
  unfolding fan_out send_all
  fan_out-deadlock env db b r rest frame len k t h =
      let d = count_written m (count_read m db b k) (length (r ∷ rest)) len in
      ap (λ o. o >>= (λ _ d'. send_all m env (announce_again m) d' rest frame len t))
        (safe_send_frame-deadlock env (change m d r (counted_out m len)) r frame t
          (change-IsStuck d r r len (counted-IsStuck db b r (length (r ∷ rest)) k len h)))

  module _ (env : Env) (db : Db m) (b s : ℕ) (rest : List ℕ) (event : Bytes) where
    -- The announcement of a client that comes or goes never ends if the first subscriber of the
    -- topic `.broker/info` that does not exclude it is a registered primary client of a socket
    -- whose queue is full: it is unregistered, that is announced too, and the second announcement
    -- waits for the lock that the first one holds.
    pub announce-deadlock :
        (subject name : Bytes)
        → db.rpc_client ≡ some b
        → env.encode_event subject name ≡ ok event
        → retain m db broker_info_topic none (m.get_subscribers broker_info_topic db.subscriptions)
          ≡ s ∷ rest
        → is_full m (db.objects s) ≡ true
        → is_internal (db.objects s).kind ≡ false
        → (db.objects s).primary ≡ true
        → (db.objects s).registered ≡ true
        → announce m env db subject name ≡ deadlock
    unfolding announce publish publish_event
    announce-deadlock subject name eb ee er f k p g =
        let h : IsStuck (db.objects s) = record {
          full = f;
          external = k;
          is_primary = p;
          is_registered = g;
        } in
        let c = plain m event in
        let frame = frame_of publish_kind (db.objects b).name (some broker_info_topic) c in
        let dead : publish m env (announce_again m) db b broker_info_topic none c false ≡ deadlock =
          ap (λ l. fan_out m env (announce_again m) (count_read m db b c.len) l frame c.len false)
            er
          ∙ fan_out-deadlock env db b s rest frame c.len c.len false h in
        ap (λ o. publish_event m env (announce_again m) db o (env.encode_event subject name)) eb
        ∙ ap (publish_event m env (announce_again m) db (some b)) ee
        ∙ ap (λ o. o >>= (λ _ d. done (ok tt) d)) dead

  module _ (laws : MapsLaws m) (env : Env) (ann : Announce m) where
    -- A frame to a full queue of a socket's client, where there is no announcement to make since
    -- the client is a secondary one: the send is answered with NotDelivered, and the client is
    -- unregistered, gone from all the maps, which stay consistent, and its queue is closed.
    pub safe_send_frame-overflow :
        (db : Db m) (r : ℕ) (frame : FrameData) (t : Bool)
        → IsConsistent m laws db
        → is_full m (db.objects r) ≡ true
        → is_internal (db.objects r).kind ≡ false
        → (db.objects r).primary ≡ false
        → (db.objects r).registered ≡ true
        → (d : Db m) × (safe_send_frame m env ann db r frame t
            ≡ done (err (error_bare not_delivered)) d)
          × IsGone m laws d r
          × IsConsistent m laws d
          × ((d.objects r).queue_closed ≡ true)
    unfolding safe_send_frame unregister_with
    safe_send_frame-overflow db r frame t c f k p g =
        let (c', gone) = drop_client-IsGone m laws db r c g in
        let d = drop_client m db r in
        (
          change m d r (closed_queue m),
          ground arith,
          record {
            no_client = gone.no_client;
            no_subscriber = gone.no_subscriber;
            no_target = gone.no_target;
          },
          change-IsConsistent m laws d r (closed_queue m) (λ x. refl) (λ x. refl) c',
          ground arith,
        )
