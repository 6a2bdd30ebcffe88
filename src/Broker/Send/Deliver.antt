-- ===== src/Broker/Send/Deliver.antt =====
-- Who gets a frame: the target of a message, and every subscriber of a publication.
use busrt.Protocol.Error.{ok}
use busrt.Protocol.Frame.{FrameData}
use busrt.Broker.Maps.{Maps, is_in}
use busrt.Broker.Db.{Db, Client, change}
use busrt.Broker.Send.{
  ◌>>=◌, done, Env, counted_out, queued, is_full, push, Announce, safe_send_frame, send_all,
}
use busrt.Base.{
  ℕ, ◌≡◌, refl, sym, ap, ◌∙◌, Bool, false, List, [], ◌∷◌, ◌++◌, append-nil, arith, if◌then◌else◌,
}

module _ (m : Maps) where
  -- The queue of the client takes a frame at once.
  abbrev pub IsReady : Client m → Type 0
  IsReady x = (is_full m x ≡ false) × (x.queue_closed ≡ false)

  abbrev pub AllReady : Db m → List ℕ → Type 0
  AllReady db [] = Unit {0}
  AllReady db (r ∷ rest) = IsReady (db.objects r) × AllReady db rest

  abbrev pub Distinct : List ℕ → Type 0
  Distinct [] = Unit {0}
  Distinct (r ∷ rest) = (is_in r rest ≡ false) × Distinct rest

  -- The queues after one frame went to each of these clients, and nothing else happened to a queue
  -- or to the maps.
  pub record Delivered (db d : Db m) (rs : List ℕ) (frame : FrameData) : Type 0 where
    pub queues :
        (q : ℕ)
        → (d.objects q).queue ≡ (db.objects q).queue ++ (if is_in q rs then frame ∷ [] else [])
    pub sizes : (q : ℕ) → (d.objects q).queue_size ≡ (db.objects q).queue_size
    pub open_ones : (q : ℕ) → (d.objects q).queue_closed ≡ (db.objects q).queue_closed
    pub same_clients : d.clients ≡ db.clients
    pub same_subscriptions : d.subscriptions ≡ db.subscriptions
    pub same_broadcasts : d.broadcasts ≡ db.broadcasts

  change-AllReady :
      (db : Db m) (r : ℕ) (f : Client m → Client m) (rs : List ℕ)
      → is_in r rs ≡ false
      → AllReady db rs
      → AllReady (change m db r f) rs
  unfolding is_in
  change-AllReady db r f [] h a = tt
  change-AllReady db r f (x ∷ rs) h a = ground (arith, change-AllReady db r f rs)

  pub safe_send_frame-IsReady :
      (env : Env) (ann : Announce m) (db : Db m) (r : ℕ) (frame : FrameData) (t : Bool)
      → IsReady (db.objects r)
      → safe_send_frame m env ann db r frame t ≡ done (ok tt) (change m db r (queued m frame))
  unfolding safe_send_frame push
  safe_send_frame-IsReady env ann db r frame t h = rw (h.0, safe_send_frame) (rw (h.1, push))

  Delivered-cons :
      (db d e : Db m) (r : ℕ) (rs : List ℕ) (frame : FrameData)
      → is_in r rs ≡ false
      → Delivered db d (r ∷ []) frame
      → Delivered d e rs frame
      → Delivered db e (r ∷ rs) frame
  unfolding is_in
  Delivered-cons db d e r rs frame h x y = record {
    queues = λ q. ground (
      arith,
      x.queues q,
      y.queues q,
      append-nil (d.objects q).queue,
      append-nil (db.objects q).queue,
    );
    sizes = λ q. y.sizes q ∙ x.sizes q;
    open_ones = λ q. y.open_ones q ∙ x.open_ones q;
    same_clients = y.same_clients ∙ x.same_clients;
    same_subscriptions = y.same_subscriptions ∙ x.same_subscriptions;
    same_broadcasts = y.same_broadcasts ∙ x.same_broadcasts;
  }

  module _ (env : Env) (ann : Announce m) (frame : FrameData) (len : ℕ) (t : Bool) where
    unfoldable pub one : (db : Db m) (r : ℕ) → Db m
    one db r = change m (change m db r (counted_out m len)) r (queued m frame)

    pub one-Delivered : (db : Db m) (r : ℕ) → Delivered db (one db r) (r ∷ []) frame
    unfolding one is_in
    one-Delivered db r = record {
      queues = λ q. ground (arith, append-nil (db.objects q).queue);
      sizes = λ q. ground arith;
      open_ones = λ q. ground arith;
      same_clients = refl;
      same_subscriptions = refl;
      same_broadcasts = refl;
    }

    pub change-IsReady :
        (db : Db m) (r : ℕ)
        → IsReady (db.objects r)
        → IsReady ((change m db r (counted_out m len)).objects r)
    unfolding is_full
    change-IsReady db r a = ground arith

    one-AllReady :
        (db : Db m) (r : ℕ) (rs : List ℕ)
        → is_in r rs ≡ false
        → AllReady db rs
        → AllReady (one db r) rs
    unfolding one
    one-AllReady db r rs h a =
        change-AllReady (change m db r (counted_out m len)) r (queued m frame) rs h
          (change-AllReady db r (counted_out m len) rs h a)

    pub send_all-Delivered :
        (db : Db m) (rs : List ℕ)
        → Distinct rs
        → AllReady db rs
        → (d : Db m) × (send_all m env ann db rs frame len t ≡ done tt d) × Delivered db d rs frame
    unfolding send_all is_in one
    send_all-Delivered db [] s a = (
      db,
      refl,
      record {
        queues = λ q. sym (append-nil (db.objects q).queue);
        sizes = λ q. refl;
        open_ones = λ q. refl;
        same_clients = refl;
        same_subscriptions = refl;
        same_broadcasts = refl;
      },
    )
    send_all-Delivered db (r ∷ rs) s a =
        let db' = change m db r (counted_out m len) in
        let e = safe_send_frame-IsReady env ann db' r frame t (change-IsReady db r a.0) in
        let (d, ed, y) = send_all-Delivered (one db r) rs s.1 (one-AllReady db r rs s.0 a.1) in
        (
          d,
          ap (λ o. o >>= (λ _ d'. send_all m env ann d' rs frame len t)) e ∙ ed,
          Delivered-cons db (one db r) d r rs frame s.0 (one-Delivered db r) y,
        )
