-- ===== src/Broker/Register.antt =====
-- src/broker.rs: `BrokerDb::register_client`, `Broker::register_client` and
-- `register_secondary_for`. The client's object is there before it is registered.
use busrt.Protocol.Error.{Result, ok, err, ErrorKind, busy}
use busrt.Broker.Maps.{Maps, MapsLaws, lookup, remove}
use busrt.Broker.Db.{Db, change}
use busrt.Broker.Registry.{insert_client, drop_client, triggered}
use busrt.Broker.Registry.Laws.{IsConsistent, change-IsConsistent, insert_client-IsConsistent}
use busrt.Broker.Send.{Outcome, ◌>>=◌, done, Env, announce}
use busrt.Broker.Registry.Laws.{drop_client-evicted}
use busrt.Broker.Registry.Drop.{drop_client-off}
use busrt.Broker.Send.Consistent.{Ends, Ends-if, Ends->>=, announce-Ok}
use busrt.Base.{
  ℕ, ◌≡◌, refl, Bool, true, false, ◌&&◌, Option, none, some, arith, if◌then◌else◌, Bytes, codes,
}

is_busy : ErrorKind → Bool
is_busy busy = true
is_busy _ = false

module _ (m : Maps) where
  -- `if let Some(prev) = self.clients.lock().remove(&name)`
  evict : Db m → Bytes → Option ℕ → Db m
  evict db name none = db
  evict db name (some prev) =
      change m (drop_client m (record db { clients = remove name db.clients }) prev) prev
        (triggered m)

  announced : Env → Db m → ℕ → Outcome (Db m) (Result (Unit {0}))
  announced env db r =
      if (db.objects r).primary
      then announce m env db (codes "reg") (db.objects r).name >>= (λ _ d. done (ok tt) d)
      else done (ok tt) db

  second_try : Env → Db m → ℕ → Result (Db m) → Outcome (Db m) (Result (Unit {0}))
  second_try env db r (err e) = done (err e) db
  second_try env db r (ok d) = announced env d r

  first_try : Env → Db m → ℕ → Result (Db m) → Outcome (Db m) (Result (Unit {0}))
  first_try env db r (ok d) = announced env d r
  first_try env db r (err e) =
      let x = db.objects r in
      let d = evict db x.name (lookup x.name db.clients) in
      if is_busy e.kind && (x.primary && db.force_register)
      then second_try env d r (insert_client m d r)
      else done (err e) db

  unfoldable pub register_client : Env → Db m → ℕ → Outcome (Db m) (Result (Unit {0}))
  unfolding first_try second_try announced evict is_busy
  register_client env db r = first_try env db r (insert_client m db r)

module _ (m : Maps) (laws : MapsLaws m) (env : Env) where
  abbrev Ok : Db m → Type 0
  Ok = IsConsistent m laws

  announced-Ok : (db : Db m) (r : ℕ) → Ok db → Ends Ok (announced m env db r)
  unfolding announced
  announced-Ok db r c =
      Ends-if Ok (db.objects r).primary _ _
        (Ends->>= Ok (announce m env db (codes "reg") (db.objects r).name) (λ _ d. done (ok tt) d)
          (announce-Ok m laws env db (codes "reg") (db.objects r).name c) (λ _ d k. k))
        c

  evict-Ok :
      (db : Db m) (n : Bytes) (o : Option ℕ) → lookup n db.clients ≡ o → Ok db → Ok (evict m db n o)
  unfolding evict
  evict-Ok db n none e c = c
  evict-Ok db n (some prev) e c =
      change-IsConsistent m laws (drop_client m (record db { clients = remove n db.clients }) prev)
        prev (triggered m) (λ x. refl) (λ x. refl) (drop_client-evicted m laws db n prev e c)

  evict-off :
      (db : Db m) (n : Bytes) (o : Option ℕ) (q : ℕ)
      → (db.objects q).registered ≡ false
      → ((evict m db n o).objects q).registered ≡ false
  unfolding evict
  evict-off db n none q h = h
  evict-off db n (some prev) q h =
      let d : Db m = record db { clients = remove n db.clients } in
      ground (arith, drop_client-off m d prev q h)

  second_try-Ok :
      (db : Db m) (r : ℕ) (o : Result (Db m))
      → insert_client m db r ≡ o
      → (db.objects r).registered ≡ false
      → Ok db
      → Ends Ok (second_try m env db r o)
  unfolding second_try
  second_try-Ok db r (err x) e h c = c
  second_try-Ok db r (ok d) e h c =
      announced-Ok d r (insert_client-IsConsistent m laws db r d h c e)

  first_try-Ok :
      (db : Db m) (r : ℕ) (o : Result (Db m))
      → insert_client m db r ≡ o
      → (db.objects r).registered ≡ false
      → Ok db
      → Ends Ok (first_try m env db r o)
  unfolding first_try
  first_try-Ok db r (ok d) e h c = announced-Ok d r (insert_client-IsConsistent m laws db r d h c e)
  first_try-Ok db r (err x) e h c =
      let n = (db.objects r).name in
      let d = evict m db n (lookup n db.clients) in
      Ends-if Ok (is_busy x.kind && ((db.objects r).primary && db.force_register)) _ _
        (second_try-Ok d r (insert_client m d r) refl (evict-off db n (lookup n db.clients) r h)
          (evict-Ok db n (lookup n db.clients) refl c))
        c

  -- Registering a new client, with force or without, keeps the maps consistent, whether it
  -- succeeds, is refused, or throws the client out that has the name.
  pub register_client-Ok :
      (db : Db m) (r : ℕ)
      → IsConsistent m laws db
      → (db.objects r).registered ≡ false
      → Ends (IsConsistent m laws) (register_client m env db r)
  unfolding register_client
  register_client-Ok db r c h = first_try-Ok db r (insert_client m db r) refl h c
