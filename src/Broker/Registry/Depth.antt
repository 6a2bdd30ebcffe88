-- ===== src/Broker/Registry/Depth.antt =====
-- How deep the recursion of `drop_client` goes.
use busrt.Broker.Maps.{Maps, lookup, lookup-remove, has}
use busrt.Broker.Db.{Db, Client, change}
use busrt.Broker.Registry.{
  is_internal, without_secondary, triggered, leave, forget, trigger, drop_secondary,
  drop_secondaries, clear_secondaries, drop_depth, drop_client,
}
use busrt.Base.{
  ℕ, suc, ◌≡◌, refl, ap, ◌∙◌, inl, inr, true, false, Option, none, some, List, [], ◌∷◌, arith,
  if◌then◌else◌, Bool-cases, Bytes, bytes_eq_iff,
}

module _ (m : Maps) where
  -- No entry comes in, and nobody turns from a primary client into a secondary one or back.
  record Fewer (db d : Db m) : Type 0 where
    fewer : (n : Bytes) (q : ℕ) → lookup n d.clients ≡ some q → lookup n db.clients ≡ some q
    same : (q : ℕ) → (d.objects q).primary ≡ (db.objects q).primary

  Fewer-refl : (db : Db m) → Fewer db db
  Fewer-refl db = record { fewer = λ n q e. e; same = λ q. refl }

  Fewer-trans : {a b c : Db m} → Fewer a b → Fewer b c → Fewer a c
  Fewer-trans x y = record {
    fewer = λ n q e. x.fewer n q (y.fewer n q e);
    same = λ q. y.same q ∙ x.same q;
  }

  change-Fewer :
      (db : Db m) (r : ℕ) (f : Client m → Client m)
      → ((x : Client m) → (f x).primary ≡ x.primary)
      → Fewer db (change m db r f)
  change-Fewer db r f fp = record {
    fewer = λ n q e. e;
    same = λ q. ground (arith, fp (db.objects r));
  }

  leave-Fewer : (db : Db m) (r : ℕ) → Fewer db (leave m db r)
  unfolding leave
  leave-Fewer db r = record {
    fewer = λ n q e. ground (arith, lookup-remove n (db.objects r).name db.clients);
    same = λ q. ground arith;
  }

  trigger-Fewer : (db : Db m) (r : ℕ) → Fewer db (trigger m db r)
  unfolding trigger
  trigger-Fewer db r = elim (Bool-cases (is_internal (db.objects r).kind)) [
    | inl e ↦ rw (e, trigger) (Fewer-refl db)
    | inr e ↦ rw (e, trigger) (change-Fewer db r (triggered m) (λ x. refl))
  ]

  forget-Fewer : (db : Db m) (n : Bytes) (p : Option ℕ) → Fewer db (forget m db n p)
  unfolding forget
  forget-Fewer db n none = Fewer-refl db
  forget-Fewer db n (some p) = change-Fewer db p (without_secondary m n) (λ x. refl)

  -- A secondary client is dropped with no further recursion.
  drop_depth-secondary :
      (n : ℕ) (db : Db m) (q : ℕ)
      → (db.objects q).primary ≡ false
      → drop_depth m (suc n) db q ≡ drop_depth m 1 db q
  unfolding drop_depth
  drop_depth-secondary n db q e = ground (arith, e)

  drop_depth-Fewer :
      (db : Db m) (q : ℕ) → (db.objects q).primary ≡ false → Fewer db (drop_depth m 1 db q)
  unfolding drop_depth
  drop_depth-Fewer db q p =
      let x = db.objects q in
      let d = leave m db q in
      elim (Bool-cases x.registered) [
        | inr e ↦ rw (e, drop_depth) (Fewer-refl db)
        | inl e ↦
            rw (e, p, drop_depth)
              (Fewer-trans (leave-Fewer db q)
                (forget-Fewer d x.name (lookup x.primary_name d.clients)))
      ]

  -- Whoever is registered under one of these names is a secondary client.
  abbrev pub AreSecondary : Db m → List Bytes → Type 0
  AreSecondary db ss =
      (n : Bytes) (q : ℕ)
      → has n ss ≡ true
      → lookup n db.clients ≡ some q
      → (db.objects q).primary ≡ false

  Fewer-AreSecondary :
      (db d : Db m) (ss : List Bytes) → Fewer db d → AreSecondary db ss → AreSecondary d ss
  Fewer-AreSecondary db d ss x h n q i e = x.same q ∙ h n q i (x.fewer n q e)

  drop_secondary-same :
      (n : ℕ) (db : Db m) (o : Option ℕ)
      → ((q : ℕ) → o ≡ some q → (db.objects q).primary ≡ false)
      → (drop_secondary m (drop_depth m (suc n)) db o ≡ drop_secondary m (drop_depth m 1) db o)
        × Fewer db (drop_secondary m (drop_depth m 1) db o)
  unfolding drop_secondary
  drop_secondary-same n db none h = (refl, Fewer-refl db)
  drop_secondary-same n db (some s) h =
      let t = trigger-Fewer db s in
      let p = t.same s ∙ h s refl in
      (
        drop_depth-secondary n (trigger m db s) s p,
        Fewer-trans t (drop_depth-Fewer (trigger m db s) s p),
      )

  drop_secondaries-same :
      (n : ℕ) (db : Db m) (ss : List Bytes)
      → AreSecondary db ss
      → drop_secondaries m (drop_depth m (suc n)) db ss ≡ drop_secondaries m (drop_depth m 1) db ss
  unfolding drop_secondaries has
  drop_secondaries-same n db [] h = refl
  drop_secondaries-same n db (s ∷ rest) h =
      let (e, f) =
        drop_secondary-same n db (lookup s db.clients)
          (λ q i. h s q (ground (arith, bytes_eq_iff s s)) i) in
      let d = drop_secondary m (drop_depth m 1) db (lookup s db.clients) in
      ap (λ x. drop_secondaries m (drop_depth m (suc n)) x rest) e
      ∙ drop_secondaries-same n d rest
          (Fewer-AreSecondary db d rest f (λ k q i. h k q (ground (arith, i))))

  -- The recursion of `drop_client` ends at depth two, so any greater depth gives the same broker:
  -- for every client under whose secondaries' names nobody but secondary clients is registered.
  pub drop_client-depth :
      (n : ℕ) (db : Db m) (r : ℕ)
      → AreSecondary db (db.objects r).secondaries
      → drop_depth m (suc (suc n)) db r ≡ drop_client m db r
  unfolding drop_client drop_depth
  drop_client-depth n db r h =
      let x = db.objects r in
      let d = leave m db r in
      let e =
        drop_secondaries-same n d x.secondaries
          (Fewer-AreSecondary db d x.secondaries (leave-Fewer db r) h) in
      ap
        (λ y.
          if x.registered
          then (if x.primary
              then clear_secondaries m y r
              else forget m d x.name (lookup x.primary_name d.clients))
          else db)
        e
