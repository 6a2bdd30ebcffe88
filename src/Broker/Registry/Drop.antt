-- ===== src/Broker/Registry/Drop.antt =====
-- What `drop_client` leaves behind: a client that is dropped is in none of the maps.
use busrt.Broker.Maps.{Maps, MapsLaws, lookup, lookup-remove, is_in}
use busrt.Broker.Db.{Db, Client, change}
use busrt.Broker.Registry.Laws.{IsConsistent, drop_client-IsConsistent}
use busrt.Broker.Registry.{
  is_internal, without_secondary, triggered, cleared, leave, forget, trigger, drop_secondary,
  drop_secondaries, clear_secondaries, drop_depth, drop_client,
}
use busrt.Base.{
  ℕ, zero, suc, ◌≡◌, refl, sym, ap, ◌∙◌, subst, ◌≢◌, inl, inr, Bool, true, false, Option, none,
  some, List, [], ◌∷◌, arith, Bool-cases, Bytes, bytes_eq_iff,
}

module _ (m : Maps) where
  -- No name comes in, and the objects keep their names.
  record Shrinks (db d : Db m) : Type 0 where
    gone : (n : Bytes) → lookup n db.clients ≡ none → lookup n d.clients ≡ none
    same_names : (q : ℕ) → (d.objects q).name ≡ (db.objects q).name
    off : (q : ℕ) → (db.objects q).registered ≡ false → (d.objects q).registered ≡ false

  Shrinks-refl : (db : Db m) → Shrinks db db
  Shrinks-refl db = record { gone = λ n e. e; same_names = λ q. refl; off = λ q e. e }

  Shrinks-trans : {a b c : Db m} → Shrinks a b → Shrinks b c → Shrinks a c
  Shrinks-trans x y = record {
    gone = λ n e. y.gone n (x.gone n e);
    same_names = λ q. y.same_names q ∙ x.same_names q;
    off = λ q e. y.off q (x.off q e);
  }

  change-Shrinks :
      (db : Db m) (r : ℕ) (f : Client m → Client m)
      → ((x : Client m) → (f x).name ≡ x.name)
      → ((x : Client m) → (f x).registered ≡ x.registered)
      → Shrinks db (change m db r f)
  change-Shrinks db r f fn fr = record {
    gone = λ n e. e;
    same_names = λ q. ground (arith, fn (db.objects r));
    off = λ q e. ground (arith, fr (db.objects r));
  }

  leave-Shrinks : (db : Db m) (r : ℕ) → Shrinks db (leave m db r)
  unfolding leave
  leave-Shrinks db r = record {
    gone = λ n e. ground (arith, lookup-remove n (db.objects r).name db.clients);
    same_names = λ q. ground arith;
    off = λ q e. ground arith;
  }

  forget-Shrinks : (db : Db m) (n : Bytes) (p : Option ℕ) → Shrinks db (forget m db n p)
  unfolding forget
  forget-Shrinks db n none = Shrinks-refl db
  forget-Shrinks db n (some p) = change-Shrinks db p (without_secondary m n) (λ x. refl) (λ x. refl)

  trigger-Shrinks : (db : Db m) (r : ℕ) → Shrinks db (trigger m db r)
  unfolding trigger
  trigger-Shrinks db r = elim (Bool-cases (is_internal (db.objects r).kind)) [
    | inl e ↦ rw (e, trigger) (Shrinks-refl db)
    | inr e ↦ rw (e, trigger) (change-Shrinks db r (triggered m) (λ x. refl) (λ x. refl))
  ]

  module _ (drop : Db m → ℕ → Db m) (shrink : (db : Db m) (r : ℕ) → Shrinks db (drop db r)) where
    drop_secondary-Shrinks : (db : Db m) (s : Option ℕ) → Shrinks db (drop_secondary m drop db s)
    unfolding drop_secondary
    drop_secondary-Shrinks db none = Shrinks-refl db
    drop_secondary-Shrinks db (some s) =
        Shrinks-trans (trigger-Shrinks db s) (shrink (trigger m db s) s)

    drop_secondaries-Shrinks :
        (db : Db m) (ss : List Bytes) → Shrinks db (drop_secondaries m drop db ss)
    unfolding drop_secondaries
    drop_secondaries-Shrinks db [] = Shrinks-refl db
    drop_secondaries-Shrinks db (s ∷ rest) =
        Shrinks-trans (drop_secondary-Shrinks db (lookup s db.clients))
          (drop_secondaries-Shrinks (drop_secondary m drop db (lookup s db.clients)) rest)

  drop_depth-Shrinks : (depth : ℕ) (db : Db m) (r : ℕ) → Shrinks db (drop_depth m depth db r)
  unfolding drop_depth clear_secondaries
  drop_depth-Shrinks zero db r = Shrinks-refl db
  drop_depth-Shrinks (suc depth) db r =
      let x = db.objects r in
      let d = leave m db r in
      elim (Bool-cases x.registered) [
        | inr e ↦ rw (e, drop_depth) (Shrinks-refl db)
        | inl e ↦ elim (Bool-cases x.primary) [
          | inl p ↦
              rw (e, p, drop_depth)
                (Shrinks-trans (leave-Shrinks db r) (
                  Shrinks-trans
                    (drop_secondaries-Shrinks (drop_depth m depth) (drop_depth-Shrinks depth) d
                      x.secondaries)
                    (change-Shrinks _ r (cleared m) (λ x. refl) (λ x. refl))))
          | inr p ↦
              rw (e, p, drop_depth)
                (Shrinks-trans (leave-Shrinks db r)
                  (forget-Shrinks d x.name (lookup x.primary_name d.clients)))
        ]
      ]

  leave-gone : (db : Db m) (r : ℕ) → lookup (db.objects r).name (leave m db r).clients ≡ none
  unfolding leave
  leave-gone db r =
      let k = (db.objects r).name in ground (arith, lookup-remove k k db.clients, bytes_eq_iff k k)

  drop_depth-gone :
      (depth : ℕ) (db : Db m) (r : ℕ)
      → (db.objects r).registered ≡ true
      → lookup (db.objects r).name (drop_depth m (suc depth) db r).clients ≡ none
  unfolding drop_depth clear_secondaries
  drop_depth-gone depth db r e =
      let x = db.objects r in
      let d = leave m db r in
      elim (Bool-cases x.primary) [
        | inl p ↦
            rw (e, p, drop_depth)
              ((drop_secondaries-Shrinks (drop_depth m depth) (drop_depth-Shrinks depth) d
                  x.secondaries).gone
                x.name (leave-gone db r))
        | inr p ↦
            rw (e, p, drop_depth)
              ((forget-Shrinks d x.name (lookup x.primary_name d.clients)).gone x.name
                (leave-gone db r))
      ]

  module _ (laws : MapsLaws m) where
    -- The client with this number is in none of the broker's maps.
    pub record IsGone (db : Db m) (r : ℕ) : Type 0 where
      pub no_client : (n : Bytes) → lookup n db.clients ≢ some r
      pub no_subscriber : (t : Bytes) → is_in r (m.get_subscribers t db.subscriptions) ≡ false
      pub no_target : (t : Bytes) → is_in r (m.get_clients_by_mask t db.broadcasts) ≡ false

    not-true : (b : Bool) → (b ≡ true → ⊥) → b ≡ false
    not-true true h = absurd (h refl)
    not-true false h = refl

    unlisted-IsGone :
        (db : Db m) (r : ℕ)
        → IsConsistent m laws db
        → lookup (db.objects r).name db.clients ≡ none
        → IsGone db r
    unlisted-IsGone db r c e = record {
      no_client = absent;
      no_subscriber = λ t. not-true _ λ i.
          let (n, o) = laws.subscribers_owned t db.subscriptions r i in
          absent n (sym (c.subs_agree n) ∙ o);
      no_target = λ t. not-true _ λ i.
          let (n, o) = laws.targets_owned t db.broadcasts r i in
          absent n (sym (c.casts_agree n) ∙ o);
    }
      where
        absent : (n : Bytes) → lookup n db.clients ≢ some r
        absent n l = cc (subst (λ k. lookup k db.clients ≡ some r) (sym (c.named n r l)) l)

    -- Dropping a registered client of a consistent broker leaves a consistent broker, in which
    -- that client is registered under no name, subscribed to nothing and the target of no
    -- broadcast.
    pub drop_client-IsGone :
        (db : Db m) (r : ℕ)
        → IsConsistent m laws db
        → (db.objects r).registered ≡ true
        → IsConsistent m laws (drop_client m db r) × IsGone (drop_client m db r) r
    unfolding drop_client
    drop_client-IsGone db r c e =
        let kept = drop_client-IsConsistent m laws db r c in
        let same = (drop_depth-Shrinks 2 db r).same_names r in
        (
          kept,
          unlisted-IsGone _ r kept
              (ap (λ k. lookup k (drop_depth m 2 db r).clients) same ∙ drop_depth-gone 1 db r e),
        )

  -- A client that is not registered is not dropped again.
  pub drop_client-unregistered :
      (db : Db m) (r : ℕ) → (db.objects r).registered ≡ false → drop_client m db r ≡ db
  unfolding drop_client drop_depth
  drop_client-unregistered db r e = rw (e, drop_client, drop_depth)

  pub drop_client-off :
      (db : Db m) (r q : ℕ)
      → (db.objects q).registered ≡ false
      → ((drop_client m db r).objects q).registered ≡ false
  unfolding drop_client
  drop_client-off db r q = (drop_depth-Shrinks 2 db r).off q
