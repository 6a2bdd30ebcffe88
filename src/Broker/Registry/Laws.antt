-- ===== src/Broker/Registry/Laws.antt =====
-- The three maps of the broker agree, whatever clients come and go.
use busrt.Protocol.Error.{ok}
use busrt.Broker.Maps.{Maps, MapsLaws, lookup, remove, lookup-cons, lookup-remove}
use busrt.Broker.Db.{Db, Client, change, new_at}
use busrt.Broker.Registry.{
  broker_warn_topic, is_internal, with_secondary, without_secondary, triggered, cleared, enter,
  attach, insert_client, insert_vacant, insert_at, insert_under, leave, forget, trigger,
  drop_secondary, drop_secondaries, clear_secondaries, drop_depth, drop_client,
}
use busrt.Base.{
  ℕ, zero, suc, ◌≡◌, refl, sym, ap, ◌∙◌, subst, inl, inr, true, false, Option, none, some, List, [],
  ◌∷◌, arith, Bool-cases, Bytes, bytes_eq, bytes_eq_iff,
}

module _ (m : Maps) (laws : MapsLaws m) where
  -- Subscriptions and broadcasts know the same clients under the same names as the map of clients;
  -- these carry the flag `registered`, and nobody else does.
  pub record IsConsistent (db : Db m) : Type 0 where
    pub subs_agree : (n : Bytes) → laws.subs_owner db.subscriptions n ≡ lookup n db.clients
    pub casts_agree : (n : Bytes) → laws.casts_owner db.broadcasts n ≡ lookup n db.clients
    pub named : (n : Bytes) (r : ℕ) → lookup n db.clients ≡ some r → (db.objects r).name ≡ n
    pub marked :
        (n : Bytes) (r : ℕ) → lookup n db.clients ≡ some r → (db.objects r).registered ≡ true
    pub listed :
        (r : ℕ) → (db.objects r).registered ≡ true → lookup (db.objects r).name db.clients ≡ some r

  -- A change that leaves names, flags and maps alone.
  pub change-IsConsistent :
      (db : Db m) (r : ℕ) (f : Client m → Client m)
      → ((x : Client m) → (f x).name ≡ x.name)
      → ((x : Client m) → (f x).registered ≡ x.registered)
      → IsConsistent db
      → IsConsistent (change m db r f)
  change-IsConsistent db r f fn fr c = record {
    subs_agree = c.subs_agree;
    casts_agree = c.casts_agree;
    named = λ n q e. ground (arith, c.named n q e, fn (db.objects r));
    marked = λ n q e. ground (arith, c.marked n q e, fr (db.objects r));
    listed = λ q e. ground (arith, c.listed q, c.listed r, fn (db.objects r), fr (db.objects r));
  }

  pub leave-IsConsistent :
      (db : Db m) (r : ℕ)
      → (db.objects r).registered ≡ true
      → IsConsistent db
      → IsConsistent (leave m db r)
  unfolding leave
  leave-IsConsistent db r h c =
      let k = (db.objects r).name in
      record {
        subs_agree = λ n. ground (
          arith,
          laws.subs_owner-unregister k n db.subscriptions,
          c.subs_agree n,
          lookup-remove n k db.clients,
        );
        casts_agree = λ n. ground (
          arith,
          laws.casts_owner-unregister k n db.broadcasts,
          c.casts_agree n,
          lookup-remove n k db.clients,
        );
        named = λ n q e. ground (arith, c.named n q, lookup-remove n k db.clients);
        marked = λ n q e.
            ground
              (arith, c.marked n q, c.named n q, lookup-remove n k db.clients, bytes_eq_iff k n);
        listed = λ q e. ground (
          arith,
          c.listed q,
          c.listed r h,
          lookup-remove (db.objects q).name k db.clients,
          bytes_eq_iff k (db.objects q).name,
        );
      }

  enter-IsConsistent :
      (db : Db m) (r : ℕ)
      → (db.objects r).registered ≡ false
      → lookup (db.objects r).name db.clients ≡ none
      → IsConsistent db
      → IsConsistent (enter m db r)
  unfolding enter
  enter-IsConsistent db r h v c =
      let k = (db.objects r).name in
      let s = m.subs_register k r db.subscriptions in
      record {
        subs_agree = λ n. ground (
          arith,
          laws.subs_owner-subscribe broker_warn_topic k n s,
          laws.subs_owner-register k n r db.subscriptions,
          c.subs_agree n,
          c.subs_agree k,
          lookup-cons n k r db.clients,
        );
        casts_agree = λ n. ground (
          arith,
          laws.casts_owner-register k n r db.broadcasts,
          c.casts_agree n,
          c.casts_agree k,
          lookup-cons n k r db.clients,
        );
        named =
            λ n q e. ground (arith, c.named n q, lookup-cons n k r db.clients, bytes_eq_iff k n);
        marked = λ n q e. ground (arith, c.marked n q, lookup-cons n k r db.clients);
        listed = λ q e. ground (
          arith,
          c.listed q,
          lookup-cons (db.objects q).name k r db.clients,
          lookup-cons k k r db.clients,
          bytes_eq_iff k k,
          bytes_eq_iff k (db.objects q).name,
        );
      }

  attach-IsConsistent :
      (db : Db m) (n : Bytes) (p : Option ℕ) → IsConsistent db → IsConsistent (attach m db n p)
  unfolding attach
  attach-IsConsistent db n none c = c
  attach-IsConsistent db n (some p) c =
      change-IsConsistent db p (with_secondary m n) (λ x. refl) (λ x. refl) c

  forget-IsConsistent :
      (db : Db m) (n : Bytes) (p : Option ℕ) → IsConsistent db → IsConsistent (forget m db n p)
  unfolding forget
  forget-IsConsistent db n none c = c
  forget-IsConsistent db n (some p) c =
      change-IsConsistent db p (without_secondary m n) (λ x. refl) (λ x. refl) c

  trigger-IsConsistent : (db : Db m) (r : ℕ) → IsConsistent db → IsConsistent (trigger m db r)
  unfolding trigger
  trigger-IsConsistent db r c = elim (Bool-cases (is_internal (db.objects r).kind)) [
    | inl e ↦ rw (e, trigger) c
    | inr e ↦ rw (e, trigger) (change-IsConsistent db r (triggered m) (λ x. refl) (λ x. refl) c)
  ]

  insert_vacant-IsConsistent :
      (db : Db m) (r : ℕ) (p : Option ℕ)
      → (db.objects r).registered ≡ false
      → lookup (db.objects r).name db.clients ≡ none
      → IsConsistent db
      → IsConsistent (insert_vacant m db r p)
  unfolding insert_vacant attach
  insert_vacant-IsConsistent db r none h v c = enter-IsConsistent db r h v c
  insert_vacant-IsConsistent db r (some p) h v c =
      let d = attach m db (db.objects r).name (some p) in
      enter-IsConsistent d r (ground arith) (ground arith)
        (attach-IsConsistent db (db.objects r).name (some p) c)

  module _ (drop : Db m → ℕ → Db m)
      (keep : (db : Db m) (r : ℕ) → IsConsistent db → IsConsistent (drop db r)) where
    drop_secondary-IsConsistent :
        (db : Db m) (s : Option ℕ) → IsConsistent db → IsConsistent (drop_secondary m drop db s)
    unfolding drop_secondary
    drop_secondary-IsConsistent db none c = c
    drop_secondary-IsConsistent db (some s) c =
        keep (trigger m db s) s (trigger-IsConsistent db s c)

    drop_secondaries-IsConsistent :
        (db : Db m) (ss : List Bytes)
        → IsConsistent db
        → IsConsistent (drop_secondaries m drop db ss)
    unfolding drop_secondaries
    drop_secondaries-IsConsistent db [] c = c
    drop_secondaries-IsConsistent db (s ∷ rest) c =
        drop_secondaries-IsConsistent (drop_secondary m drop db (lookup s db.clients)) rest
          (drop_secondary-IsConsistent db (lookup s db.clients) c)

  module _ (depth : ℕ)
      (keep : (db : Db m) (r : ℕ) → IsConsistent db → IsConsistent (drop_depth m depth db r)) where
    drop_depth-left :
        (db : Db m) (r : ℕ)
        → (db.objects r).registered ≡ true
        → IsConsistent (leave m db r)
        → IsConsistent (drop_depth m (suc depth) db r)
    unfolding drop_depth clear_secondaries
    drop_depth-left db r e left =
        let x = db.objects r in
        let d = leave m db r in
        elim (Bool-cases x.primary) [
          | inl p ↦
              rw (e, p, drop_depth)
                (change-IsConsistent _ r (cleared m) (λ x. refl) (λ x. refl)
                  (drop_secondaries-IsConsistent (drop_depth m depth) keep d x.secondaries left))
          | inr p ↦
              rw (e, p, drop_depth)
                (forget-IsConsistent d x.name (lookup x.primary_name d.clients) left)
        ]

  drop_depth-IsConsistent :
      (depth : ℕ) (db : Db m) (r : ℕ) → IsConsistent db → IsConsistent (drop_depth m depth db r)
  unfolding drop_depth
  drop_depth-IsConsistent zero db r c = c
  drop_depth-IsConsistent (suc depth) db r c = elim (Bool-cases (db.objects r).registered) [
    | inr e ↦ rw (e, drop_depth) c
    | inl e ↦
        drop_depth-left depth (drop_depth-IsConsistent depth) db r e (leave-IsConsistent db r e c)
  ]

  pub drop_client-IsConsistent :
      (db : Db m) (r : ℕ) → IsConsistent db → IsConsistent (drop_client m db r)
  unfolding drop_client
  drop_client-IsConsistent = drop_depth-IsConsistent 2

  -- Dropping a client that has just been taken out of the map of clients.
  pub drop_client-evicted :
      (db : Db m) (n : Bytes) (r : ℕ)
      → lookup n db.clients ≡ some r
      → IsConsistent db
      → IsConsistent (drop_client m (record db { clients = remove n db.clients }) r)
  unfolding drop_client leave
  drop_client-evicted db n r v c =
      let d : Db m = record db { clients = remove n db.clients } in
      let k = (db.objects r).name in
      let kn : k ≡ n = c.named n r v in
      let same : (q : Bytes)
          → lookup q (remove k (remove n db.clients)) ≡ lookup q (remove k db.clients) =
        λ q. ground (
          arith,
          lookup-remove q k (remove n db.clients),
          lookup-remove q n db.clients,
          lookup-remove q k db.clients,
          ap (λ x. bytes_eq x q) kn,
        ) in
      let left = leave-IsConsistent db r (c.marked n r v) c in
      drop_depth-left 1 (drop_depth-IsConsistent 1) d r (c.marked n r v) (record {
        subs_agree = λ q. left.subs_agree q ∙ sym (same q);
        casts_agree = λ q. left.casts_agree q ∙ sym (same q);
        named = λ q x e. left.named q x (sym (same q) ∙ e);
        marked = λ q x e. left.marked q x (sym (same q) ∙ e);
        listed = λ x e. same _ ∙ left.listed x e;
      })

  insert_at-IsConsistent :
      (db : Db m) (r : ℕ) (p at : Option ℕ) (d : Db m)
      → (db.objects r).registered ≡ false
      → IsConsistent db
      → lookup (db.objects r).name db.clients ≡ at
      → insert_at m db r p at ≡ ok d
      → IsConsistent d
  unfolding insert_at
  insert_at-IsConsistent db r p none d h c v e =
      subst IsConsistent (ground arith) (insert_vacant-IsConsistent db r p h v c)
  insert_at-IsConsistent db r p (some q) d h c v e = cc

  insert_under-IsConsistent :
      (db : Db m) (r : ℕ) (p : Option ℕ) (d : Db m)
      → (db.objects r).registered ≡ false
      → IsConsistent db
      → insert_under m db r p ≡ ok d
      → IsConsistent d
  unfolding insert_under
  insert_under-IsConsistent db r none d h c e = cc
  insert_under-IsConsistent db r (some p) d h c e =
      insert_at-IsConsistent db r (some p) (lookup (db.objects r).name db.clients) d h c refl e

  -- Inserting a client that is not registered yet keeps the maps consistent.
  pub insert_client-IsConsistent :
      (db : Db m) (r : ℕ) (d : Db m)
      → (db.objects r).registered ≡ false
      → IsConsistent db
      → insert_client m db r ≡ ok d
      → IsConsistent d
  unfolding insert_client
  insert_client-IsConsistent db r d h c e =
      let x = db.objects r in
      elim (Bool-cases x.primary) [
        | inl p ↦
            insert_at-IsConsistent db r none (lookup x.name db.clients) d h c refl
              (sym (rw (p, insert_client)) ∙ e)
        | inr p ↦
            insert_under-IsConsistent db r (lookup x.primary_name db.clients) d h c
              (sym (rw (p, insert_client)) ∙ e)
      ]

  -- A new client, not registered yet, at a number that no registered client has.
  pub new_at-IsConsistent :
      (db : Db m) (r : ℕ) (x : Client m)
      → (db.objects r).registered ≡ false
      → x.registered ≡ false
      → IsConsistent db
      → IsConsistent (new_at m db r x)
  new_at-IsConsistent db r x h hx c = record {
    subs_agree = c.subs_agree;
    casts_agree = c.casts_agree;
    named = λ n q e. ground (arith, c.named n q, c.marked n q);
    marked = λ n q e. ground (arith, c.marked n q);
    listed = λ q e. ground (arith, c.listed q);
  }
