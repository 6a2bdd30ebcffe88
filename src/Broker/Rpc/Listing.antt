-- ===== src/Broker/Rpc/Listing.antt =====
-- What the method `client.list` lists.
use mathlib.Core.List.{Perm, Mem, Memᴰ}
use mathlib.Core.Logic.{∥∥₁_map}
use mathlib.Core.List.Perm
use busrt.Wire.Order.{Order, before, same, after, order, order-flip}
use busrt.Broker.Maps.{Maps, lookup}
use busrt.Broker.Db.{Db, Client}
use busrt.Rpc.Error.{succeeded}
use busrt.Broker.Rpc.{
  ClientInfo, Codec, ◌>>=◌, insert_by, insert_sorted, sort, info_of, infos, matcher, client_list,
}
use busrt.Base.{
  ℕ, ◌≡◌, refl, sym, ap, ◌≢◌, ◌⊎◌, inl, inr, Bool, true, false, ◌&&◌, none, some, List, [], ◌∷◌,
  arith, if◌then◌else◌, Bool-cases, Bytes, bytes_eq, is_empty,
}

-- One text does not stand behind another.
abbrev pub IsUpTo : Bytes → Bytes → Type 0
IsUpTo a b = order a b ≢ after

IsUpTo-trans : (a b c : Bytes) → IsUpTo a b → IsUpTo b c → IsUpTo a c
unfolding order
IsUpTo-trans [] b [] h k = ground arith
IsUpTo-trans [] b (z ∷ c) h k = ground arith
IsUpTo-trans (x ∷ a) [] c h k = ground arith
IsUpTo-trans (x ∷ a) (y ∷ b) [] h k = ground arith
IsUpTo-trans (x ∷ a) (y ∷ b) (z ∷ c) h k = ground (arith, IsUpTo-trans a b c)

abbrev pub IsFirst : Bytes → List ClientInfo → Type 0
IsFirst n [] = Unit {0}
IsFirst n (x ∷ xs) = IsUpTo n x.name × IsFirst n xs

abbrev pub IsSorted : List ClientInfo → Type 0
IsSorted [] = Unit {0}
IsSorted (x ∷ xs) = IsFirst x.name xs × IsSorted xs

IsFirst-trans : (a b : Bytes) (l : List ClientInfo) → IsUpTo a b → IsFirst b l → IsFirst a l
IsFirst-trans a b [] h f = tt
IsFirst-trans a b (x ∷ xs) h f = (IsUpTo-trans a b x.name h f.0, IsFirst-trans a b xs h f.1)

insert_by-IsFirst :
    (n : Bytes) (o : Order) (x y : ClientInfo) (rest more : List ClientInfo)
    → IsUpTo n x.name
    → IsFirst n (y ∷ rest)
    → IsFirst n more
    → IsFirst n (insert_by o x y rest more)
unfolding insert_by
insert_by-IsFirst n after x y rest more h f g = (f.0, g)
insert_by-IsFirst n before x y rest more h f g = (h, f)
insert_by-IsFirst n same x y rest more h f g = (h, f)

insert_sorted-IsFirst :
    (n : Bytes) (x : ClientInfo) (l : List ClientInfo)
    → IsUpTo n x.name
    → IsFirst n l
    → IsFirst n (insert_sorted x l)
unfolding insert_sorted
insert_sorted-IsFirst n x [] h f = (h, tt)
insert_sorted-IsFirst n x (y ∷ ys) h f =
    insert_by-IsFirst n (order x.name y.name) x y ys (insert_sorted x ys) h f
      (insert_sorted-IsFirst n x ys h f.1)

insert_by-IsSorted :
    (o : Order) (x y : ClientInfo) (rest : List ClientInfo)
    → order x.name y.name ≡ o
    → IsSorted (y ∷ rest)
    → IsSorted (insert_sorted x rest)
    → IsSorted (insert_by o x y rest (insert_sorted x rest))
unfolding insert_by
insert_by-IsSorted after x y rest e s t =
    (insert_sorted-IsFirst y.name x rest (λ k. ground (arith, order-flip x.name y.name e)) s.0, t)
insert_by-IsSorted before x y rest e s t =
    let u : IsUpTo x.name y.name = λ k. ground arith in
    ((u, IsFirst-trans x.name y.name rest u s.0), s)
insert_by-IsSorted same x y rest e s t =
    let u : IsUpTo x.name y.name = λ k. ground arith in
    ((u, IsFirst-trans x.name y.name rest u s.0), s)

insert_sorted-IsSorted :
    (x : ClientInfo) (l : List ClientInfo) → IsSorted l → IsSorted (insert_sorted x l)
unfolding insert_sorted
insert_sorted-IsSorted x [] s = (tt, tt)
insert_sorted-IsSorted x (y ∷ ys) s =
    insert_by-IsSorted (order x.name y.name) x y ys refl s (insert_sorted-IsSorted x ys s.1)

sort-IsSorted : (l : List ClientInfo) → IsSorted (sort l)
unfolding sort
sort-IsSorted [] = tt
sort-IsSorted (x ∷ xs) = insert_sorted-IsSorted x (sort xs) (sort-IsSorted xs)

insert_by-Perm :
    (o : Order) (x y : ClientInfo) (rest more : List ClientInfo)
    → Perm (x ∷ rest) more
    → Perm (x ∷ y ∷ rest) (insert_by o x y rest more)
unfolding insert_by
insert_by-Perm after x y rest more p = Perm.trans (Perm.swap y x rest) (Perm.cons y p)
insert_by-Perm before x y rest more p = Perm.refl (x ∷ y ∷ rest)
insert_by-Perm same x y rest more p = Perm.refl (x ∷ y ∷ rest)

insert_sorted-Perm : (x : ClientInfo) (l : List ClientInfo) → Perm (x ∷ l) (insert_sorted x l)
unfolding insert_sorted
insert_sorted-Perm x [] = Perm.refl (x ∷ [])
insert_sorted-Perm x (y ∷ ys) =
    insert_by-Perm (order x.name y.name) x y ys (insert_sorted x ys) (insert_sorted-Perm x ys)

sort-Perm : (l : List ClientInfo) → Perm l (sort l)
unfolding sort
sort-Perm [] = Perm.refl []
sort-Perm (x ∷ xs) = Perm.trans (Perm.cons x (sort-Perm xs)) (insert_sorted-Perm x (sort xs))

-- What the parameters of `client.list` choose.
pub data Chooses (codec : Codec) (payload : Bytes) (re : Bytes → Bool) : Type 0 where
  no_params : payload ≡ [] → ((n : Bytes) → re n ≡ true) → Chooses codec payload re
  no_filter :
      is_empty payload ≡ false
      → codec.filter_of payload ≡ succeeded none
      → ((n : Bytes) → re n ≡ true)
      → Chooses codec payload re
  filter :
      (text : Bytes)
      → is_empty payload ≡ false
      → codec.filter_of payload ≡ succeeded (some text)
      → codec.regex text ≡ succeeded re
      → Chooses codec payload re

any_matches : (re : Bytes → Bool) → ((n : Bytes) → re n ≡ true) → (λ n. true) ≡ re
any_matches re h = λ i n. sym (h n) i

listed_with :
    (m : Maps) (codec : Codec) (db : Db m) (payload : Bytes) (re : Bytes → Bool)
    → Chooses codec payload re
    → client_list m codec db payload ≡ (
        codec.encode_list (sort (infos m re db.objects db.clients))
        >>= (λ list. succeeded (some list)))
unfolding client_list matcher
listed_with m codec db payload re (no_params e a) = rw (e, any_matches re a) refl
listed_with m codec db payload re (no_filter e f a) = rw (e, f, any_matches re a) refl
listed_with m codec db payload re (filter text e f g) = rw (e, f, g) refl

kept-Memᴰ :
    (b : Bool) (x i : ClientInfo) (more : List ClientInfo)
    → ((b ≡ true) × (i ≡ x)) ⊎ Memᴰ i more
    → Memᴰ i (if b then x ∷ more else more)
kept-Memᴰ true x i more (inl h) = Memᴰ.head h.1
kept-Memᴰ true x i more (inr h) = Memᴰ.tail h
kept-Memᴰ false x i more (inl h) = absurd (ground arith)
kept-Memᴰ false x i more (inr h) = h

infos-lookup :
    (m : Maps) (re : Bytes → Bool) (objects : ℕ → Client m) (l : List (Bytes × ℕ)) (n : Bytes)
    (r : ℕ)
    → lookup n l ≡ some r
    → (objects r).primary ≡ true
    → re (objects r).name ≡ true
    → Memᴰ (info_of m (objects r)) (infos m re objects l)
unfolding lookup infos
infos-lookup m re objects [] n r e p h = absurd (ground arith)
infos-lookup m re objects ((k, q) ∷ rest) n r e p h =
    kept-Memᴰ ((objects q).primary && re (objects q).name) (info_of m (objects q))
      (info_of m (objects r)) (infos m re objects rest)
      (elim (Bool-cases (bytes_eq k n)) [
        | inl b ↦
            let s : q ≡ r = ground arith in
            inl (ground arith, ap (λ x. info_of m (objects x)) (sym s))
        | inr b ↦ inr (infos-lookup m re objects rest n r (ground arith) p h)
      ])

-- A client of the map that is to be listed, with what is known of it.
pub record IsListed (m : Maps) (db : Db m) (re : Bytes → Bool) (i : ClientInfo) : Type 0 where
  pub name : Bytes
  pub number : ℕ
  pub entry : Memᴰ (name, number) db.clients
  pub is_primary : (db.objects number).primary ≡ true
  pub is_matching : re (db.objects number).name ≡ true
  pub info : i ≡ info_of m (db.objects number)

-- Of the entries of a list
abbrev Chosen :
    (m : Maps) (re : Bytes → Bool) (objects : ℕ → Client m) → List (Bytes × ℕ) → ClientInfo → Type 0
Chosen m re objects l i =
    (n : Bytes) × (r : ℕ) × Memᴰ (n, r) l
    × ((objects r).primary ≡ true)
    × (re (objects r).name ≡ true)
    × (i ≡ info_of m (objects r))

kept-cases :
    (b : Bool) (x i : ClientInfo) (more : List ClientInfo)
    → Memᴰ i (if b then x ∷ more else more)
    → ((b ≡ true) × (i ≡ x)) ⊎ Memᴰ i more
kept-cases true x i more (Memᴰ.head h) = inl (refl, h)
kept-cases true x i more (Memᴰ.tail h) = inr h
kept-cases false x i more h = inr h

infos-Chosen :
    (m : Maps) (re : Bytes → Bool) (objects : ℕ → Client m) (l : List (Bytes × ℕ)) (i : ClientInfo)
    → Memᴰ i (infos m re objects l)
    → Chosen m re objects l i
unfolding infos
infos-Chosen m re objects [] i h = elim h [ ]
infos-Chosen m re objects ((n, r) ∷ rest) i h =
    elim (kept-cases ((objects r).primary && re (objects r).name) (info_of m (objects r)) i
      (infos m re objects rest) h) [
        | inl (b, e) ↦ (n, r, Memᴰ.head refl, ground (arith, b), ground (arith, b), e)
        | inr k ↦
            let (n', r', k', p, q, e) = infos-Chosen m re objects rest i k in
            (n', r', Memᴰ.tail k', p, q, e)
      ]

Chosen-IsListed :
    (m : Maps) (db : Db m) (re : Bytes → Bool) (i : ClientInfo)
    → Chosen m re db.objects db.clients i
    → IsListed m db re i
Chosen-IsListed m db re i (n, r, k, p, q, e) = record {
  name = n;
  number = r;
  entry = k;
  is_primary = p;
  is_matching = q;
  info = e;
}

-- The method `client.list`, whatever the parameters choose, encodes a list that is sorted by the
-- names and is, up to the order, what is known of the registered primary clients whose names match:
-- every client of the map of clients that is primary and whose name matches is in it, and all that is
-- in it is what is known of such a client.
pub client_list-Listing :
    (m : Maps) (codec : Codec) (db : Db m) (payload : Bytes) (re : Bytes → Bool)
    → Chooses codec payload re
    → (l : List ClientInfo) × (client_list m codec db payload
        ≡ (codec.encode_list l >>= (λ list. succeeded (some list))))
      × IsSorted l
      × Perm (infos m re db.objects db.clients) l
      × ((n : Bytes) (r : ℕ)
          → lookup n db.clients ≡ some r
          → (db.objects r).primary ≡ true
          → re (db.objects r).name ≡ true
          → Mem (info_of m (db.objects r)) l)
      × ((i : ClientInfo) → Mem i l → ∥ IsListed m db re i ∥₁)
client_list-Listing m codec db payload re c =
    let l = infos m re db.objects db.clients in
    (
      sort l,
      listed_with m codec db payload re c,
      sort-IsSorted l,
      sort-Perm l,
      λ n r e p h.
          (Perm.mem_iff (sort-Perm l)).0 ∣ infos-lookup m re db.objects db.clients n r e p h ∣₁,
      λ i h.
          ∥∥₁_map ((Perm.mem_iff (sort-Perm l)).1 h)
            (λ k. Chosen-IsListed m db re i (infos-Chosen m re db.objects db.clients i k)),
    )
