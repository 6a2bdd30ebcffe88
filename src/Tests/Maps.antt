-- ===== src/Tests/Maps.antt =====
-- The maps of the crate submap with the simplest masks: a topic or a name matches itself, and `*`
-- matches every name.
use busrt.Broker.Maps.{
  Maps, MapsLaws, lookup, lookup-cons, lookup-remove, remove, has, add_name, remove_name, is_in,
}
use busrt.Base.{
  ℕ, ◌≡◌, refl, ◌⊎◌, inl, inr, Bool, true, false, ◌&&◌, ◌||◌, Option, none, some, List, [], ◌∷◌,
  arith, if◌then◌else◌, Bool-cases, Option-cases, Bytes, codes, bytes_eq, is_empty,
}

abbrev pub Owners : Type 0
Owners = List (Bytes × ℕ)

unfoldable pub add_owner : Option ℕ → List ℕ → List ℕ
add_owner none rs = rs
add_owner (some r) rs = if is_in r rs then rs else r ∷ rs

-- The clients of the names for which the test holds, once each.
unfoldable pub collect : (Bytes → Bool) → Owners → List Bytes → List ℕ
unfolding add_owner is_in
collect covers owners [] = []
collect covers owners (n ∷ ns) =
    let rest = collect covers owners ns in
    if covers n then add_owner (lookup n owners) rest else rest

unfoldable pub subscribed : Bytes → List (Bytes × Bytes) → List Bytes
subscribed t [] = []
subscribed t ((u, n) ∷ ts) = let rest = subscribed t ts in if bytes_eq u t then n ∷ rest else rest

unfoldable pub without : Bytes → Bytes → List (Bytes × Bytes) → List (Bytes × Bytes)
without t n [] = []
without t n ((u, k) ∷ ts) =
    let rest = without t n ts in if bytes_eq u t && bytes_eq k n then rest else (u, k) ∷ rest

unfoldable pub names : Owners → List Bytes
names [] = []
names ((n, _) ∷ o) = n ∷ names o

abbrev pub is_some : Option ℕ → Bool
is_some none = false
is_some (some _) = true

is_in-add_owner :
    (n : Bytes) (owners : Owners) (rs : List ℕ) (r : ℕ)
    → is_in r (add_owner (lookup n owners) rs) ≡ true
    → (lookup n owners ≡ some r) ⊎ (is_in r rs ≡ true)
unfolding add_owner is_in
is_in-add_owner n owners rs r h = elim (Option-cases (lookup n owners)) [
  | inl e ↦ inr (ground (arith, e))
  | inr (q, e) ↦ elim (Bool-cases (is_in q rs)) [
    | inl y ↦ inr (ground (arith, e, y))
    | inr y ↦ ground (arith, e, y)
  ]
]

pub collect_owned :
    (covers : Bytes → Bool) (owners : Owners) (ns : List Bytes) (r : ℕ)
    → is_in r (collect covers owners ns) ≡ true
    → (n : Bytes) × (lookup n owners ≡ some r)
unfolding collect is_in
collect_owned covers owners [] r h = absurd (ground arith)
collect_owned covers owners (n ∷ ns) r h = elim (Bool-cases (covers n)) [
  | inl y ↦ elim (is_in-add_owner n owners (collect covers owners ns) r (ground (arith, y))) [
    | inl e ↦ (n, e)
    | inr e ↦ collect_owned covers owners ns r e
  ]
  | inr y ↦ collect_owned covers owners ns r (ground (arith, y))
]

abbrev pub exact_maps : Maps
exact_maps = record {
  Subs = Owners × List (Bytes × Bytes);
  no_subs = ([], []);
  subs_register = λ n r s. ((n, r) ∷ s.0, s.1);
  subs_unregister = λ n s. (remove n s.0, s.1);
  subscribe = λ t n s. ((s.0, (t, n) ∷ s.1), is_some (lookup n s.0));
  unsubscribe = λ t n s. ((s.0, without t n s.1), is_some (lookup n s.0));
  get_subscribers = λ t s. collect (λ n. true) s.0 (subscribed t s.1);
  Casts = Owners;
  no_casts = [];
  casts_register = λ n r s. (n, r) ∷ s;
  casts_unregister = remove;
  get_clients_by_mask = λ k s. collect (λ n. bytes_eq k (codes "*") || bytes_eq k n) s (names s);
  Acl = List Bytes;
  no_acl = [];
  acl_insert = add_name;
  acl_remove = remove_name;
  acl_matches = λ a t. has t a;
  acl_is_empty = is_empty;
}

pub lookup-nil : (k : Bytes) → lookup {V = ℕ} k [] ≡ none
unfolding lookup
lookup-nil k = refl

abbrev pub exact_laws : MapsLaws exact_maps
exact_laws = record {
  subs_owner = λ s k. lookup k s.0;
  subs_owner-none = λ k. lookup-nil k;
  subs_owner-register = λ n k r s h. lookup-cons k n r s.0;
  subs_owner-unregister = λ n k s. lookup-remove k n s.0;
  subs_owner-subscribe = λ t n k s. refl;
  subs_owner-unsubscribe = λ t n k s. refl;
  subscribers_owned = λ t s r h. collect_owned (λ n. true) s.0 (subscribed t s.1) r h;
  casts_owner = λ s k. lookup k s;
  casts_owner-none = λ k. lookup-nil k;
  casts_owner-register = λ n k r s h. lookup-cons k n r s;
  casts_owner-unregister = λ n k s. lookup-remove k n s;
  targets_owned =
      λ k s r h. collect_owned (λ n. bytes_eq k (codes "*") || bytes_eq k n) s (names s) r h;
}
