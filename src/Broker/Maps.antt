-- ===== src/Broker/Maps.antt =====
-- The maps of the crate submap, which src/broker.rs calls: operations and the laws that it relies
-- on. A client is known to them by its digest, for which its name stands here, and is handed back
-- as the shared object that was registered. Also the map from names to clients.
use busrt.Base.{
  ℕ, ◌≡◌, refl, subst, inl, inr, Bool, true, false, not, ◌&&◌, ◌||◌, Option, none, some, List, [],
  ◌∷◌, arith, ◌==◌, if◌then◌else◌, Bool-cases, Bytes, bytes_eq, bytes_eq_iff,
}

pub record Maps : Type 1 where
  -- SubMap
  pub Subs : Type 0
  pub no_subs : Subs
  pub subs_register : Bytes → ℕ → Subs → Subs
  pub subs_unregister : Bytes → Subs → Subs
  pub subscribe : Bytes → Bytes → Subs → Subs × Bool
  pub unsubscribe : Bytes → Bytes → Subs → Subs × Bool
  pub get_subscribers : Bytes → Subs → List ℕ
  -- BroadcastMap
  pub Casts : Type 0
  pub no_casts : Casts
  pub casts_register : Bytes → ℕ → Casts → Casts
  pub casts_unregister : Bytes → Casts → Casts
  pub get_clients_by_mask : Bytes → Casts → List ℕ
  -- AclMap
  pub Acl : Type 0
  pub no_acl : Acl
  pub acl_insert : Bytes → Acl → Acl
  pub acl_remove : Bytes → Acl → Acl
  pub acl_matches : Acl → Bytes → Bool
  pub acl_is_empty : Acl → Bool

unfoldable pub is_in : ℕ → List ℕ → Bool
is_in r [] = false
is_in r (x ∷ xs) = x == r || is_in r xs

module _ {ℓ} {V : Type ℓ} where
  unfoldable pub lookup : Bytes → List (Bytes × V) → Option V
  lookup k [] = none
  lookup k ((j, v) ∷ m) = if bytes_eq j k then some v else lookup k m

  unfoldable pub remove : Bytes → List (Bytes × V) → List (Bytes × V)
  remove k [] = []
  remove k ((j, v) ∷ m) = let rest = remove k m in if bytes_eq j k then rest else (j, v) ∷ rest

  pub lookup-cons :
      (k j : Bytes) (v : V) (m : List (Bytes × V))
      → lookup k ((j, v) ∷ m) ≡ (if bytes_eq j k then some v else lookup k m)
  unfolding lookup
  lookup-cons k j v m = refl

  pub lookup-remove :
      (k j : Bytes) (m : List (Bytes × V))
      → lookup k (remove j m) ≡ (if bytes_eq j k then none else lookup k m)
  unfolding lookup remove
  lookup-remove k j [] = ground arith
  lookup-remove k j ((i, v) ∷ m) =
      ground (arith, bytes_eq_iff i j, bytes_eq_iff i k, bytes_eq_iff j k, lookup-remove k j m)

-- A set of names.
unfoldable pub has : Bytes → List Bytes → Bool
has k [] = false
has k (j ∷ s) = bytes_eq j k || has k s

unfoldable pub add_name : Bytes → List Bytes → List Bytes
unfolding has
add_name k s = if has k s then s else k ∷ s

unfoldable pub remove_name : Bytes → List Bytes → List Bytes
remove_name k [] = []
remove_name k (j ∷ s) = let rest = remove_name k s in if bytes_eq j k then rest else j ∷ rest

pub has-add_name : (k j : Bytes) (s : List Bytes) → has k (add_name j s) ≡ (bytes_eq j k || has k s)
unfolding add_name has
has-add_name k j s = elim (Bool-cases (has j s)) [
  | inl e ↦ rw (e, add_name) (ground (arith, has-eq j k s e))
  | inr e ↦ rw (e, add_name) refl
]
  where
    has-eq : (j k : Bytes) (s : List Bytes) → has j s ≡ true → bytes_eq j k ≡ true → has k s ≡ true
    has-eq j k s e q = subst (λ x. has x s ≡ true) ((bytes_eq_iff j k).0 q) e

pub has-remove_name :
    (k j : Bytes) (s : List Bytes) → has k (remove_name j s) ≡ (not (bytes_eq j k) && has k s)
unfolding remove_name has
has-remove_name k j [] = ground arith
has-remove_name k j (i ∷ s) =
    ground (arith, bytes_eq_iff i j, bytes_eq_iff i k, bytes_eq_iff j k, has-remove_name k j s)

-- Shared objects, by their number.
abbrev pub update {ℓ} : {A : Type ℓ} → (ℕ → A) → ℕ → A → ℕ → A
update h r v x = if x == r then v else h x

-- What the broker relies on: a client that is registered under a name stays registered under it
-- until it is unregistered, subscriptions do not change who is registered, and only registered
-- clients are handed back.
pub record MapsLaws (m : Maps) : Type 0 where
  pub subs_owner : m.Subs → Bytes → Option ℕ
  pub subs_owner-none : (k : Bytes) → subs_owner m.no_subs k ≡ none
  pub subs_owner-register :
      (n k : Bytes) (r : ℕ) (s : m.Subs)
      → subs_owner s n ≡ none
      → subs_owner (m.subs_register n r s) k ≡ (if bytes_eq n k then some r else subs_owner s k)
  pub subs_owner-unregister :
      (n k : Bytes) (s : m.Subs)
      → subs_owner (m.subs_unregister n s) k ≡ (if bytes_eq n k then none else subs_owner s k)
  pub subs_owner-subscribe :
      (t n k : Bytes) (s : m.Subs) → subs_owner (m.subscribe t n s).0 k ≡ subs_owner s k
  pub subs_owner-unsubscribe :
      (t n k : Bytes) (s : m.Subs) → subs_owner (m.unsubscribe t n s).0 k ≡ subs_owner s k
  pub subscribers_owned :
      (t : Bytes) (s : m.Subs) (r : ℕ)
      → is_in r (m.get_subscribers t s) ≡ true
      → (n : Bytes) × (subs_owner s n ≡ some r)
  pub casts_owner : m.Casts → Bytes → Option ℕ
  pub casts_owner-none : (k : Bytes) → casts_owner m.no_casts k ≡ none
  pub casts_owner-register :
      (n k : Bytes) (r : ℕ) (s : m.Casts)
      → casts_owner s n ≡ none
      → casts_owner (m.casts_register n r s) k ≡ (if bytes_eq n k then some r else casts_owner s k)
  pub casts_owner-unregister :
      (n k : Bytes) (s : m.Casts)
      → casts_owner (m.casts_unregister n s) k ≡ (if bytes_eq n k then none else casts_owner s k)
  pub targets_owned :
      (t : Bytes) (s : m.Casts) (r : ℕ)
      → is_in r (m.get_clients_by_mask t s) ≡ true
      → (n : Bytes) × (casts_owner s n ≡ some r)
