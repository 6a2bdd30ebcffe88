-- ===== src/Broker/Fifo/Lines.antt =====
-- Lines of the fifo that ask for a call.
use mathlib.Core.Option
use busrt.Protocol.Error.{ok}
use busrt.Broker.Maps.{lookup, lookup-remove}
use busrt.Broker.Fifo.{
  split, strip_prefix, Value, Params, call0, next, value_of, insert, insert_pair, add_params,
  str_to_params_map, by_payload, to_target, by_prefix, send_fifo_cmd,
}
use busrt.Base.{
  ℕ, ◌≡◌, refl, ap, ◌∙◌, ◌≢◌, true, false, Option, none, some, List, [], ◌∷◌, ◌++◌, append-nil,
  arith, if◌then◌else◌, Bytes, bytes_eq, is_empty,
}

abbrev pub IsFree : ℕ → Bytes → Type 0
IsFree c [] = Unit {0}
IsFree c (b ∷ bs) = (b ≢ c) × IsFree c bs

split-IsFree : (c : ℕ) (t : Bytes) → IsFree c t → split c t ≡ t ∷ []
unfolding split
split-IsFree c [] h = refl
split-IsFree c (b ∷ bs) h = ground (arith, h.0, split-IsFree c bs h.1)

split-append : (c : ℕ) (t rest : Bytes) → IsFree c t → split c (t ++ c ∷ rest) ≡ t ∷ split c rest
unfolding split
split-append c [] rest h = ground arith
split-append c (b ∷ bs) rest h = ground (arith, h.0, split-append c bs rest h.1)

-- Words behind spaces, and parameters
abbrev pub words : List Bytes → Bytes
words [] = []
words (t ∷ ts) = b' ' ∷ (t ++ words ts)

abbrev pub pair : Bytes × Bytes → Bytes
pair (k, v) = k ++ b'=' ∷ v

abbrev pub pairs : List (Bytes × Bytes) → List Bytes
pairs [] = []
pairs (kv ∷ kvs) = pair kv ∷ pairs kvs

abbrev pub AreFree : ℕ → List Bytes → Type 0
AreFree c [] = Unit {0}
AreFree c (t ∷ ts) = IsFree c t × AreFree c ts

-- No `=` stands in a key or in a value.
abbrev pub ArePairs : List (Bytes × Bytes) → Type 0
ArePairs [] = Unit {0}
ArePairs ((k, v) ∷ kvs) = (IsFree b'=' k × IsFree b'=' v) × ArePairs kvs

-- The value that the last parameter with this key gives it.
abbrev pub last_value : Bytes → List (Bytes × Bytes) → Option Bytes
last_value k [] = none
last_value k ((j, v) ∷ kvs) = elim (last_value k kvs) [
  | some w ↦ some w
  | none ↦ if bytes_eq j k then some v else none
]

-- `target :method k=v …`
abbrev pub call_line : Bytes → Bytes → List (Bytes × Bytes) → Bytes
call_line target method kvs = target ++ words ((b':' ∷ method) ∷ pairs kvs)

split-words :
    (t : Bytes) (ts : List Bytes)
    → IsFree b' ' t
    → AreFree b' ' ts
    → split b' ' (t ++ words ts) ≡ t ∷ ts
split-words t [] h hs = ap (split b' ') (append-nil t) ∙ split-IsFree b' ' t h
split-words t (u ∷ ts) h hs =
    split-append b' ' t (u ++ words ts) h ∙ ap (◌∷◌ t) (split-words u ts hs.0 hs.1)

is_empty-pair : (k v : Bytes) → is_empty (pair (k, v)) ≡ false
is_empty-pair [] v = refl
is_empty-pair (b ∷ bs) v = refl

module _ {I F : Type 0} (parse_i64 : Bytes → Option I) (parse_f64 : Bytes → Option F) where
  value : Bytes → Value I F
  value v = value_of parse_i64 parse_f64 v

  insert_pair-pair :
      (k v : Bytes) (p : Params I F)
      → IsFree b'=' k
      → IsFree b'=' v
      → insert_pair parse_i64 parse_f64 (pair (k, v)) p
        ≡ ok (insert parse_i64 parse_f64 k (value_of parse_i64 parse_f64 v) p)
  unfolding insert_pair next
  insert_pair-pair k v p hk hv = rw (split-append b'=' k v hk, split-IsFree b'=' v hv) refl

  -- The parameters of these pairs, over those that are there already.
  Holds : List (Bytes × Bytes) → Params I F → Params I F → Type 0
  Holds kvs p q =
      (k : Bytes)
      → lookup k q ≡ elim (last_value k kvs) [
        | some v ↦ some (value_of parse_i64 parse_f64 v)
        | none ↦ lookup k p
      ]

  lookup-insert :
      (k j : Bytes) (x : Value I F) (p : Params I F)
      → lookup k (insert parse_i64 parse_f64 j x p) ≡ (if bytes_eq j k then some x else lookup k p)
  unfolding lookup insert
  lookup-insert k j x p = ground (arith, lookup-remove k j p)

  Holds-insert :
      (k v : Bytes) (kvs : List (Bytes × Bytes)) (p q : Params I F)
      → Holds kvs (insert parse_i64 parse_f64 k (value_of parse_i64 parse_f64 v) p) q
      → Holds ((k, v) ∷ kvs) p q
  unfolding Holds
  Holds-insert k v kvs p q h j =
      ground (arith, h j, lookup-insert j k (value_of parse_i64 parse_f64 v) p)

  add_params-pairs :
      (kvs : List (Bytes × Bytes)) (p : Params I F)
      → ArePairs kvs
      → (q : Params I F) × (add_params parse_i64 parse_f64 (pairs kvs) p ≡ ok q) × Holds kvs p q
  unfolding add_params Holds
  add_params-pairs [] p h = (p, refl, λ k. refl)
  add_params-pairs ((k, v) ∷ kvs) p h =
      let x = value_of parse_i64 parse_f64 v in
      let (q, e, g) = add_params-pairs kvs (insert parse_i64 parse_f64 k x p) h.1 in
      (q, rw (is_empty-pair k v, insert_pair-pair k v p h.0.0 h.0.1) e, Holds-insert k v kvs p q g)

  map-cases :
      (o : Option Bytes)
      → elim o as (λ _. Option (Value I F)) [
        | some v ↦ some (value_of parse_i64 parse_f64 v)
        | none ↦ lookup [] []
      ]
        ≡ Option.map (value_of parse_i64 parse_f64) o
  unfolding lookup
  map-cases none = refl
  map-cases (some v) = refl

  -- A line `target :method k=v …`, where no text holds a space and no key or value a `=`, and that
  -- does not begin with `=` when it is trimmed, asks for the call of this method of this target,
  -- with parameters that hold for every key the value of the last pair with this key, and nothing
  -- for any other.
  pub send_fifo_cmd-call :
      (trim : Bytes → Bytes) (target method : Bytes) (kvs : List (Bytes × Bytes))
      → strip_prefix b'=' (trim (call_line target method kvs)) ≡ none
      → IsFree b' ' target
      → IsFree b' ' method
      → AreFree b' ' (pairs kvs)
      → ArePairs kvs
      → (params : Params I F) × (send_fifo_cmd parse_i64 parse_f64 trim true
            (call_line target method kvs)
          ≡ ok (call0 target method params))
        × ((k : Bytes)
            → lookup k params ≡ Option.map (value_of parse_i64 parse_f64) (last_value k kvs))
  unfolding send_fifo_cmd by_prefix to_target next by_payload str_to_params_map Holds lookup
  send_fifo_cmd-call trim target method kvs e ht hm hs hp =
      let (q, f, g) = add_params-pairs kvs [] hp in
      (
        q,
        rw (e, split-words target ((b':' ∷ method) ∷ pairs kvs) ht ((λ k. ground arith, hm), hs), f)
            refl,
        λ k. g k ∙ map-cases (last_value k kvs),
      )
