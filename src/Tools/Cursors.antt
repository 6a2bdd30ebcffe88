-- ===== src/Tools/Cursors.antt =====
-- src/cursors.rs: `Meta` and `Map`, the cursors of a server with their expiry. A moment is a number,
-- a Uuid is its number and drawn by the library, and a cursor is the user's: what its `next` gives,
-- what it is then and whether it has marked itself as finished.
use busrt.Rpc.Error.{RpcResult, errored, rpc_error_code_not_found}
use busrt.Base.{
  Table, get, put, del, get-put, ℕ, ◌+◌, ◌≤◌, ◌≡◌, refl, ap, ◌∙◌, Bool, true, false, not, ◌&&◌,
  ◌||◌, Option, none, some, [], ◌∷◌, arith, ltb, if◌then◌else◌,
}

-- `Payload`, with its number of cursors in bulk
pub record Payload : Type 0 where
  pub u : ℕ
  pub n : Option ℕ

abbrev pub payload_of : ℕ → Payload
payload_of u = record { u = u; n = none }

unfoldable pub bulk_number : Payload → ℕ
bulk_number p = elim p.n [ none ↦ 1 | some k ↦ k ]

abbrev pub set_bulk_number : ℕ → Payload → Payload
set_bulk_number k p = record p { n = some k }

abbrev pub clear_bulk_number : Payload → Payload
clear_bulk_number p = record p { n = none }

pub record Meta : Type 0 where
  pub is_finished : Bool
  pub expires : ℕ
  pub ttl : ℕ

-- `Meta::new`
abbrev pub new_meta : ℕ → ℕ → Meta
new_meta now ttl = record { is_finished = false; expires = now + ttl; ttl = ttl }

unfoldable pub is_expired : ℕ → Meta → Bool
is_expired now meta = ltb meta.expires now

unfoldable pub is_alive : ℕ → Meta → Bool
unfolding is_expired
is_alive now meta = not meta.is_finished && not (is_expired now meta)

unfoldable pub touch : ℕ → Meta → Meta
touch now meta = record meta { expires = now + meta.ttl }

abbrev pub Map : Type 0 → Type 0
Map Cursor = Table (Meta × Cursor)

-- What one call of a cursor's `next` or `next_bulk` leaves.
abbrev pub marked : Bool → Meta → Meta
marked finished meta = record meta { is_finished = meta.is_finished || finished }

module _ {Cursor : Type 0} where
  unfoldable pub add : ℕ → Meta → Cursor → Map Cursor → Map Cursor
  unfolding put
  add u meta c m = put u (meta, c) m

  unfoldable pub remove : ℕ → Map Cursor → Map Cursor
  unfolding del
  remove u m = del u m

  read_with :
      {A : Type 0}
      → (Cursor → RpcResult A × Cursor × Bool)
      → ℕ
      → ℕ
      → Map Cursor
      → Option (Meta × Cursor)
      → RpcResult A × Map Cursor
  unfolding touch put
  read_with step now u m (some (meta, c)) =
      let (result, d, finished) = step c in (result, put u (marked finished (touch now meta), d) m)
  read_with step now u m none =
      (errored (record { code = rpc_error_code_not_found; «data» = none }), m)

  -- `next`, and `next_bulk` with its count given to the step
  unfoldable pub next :
      {A : Type 0}
      → (Cursor → RpcResult A × Cursor × Bool)
      → ℕ
      → ℕ
      → Map Cursor
      → RpcResult A × Map Cursor
  unfolding read_with get
  next step now u m = read_with step now u m (get u m)

  -- One round of the cleaner
  unfoldable pub retain_alive : ℕ → Map Cursor → Map Cursor
  unfolding is_alive
  retain_alive now [] = []
  retain_alive now ((u, (meta, c)) ∷ rest) =
      let more = retain_alive now rest in if is_alive now meta then (u, (meta, c)) ∷ more else more

  get-retain_alive :
      (now u : ℕ) (meta : Meta) (c : Cursor) (m : Map Cursor)
      → get u m ≡ some (meta, c)
      → is_alive now meta ≡ true
      → get u (retain_alive now m) ≡ some (meta, c)
  unfolding get retain_alive
  get-retain_alive now u meta c [] e h = e
  get-retain_alive now u meta c ((k, (x, d)) ∷ rest) e h =
      ground (arith, get-retain_alive now u meta c rest)

  -- A cursor that is read, and does not finish by this, stays in the map, as it is then, through
  -- every round of the cleaner up to the time to live after the reading, even if it had expired
  -- before.
  pub next-kept :
      {A : Type 0} (step : Cursor → RpcResult A × Cursor × Bool) (now t u : ℕ) (meta : Meta)
      (c : Cursor) (m : Map Cursor)
      → get u m ≡ some (meta, c)
      → meta.is_finished ≡ false
      → (step c).2 ≡ false
      → t ≤ now + meta.ttl
      → let (result, after) = next step now u m in
        (result ≡ (step c).0)
        × (get u (retain_alive t after)
            ≡ some (
              record { is_finished = false; expires = now + meta.ttl; ttl = meta.ttl },
              (step c).1,
            ))
  unfolding next read_with touch is_alive
  next-kept step now t u meta c m e f g h =
      let d = (step c).1 in
      let x : Meta = marked (step c).2 (touch now meta) in
      let fin : x.is_finished ≡ false = ground arith in
      rw (e, read_with)
        (
          refl,
          get-retain_alive t u x d (put u (x, d) m) (get-put u (x, d) m) (ground arith)
              ∙ ap
                  (λ b.
                    some (record { is_finished = b; expires = now + meta.ttl; ttl = meta.ttl }, d))
                  fin,
        )
