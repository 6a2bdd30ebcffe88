-- ===== src/Broker/Registry.antt =====
-- src/broker.rs: `insert_client`, `drop_client`, `trigger_disconnect`, `Client::unregister`, and
-- the register and unregister calls up to their announcements.
pub mod Laws
pub mod Drop
pub mod Depth
use busrt.Protocol.Error.{
  Result, ok, err, Error, ErrorKind, busy, not_registered, not_supported, error_of, error_bare, lit,
  str,
}
use busrt.Broker.Maps.{Maps, lookup, remove, add_name, remove_name, update}
use busrt.Broker.Db.{Db, Client, ClientKind, internal, local_ipc, tcp, web_socket, change}
use busrt.Base.{
  ℕ, zero, suc, ◌+◌, ◌-◌, ◌*◌, ◌/◌, ◌%◌, ◌^◌, ◌≤◌, ◌<◌, bit_and, bit_or, String, ◌≡◌, refl, sym, ap,
  ◌∙◌, subst, ◌≢◌, ◌↔◌, ◌⊎◌, inl, inr, Bool, true, false, not, ◌&&◌, ◌||◌, Option, none, some, List,
  [], ◌∷◌, ◌++◌, map, append-nil, append_assoc, arith, ltb, leb, ◌==◌, if◌then◌else◌, ltb→lt,
  lt→ltb, leb→le, le→leb, lt→leb, le→ltb, ==_iff, Bool-cases, Option-cases, Bytes, codes, bytes_eq,
  bytes_eq_iff, length, take, drop, is_empty, length-append, length-drop, take-append, drop-append,
  slice_from, slice,
}

abbrev pub broker_warn_topic : Bytes
broker_warn_topic = codes ".broker/warn"

abbrev pub is_internal : ClientKind → Bool
is_internal internal = true
is_internal _ = false

module _ (m : Maps) where
  abbrev with_secondary : Bytes → Client m → Client m
  with_secondary name x = record x { secondaries = add_name name x.secondaries }

  abbrev without_secondary : Bytes → Client m → Client m
  without_secondary name x = record x { secondaries = remove_name name x.secondaries }

  abbrev pub triggered : Client m → Client m
  triggered x = record x { disconnect_triggered = true }

  abbrev cleared : Client m → Client m
  cleared x = record x { secondaries = [] }

  abbrev marked_as : Bool → Client m → Client m
  marked_as b x = record x { registered = b }

  -- A secondary client is noted with its primary.
  attach : Db m → Bytes → Option ℕ → Db m
  attach db name none = db
  attach db name (some pc) = change m db pc (with_secondary name)

  -- The client goes into the three maps.
  enter : Db m → ℕ → Db m
  enter db r =
      let name = (db.objects r).name in
      change m
        (record db {
          broadcasts = m.casts_register name r db.broadcasts;
          subscriptions =
              (m.subscribe broker_warn_topic name (m.subs_register name r db.subscriptions)).0;
          clients = (name, r) ∷ db.clients;
        })
        r (marked_as true)

  -- The entry of the map is vacant.
  insert_vacant : Db m → ℕ → Option ℕ → Db m
  insert_vacant db r primary_client = enter (attach db (db.objects r).name primary_client) r

  already : Bytes → Error
  already name = error_of busy (lit "the client is already registred: " ∷ str name ∷ [])

  insert_at : Db m → ℕ → Option ℕ → Option ℕ → Result (Db m)
  insert_at db r primary_client none = ok (insert_vacant db r primary_client)
  insert_at db r primary_client (some _) = err (already (db.objects r).name)

  insert_under : Db m → ℕ → Option ℕ → Result (Db m)
  insert_under db r none = err (error_bare not_registered)
  insert_under db r (some pc) = insert_at db r (some pc) (lookup (db.objects r).name db.clients)

  unfoldable pub insert_client : Db m → ℕ → Result (Db m)
  unfolding insert_under insert_at insert_vacant attach enter already
  insert_client db r =
      let c = db.objects r in
      if c.primary
      then insert_at db r none (lookup c.name db.clients)
      else insert_under db r (lookup c.primary_name db.clients)

  -- `drop_client` up to its last `if`: the client leaves the three maps.
  unfoldable pub leave : Db m → ℕ → Db m
  leave db r =
      let c = db.objects r in
      record (change m db r (marked_as false)) {
        subscriptions = m.subs_unregister c.name db.subscriptions;
        broadcasts = m.casts_unregister c.name db.broadcasts;
        clients = remove c.name db.clients;
      }

  forget : Db m → Bytes → Option ℕ → Db m
  forget db name none = db
  forget db name (some p) = change m db p (without_secondary name)

  trigger : Db m → ℕ → Db m
  trigger db r = if is_internal (db.objects r).kind then db else change m db r triggered

  drop_secondary : (Db m → ℕ → Db m) → Db m → Option ℕ → Db m
  drop_secondary drop_client db none = db
  drop_secondary drop_client db (some s) = drop_client (trigger db s) s

  drop_secondaries : (Db m → ℕ → Db m) → Db m → List Bytes → Db m
  drop_secondaries drop_client db [] = db
  drop_secondaries drop_client db (s ∷ rest) =
      drop_secondaries drop_client (drop_secondary drop_client db (lookup s db.clients)) rest

  clear_secondaries : Db m → ℕ → Db m
  clear_secondaries db r = change m db r cleared

  -- The recursion of `drop_client` goes from a primary to its secondaries and ends there.
  pub drop_depth : ℕ → Db m → ℕ → Db m
  drop_depth zero db r = db
  drop_depth (suc depth) db r =
      let c = db.objects r in
      let d = leave db r in
      let below = clear_secondaries (drop_secondaries (drop_depth depth) d c.secondaries) r in
      if c.registered
      then (if c.primary then below else forget d c.name (lookup c.primary_name d.clients))
      else db

  unfoldable pub drop_client : Db m → ℕ → Db m
  unfolding drop_depth clear_secondaries drop_secondaries drop_secondary trigger forget leave
  drop_client = drop_depth 2

  disconnect : Db m → Option ℕ → Result (Db m)
  disconnect db none = err (error_bare not_registered)
  disconnect db (some r) =
      if is_internal (db.objects r).kind
      then err (error_of not_supported (lit "the client is internal" ∷ []))
      else ok (change m db r triggered)

  unfoldable pub trigger_disconnect : Db m → Bytes → Result (Db m)
  unfolding disconnect
  trigger_disconnect db name = disconnect db (lookup name db.clients)
