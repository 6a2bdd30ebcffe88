-- ===== src/Broker/Calls.antt =====
-- src/broker.rs: the calls of a client inside of the broker's process (`impl AsyncClient for
-- Client`) and `Broker::create`, `register_client`, `register_secondary_for`.
use busrt.Protocol.Error.{Result, ok, err, not_registered, not_supported, error_bare, error_of, lit}
use busrt.Protocol.Codes.{QoS, is_realtime, needs_ack}
use busrt.Protocol.Name.{primary_name_of, secondary_sep}
use busrt.Broker.Maps.{Maps}
use busrt.Broker.Db.{new_at, Db, Client, internal, change, new_client}
use busrt.Broker.Register.{register_client}
use busrt.Broker.Send.{Outcome, ◌>>=◌, done, Env, Content, send, send_broadcast, publish, announce}
use busrt.Base.{
  ℕ, ◌+◌, Bool, true, false, Option, none, some, List, [], ◌∷◌, ◌++◌, if◌then◌else◌, Bytes, length,
  is_empty,
}

-- `make_confirm_channel!`: whether a confirmation that is already there is handed out.
abbrev pub confirm : QoS → Result Bool
confirm qos = ok (needs_ack qos)

module _ (m : Maps) where
  -- `Broker::create`
  unfoldable pub create : (ℕ → Client m) → Bool → Db m
  create objects force_register = record {
    objects = objects;
    clients = [];
    broadcasts = m.no_casts;
    subscriptions = m.no_subs;
    rpc_client = none;
    r_frames = 0;
    r_bytes = 0;
    w_frames = 0;
    w_bytes = 0;
    force_register = force_register;
  }

  -- `Broker::register_client`
  unfoldable pub register_internal : Env → ℕ → Db m → ℕ → Bytes → Outcome (Db m) (Result (Unit {0}))
  register_internal env queue_size db r name =
      register_client m env
        (new_at m db r (new_client m name (primary_name_of name) queue_size internal none none)) r

  -- `Broker::register_secondary_for`; the counter's digits are given.
  unfoldable pub register_secondary_for :
      Env → ℕ → Db m → ℕ → ℕ → Bytes → Outcome (Db m) (Result (Unit {0}))
  unfolding register_internal
  register_secondary_for env queue_size db r client digits =
      let x = db.objects client in
      if x.primary
      then register_internal env queue_size db r (x.name ++ (secondary_sep ++ digits))
      else done (err (error_of not_supported (lit "not a primary client" ∷ []))) db

  with_subs : Db m → m.Subs × Bool → QoS → Db m × Result Bool
  with_subs db (subs, known) qos = (
    record db { subscriptions = subs },
    if known then confirm qos else err (error_bare not_registered),
  )

  unfoldable pub subscribe : Db m → ℕ → Bytes → QoS → Db m × Result Bool
  unfolding with_subs
  subscribe db r topic qos =
      with_subs db (m.subscribe topic (db.objects r).name db.subscriptions) qos

  unfoldable pub unsubscribe : Db m → ℕ → Bytes → QoS → Db m × Result Bool
  unfolding with_subs
  unsubscribe db r topic qos =
      with_subs db (m.unsubscribe topic (db.objects r).name db.subscriptions) qos

  -- The loop of `subscribe_bulk` and `unsubscribe_bulk`: the first failure ends it.
  bulk : (Bytes → m.Subs → m.Subs × Bool) → m.Subs → List Bytes → m.Subs × Bool
  bulk op subs [] = (subs, true)
  bulk op subs (t ∷ ts) =
      let (subs', known) = op t subs in
      let rest = bulk op subs' ts in if known then rest else (subs', false)

  unfoldable pub subscribe_bulk : Db m → ℕ → List Bytes → QoS → Db m × Result Bool
  unfolding with_subs bulk
  subscribe_bulk db r topics qos =
      with_subs db (bulk (λ t. m.subscribe t (db.objects r).name) db.subscriptions topics) qos

  unfoldable pub unsubscribe_bulk : Db m → ℕ → List Bytes → QoS → Db m × Result Bool
  unfolding with_subs bulk
  unsubscribe_bulk db r topics qos =
      with_subs db (bulk (λ t. m.unsubscribe t (db.objects r).name) db.subscriptions topics) qos

  insert_masks : List Bytes → m.Acl → m.Acl
  insert_masks [] acl = acl
  insert_masks (t ∷ ts) acl = insert_masks ts (m.acl_insert t acl)

  remove_masks : List Bytes → m.Acl → m.Acl
  remove_masks [] acl = acl
  remove_masks (t ∷ ts) acl = remove_masks ts (m.acl_remove t acl)

  -- What `exclude_bulk` does to the client's object, and `exclude` with one topic.
  unfoldable pub excluded : List Bytes → Client m → Client m
  unfolding insert_masks
  excluded topics x = record x {
    has_exclusions = if is_empty topics then x.has_exclusions else true;
    exclusions = insert_masks topics x.exclusions;
  }

  unfoldable pub unexcluded : List Bytes → Client m → Client m
  unfolding remove_masks
  unexcluded topics x =
      let acl = remove_masks topics x.exclusions in
      record x {
        has_exclusions = if m.acl_is_empty acl then false else x.has_exclusions;
        exclusions = acl;
      }

  unfoldable pub exclude_bulk : Db m → ℕ → List Bytes → QoS → Db m × Result Bool
  unfolding excluded
  exclude_bulk db r topics qos = (change m db r (excluded topics), confirm qos)

  unfoldable pub unexclude_bulk : Db m → ℕ → List Bytes → QoS → Db m × Result Bool
  unfolding unexcluded
  unexclude_bulk db r topics qos = (change m db r (unexcluded topics), confirm qos)

  unfoldable pub exclude : Db m → ℕ → Bytes → QoS → Db m × Result Bool
  unfolding exclude_bulk
  exclude db r topic qos = exclude_bulk db r (topic ∷ []) qos

  unfoldable pub unexclude : Db m → ℕ → Bytes → QoS → Db m × Result Bool
  unfolding unexclude_bulk
  unexclude db r topic qos = unexclude_bulk db r (topic ∷ []) qos

  content : Option Bytes → Bytes → ℕ → QoS → Content
  content header payload len qos = record {
    header = header;
    buf = payload;
    payload_pos = 0;
    len = len;
    is_realtime = is_realtime qos;
  }

  confirmed : Outcome (Db m) (Result (Unit {0})) → QoS → Outcome (Db m) (Result Bool)
  confirmed o qos = o >>= confirm_if
    where
      confirm_if : Result (Unit {0}) → Db m → Outcome (Db m) (Result Bool)
      confirm_if (ok _) d = done (confirm qos) d
      confirm_if (err e) d = done (err e) d

  -- Clients of the broker's process send with no timeout.
  unfoldable pub client_send : Env → Db m → ℕ → Bytes → Bytes → QoS → Outcome (Db m) (Result Bool)
  unfolding content confirmed
  client_send env db r target payload qos =
      confirmed
        (send m env (announce m env) db r target (content none payload (length payload) qos) false)
        qos

  unfoldable pub client_zc_send :
      Env → Db m → ℕ → Bytes → Bytes → Bytes → QoS → Outcome (Db m) (Result Bool)
  unfolding content confirmed
  client_zc_send env db r target header payload qos =
      confirmed
        (send m env (announce m env) db r target
          (content (some header) payload (length payload + length header) qos) false)
        qos

  unfoldable pub client_send_broadcast :
      Env → Db m → ℕ → Bytes → Bytes → QoS → Outcome (Db m) (Result Bool)
  unfolding content
  client_send_broadcast env db r target payload qos =
      send_broadcast m env (announce m env) db r target (content none payload (length payload) qos)
        false
      >>= (λ _ d. done (confirm qos) d)

  unfoldable pub client_publish :
      Env → Db m → ℕ → Bytes → Option Bytes → Bytes → QoS → Outcome (Db m) (Result Bool)
  unfolding content
  client_publish env db r topic receiver payload qos =
      publish m env (announce m env) db r topic receiver (content none payload (length payload) qos)
        false
      >>= (λ _ d. done (confirm qos) d)
