-- ===== src/Broker/Db.antt =====
-- src/broker.rs: the broker's state. A client is a shared object: the map of clients, the
-- subscriptions, the broadcasts and the tasks of the client all hold its number.
use busrt.Protocol.Frame.{FrameData}
use busrt.Broker.Maps.{Maps, update}
use busrt.Base.{ℕ, ◌+◌, ◌%◌, ◌^◌, Bool, false, Option, List, [], Bytes, bytes_eq}

pub data ClientKind : Type 0 where
  internal local_ipc tcp web_socket : ClientKind

pub record BusRtClient (Acl : Type 0) : Type 0 where
  pub name : Bytes
  pub primary_name : Bytes
  pub kind : ClientKind
  pub source : Option Bytes
  pub port : Option Bytes
  pub disconnect_triggered : Bool
  pub queue : List FrameData
  pub queue_size : ℕ
  pub queue_closed : Bool
  pub registered : Bool
  pub r_frames : ℕ
  pub r_bytes : ℕ
  pub w_frames : ℕ
  pub w_bytes : ℕ
  pub primary : Bool
  pub secondaries : List Bytes
  pub has_exclusions : Bool
  pub exclusions : Acl

pub record BrokerDb (Acl Subs Casts : Type 0) : Type 0 where
  pub objects : ℕ → BusRtClient Acl
  pub clients : List (Bytes × ℕ)
  pub broadcasts : Casts
  pub subscriptions : Subs
  pub rpc_client : Option ℕ
  pub r_frames : ℕ
  pub r_bytes : ℕ
  pub w_frames : ℕ
  pub w_bytes : ℕ
  pub force_register : Bool

abbrev pub Db : Maps → Type 0
Db m = BrokerDb m.Acl m.Subs m.Casts

abbrev pub Client : Maps → Type 0
Client m = BusRtClient m.Acl

-- `fetch_add` on an AtomicU64
abbrev pub add64 : ℕ → ℕ → ℕ
add64 a b = (a + b) % 2 ^ 64

-- `BusRtClient::new`
unfoldable pub new_client :
    (m : Maps) → Bytes → Bytes → ℕ → ClientKind → Option Bytes → Option Bytes → Client m
new_client m name primary_name queue_size kind source port = record {
  name = name;
  primary_name = primary_name;
  kind = kind;
  source = source;
  port = port;
  disconnect_triggered = false;
  queue = [];
  queue_size = queue_size;
  queue_closed = false;
  registered = false;
  r_frames = 0;
  r_bytes = 0;
  w_frames = 0;
  w_bytes = 0;
  primary = bytes_eq name primary_name;
  secondaries = [];
  has_exclusions = false;
  exclusions = m.no_acl;
}

-- A change of one shared object.
abbrev pub change : (m : Maps) → Db m → ℕ → (Client m → Client m) → Db m
change m db r f = record db { objects = update db.objects r (f (db.objects r)) }

-- A new object at the number r.
abbrev pub new_at : (m : Maps) → Db m → ℕ → Client m → Db m
new_at m db r x = record db { objects = update db.objects r x }
