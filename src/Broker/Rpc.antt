-- ===== src/Broker/Rpc.antt =====
-- src/broker.rs: `BrokerRpcHandlers`, the RPC methods of the broker, and `BrokerDb::stats`. The
-- encodings of rmp_serde and the filters of regex are given.
pub mod Listing
use busrt.Wire.Order.{Order, before, same, after, order}
use busrt.Protocol.Error.{Result, ok, err}
use busrt.Protocol.Text.{from_utf8}
use busrt.Broker.Maps.{Maps}
use busrt.Broker.Db.{Db, Client, ClientKind, internal, local_ipc, tcp, web_socket}
use busrt.Rpc.Event.{RpcEvent, event_method, event_payload, and_then}
use busrt.Rpc.Error.{
  RpcError, RpcResult, succeeded, errored, rpc_error_from, rpc_error_code_method_not_found,
  rpc_error_code_invalid_method_params,
}
use busrt.Base.{
  Table, get, put, del, get-del, get-del_other, get-put, get-put_other, byte_at, ℕ, zero, suc, ◌+◌,
  ◌-◌, ◌*◌, ◌/◌, ◌%◌, ◌^◌, ◌≤◌, ◌<◌, bit_and, bit_or, String, ◌≡◌, refl, sym, ap, ◌∙◌, subst, ◌≢◌,
  ◌↔◌, ◌⊎◌, inl, inr, Bool, true, false, not, ◌&&◌, ◌||◌, Option, none, some, List, [], ◌∷◌, ◌++◌,
  map, append-nil, append_assoc, arith, ltb, leb, ◌==◌, if◌then◌else◌, ltb→lt, lt→ltb, leb→le,
  le→leb, lt→leb, le→ltb, ==_iff, Bool-cases, Option-cases, Bytes, codes, bytes_eq, bytes_eq_iff,
  length, take, drop, is_empty, length-append, length-drop, take-append, drop-append, slice_from,
  slice,
}

pub record ClientInfo : Type 0 where
  pub name : Bytes
  pub kind : Bytes
  pub source : Option Bytes
  pub port : Option Bytes
  pub r_frames : ℕ
  pub r_bytes : ℕ
  pub w_frames : ℕ
  pub w_bytes : ℕ
  pub queue : ℕ
  pub instances : ℕ

pub record BrokerStats : Type 0 where
  pub uptime : ℕ
  pub r_frames : ℕ
  pub r_bytes : ℕ
  pub w_frames : ℕ
  pub w_bytes : ℕ

-- The texts and encodings that the methods use: `filter_of` gives the filter of the parameters, if
-- there is one, and `regex` what it matches.
pub record Codec : Type 0 where
  pub filter_of : Bytes → RpcResult (Option Bytes)
  pub regex : Bytes → RpcResult (Bytes → Bool)
  pub encode_info : RpcResult Bytes
  pub encode_stats : BrokerStats → RpcResult Bytes
  pub encode_list : List ClientInfo → RpcResult Bytes

infixl 5 ◌>>=◌
abbrev pub ◌>>=◌ : {A B : Type 0} → RpcResult A → (A → RpcResult B) → RpcResult B
succeeded a >>= f = f a
errored e >>= f = errored e

abbrev pub rpc_ok : Bytes
rpc_ok = 129 ∷ 162 ∷ 111 ∷ 107 ∷ 195 ∷ []

-- `BusRtClientKind::as_str`
unfoldable pub kind_text : ClientKind → Bytes
kind_text internal = codes "internal"
kind_text local_ipc = codes "local_ipc"
kind_text tcp = codes "tcp"
kind_text web_socket = codes "websocket"

-- `clients.sort()`: by the names
unfoldable pub insert_by :
    Order → ClientInfo → ClientInfo → List ClientInfo → List ClientInfo → List ClientInfo
insert_by after x y rest more = y ∷ more
insert_by _ x y rest more = x ∷ y ∷ rest

unfoldable pub insert_sorted : ClientInfo → List ClientInfo → List ClientInfo
unfolding insert_by order
insert_sorted x [] = x ∷ []
insert_sorted x (y ∷ ys) =
    let more = insert_sorted x ys in insert_by (order x.name y.name) x y ys more

unfoldable pub sort : List ClientInfo → List ClientInfo
unfolding insert_sorted
sort [] = []
sort (x ∷ xs) = insert_sorted x (sort xs)

module _ (m : Maps) where
  unfoldable pub stats : Db m → ℕ → BrokerStats
  stats db uptime = record {
    uptime = uptime;
    r_frames = db.r_frames;
    r_bytes = db.r_bytes;
    w_frames = db.w_frames;
    w_bytes = db.w_bytes;
  }

  unfoldable pub info_of : Client m → ClientInfo
  unfolding kind_text
  info_of c = record {
    name = c.name;
    kind = kind_text c.kind;
    source = c.source;
    port = c.port;
    r_frames = c.r_frames;
    r_bytes = c.r_bytes;
    w_frames = c.w_frames;
    w_bytes = c.w_bytes;
    queue = length c.queue;
    instances = length c.secondaries + 1;
  }

  -- `values().filter(…).map(…).collect()`
  unfoldable pub infos : (Bytes → Bool) → (ℕ → Client m) → List (Bytes × ℕ) → List ClientInfo
  unfolding info_of
  infos re objects [] = []
  infos re objects ((n, r) ∷ rest) =
      let more = infos re objects rest in
      if (objects r).primary && re (objects r).name then info_of (objects r) ∷ more else more

  unfoldable pub matcher : Codec → Option Bytes → RpcResult (Bytes → Bool)
  matcher codec none = succeeded (λ n. true)
  matcher codec (some filter) = codec.regex filter

  unfoldable pub client_list : Codec → Db m → Bytes → RpcResult (Option Bytes)
  unfolding matcher sort infos
  client_list codec db payload = do
    filter ← if is_empty payload then succeeded none else codec.filter_of payload
    re ← matcher codec filter
    list ← codec.encode_list (sort (infos re db.objects db.clients))
    succeeded (some list)

  -- A method that takes no parameters
  without_params : Bytes → RpcResult Bytes → RpcResult (Option Bytes)
  without_params payload result =
      if not (is_empty payload)
      then errored (record { code = rpc_error_code_invalid_method_params; «data» = none })
      else result >>= (λ b. succeeded (some b))

  by_method : Codec → Db m → ℕ → Bytes → Bytes → RpcResult (Option Bytes)
  unfolding without_params client_list stats
  by_method codec db uptime method payload =
      if bytes_eq method (codes "benchmark.test")
      then succeeded (some payload)
      else if bytes_eq method (codes "test")
      then without_params payload (succeeded rpc_ok)
      else if bytes_eq method (codes "info")
      then without_params payload codec.encode_info
      else if bytes_eq method (codes "stats")
      then without_params payload (codec.encode_stats (stats db uptime))
      else if bytes_eq method (codes "client.list")
      then client_list codec db payload
      else errored (record { code = rpc_error_code_method_not_found; «data» = none })

  with_method : Codec → Db m → ℕ → Result Bytes → Bytes → RpcResult (Option Bytes)
  unfolding by_method
  with_method codec db uptime (err e) payload = errored (rpc_error_from e)
  with_method codec db uptime (ok method) payload = by_method codec db uptime method payload

  -- `handle_call`; `none` is a panic of an accessor.
  unfoldable pub handle_call : Codec → Db m → ℕ → RpcEvent → Option (RpcResult (Option Bytes))
  unfolding with_method event_method event_payload from_utf8
  handle_call codec db uptime event = and_then (event_method event) (λ method.
      and_then (event_payload event)
        (λ payload. some (with_method codec db uptime (from_utf8 method) payload)))
