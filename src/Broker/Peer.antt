-- ===== src/Broker/Peer.antt =====
-- src/broker.rs: `handle_peer`, the handshake of a connection.
pub mod Keeps
use busrt.Wire.LittleEndian.{to_le, from_le}
use busrt.Protocol.Error.{
  Result, ok, err, Error, ErrorKind, invalid, not_supported, access, io, eof, error_of, error_bare,
  error_code, lit, str, Piece, response_ok, err_not_supported, err_data, err_access,
}
use busrt.Protocol.Codes.{greetings, protocol_version}
use busrt.Protocol.Text.{from_utf8}
use busrt.Protocol.Name.{primary_name_of, starts_with}
use busrt.Protocol.Frame.{new_nop}
use busrt.Protocol.Outcome.{Outcome, done}
use busrt.Protocol.Talk.{Talk, finish, fail, ◌>>=◌, write, read, call, lift}
use busrt.Broker.Maps.{Maps}
use busrt.Broker.Db.{new_at, Db, Client, ClientKind, new_client}
use busrt.Broker.Aaa.{ClientAaa, connect_allowed}
use busrt.Broker.Send.{Env, is_full, push, unregister_client}
use busrt.Broker.Register.{register_client}
use busrt.Base.{
  refl, ◌≡◌, byte_at, ℕ, zero, suc, ◌+◌, ◌-◌, ◌*◌, ◌/◌, ◌%◌, ◌^◌, ◌≤◌, ◌<◌, bit_and, bit_or, String,
  ◌≡◌, refl, sym, ap, ◌∙◌, subst, ◌≢◌, ◌↔◌, ◌⊎◌, inl, inr, Bool, true, false, not, ◌&&◌, ◌||◌,
  Option, none, some, List, [], ◌∷◌, ◌++◌, map, append-nil, append_assoc, arith, ltb, leb, ◌==◌,
  if◌then◌else◌, ltb→lt, lt→ltb, leb→le, le→leb, lt→leb, le→ltb, ==_iff, Bool-cases, Option-cases,
  Bytes, codes, bytes_eq, bytes_eq_iff, length, take, drop, is_empty, length-append, length-drop,
  take-append, drop-append, slice_from, slice,
}

-- What the handshake uses of the connection's parameters. The address is `ClientIp`: no address
-- for a Unix socket. The text of an address is the library's.
pub record PeerHandlerParams (m : Maps) (Network Addr : Type 0) : Type 0 where
  pub aaa_map : Option (Bytes → Option (ClientAaa m Network))
  pub ip : Option Addr
  pub queue_size : ℕ
  pub kind : ClientKind
  pub source : Option Bytes
  pub source_port : Option Bytes

-- `write_and_flush!(&[code]); return Err(e)`
unfoldable pub refuse : {S A : Type 0} → ℕ → Error → Talk S A
refuse code e = do _ ← write (code ∷ []); fail e

unfoldable pub refuse_if : {S : Type 0} → Bool → ℕ → Error → Talk S (Unit {0})
unfolding refuse
refuse_if b code e = if b then refuse code e else finish tt

unfoldable pub is_valid_name : Bytes → Bool
unfolding starts_with
is_valid_name name = not (is_empty name || starts_with (codes ".") name)

-- A name that is not empty and does not begin with a dot.
abbrev pub IsName : Bytes → Type 0
IsName name = is_valid_name name ≡ true

module _ {Network Addr : Type 0} (m : Maps) (contains : Network → Addr → Bool)
    (addr_text : Addr → Bytes) where
  -- The rights are there: the address is tested, if there is one.
  unfoldable pub check_address :
      {S : Type 0}
      → Bytes
      → Option Addr
      → ClientAaa m Network
      → Talk S (Option (ClientAaa m Network))
  unfolding refuse
  check_address name none a = finish (some a)
  check_address name (some addr) a =
      if connect_allowed contains a.hosts_allow addr
      then finish (some a)
      else refuse err_access (
          error_of access (
            lit "Client "
            ∷ str name
            ∷ lit " is not allowed to connect from "
            ∷ str (addr_text addr)
            ∷ []))

  unfoldable pub check_rights :
      {S : Type 0}
      → Bytes
      → Option Addr
      → Option (ClientAaa m Network)
      → Talk S (Option (ClientAaa m Network))
  unfolding refuse check_address
  check_rights name ip (some a) = check_address name ip a
  check_rights name ip none =
      refuse err_access (error_of access (lit "Client not in AAA map: " ∷ str name ∷ []))

  unfoldable pub look_up :
      {S : Type 0}
      → Option (Bytes → Option (ClientAaa m Network))
      → Bytes
      → Option Addr
      → Talk S (Option (ClientAaa m Network))
  unfolding check_rights
  look_up none name ip = finish none
  look_up (some aaa_map) name ip = check_rights name ip (aaa_map (primary_name_of name))

  unfoldable pub authorize :
      {S : Type 0}
      → PeerHandlerParams m Network Addr
      → Bytes
      → Talk S (Option (ClientAaa m Network))
  unfolding look_up
  authorize params name = look_up params.aaa_map name params.ip

  unfoldable pub answer_registered : {S : Type 0} → Result (Unit {0}) → Talk S (Unit {0})
  unfolding refuse
  answer_registered (err e) = refuse (error_code e.kind) e
  answer_registered (ok _) = write (response_ok ∷ [])

  -- The peer becomes the client r.
  unfoldable pub registering :
      Env → PeerHandlerParams m Network Addr → ℕ → Bytes → Db m → Outcome (Db m) (Result (Unit {0}))
  registering env params r name db =
      register_client m env
        (new_at m db r (
          new_client m name (primary_name_of name) params.queue_size params.kind params.source
            params.source_port))
        r

  -- From the name on, up to `bus/rt client registered`
  unfoldable pub admit :
      Env
      → PeerHandlerParams m Network Addr
      → ℕ
      → Bytes
      → Talk (Db m) (Bytes × Option (ClientAaa m Network))
  unfolding refuse_if is_valid_name authorize answer_registered
  admit env params r client_name = do
    _ ←
        refuse_if (not (is_valid_name client_name)) err_data
          (error_of invalid (lit "Invalid client name: " ∷ str client_name ∷ []))
    aaa ← authorize params client_name
    registered ← call (registering env params r client_name)
    _ ← answer_registered registered
    finish (client_name, aaa)

  unfoldable pub hear_name :
      Env
      → PeerHandlerParams m Network Addr
      → ℕ
      → Talk (Db m) (Bytes × Option (ClientAaa m Network))
  unfolding admit
  hear_name env params r = do
    len ← read 2
    buf ← read (from_le len)
    client_name ← lift (from_utf8 buf)
    admit env params r client_name

  unfoldable pub answer_greeting :
      Env
      → PeerHandlerParams m Network Addr
      → ℕ
      → Bytes
      → Talk (Db m) (Bytes × Option (ClientAaa m Network))
  unfolding refuse_if hear_name
  answer_greeting env params r buf = do
    _ ←
        refuse_if (not (byte_at 0 buf == greetings)) err_not_supported
          (error_of not_supported (lit "invalid protocol" ∷ []))
    _ ←
        refuse_if (not (from_le (take 2 (drop 1 buf)) == protocol_version)) err_not_supported
          (error_of not_supported (lit "unsupported protocol version" ∷ []))
    _ ← write (response_ok ∷ [])
    hear_name env params r

  -- The handshake of a peer that will be the client r.
  unfoldable pub handshake :
      Env
      → PeerHandlerParams m Network Addr
      → ℕ
      → Talk (Db m) (Bytes × Option (ClientAaa m Network))
  unfolding answer_greeting
  handshake env params r = do
    _ ← write (greetings ∷ to_le 2 protocol_version)
    buf ← read 3
    answer_greeting env params r buf

  -- Who may connect under this name, with which rights.
  pub data MayConnect (params : PeerHandlerParams m Network Addr) (name : Bytes)
      : Option (ClientAaa m Network) → Type 0 where
    anybody : params.aaa_map ≡ none → MayConnect params name none
    listed :
        (aaa_map : Bytes → Option (ClientAaa m Network)) (a : ClientAaa m Network)
        → params.aaa_map ≡ some aaa_map
        → aaa_map (primary_name_of name) ≡ some a
        → ((addr : Addr)
            → params.ip ≡ some addr
            → connect_allowed contains a.hosts_allow addr ≡ true)
        → MayConnect params name (some a)

  check_address-finish :
      {S : Type 0} (name : Bytes) (ip : Option Addr) (a : ClientAaa m Network)
      → ((addr : Addr) → ip ≡ some addr → connect_allowed contains a.hosts_allow addr ≡ true)
      → check_address {S = S} name ip a ≡ finish (some a)
  unfolding check_address
  check_address-finish name none a h = refl
  check_address-finish name (some addr) a h = rw (h addr refl)

  authorize-MayConnect :
      {S : Type 0} (params : PeerHandlerParams m Network Addr) (name : Bytes)
      (aaa : Option (ClientAaa m Network))
      → MayConnect params name aaa
      → authorize {S = S} params name ≡ finish aaa
  unfolding authorize look_up check_rights
  authorize-MayConnect params name _ (anybody e) = rw (e, authorize, look_up)
  authorize-MayConnect params name _ (listed aaa_map a e f h) =
      rw (e, f, authorize, look_up, check_rights) (check_address-finish name params.ip a h)

  -- The conversation from the name on, for a name that may connect.
  pub admit-MayConnect :
      (env : Env) (params : PeerHandlerParams m Network Addr) (r : ℕ) (name : Bytes)
      (aaa : Option (ClientAaa m Network))
      → IsName name
      → MayConnect params name aaa
      → admit env params r name ≡ (
          call (registering env params r name)
          >>= (λ o. answer_registered o >>= (λ _. finish (name, aaa))))
  unfolding admit refuse_if
  admit-MayConnect env params r name aaa v h =
      rw (v, authorize-MayConnect {S = Db m} params name aaa h)
