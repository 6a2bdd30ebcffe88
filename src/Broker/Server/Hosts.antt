-- ===== src/Broker/Server/Hosts.antt =====
-- Whom the addresses in the rights of a client keep out: the peers of the servers at the handshake.
use busrt.Protocol.Error.{Result, ok, err_access, access, error_of, lit, str}
use busrt.Protocol.Name.{primary_name_of}
use busrt.Protocol.Talk.{Talk, finish, fail, say}
use busrt.Broker.Maps.{Maps}
use busrt.Broker.Aaa.{ClientAaa, connect_allowed}
use busrt.Broker.Peer.{authorize, look_up, check_rights, check_address, refuse}
use busrt.Broker.Server.{
  ServerConfig, Broker, Peer, arrived, handle_connection, spawn_if, serve_unix, serve_tcp,
}
use mathlib.Core.List.{Memᴰ}
use busrt.Base.{
  ◌≡◌, refl, sym, ap, ◌∙◌, Bool, true, false, Option, none, some, List, [], ◌∷◌, arith,
  if◌then◌else◌, Bytes,
}

-- Whether the hosts allow an address: one of the networks has it, or none has.
pub data IsJudged {Network Addr : Type 0} (contains : Network → Addr → Bool) (hosts : List Network)
    (addr : Addr) : Bool → Type 0 where
  has : (h : Network) → Memᴰ h hosts → contains h addr ≡ true → IsJudged contains hosts addr true
  has_not :
      ((h : Network) → Memᴰ h hosts → contains h addr ≡ false) → IsJudged contains hosts addr false

connect_allowed-has :
    {Network Addr : Type 0} (contains : Network → Addr → Bool) (hosts : List Network) (addr : Addr)
    (h : Network)
    → Memᴰ h hosts
    → contains h addr ≡ true
    → connect_allowed contains hosts addr ≡ true
unfolding connect_allowed
connect_allowed-has contains [] addr h t c = elim t [ ]
connect_allowed-has contains (k ∷ hosts) addr h (Memᴰ.head e) c =
    let d : contains k addr ≡ true = sym (ap (λ n. contains n addr) e) ∙ c in ground (arith, d)
connect_allowed-has contains (k ∷ hosts) addr h (Memᴰ.tail t) c =
    ground (arith, connect_allowed-has contains hosts addr h t c)

connect_allowed-has_not :
    {Network Addr : Type 0} (contains : Network → Addr → Bool) (hosts : List Network) (addr : Addr)
    → ((h : Network) → Memᴰ h hosts → contains h addr ≡ false)
    → connect_allowed contains hosts addr ≡ false
unfolding connect_allowed
connect_allowed-has_not contains [] addr f = refl
connect_allowed-has_not contains (k ∷ hosts) addr f = ground (
  arith,
  f k (Memᴰ.head refl),
  connect_allowed-has_not contains hosts addr (λ h t. f h (Memᴰ.tail t)),
)

connect_allowed-IsJudged :
    {Network Addr : Type 0} (contains : Network → Addr → Bool) (hosts : List Network) (addr : Addr)
    (allowed : Bool)
    → IsJudged contains hosts addr allowed
    → connect_allowed contains hosts addr ≡ allowed
connect_allowed-IsJudged contains hosts addr true (has h t c) =
    connect_allowed-has contains hosts addr h t c
connect_allowed-IsJudged contains hosts addr false (has_not f) =
    connect_allowed-has_not contains hosts addr f

module _ {Network Addr S : Type 0} (m : Maps) (contains : Network → Addr → Bool)
    (addr_text : Addr → Bytes) where
  -- With ERR_ACCESS on the wire, and the error
  abbrev pub shut_out : Bytes → Addr → Talk S (Option (ClientAaa m Network))
  shut_out name addr = say (err_access ∷ []) (
      fail (
        error_of access (
          lit "Client "
          ∷ str name
          ∷ lit " is not allowed to connect from "
          ∷ str (addr_text addr)
          ∷ [])))

  look_up-some :
      (aaa_map : Bytes → Option (ClientAaa m Network)) (name : Bytes) (ip : Option Addr)
      (a : ClientAaa m Network)
      → aaa_map (primary_name_of name) ≡ some a
      → look_up m contains addr_text {S = S} (some aaa_map) name ip
        ≡ check_address m contains addr_text name ip a
  unfolding look_up check_rights
  look_up-some aaa_map name ip a h = ap (check_rights m contains addr_text name ip) h

  judged :
      (name : Bytes) (addr : Addr) (a : ClientAaa m Network) (allowed : Bool)
      → connect_allowed contains a.hosts_allow addr ≡ allowed
      → check_address m contains addr_text {S = S} name (some addr) a
        ≡ (if allowed then finish (some a) else shut_out name addr)
  unfolding check_address refuse
  judged name addr a allowed e = ap (λ b. if b then finish (some a) else shut_out name addr) e

  -- Of a server with a map of rights that holds the client's primary name: whoever comes over a Unix
  -- socket gets these rights, whatever their hosts; whoever comes over TCP, if the options are set on
  -- its stream, gets them if one of the allowed networks has its address, and ERR_ACCESS if none has.
  pub authorize-hosts :
      {Stream : Type 0} (b : Broker) (config : ServerConfig m Network)
      (aaa_map : Bytes → Option (ClientAaa m Network)) (set_nodelay : Stream → Result (Unit {0}))
      (path name : Bytes) (stream : Stream) (addr : Addr) (a : ClientAaa m Network) (allowed : Bool)
      → config.aaa_map ≡ some aaa_map
      → aaa_map (primary_name_of name) ≡ some a
      → set_nodelay stream ≡ ok tt
      → IsJudged contains a.hosts_allow addr allowed
      → (p : Peer m Network Addr Stream) × (q : Peer m Network Addr Stream) × (serve_unix b config
            path
            (arrived stream addr)
          ≡ some p)
        × (authorize m contains addr_text {S = S} p.params name ≡ finish (some a))
        × (serve_tcp b config set_nodelay addr_text path (arrived stream addr) ≡ some q)
        × (authorize m contains addr_text {S = S} q.params name
            ≡ (if allowed then finish (some a) else shut_out name addr))
  unfolding serve_unix serve_tcp spawn_if handle_connection authorize check_address refuse
  authorize-hosts b config aaa_map set_nodelay path name stream addr a allowed hm ha hs hj = (
    _,
    _,
    refl,
    ap (λ o. look_up m contains addr_text o name none) hm ∙ look_up-some aaa_map name none a ha,
    ap (spawn_if b config path _ _ _ stream) hs,
    ap (λ o. look_up m contains addr_text o name (some addr)) hm
        ∙ look_up-some aaa_map name (some addr) a ha
        ∙ judged name addr a allowed
            (connect_allowed-IsJudged contains a.hosts_allow addr allowed hj),
  )
