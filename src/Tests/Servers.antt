-- ===== src/Tests/Servers.antt =====
-- A Unix and a TCP server with a map of rights whose only host is not the client's.
use busrt.Protocol.Error.{ok}
use busrt.Protocol.Talk.{finish}
use busrt.Broker.Aaa.{ClientAaa}
use busrt.Broker.Db.{Db}
use busrt.Broker.Peer.{authorize}
use busrt.Broker.Server.{
  ServerConfig, Broker, Peer, arrived, default_config, with_aaa_map, serve_unix, serve_tcp,
}
use busrt.Broker.Server.Hosts.{IsJudged, has_not, authorize-hosts, shut_out}
use busrt.Tests.Maps.{exact_maps}
use mathlib.Core.List.{Memᴰ}
use busrt.Base.{ℕ, ◌+◌, ◌≡◌, refl, ap, Bool, true, false, none, some, [], ◌∷◌, ◌==◌, Bytes, codes}

abbrev rights : ClientAaa exact_maps ℕ
rights = record {
  hosts_allow = 7 ∷ [];
  p2p = record { any = true; masks = [] };
  publish = record { any = true; masks = [] };
  subscribe = record { any = true; masks = [] };
  broadcast = record { any = true; masks = [] };
}

abbrev config : ServerConfig exact_maps ℕ
config = with_aaa_map default_config (λ name. some rights)

abbrev broker : Broker
broker = record { queue_size = 8; direct_alloc_limit = none }

abbrev same : ℕ → ℕ → Bool
same a b = a == b

abbrev text : ℕ → Bytes
text addr = (48 + addr) ∷ []

no_host : IsJudged same rights.hosts_allow 8 false
no_host = has_not (λ h t. elim t [ Memᴰ.head e ↦ ap (λ n. same n 8) e | Memᴰ.tail k ↦ elim k [ ] ])

authorize-hosts_example :
    (p : Peer exact_maps ℕ ℕ ℕ) × (q : Peer exact_maps ℕ ℕ ℕ) × (serve_unix broker config
        (codes "/b")
        (arrived 1 8)
      ≡ some p)
    × (authorize exact_maps same text {S = Db exact_maps} p.params (codes "me")
        ≡ finish (some rights))
    × (serve_tcp broker config (λ s. ok tt) text (codes "/b") (arrived 1 8) ≡ some q)
    × (authorize exact_maps same text {S = Db exact_maps} q.params (codes "me")
        ≡ shut_out exact_maps same text (codes "me") 8)
authorize-hosts_example =
    authorize-hosts exact_maps same text broker config (λ name. some rights) (λ s. ok tt)
      (codes "/b") (codes "me") 1 8 rights false refl refl refl no_host
