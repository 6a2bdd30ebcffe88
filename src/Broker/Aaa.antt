-- ===== src/Broker/Aaa.antt =====
-- src/broker.rs: `ClientAaa`, what a client may do, and `ClientIp`.
use busrt.Broker.Maps.{Maps}
use busrt.Base.{
  Bool, true, false, ◌||◌, Option, none, some, List, [], ◌∷◌, if◌then◌else◌, Bytes, bytes_eq,
}

-- A kind of access: everything, or what the masks match.
pub record Rule (Acl : Type 0) : Type 0 where
  pub any : Bool
  pub masks : Acl

-- Networks and addresses are those of the crate ipnetwork and of std.
pub record ClientAaa (m : Maps) (Network : Type 0) : Type 0 where
  pub hosts_allow : List Network
  pub p2p : Rule m.Acl
  pub publish : Rule m.Acl
  pub subscribe : Rule m.Acl
  pub broadcast : Rule m.Acl

module _ (m : Maps) where
  insert_masks : Bytes → List Bytes → Rule m.Acl → Rule m.Acl
  insert_masks all [] r = r
  insert_masks all (k ∷ ks) r =
      insert_masks all ks
        (record { any = if bytes_eq k all then true else r.any; masks = m.acl_insert k r.masks })

  -- `allow_p2p_to` and `allow_broadcast_to` with "*", `allow_publish_to` and `allow_subscribe_to`
  -- with "#" for everything
  unfoldable pub allow_to : Bytes → List Bytes → Rule m.Acl → Rule m.Acl
  unfolding insert_masks
  allow_to all ks r = insert_masks all ks (record r { any = false })

  -- `deny_p2p` and the other three
  unfoldable pub deny : Rule m.Acl → Rule m.Acl
  deny r = record { any = false; masks = m.no_acl }

  unfoldable pub rule_allows : Rule m.Acl → Bytes → Bool
  rule_allows r target = r.any || m.acl_matches r.masks target

  -- `let allowed = if let Some(ref aaa) = aaa { … } else { true }`
  unfoldable pub is_allowed : Option (Rule m.Acl) → Bytes → Bool
  unfolding rule_allows
  is_allowed none target = true
  is_allowed (some r) target = rule_allows r target

module _ {Network Addr : Type 0} (contains : Network → Addr → Bool) where
  unfoldable pub connect_allowed : List Network → Addr → Bool
  connect_allowed [] addr = false
  connect_allowed (h ∷ hs) addr = contains h addr || connect_allowed hs addr
