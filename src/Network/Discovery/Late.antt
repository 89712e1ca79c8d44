-- ===== src/Network/Discovery/Late.antt =====
-- internal/network/mdns_discovery.go and mdns_controller.go: an announcement that is under way while
-- discovery is switched off.
use baleen_engine.Base.{
  ℕ, Bool, true, false, none, some, List, [], ◌∷◌, Text, ◌==◌, if◌then◌else◌, text_eq, string_eq,
  ◌≡◌, arith,
}
use baleen_engine.Base.Map.{Map, lookup, Distinct}
use baleen_engine.Network.Peers.{PeerMeta}
use baleen_engine.Network.Peers.Detail.{clear_mdns_peers_effect}
use baleen_engine.Network.Discovery.{
  ServiceEntry, handle_entry, NetworkController, set_discovery, differs,
}

-- Switching discovery off removes the address of a peer whose source is mDNS.
pub discovery_off_clears :
    (j : Text) (meta : PeerMeta) (nc : NetworkController)
    → nc.discovery_enabled ≡ true
    → Distinct nc.registry.metadata
    → lookup j nc.registry.metadata ≡ some meta
    → lookup j (set_discovery false nc).registry.nodes
      ≡ (if meta.source == "mdns" then none else lookup j nc.registry.nodes)
unfolding set_discovery differs
discovery_off_clears j meta nc on d h =
    ground (arith, on, clear_mdns_peers_effect j meta nc.registry d h)

-- What can follow: another announcement, handled at a time with the outcome of its dials, or a call
-- that switches discovery off.
pub data Later : Type 0 where
  announces : ℕ → (Text → Bool) → ServiceEntry → Later
  switches_off : Later

unfoldable pub later_step : Later → NetworkController → NetworkController
later_step (announces now dials entry) nc = record nc {
  registry = handle_entry nc.discovery_enabled nc.node_name now dials entry nc.registry;
}
later_step switches_off nc = set_discovery false nc

unfoldable pub run_later : List Later → NetworkController → NetworkController
unfolding later_step
run_later [] nc = nc
run_later (e ∷ es) nc = run_later es (later_step e nc)
