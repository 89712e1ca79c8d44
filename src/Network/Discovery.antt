-- ===== src/Network/Discovery.antt =====
-- internal/network/mdns_discovery.go and mdns_controller.go: an announcement that mDNS delivers, and
-- the switches of discovery and broadcast. The goroutines that the controller starts anew are not
-- part of its state. zeroconf delivers the entries.
pub mod Entry
pub mod Late
use baleen_engine.Base.{
  ℕ, Bool, true, false, not, ◌&&◌, Option, none, some, List, [], ◌∷◌, Text, text, ◌==◌,
  if◌then◌else◌, text_eq, nat_eq, has_prefix, trim_prefix,
}
use baleen_engine.Network.Peers.{PeerRegistry, add_peer, clear_mdns_peers}

-- zeroconf.ServiceEntry: its name, its IPv4 addresses with the port, and its texts
pub record ServiceEntry : Type 0 where
  pub instance_name : Text
  pub addresses : List Text
  pub texts : List Text

unfoldable starts_with_space : Text → Bool
starts_with_space [] = false
starts_with_space (c ∷ s) = c == b' '

-- strings.ReplaceAll(s, "\\ ", " ")
unfoldable pub unescape : Text → Text
unfolding starts_with_space
unescape [] = []
unescape (c ∷ s) =
    let rest = unescape s in if c == 92 && starts_with_space s then rest else c ∷ rest

-- The loop that dials the addresses; `none` is the empty validAddress.
unfoldable pub first_reachable : (Text → Bool) → List Text → Option Text
first_reachable dials [] = none
first_reachable dials (a ∷ rest) =
    let later = first_reachable dials rest in if dials a then some a else later

unfoldable pub first_address : List Text → Option Text
first_address [] = none
first_address (a ∷ rest) = some a

unfoldable pub valid_address : (Text → Bool) → List Text → Option Text
unfolding first_reachable first_address
valid_address dials addresses = elim (first_reachable dials addresses) [
  | some a ↦ some a
  | none ↦ first_address addresses
]

-- The loop over the texts.
unfoldable pub entry_fingerprint : List Text → Text
entry_fingerprint [] = []
entry_fingerprint (t ∷ rest) =
    let later = entry_fingerprint rest in
    if has_prefix t (text "fp=") then trim_prefix t (text "fp=") else later

-- One round of the loop of runBrowseSession; `enabled` is the flag as the round reads it first.
unfoldable pub handle_entry :
    Bool → Text → ℕ → (Text → Bool) → ServiceEntry → PeerRegistry → PeerRegistry
handle_entry enabled current_node_name now dials entry pr =
    if not enabled
    then pr
    else if unescape entry.instance_name == current_node_name
    then pr
    else elim (valid_address dials entry.addresses) [
      | none ↦ pr
      | some address ↦
          if entry_fingerprint entry.texts == []
          then pr
          else (add_peer now (unescape entry.instance_name) address (entry_fingerprint entry.texts)
              pr).0
    ]

-- NetworkController
pub record NetworkController : Type 0 where
  pub discovery_enabled : Bool
  pub broadcast_enabled : Bool
  pub node_name : Text
  pub registry : PeerRegistry

unfoldable pub differs : Bool → Bool → Bool
differs true b = not b
differs false b = b

-- SetDiscovery
unfoldable pub set_discovery : Bool → NetworkController → NetworkController
unfolding differs
set_discovery enabled nc = record nc {
  discovery_enabled = enabled;
  registry =
      if differs nc.discovery_enabled enabled && not enabled
      then clear_mdns_peers nc.registry
      else nc.registry;
}

-- SetBroadcast
unfoldable pub set_broadcast : Bool → NetworkController → NetworkController
set_broadcast enabled nc = record nc { broadcast_enabled = enabled }

-- UpdateNodeName
unfoldable pub update_node_name : Text → NetworkController → NetworkController
update_node_name new_name nc =
    if nc.node_name == new_name then nc else record nc { node_name = new_name }
