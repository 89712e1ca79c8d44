-- ===== src/Tests/Network.antt =====
-- A registry with two peers, and an announcement.
use baleen_engine.Base.{
  ◌≡◌, refl, ◌-◌, not, ◌&&◌, ◌||◌, Bool, true, false, none, some, is_some, List, [], ◌∷◌, ◌++◌,
  Text, text, ◌==◌, text_eq, nat_eq, string_eq, elem, ltb, ◌⊎◌, arith, text_beq,
}
use baleen_engine.Base.Map.{lookup, Distinct}
use baleen_engine.Network.Peers.{
  PeerMeta, PeerRegistry, ApiNode, new_peer_registry, add_peer, get_detailed_peers, detail_loop,
}
use baleen_engine.Network.Peers.Invariant.{
  Operation, adds, adds_custom, clears, pings, run, Paired, Unshared, registry_sound,
}
use baleen_engine.Network.Peers.Detail.{unless_at, add_peer_effect}
use baleen_engine.Network.Address.{resolve_target_address, resolve_target-Valid, Valid}
use baleen_engine.Network.Discovery.{ServiceEntry, NetworkController}
use baleen_engine.Network.Discovery.Late.{Later, announces, switches_off}

abbrev ann : Text
ann = text "ann"

abbrev ann_address : Text
ann_address = text "10.0.0.5:9090"

abbrev bob : Text
bob = text "bob"

abbrev ann_meta : PeerMeta
ann_meta = record {
  source = "mdns";
  status = "reachable";
  arch = text "unknown";
  fingerprint = text "f1";
  last_seen = 7;
}

abbrev one_peer : PeerRegistry
one_peer = record { nodes = (ann, ann_address) ∷ []; metadata = (ann, ann_meta) ∷ [] }

abbrev history : List Operation
history =
    adds 7 ann ann_address (text "f1")
    ∷ (adds_custom 8 (text "manual") ann_address "manual" ∷ (pings 9 ann false ∷ (clears ∷ [])))

registry_sound_example :
    Paired (run history new_peer_registry) × Unshared (run history new_peer_registry).nodes
registry_sound_example = registry_sound history

add_peer_effect_example :
    let added = (add_peer 9 bob ann_address (text "f2") one_peer).0 in
    (lookup bob added.nodes ≡ some ann_address)
    × (lookup bob added.metadata
        ≡ some (record {
          source = "mdns";
          status = "reachable";
          arch = text "unknown";
          fingerprint = text "f2";
          last_seen = 9;
        }))
    × (lookup ann added.nodes ≡ unless_at ann_address (lookup ann one_peer.nodes))
unfolding lookup text_beq
add_peer_effect_example =
    add_peer_effect 9 bob ann_address (text "f2") ann one_peer (refl, tt) (λ e. ground (arith, e))

resolve_target-Valid_example :
    let target = resolve_target_address 9 one_peer ann in
    let listed = lookup ann (get_detailed_peers 9 one_peer) in
    ((listed ≡ none) × (target.fingerprint ≡ []) × Valid ann target)
    ⊎ ((node : ApiNode) × (listed ≡ some node)
        × (target.fingerprint ≡ node.meta.fingerprint)
        × Valid node.address target)
unfolding resolve_target_address get_detailed_peers lookup detail_loop baleen_engine.Base.Map.insert
    text_beq baleen_engine.Base.cut baleen_engine.Base.Decimal.scan_d
resolve_target-Valid_example = resolve_target-Valid 9 one_peer ann refl

abbrev entry : ServiceEntry
entry = record {
  instance_name = bob;
  addresses = text "10.0.0.6:9090" ∷ [];
  texts = text "fp=f2" ∷ [];
}

abbrev controller : NetworkController
controller = record {
  discovery_enabled = true;
  broadcast_enabled = true;
  node_name = ann;
  registry = one_peer;
}

abbrev later : List Later
later = announces 11 (λ a. true) entry ∷ (switches_off ∷ [])
