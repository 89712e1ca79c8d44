-- ===== src/Network/Peers.antt =====
-- internal/network/peer_registry.go and peer_health.go: the peers a node knows. Each section of code
-- that holds the registry's lock is one operation; `now` is the clock in seconds. Whether another
-- goroutine is started is a second result.
pub mod Invariant
pub mod Detail
use baleen_engine.Base.{
  ℕ, ◌+◌, ◌-◌, Bool, true, false, not, ◌&&◌, Option, none, some, List, [], ◌∷◌, Text, text, ◌==◌,
  if◌then◌else◌, ltb, String, string_eq, text_eq,
}
use baleen_engine.Base.Map.{Map, lookup, insert, delete}

-- PeerMeta
pub record PeerMeta : Type 0 where
  pub source : String
  pub status : String
  pub arch : Text
  pub fingerprint : Text
  pub last_seen : ℕ

-- PeerRegistry
pub record PeerRegistry : Type 0 where
  pub nodes : Map Text Text
  pub metadata : Map Text PeerMeta

-- NewPeerRegistry
abbrev pub new_peer_registry : PeerRegistry
new_peer_registry = record { nodes = []; metadata = [] }

-- RemovePeer
unfoldable pub remove_peer : Text → PeerRegistry → PeerRegistry
remove_peer name pr = record { nodes = delete name pr.nodes; metadata = delete name pr.metadata }

-- The loop that removes another name with the same address; it visits the nodes as they stood.
unfoldable pub evict : Text → Text → Map Text Text → PeerRegistry → PeerRegistry
evict name address [] pr = pr
evict name address ((existing_name, existing_addr) ∷ rest) pr = evict name address rest (
    if existing_addr == address && not (existing_name == name)
    then remove_peer existing_name pr
    else pr)

abbrev pub unknown : Text
unknown = text "unknown"

-- The metadata that AddPeer stores.
unfoldable pub seen : ℕ → Text → Option PeerMeta → PeerMeta
seen now fingerprint none = record {
  source = "mdns";
  status = "reachable";
  arch = unknown;
  fingerprint = fingerprint;
  last_seen = now;
}
seen now fingerprint (some meta) = record meta {
  last_seen = now;
  status = "reachable";
  fingerprint = fingerprint;
}

-- isNew of AddPeer
unfoldable pub is_new : Option PeerMeta → Bool
is_new none = true
is_new (some meta) = meta.arch == unknown

-- AddPeer, and whether it starts detectAndUpdateArch
unfoldable pub add_peer : ℕ → Text → Text → Text → PeerRegistry → PeerRegistry × Bool
add_peer now name address fingerprint pr =
    let kept = evict name address pr.nodes pr in
    let known = lookup name kept.metadata in
    (
      record {
        nodes = insert name address kept.nodes;
        metadata = insert name (seen now fingerprint known) kept.metadata;
      },
      is_new known,
    )

-- AddCustomPeer; it always starts detectAndUpdateArch
unfoldable pub add_custom_peer : ℕ → Text → Text → String → PeerRegistry → PeerRegistry
add_custom_peer now name address source pr =
    let kept = evict name address pr.nodes pr in
    record {
      nodes = insert name address kept.nodes;
      metadata =
          insert name
            (record {
              source = source;
              status = "unverified";
              arch = unknown;
              fingerprint = [];
              last_seen = now;
            })
            kept.metadata;
    }

-- The locked section of detectAndUpdateArch, with the architecture that was detected.
unfoldable pub update_arch : Text → Text → PeerRegistry → PeerRegistry
update_arch name arch pr = elim (lookup name pr.metadata) [
  | none ↦ pr
  | some meta ↦ record pr { metadata = insert name (record meta { arch = arch }) pr.metadata }
]

-- The loop of ClearMDNSPeers; it visits the metadata as it stood.
unfoldable pub clear_loop : Map Text PeerMeta → PeerRegistry → PeerRegistry
clear_loop [] pr = pr
clear_loop ((name, meta) ∷ rest) pr =
    clear_loop rest (if meta.source == "mdns" then remove_peer name pr else pr)

-- ClearMDNSPeers
unfoldable pub clear_mdns_peers : PeerRegistry → PeerRegistry
clear_mdns_peers pr = clear_loop pr.metadata pr

-- The locked section of a health check, after the dial, and whether the check goes on to RemovePeer.
unfoldable pub record_ping : ℕ → Text → Bool → PeerRegistry → PeerRegistry × Bool
record_ping now name dialed pr = elim (lookup name pr.metadata) [
  | none ↦ (pr, false)
  | some meta ↦
      if dialed
      then (
        record pr { metadata = insert name (record meta { status = "reachable" }) pr.metadata },
        false,
      )
      else (
        record pr { metadata = insert name (record meta { status = "unreachable" }) pr.metadata },
        not (meta.source == "static") && ltb 60 (now - meta.last_seen),
      )
]

-- The goroutine of one check, where nothing runs between its sections: whether the peer's metadata
-- server says that it is hidden, and whether the dial succeeds.
unfoldable pub check_peer : ℕ → Text → Bool → Bool → PeerRegistry → PeerRegistry
check_peer now name hidden dialed pr =
    if hidden
    then remove_peer name pr
    else (let (pinged, gone) = record_ping now name dialed pr in
        if gone then remove_peer name pinged else pinged)

-- APINode
pub record ApiNode : Type 0 where
  pub address : Text
  pub meta : PeerMeta

-- The metadata that stands in for a peer without any.
unfoldable pub or_default : ℕ → Option PeerMeta → PeerMeta
unfolding seen
or_default now none = seen now [] none
or_default now (some meta) = meta

-- GetDetailedPeers, as the loop over the nodes
unfoldable pub detail_loop : ℕ → Map Text PeerMeta → Map Text Text → Map Text ApiNode
detail_loop now metadata [] = []
detail_loop now metadata ((name, addr) ∷ rest) =
    insert name (record { address = addr; meta = or_default now (lookup name metadata) })
      (detail_loop now metadata rest)

unfoldable pub get_detailed_peers : ℕ → PeerRegistry → Map Text ApiNode
get_detailed_peers now pr = detail_loop now pr.metadata pr.nodes
