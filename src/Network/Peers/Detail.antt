-- ===== src/Network/Peers/Detail.antt =====
-- internal/network/peer_registry.go and peer_health.go: what the operations do to each name.
use baleen_engine.Base.{
  ℕ, ◌-◌, Bool, true, false, not, ◌&&◌, ◌||◌, Option, none, some, List, [], ◌∷◌, Text, text, String,
  ◌==◌, ==_iff, if◌then◌else◌, is_some, text_eq, string_eq, Bool-cases, ◌≡◌, refl, arith,
  Option-cases, inl, inr, ltb,
}
use baleen_engine.Base.Map.{Map, lookup, insert, lookup-insert, lookup-delete, Distinct}
use baleen_engine.Network.Peers.{
  new_peer_registry, PeerMeta, PeerRegistry, remove_peer, evict, seen, add_peer, clear_loop,
  clear_mdns_peers, record_ping, check_peer, or_default, detail_loop, get_detailed_peers,
}
use baleen_engine.Network.Peers.Invariant.{
  Operation, run, registry_sound, evicted, evict-nodes, evict-metadata, evicted-name,
  evicted-sharing,
}

-- In a map without a key that stands twice, an evicted name has the address of the new peer.
evicted-address :
    (name address j : Text) (m : Map Text Text)
    → Distinct m
    → evicted name address j m ≡ true
    → lookup j m ≡ some address
unfolding evicted lookup
evicted-address name address j [] d h = ground arith
evicted-address name address j ((k, a) ∷ m) d h =
    ground (arith, ==_iff k j, ==_iff a address, evicted-address name address j m d.1)

-- What another name keeps when a peer takes an address.
unfoldable pub unless_at : Text → Option Text → Option Text
unless_at address none = none
unless_at address (some a) = if a == address then none else some a

abbrev pub source_of : Option PeerMeta → String
source_of none = "mdns"
source_of (some meta) = meta.source

abbrev pub arch_of : Option PeerMeta → Text
arch_of none = text "unknown"
arch_of (some meta) = meta.arch

seen_lem :
    (now : ℕ) (fingerprint : Text) (before : Option PeerMeta)
    → seen now fingerprint before ≡ record {
      source = source_of before;
      status = "reachable";
      arch = arch_of before;
      fingerprint = fingerprint;
      last_seen = now;
    }
unfolding seen
seen_lem now fingerprint none = refl
seen_lem now fingerprint (some meta) = refl

-- With no key twice in the nodes, AddPeer gives the name the address. Another name that had the
-- address is gone, and every other one keeps its own. The metadata of the name then has the
-- status reachable, the new fingerprint and the time now. Its source and architecture are the ones
-- that the name had, and mdns and unknown for a name without metadata.
pub add_peer_effect :
    (now : ℕ) (name address fingerprint j : Text) (pr : PeerRegistry)
    → Distinct pr.nodes
    → (j ≡ name → ⊥)
    → let added = (add_peer now name address fingerprint pr).0 in
      (lookup name added.nodes ≡ some address)
      × (lookup name added.metadata
          ≡ some (record {
            source = source_of (lookup name pr.metadata);
            status = "reachable";
            arch = arch_of (lookup name pr.metadata);
            fingerprint = fingerprint;
            last_seen = now;
          }))
      × (lookup j added.nodes ≡ unless_at address (lookup j pr.nodes))
unfolding add_peer unless_at
add_peer_effect now name address fingerprint j pr d different =
    let kept = evict name address pr.nodes pr in
    let known = evict-metadata name address name pr.nodes pr in
    (
      ground (arith, ==_iff name name, lookup-insert name name address kept.nodes),
      ground (
        arith,
        ==_iff name name,
        evicted-name name address pr.nodes,
        known,
        seen_lem now fingerprint (lookup name pr.metadata),
        lookup-insert name name (seen now fingerprint (lookup name kept.metadata)) kept.metadata,
      ),
      elim (Option-cases (lookup j pr.nodes)) [
        | inl absent ↦ ground (
          arith,
          ==_iff name j,
          different,
          absent,
          lookup-insert name j address kept.nodes,
          evict-nodes name address j pr.nodes pr,
        )
        | inr (a, found) ↦ ground (
          arith,
          ==_iff name j,
          ==_iff a address,
          different,
          found,
          lookup-insert name j address kept.nodes,
          evict-nodes name address j pr.nodes pr,
          evicted-sharing name address j pr.nodes,
          evicted-address name address j pr.nodes d,
        )
      ],
    )

-- The names that `clear_loop` removes.
unfoldable found_by_mdns : Text → Map Text PeerMeta → Bool
found_by_mdns j [] = false
found_by_mdns j ((k, meta) ∷ rest) = (k == j && meta.source == "mdns") || found_by_mdns j rest

clear_loop-nodes :
    (j : Text) (todo : Map Text PeerMeta) (pr : PeerRegistry)
    → lookup j (clear_loop todo pr).nodes
      ≡ (if found_by_mdns j todo then none else lookup j pr.nodes)
unfolding clear_loop found_by_mdns remove_peer
clear_loop-nodes j [] pr = refl
clear_loop-nodes j ((k, meta) ∷ rest) pr = elim (Bool-cases (meta.source == "mdns")) [
  | inl goes ↦ ground (
    arith,
    goes,
    ==_iff k j,
    lookup-delete k j pr.nodes,
    clear_loop-nodes j rest (remove_peer k pr),
  )
  | inr stays ↦ ground (arith, stays, clear_loop-nodes j rest pr)
]

found_by_mdns-absent :
    (j : Text) (m : Map Text PeerMeta) → lookup j m ≡ none → found_by_mdns j m ≡ false
unfolding lookup found_by_mdns
found_by_mdns-absent j [] h = refl
found_by_mdns-absent j ((k, meta) ∷ m) h = ground (arith, ==_iff k j, found_by_mdns-absent j m)

found_by_mdns-present :
    (j : Text) (meta : PeerMeta) (m : Map Text PeerMeta)
    → Distinct m
    → lookup j m ≡ some meta
    → found_by_mdns j m ≡ (meta.source == "mdns")
unfolding lookup found_by_mdns
found_by_mdns-present j meta [] d h = ground arith
found_by_mdns-present j meta ((k, other) ∷ m) d h =
    ground (arith, ==_iff k j, found_by_mdns-present j meta m d.1, found_by_mdns-absent j m)

-- ClearMDNSPeers removes a peer whose source is mDNS and keeps the address of every other one, for
-- a registry whose metadata has no key twice.
pub clear_mdns_peers_effect :
    (j : Text) (meta : PeerMeta) (pr : PeerRegistry)
    → Distinct pr.metadata
    → lookup j pr.metadata ≡ some meta
    → lookup j (clear_mdns_peers pr).nodes
      ≡ (if meta.source == "mdns" then none else lookup j pr.nodes)
unfolding clear_mdns_peers
clear_mdns_peers_effect j meta pr d h =
    rw (clear_loop-nodes j pr.metadata pr, found_by_mdns-present j meta pr.metadata d h) refl

-- An unhidden peer that a health check does not reach is removed exactly if it is known, is not
-- static and was last seen more than a minute ago. One that was reached, or is static, stays.
pub check_peer_removes :
    (now : ℕ) (name : Text) (meta : PeerMeta) (hidden dialed : Bool) (pr : PeerRegistry)
    → lookup name pr.metadata ≡ some meta
    → is_some (lookup name (check_peer now name hidden dialed pr).metadata)
      ≡ not
          (hidden || (not dialed && not (meta.source == "static") && ltb 60 (now - meta.last_seen)))
unfolding check_peer record_ping remove_peer
check_peer_removes now name meta hidden dialed pr h = ground (
  arith,
  h,
  ==_iff name name,
  lookup-delete name name pr.metadata,
  lookup-insert name name (record meta { status = "reachable" }) pr.metadata,
  lookup-insert name name (record meta { status = "unreachable" }) pr.metadata,
  lookup-delete name name (insert name (record meta { status = "unreachable" }) pr.metadata),
)

pub address_of : Option Text → Text
address_of none = []
address_of (some a) = a

detail_loop-lookup :
    (now : ℕ) (metadata : Map Text PeerMeta) (j : Text) (nodes : Map Text Text)
    → lookup j (detail_loop now metadata nodes) ≡ elim (lookup j nodes) [
      | none ↦ none
      | some a ↦ some (record { address = a; meta = or_default now (lookup j metadata) })
    ]
unfolding lookup detail_loop
detail_loop-lookup now metadata j [] = refl
detail_loop-lookup now metadata j ((k, a) ∷ nodes) = ground (
  arith,
  ==_iff k j,
  detail_loop-lookup now metadata j nodes,
  lookup-insert k j (record { address = a; meta = or_default now (lookup k metadata) })
      (detail_loop now metadata nodes),
)

-- Whatever the goroutines did since the registry was empty: GetDetailedPeers lists a name exactly
-- if it has metadata, and with that metadata, never with the one that stands in for none.
pub detailed_peers_complete :
    (os : List Operation) (now : ℕ) (j : Text)
    → let pr = run os new_peer_registry in
      lookup j (get_detailed_peers now pr) ≡ elim (lookup j pr.metadata) [
        | none ↦ none
        | some meta ↦ some (record { address = address_of (lookup j pr.nodes); meta = meta })
      ]
unfolding get_detailed_peers or_default address_of
detailed_peers_complete os now j =
    let pr = run os new_peer_registry in
    ground (arith, detail_loop-lookup now pr.metadata j pr.nodes, (registry_sound os).0 j)
