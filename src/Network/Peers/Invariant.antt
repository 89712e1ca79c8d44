-- ===== src/Network/Peers/Invariant.antt =====
-- internal/network/peer_registry.go and peer_health.go: what every interleaving of the registry's
-- operations keeps.
use baleen_engine.Base.{
  ℕ, Bool, true, false, not, ◌&&◌, ◌||◌, none, some, List, [], ◌∷◌, Text, ◌==◌, ==_iff, string_eq,
  if◌then◌else◌, is_some, String, text_eq, Bool-cases, ◌≡◌, refl, arith, Option-cases, inl, inr,
}
use baleen_engine.Base.Map.{Map, lookup, insert, lookup-insert, lookup-delete}
use baleen_engine.Network.Peers.{
  PeerMeta, PeerRegistry, new_peer_registry, remove_peer, evict, add_peer, add_custom_peer,
  update_arch, clear_loop, clear_mdns_peers, record_ping,
}

-- The locked sections that the program's goroutines run, in any order: discovery, the API, the
-- detection of an architecture, the health check's two sections, and discovery being switched off.
pub data Operation : Type 0 where
  adds : (now : ℕ) (name address fingerprint : Text) → Operation
  adds_custom : (now : ℕ) (name address : Text) (source : String) → Operation
  removes : (name : Text) → Operation
  clears : Operation
  detects : (name arch : Text) → Operation
  pings : (now : ℕ) (name : Text) (dialed : Bool) → Operation

unfoldable pub apply : Operation → PeerRegistry → PeerRegistry
apply (adds now name address fingerprint) pr = (add_peer now name address fingerprint pr).0
apply (adds_custom now name address source) pr = add_custom_peer now name address source pr
apply (removes name) pr = remove_peer name pr
apply clears pr = clear_mdns_peers pr
apply (detects name arch) pr = update_arch name arch pr
apply (pings now name dialed) pr = (record_ping now name dialed pr).0

unfoldable pub run : List Operation → PeerRegistry → PeerRegistry
run [] pr = pr
run (o ∷ os) pr = run os (apply o pr)

-- Every name with an address has metadata and the other way round.
abbrev pub Paired : PeerRegistry → Type 0
Paired pr = (k : Text) → is_some (lookup k pr.nodes) ≡ is_some (lookup k pr.metadata)

-- No two names have one address.
abbrev pub Unshared : Map Text Text → Type 0
Unshared nodes = (j k a : Text) → lookup j nodes ≡ some a → lookup k nodes ≡ some a → j ≡ k

-- The nodes that `evict` removes.
unfoldable pub evicted : Text → Text → Text → Map Text Text → Bool
evicted name address j [] = false
evicted name address j ((k, a) ∷ rest) =
    (k == j && a == address && not (k == name)) || evicted name address j rest

pub evict-nodes :
    (name address j : Text) (todo : Map Text Text) (pr : PeerRegistry)
    → lookup j (evict name address todo pr).nodes
      ≡ (if evicted name address j todo then none else lookup j pr.nodes)
unfolding evict evicted remove_peer
evict-nodes name address j [] pr = refl
evict-nodes name address j ((k, a) ∷ rest) pr =
    elim (Bool-cases (a == address && not (k == name))) [
      | inl goes ↦ ground (
        arith,
        goes,
        ==_iff k j,
        lookup-delete k j pr.nodes,
        evict-nodes name address j rest (remove_peer k pr),
      )
      | inr stays ↦ ground (arith, stays, evict-nodes name address j rest pr)
    ]

pub evict-metadata :
    (name address j : Text) (todo : Map Text Text) (pr : PeerRegistry)
    → lookup j (evict name address todo pr).metadata
      ≡ (if evicted name address j todo then none else lookup j pr.metadata)
unfolding evict evicted remove_peer
evict-metadata name address j [] pr = refl
evict-metadata name address j ((k, a) ∷ rest) pr =
    elim (Bool-cases (a == address && not (k == name))) [
      | inl goes ↦ ground (
        arith,
        goes,
        ==_iff k j,
        lookup-delete k j pr.metadata,
        evict-metadata name address j rest (remove_peer k pr),
      )
      | inr stays ↦ ground (arith, stays, evict-metadata name address j rest pr)
    ]

pub evicted-sharing :
    (name address j : Text) (m : Map Text Text)
    → lookup j m ≡ some address
    → (j ≡ name → ⊥)
    → evicted name address j m ≡ true
unfolding evicted lookup
evicted-sharing name address j [] h different = ground arith
evicted-sharing name address j ((k, a) ∷ m) h different =
    ground (arith, ==_iff k j, ==_iff a address, ==_iff k name, evicted-sharing name address j m)

pub evicted-name : (name address : Text) (m : Map Text Text) → evicted name address name m ≡ false
unfolding evicted
evicted-name name address [] = refl
evicted-name name address ((k, a) ∷ m) = ground (arith, ==_iff k name, evicted-name name address m)

abbrev pub Sound : PeerRegistry → Type 0
Sound pr = Paired pr × Unshared pr.nodes

pub remove_peer-Sound : (name : Text) (pr : PeerRegistry) → Sound pr → Sound (remove_peer name pr)
unfolding remove_peer
remove_peer-Sound name pr (paired, unshared) = (
  λ k. ground (
    arith,
    ==_iff name k,
    lookup-delete name k pr.nodes,
    lookup-delete name k pr.metadata,
    paired k,
  ),
  λ j k a hj hk. ground (
    arith,
    ==_iff name j,
    ==_iff name k,
    lookup-delete name j pr.nodes,
    lookup-delete name k pr.nodes,
    unshared j k a,
  ),
)

pub evict-Sound :
    (name address : Text) (todo : Map Text Text) (pr : PeerRegistry)
    → Sound pr
    → Sound (evict name address todo pr)
unfolding evict
evict-Sound name address [] pr sound = sound
evict-Sound name address ((k, a) ∷ rest) pr sound =
    elim (Bool-cases (a == address && not (k == name))) [
      | inl goes ↦
          rw (goes, evict)
            (evict-Sound name address rest (remove_peer k pr) (remove_peer-Sound k pr sound))
      | inr stays ↦ rw (stays, evict) (evict-Sound name address rest pr sound)
    ]

pub clear_loop-Sound :
    (todo : Map Text PeerMeta) (pr : PeerRegistry) → Sound pr → Sound (clear_loop todo pr)
unfolding clear_loop
clear_loop-Sound [] pr sound = sound
clear_loop-Sound ((k, meta) ∷ rest) pr sound = elim (Bool-cases (meta.source == "mdns")) [
  | inl goes ↦
      rw (goes, clear_loop)
        (clear_loop-Sound rest (remove_peer k pr) (remove_peer-Sound k pr sound))
  | inr stays ↦ rw (stays, clear_loop) (clear_loop-Sound rest pr sound)
]

-- What AddPeer and AddCustomPeer have in common.
pub insert-Sound :
    (name address : Text) (meta : PeerMeta) (pr : PeerRegistry)
    → Sound pr
    → let kept = evict name address pr.nodes pr in
      Sound (record {
        nodes = insert name address kept.nodes;
        metadata = insert name meta kept.metadata;
      })
insert-Sound name address meta pr sound =
    let kept = evict name address pr.nodes pr in
    let (paired, unshared) = evict-Sound name address pr.nodes pr sound in
    (
      λ k. ground (
        arith,
        ==_iff name k,
        lookup-insert name k address kept.nodes,
        lookup-insert name k meta kept.metadata,
        paired k,
      ),
      λ j k a hj hk. ground (
        arith,
        ==_iff name j,
        ==_iff name k,
        lookup-insert name j address kept.nodes,
        lookup-insert name k address kept.nodes,
        unshared j k a,
        evict-nodes name address j pr.nodes pr,
        evict-nodes name address k pr.nodes pr,
        evicted-sharing name address j pr.nodes,
        evicted-sharing name address k pr.nodes,
      ),
    )

-- New metadata for a name that has some.
pub update-Sound :
    (name : Text) (old meta : PeerMeta) (pr : PeerRegistry)
    → lookup name pr.metadata ≡ some old
    → Sound pr
    → Sound (record pr { metadata = insert name meta pr.metadata })
update-Sound name old meta pr known (paired, unshared) = (
  λ k. ground (arith, ==_iff name k, lookup-insert name k meta pr.metadata, paired k, known),
  unshared,
)

pub update_arch-Sound :
    (name arch : Text) (pr : PeerRegistry) → Sound pr → Sound (update_arch name arch pr)
unfolding update_arch
update_arch-Sound name arch pr sound = elim (Option-cases (lookup name pr.metadata)) [
  | inl none_ ↦ rw (none_, update_arch) sound
  | inr (meta, known) ↦
      rw (known, update_arch) (update-Sound name meta (record meta { arch = arch }) pr known sound)
]

pub record_ping-Sound :
    (now : ℕ) (name : Text) (dialed : Bool) (pr : PeerRegistry)
    → Sound pr
    → Sound (record_ping now name dialed pr).0
unfolding record_ping
record_ping-Sound now name true pr sound = elim (Option-cases (lookup name pr.metadata)) [
  | inl none_ ↦ rw (none_, record_ping) sound
  | inr (meta, known) ↦
      rw (known, record_ping)
        (update-Sound name meta (record meta { status = "reachable" }) pr known sound)
]
record_ping-Sound now name false pr sound = elim (Option-cases (lookup name pr.metadata)) [
  | inl none_ ↦ rw (none_, record_ping) sound
  | inr (meta, known) ↦
      rw (known, record_ping)
        (update-Sound name meta (record meta { status = "unreachable" }) pr known sound)
]

pub apply-Sound : (o : Operation) (pr : PeerRegistry) → Sound pr → Sound (apply o pr)
unfolding apply add_peer add_custom_peer remove_peer clear_mdns_peers update_arch record_ping
apply-Sound (adds now name address fingerprint) pr sound = insert-Sound name address _ pr sound
apply-Sound (adds_custom now name address source) pr sound = insert-Sound name address _ pr sound
apply-Sound (removes name) pr sound = remove_peer-Sound name pr sound
apply-Sound clears pr sound = clear_loop-Sound pr.metadata pr sound
apply-Sound (detects name arch) pr sound = update_arch-Sound name arch pr sound
apply-Sound (pings now name dialed) pr sound = record_ping-Sound now name dialed pr sound

pub run-Sound : (os : List Operation) (pr : PeerRegistry) → Sound pr → Sound (run os pr)
unfolding run
run-Sound [] pr sound = sound
run-Sound (o ∷ os) pr sound = run-Sound os (apply o pr) (apply-Sound o pr sound)

-- Whatever sequence of locked sections the goroutines run from an empty registry, in whatever
-- order, a name has an address exactly if it has metadata, and no two names have one address.
pub registry_sound :
    (os : List Operation)
    → Paired (run os new_peer_registry) × Unshared (run os new_peer_registry).nodes
unfolding lookup
registry_sound os = run-Sound os new_peer_registry (λ k. refl, λ j k a hj hk. ground arith)
