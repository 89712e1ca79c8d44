-- ===== src/Network/Address.antt =====
-- internal/network/helpers.go: from a peer's name, or an address that the user typed, to the target
-- of a connection; and BALEEN_PEERS of peer_registry.go, which lists addresses.
use baleen_engine.Base.{
  ℕ, ◌+◌, Bool, true, false, Option, none, some, List, [], ◌∷◌, ◌++◌, Text, ◌==◌, if◌then◌else◌,
  cut, split, trim_space, text_eq, nat_eq, ltb, ◌≡◌, arith, Option-cases, inl, inr, string_eq, ◌⊎◌,
  Bool-cases,
}
use baleen_engine.Base.Int.{ℤ, pos, negsuc}
use baleen_engine.Base.Map.{lookup}
use baleen_engine.Base.Decimal.{scan_d}
use baleen_engine.Network.Peers.{PeerRegistry, ApiNode, add_custom_peer, get_detailed_peers}

pub data AddressError : Type 0 where
  invalid_port no_port : AddressError

-- The named results of ResolveTargetAddress.
pub record Target : Type 0 where
  pub ip : Text
  pub port : ℤ
  pub fingerprint : Text
  pub error : Option AddressError

-- port > 0
unfoldable pub positive : ℤ → Bool
positive (pos n) = ltb 0 n
positive (negsuc n) = false

-- The branch for an address with a colon, by its two parts.
unfoldable pub with_port : Text → Text → Text → Target
unfolding positive
with_port host rest fingerprint = elim (scan_d rest) [
  | none ↦ record { ip = host; port = pos 0; fingerprint = fingerprint; error = some invalid_port }
  | some n ↦ record {
    ip = host;
    port = n;
    fingerprint = fingerprint;
    error = if positive n then none else some invalid_port;
  }
]

unfoldable pub parse_address : Text → Text → Target
unfolding with_port
parse_address address fingerprint = elim (cut b':' address) [
  | none ↦ record { ip = address; port = pos 0; fingerprint = fingerprint; error = some no_port }
  | some (host, rest) ↦ with_port host rest fingerprint
]

-- ResolveTargetAddress
unfoldable pub resolve_target_address : ℕ → PeerRegistry → Text → Target
unfolding parse_address
resolve_target_address now registry peer = elim (lookup peer (get_detailed_peers now registry)) [
  | none ↦ parse_address peer []
  | some node ↦ parse_address node.address node.meta.fingerprint
]

-- The loop of LoadStaticPeers; `i` is the index from 1, and `name_of` is Sprintf("static-peer-%d").
unfoldable pub load_loop : (ℕ → Text) → ℕ → ℕ → List Text → PeerRegistry → PeerRegistry
load_loop name_of now i [] pr = pr
load_loop name_of now i (ip ∷ ips) pr = load_loop name_of now (i + 1) ips (
    if trim_space ip == [] then pr else add_custom_peer now (name_of i) (trim_space ip) "static" pr)

-- LoadStaticPeers, by the value of BALEEN_PEERS
unfoldable pub load_static_peers : (ℕ → Text) → ℕ → Text → PeerRegistry → PeerRegistry
unfolding load_loop
load_static_peers name_of now env_peers pr =
    let (first, rest) = split b',' env_peers in
    if env_peers == [] then pr else load_loop name_of now 1 (first ∷ rest) pr

-- strings.SplitN at the first separator loses nothing but the separator.
pub cut-joined : (sep : ℕ) (s a b : Text) → cut sep s ≡ some (a, b) → s ≡ a ++ sep ∷ b
unfolding cut
cut-joined sep [] a b h = ground arith
cut-joined sep (c ∷ s) a b h = elim (Option-cases (cut sep s)) [
  | inl absent ↦ ground (arith, h, absent)
  | inr ((before, after), found) ↦ ground (arith, h, found, cut-joined sep s before after found)
]

-- What is known of a target without an error.
abbrev pub Valid : Text → Target → Type 0
Valid address target =
    (rest : Text) × (address ≡ target.ip ++ b':' ∷ rest)
    × (scan_d rest ≡ some target.port)
    × (positive target.port ≡ true)

with_port-Valid :
    (host rest fingerprint : Text)
    → (with_port host rest fingerprint).error ≡ none
    → Valid (host ++ b':' ∷ rest) (with_port host rest fingerprint)
unfolding with_port
with_port-Valid host rest fingerprint h = elim (Option-cases (scan_d rest)) [
  | inl absent ↦ ground (arith, h, absent)
  | inr (n, found) ↦ (
    rest,
    ground (arith, h, found),
    ground (arith, h, found),
    ground (arith, h, found, Bool-cases (positive n)),
  )
]

parse_address-Valid :
    (address fingerprint : Text)
    → (parse_address address fingerprint).error ≡ none
    → Valid address (parse_address address fingerprint)
unfolding parse_address
parse_address-Valid address fingerprint h = elim (Option-cases (cut b':' address)) [
  | inl absent ↦ ground (arith, h, absent)
  | inr ((host, rest), found) ↦
      let (left, joined, scanned, above) =
        with_port-Valid host rest fingerprint (ground (arith, h, found)) in
      (
        left,
        ground (arith, found, joined, cut-joined b':' address host rest found),
        ground (arith, found, scanned),
        ground (arith, found, above),
      )
]

with_port-fingerprint :
    (host rest fingerprint : Text) → (with_port host rest fingerprint).fingerprint ≡ fingerprint
unfolding with_port
with_port-fingerprint host rest fingerprint = ground arith

parse_address-fingerprint :
    (address fingerprint : Text) → (parse_address address fingerprint).fingerprint ≡ fingerprint
unfolding parse_address
parse_address-fingerprint address fingerprint = elim (Option-cases (cut b':' address)) [
  | inl absent ↦ ground (arith, absent)
  | inr ((host, rest), found) ↦ ground (arith, found, with_port-fingerprint host rest fingerprint)
]

-- Where ResolveTargetAddress reports no error, the address reads host, colon and a number greater
-- than 0 at the start of the rest, and host and number are the target. The address and the
-- fingerprint are those of the registry for a name it lists; any other name is itself the address,
-- and has no fingerprint.
pub resolve_target-Valid :
    (now : ℕ) (registry : PeerRegistry) (peer : Text)
    → (resolve_target_address now registry peer).error ≡ none
    → let target = resolve_target_address now registry peer in
      let listed = lookup peer (get_detailed_peers now registry) in
      ((listed ≡ none) × (target.fingerprint ≡ []) × Valid peer target)
      ⊎ ((node : ApiNode) × (listed ≡ some node)
          × (target.fingerprint ≡ node.meta.fingerprint)
          × Valid node.address target)
unfolding resolve_target_address
resolve_target-Valid now registry peer h =
    elim (Option-cases (lookup peer (get_detailed_peers now registry))) [
      | inl absent ↦ inl (
        absent,
        ground (arith, absent, parse_address-fingerprint peer []),
        rw (absent, resolve_target_address)
            (parse_address-Valid peer [] (ground (arith, h, absent))),
      )
      | inr (node, found) ↦ inr (
        node,
        found,
        ground (arith, found, parse_address-fingerprint node.address node.meta.fingerprint),
        rw (found, resolve_target_address)
            (parse_address-Valid node.address node.meta.fingerprint (ground (arith, h, found))),
      )
    ]

-- A name that the registry does not list, such as an address that the user typed, resolves to a
-- target without a fingerprint.
pub unlisted_has_no_fingerprint :
    (now : ℕ) (registry : PeerRegistry) (peer : Text)
    → lookup peer (get_detailed_peers now registry) ≡ none
    → (resolve_target_address now registry peer).fingerprint ≡ []
unfolding resolve_target_address
unlisted_has_no_fingerprint now registry peer absent =
    ground (arith, absent, parse_address-fingerprint peer [])
