-- ===== src/Api/Peers.antt =====
-- internal/api/handlers/peers.go: the list of the peers, and the ones that the user adds and removes.
pub mod Manual
use baleen_engine.Base.{
  ℕ, Bool, true, false, not, ◌&&◌, Option, none, some, List, [], ◌∷◌, ◌++◌, String, Text, text,
  ◌==◌, if◌then◌else◌, text_eq, string_eq, text_lt, trim_prefix,
}
use baleen_engine.Base.Map.{Map}
use baleen_engine.Base.Sort.{sort}
use baleen_engine.Base.Decimal.{decimal}
use baleen_engine.Network.Peers.{
  PeerRegistry, ApiNode, add_custom_peer, remove_peer, get_detailed_peers,
}

-- PeerResponse
pub record PeerResponse : Type 0 where
  pub hostname : Text
  pub node : ApiNode

-- The loop over the nodes.
unfoldable pub responses : Map Text ApiNode → List PeerResponse
responses [] = []
responses ((name, node) ∷ rest) = record { hostname = name; node = node } ∷ responses rest

-- The order of sort.Slice.
unfoldable pub response_less : PeerResponse → PeerResponse → Bool
response_less a b =
    if not (a.node.meta.status == b.node.meta.status)
    then a.node.meta.status == "reachable"
    else text_lt a.hostname b.hostname

-- GET
unfoldable pub get_peers : ℕ → PeerRegistry → List PeerResponse
unfolding responses response_less
get_peers now pr = sort response_less (responses (get_detailed_peers now pr))

-- fmt.Sprintf("manual-%d", time.Now().Unix())
unfoldable pub manual_name : ℕ → Text
manual_name now = text "manual-" ++ decimal now

-- POST, by whether net.SplitHostPort accepts an address: 201 or 400
unfoldable pub post_peer : (Text → Bool) → ℕ → Text → PeerRegistry → PeerRegistry × ℕ
unfolding manual_name
post_peer splits now address pr =
    if splits address
    then (add_custom_peer now (manual_name now) address "manual" pr, 201)
    else (pr, 400)

-- DELETE, by the path of the request: 200 or 400
unfoldable pub delete_peer : Text → PeerRegistry → PeerRegistry × ℕ
delete_peer path pr =
    let name = trim_prefix path (text "/api/peers/") in
    if name == [] then (pr, 400) else (remove_peer name pr, 200)
