-- ===== src/Network/Broadcast.antt =====
-- internal/network/mdns_broadcaster.go, the loop of DiscoverPeers of mdns_discovery.go, and
-- DetectRemoteArch of helpers.go. zeroconf and the HTTP client are arguments.
use baleen_engine.Base.{
  Bool, true, false, not, ◌&&◌, Option, none, some, List, [], ◌∷◌, ◌++◌, Text, text, ◌==◌,
  if◌then◌else◌, text_eq, trim_space, ◌≡◌, refl, arith,
}

-- One tick of StartBroadcaster: whether the service is registered after it, by the flag and by
-- whether zeroconf.Register succeeds.
unfoldable pub broadcast_tick : Bool → Bool → Bool → Bool
broadcast_tick enabled registers server =
    if enabled && not server then registers else if not enabled && server then false else server

unfoldable pub broadcast_run : List (Bool × Bool) → Bool → Bool
unfolding broadcast_tick
broadcast_run [] server = server
broadcast_run ((enabled, registers) ∷ ticks) server =
    broadcast_run ticks (broadcast_tick enabled registers server)

pub data Turn : Type 0 where
  -- waits 500 ms for the flag, waits 2 s for a resolver, or browses
  disabled retries browses : Turn

-- One turn of DiscoverPeers: whether there is a resolver after it, and what it does.
unfoldable pub discover_turn : Bool → Bool → Bool → Bool × Turn
discover_turn enabled makes resolver =
    if not enabled
    then (false, disabled)
    else if resolver
    then (true, browses)
    else if makes
    then (true, browses)
    else (false, retries)

-- DetectRemoteArch, by the body of the answer, if there is one that can be read
unfoldable pub detect_remote_arch : Option Text → Text
detect_remote_arch none = text "linux/amd64"
detect_remote_arch (some body) = if body == [] then text "linux/amd64" else trim_space body

-- The /status of the metadata server.
unfoldable pub metadata_status : Option Bool → Text
metadata_status none = text "broadcasting"
metadata_status (some enabled) = if not enabled then text "hidden" else text "broadcasting"

broadcast_run-append :
    (before after : List (Bool × Bool)) (server : Bool)
    → broadcast_run (before ++ after) server ≡ broadcast_run after (broadcast_run before server)
unfolding broadcast_run
broadcast_run-append [] after server = refl
broadcast_run-append ((enabled, registers) ∷ before) after server =
    broadcast_run-append before after (broadcast_tick enabled registers server)

-- Whatever the ticks before did, after one tick on which zeroconf registers if it is asked to the
-- service is registered just when broadcasting is enabled, and it stays so while the flag does.
pub broadcast_follows :
    (before : List (Bool × Bool)) (enabled server : Bool)
    → let once = broadcast_run (before ++ (enabled, true) ∷ []) server in
      (once ≡ enabled) × (broadcast_tick enabled false once ≡ enabled)
unfolding broadcast_run
broadcast_follows before enabled server =
    let split = broadcast_run-append before ((enabled, true) ∷ []) server in
    (ground (arith, split), ground (arith, split))
