-- ===== src/Api/Peers/Manual.antt =====
-- internal/api/handlers/peers.go: two peers that the user adds within one second.
use baleen_engine.Base.{
  ℕ, Bool, true, false, none, some, Text, ◌==◌, ==_iff, ==_self, if◌then◌else◌, text_eq, ◌≡◌, arith,
  Bool-cases, Option-cases, inl, inr, String,
}
use baleen_engine.Base.Map.{lookup, lookup-insert}
use baleen_engine.Network.Peers.{PeerRegistry, evict, add_custom_peer}
use baleen_engine.Network.Peers.Invariant.{evicted, evict-nodes, evicted-sharing}
use baleen_engine.Api.Peers.{manual_name, post_peer}

add_custom-nodes :
    (now : ℕ) (name address j : Text) (source : String) (pr : PeerRegistry)
    → lookup j (add_custom_peer now name address source pr).nodes ≡ (
        if name == j
        then some address
        else if evicted name address j pr.nodes
        then none
        else lookup j pr.nodes)
unfolding add_custom_peer
add_custom-nodes now name address j source pr = ground (
  arith,
  lookup-insert name j address (evict name address pr.nodes pr).nodes,
  evict-nodes name address j pr.nodes pr,
)

-- An address that a peer has just been given is that of no other peer.
add_custom_alone :
    (now : ℕ) (name address j : Text) (source : String) (pr : PeerRegistry)
    → (name == j) ≡ false
    → lookup j (add_custom_peer now name address source pr).nodes ≡ some address
    → ⊥
add_custom_alone now name address j source pr other h = elim (Option-cases (lookup j pr.nodes)) [
  | inl absent ↦ ground (arith, add_custom-nodes now name address j source pr, absent, other, h)
  | inr (x, found) ↦ ground (
    arith,
    add_custom-nodes now name address j source pr,
    found,
    other,
    h,
    ==_iff name j,
    evicted-sharing name address j pr.nodes,
  )
]

-- The next peer, of another address, does not bring it back.
add_custom_lost :
    (now : ℕ) (name a b j : Text) (source : String) (pr : PeerRegistry)
    → (a == b) ≡ false
    → lookup j (add_custom_peer now name b source (add_custom_peer now name a source pr)).nodes
      ≡ some a
    → ⊥
add_custom_lost now name a b j source pr apart h =
    let first = add_custom_peer now name a source pr in
    let now_ = add_custom-nodes now name b j source first in
    elim (Bool-cases (name == j)) [
      | inl same ↦ ground (arith, now_, same, h, ==_iff a b, apart)
      | inr other ↦ ground (arith, now_, other, h, add_custom_alone now name a j source pr other)
    ]

-- Two different addresses that the user adds within one second are both answered with 201, but they
-- share the name that is made of the second: the second address takes the place of the first, which
-- no peer has any more.
pub same_second_replaces :
    (splits : Text → Bool) (now : ℕ) (a b : Text) (pr : PeerRegistry)
    → splits a ≡ true
    → splits b ≡ true
    → (a == b) ≡ false
    → let first = post_peer splits now a pr in
      let second = post_peer splits now b first.0 in
      (first.1 ≡ 201)
      × (second.1 ≡ 201)
      × (lookup (manual_name now) first.0.nodes ≡ some a)
      × (lookup (manual_name now) second.0.nodes ≡ some b)
      × ((j : Text) → lookup j second.0.nodes ≡ some a → ⊥)
unfolding post_peer
same_second_replaces splits now a b pr ok_a ok_b apart = (
  ground (arith, ok_a),
  ground (arith, ok_b),
  ground (
    arith,
    ok_a,
    ==_self (manual_name now),
    add_custom-nodes now (manual_name now) a (manual_name now) "manual" pr,
  ),
  ground (
    arith,
    ok_a,
    ok_b,
    ==_self (manual_name now),
    add_custom-nodes now (manual_name now) b (manual_name now) "manual"
        (add_custom_peer now (manual_name now) a "manual" pr),
  ),
  λ j h.
      add_custom_lost now (manual_name now) a b j "manual" pr apart (ground (arith, ok_a, ok_b, h)),
)
