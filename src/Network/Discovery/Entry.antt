-- ===== src/Network/Discovery/Entry.antt =====
-- internal/network/mdns_discovery.go: which peers an announcement adds.
use baleen_engine.Base.{
  ℕ, Bool, true, some, List, [], ◌∷◌, Text, ◌==◌, ==_iff, elem, text_eq, string_eq, ◌≡◌, arith, ◌⊎◌,
  inl, inr, Option-cases, Bool-cases,
}
use baleen_engine.Network.Peers.{PeerRegistry, add_peer}
use baleen_engine.Network.Discovery.{
  ServiceEntry, unescape, first_reachable, first_address, valid_address, entry_fingerprint,
  handle_entry,
}

first_reachable-elem :
    (dials : Text → Bool) (addresses : List Text) (a : Text)
    → first_reachable dials addresses ≡ some a
    → elem a addresses ≡ true
unfolding first_reachable elem
first_reachable-elem dials [] a h = ground arith
first_reachable-elem dials (b ∷ rest) a h =
    ground (arith, h, ==_iff b a, Bool-cases (dials b), first_reachable-elem dials rest a)

first_address-elem :
    (addresses : List Text) (a : Text) → first_address addresses ≡ some a → elem a addresses ≡ true
unfolding first_address elem
first_address-elem [] a h = ground arith
first_address-elem (b ∷ rest) a h = ground (arith, h, ==_iff b a)

valid_address-elem :
    (dials : Text → Bool) (addresses : List Text) (a : Text)
    → valid_address dials addresses ≡ some a
    → elem a addresses ≡ true
unfolding valid_address
valid_address-elem dials addresses a h = elim (Option-cases (first_reachable dials addresses)) [
  | inl absent ↦ first_address-elem addresses a (ground (arith, h, absent))
  | inr (b, found) ↦ first_reachable-elem dials addresses a (ground (arith, h, found))
]

-- An announcement leaves the registry as it was, or adds the peer it names, which is not this node,
-- at one of the addresses it gives and with a fingerprint that is not empty.
pub handle_entry_cases :
    (enabled : Bool) (node : Text) (now : ℕ) (dials : Text → Bool) (entry : ServiceEntry)
    (pr : PeerRegistry)
    → (handle_entry enabled node now dials entry pr ≡ pr)
      ⊎ ((address : Text) × (handle_entry enabled node now dials entry pr
            ≡ (add_peer now
                (unescape entry.instance_name)
                address
                (entry_fingerprint entry.texts)
                pr).0)
          × (elem address entry.addresses ≡ true)
          × (unescape entry.instance_name ≡ node → ⊥)
          × (entry_fingerprint entry.texts ≡ [] → ⊥))
unfolding handle_entry
handle_entry_cases enabled node now dials entry pr = elim (Bool-cases enabled) [
  | inr off ↦ inl (ground (arith, off))
  | inl on ↦ elim (Bool-cases (unescape entry.instance_name == node)) [
    | inl self ↦ inl (ground (arith, on, self))
    | inr other ↦ elim (Option-cases (valid_address dials entry.addresses)) [
      | inl absent ↦ inl (ground (arith, on, other, absent))
      | inr (address, found) ↦ elim (Bool-cases (entry_fingerprint entry.texts == [])) [
        | inl bare ↦ inl (ground (arith, on, other, found, bare))
        | inr pinned ↦ inr (
          address,
          ground (arith, on, other, found, pinned),
          valid_address-elem dials entry.addresses address found,
          (λ e. ground (arith, other, ==_iff (unescape entry.instance_name) node)),
          (λ e. ground (arith, pinned, ==_iff (entry_fingerprint entry.texts) [])),
        )
      ]
    ]
  ]
]
