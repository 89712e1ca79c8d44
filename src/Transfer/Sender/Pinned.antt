-- ===== src/Transfer/Sender/Pinned.antt =====
-- internal/transfer/sender.go: to whom a push talks, and what it has sent when it succeeds.
use baleen_engine.Base.{
  ℕ, true, false, none, List, [], ◌∷◌, Text, ==_iff, Result, ok, err, text_eq, ◌≡◌, refl, arith,
  Result-cases, Bool-cases, inl, inr, ◌⊎◌,
}
use baleen_engine.Base.Map.{lookup}
use baleen_engine.Network.Peers.{PeerRegistry, get_detailed_peers}
use baleen_engine.Network.Address.{resolve_target_address, unlisted_has_no_fingerprint}
use baleen_engine.Transfer.Archive.{Tarball}
use baleen_engine.Transfer.Prune.{prune_tarball}
use baleen_engine.Transfer.Receiver.{TransferRequest}
use baleen_engine.Transfer.Sender.{
  Push, publishes, requests, announces, streams, inspect_tarball, verify_peer_certificate, dial,
  dial_receiver, negotiate, prune_and_hash, stream_file, stream_payload, prune_and_stream, offer,
  push_image,
}

-- The node at the other end has the pinned certificate.
abbrev pub Pinned : (Text → Text) → Text → Result (List Text) → Type 0
Pinned sha fingerprint certificates =
    (cert : Text) × ((certs : List Text) × (certificates ≡ ok (cert ∷ certs)))
    × (sha cert ≡ fingerprint)

dial-Pinned :
    (sha : Text → Text) (fingerprint : Text) (certificates : Result (List Text))
    → dial sha fingerprint certificates ≡ ok tt
    → Pinned sha fingerprint certificates
unfolding dial verify_peer_certificate
dial-Pinned sha fingerprint (err e) h = ground arith
dial-Pinned sha fingerprint (ok []) h = ground arith
dial-Pinned sha fingerprint (ok (cert ∷ certs)) h =
    (cert, (certs, refl), ground (arith, ==_iff (sha cert) fingerprint))

dial_receiver-Pinned :
    (sha : Text → Text) (address fingerprint : Text) (certificates : Result (List Text))
    → dial_receiver sha address fingerprint certificates ≡ ok tt
    → (fingerprint ≡ [] → ⊥) × Pinned sha fingerprint certificates
unfolding dial_receiver
dial_receiver-Pinned sha address fingerprint certificates h = (
  λ e. ground (arith, ==_iff fingerprint []),
  dial-Pinned sha fingerprint certificates
      (elim (Result-cases (dial sha fingerprint certificates)) [
        | inl (u, good) ↦ good
        | inr (e, bad) ↦ ground (arith, h, bad)
      ]),
)

-- A push that shows or sends anything, or that succeeds, has a fingerprint to go by, and the first
-- certificate of the node at the address has that fingerprint.
pub push_is_Pinned :
    (sha : Text → Text) (address fingerprint : Text) (request : List Text → TransferRequest)
    (p : Push)
    → (((push_image sha address fingerprint request p).0 ≡ [])
        × ((e : Text) × ((push_image sha address fingerprint request p).1 ≡ err e)))
      ⊎ ((fingerprint ≡ [] → ⊥) × Pinned sha fingerprint p.certificates)
unfolding push_image
push_is_Pinned sha address fingerprint request p = elim (Result-cases (inspect_tarball p)) [
  | inr (e, bad) ↦ inl (ground (arith, bad), (e, ground (arith, bad)))
  | inl (layers, inspected) ↦
      elim (Result-cases (dial_receiver sha address fingerprint p.certificates)) [
        | inr (e, bad) ↦ inl (ground (arith, inspected, bad), (e, ground (arith, inspected, bad)))
        | inl (u, good) ↦ inr (dial_receiver-Pinned sha address fingerprint p.certificates good)
      ]
]

-- A push to a name that the registry does not list, such as an address that the user typed, sends
-- nothing and returns an error, whatever node answers at the address.
pub unlisted_is_refused :
    (now : ℕ) (registry : PeerRegistry) (peer : Text) (sha : Text → Text) (address : Text)
    (request : List Text → TransferRequest) (p : Push)
    → lookup peer (get_detailed_peers now registry) ≡ none
    → let target = resolve_target_address now registry peer in
      ((push_image sha address target.fingerprint request p).0 ≡ [])
      × ((e : Text) × ((push_image sha address target.fingerprint request p).1 ≡ err e))
unlisted_is_refused now registry peer sha address request p absent =
    elim (push_is_Pinned sha address (resolve_target_address now registry peer).fingerprint request
      p) [
        | inl refused ↦ refused
        | inr (some_, pinned) ↦
            ground (arith, some_ (unlisted_has_no_fingerprint now registry peer absent))
      ]

stream_payload-ok :
    (p : Push) (pruned : Tarball) (hash : Text)
    → (stream_payload p pruned hash).1 ≡ ok tt
    → ((stream_payload p pruned hash).0
        ≡ announces (record { pruned_hash = hash })
          ∷ (streams pruned ∷ (publishes "completed" ∷ [])))
      × (p.canceled ≡ false)
unfolding stream_payload stream_file
stream_payload-ok p pruned hash h = ground (arith, h)

prune_and_stream-ok :
    (p : Push) (layers missing : List Text)
    → (prune_and_stream p layers missing).1 ≡ ok tt
    → (pruned : Tarball) × ((hash : Text) × (prune_tarball p.file p.disk layers missing ≡ ok pruned)
        × (p.pruned_hash ≡ ok hash)
        × (p.canceled ≡ false)
        × ((prune_and_stream p layers missing).0
            ≡ publishes "pruning"
              ∷ (announces (record { pruned_hash = hash })
                  ∷ (streams pruned ∷ (publishes "completed" ∷ [])))))
unfolding prune_and_stream prune_and_hash
prune_and_stream-ok p layers missing h =
    elim (Result-cases (prune_tarball p.file p.disk layers missing)) [
      | inr (e, bad) ↦ ground (arith, h, bad)
      | inl (pruned, cut) ↦ elim (Result-cases p.pruned_hash) [
        | inr (e, bad) ↦ ground (arith, h, cut, bad)
        | inl (hash, hashed) ↦ (
          pruned,
          (
            hash,
            cut,
            hashed,
            ground (arith, h, cut, hashed, stream_payload-ok p pruned hash),
            ground (arith, h, cut, hashed, stream_payload-ok p pruned hash),
          ),
        )
      ]
    ]

-- A push that returns no error was approved, was not canceled, and has sent the request, the header
-- with the pruned file's hash and the tarball pruned to the layers that the peer asked for, in that
-- order; "completed" is the last status it shows.
pub push_succeeds :
    (p : Push) (layers : List Text) (req : TransferRequest)
    → (offer p layers req).1 ≡ ok tt
    → (missing : List Text) × ((pruned : Tarball) × ((hash : Text) × (p.response
            ≡ ok (record { approved = true; missing_layers = missing }))
          × (prune_tarball p.file p.disk layers missing ≡ ok pruned)
          × (p.pruned_hash ≡ ok hash)
          × (p.canceled ≡ false)
          × ((offer p layers req).0
              ≡ publishes "waiting for approval"
                ∷ (requests req
                    ∷ (publishes "pruning"
                        ∷ (announces (record { pruned_hash = hash })
                            ∷ (streams pruned ∷ (publishes "completed" ∷ []))))))))
unfolding offer negotiate
push_succeeds p layers req h = elim (Result-cases p.sent) [
  | inr (e, bad) ↦ ground (arith, h, bad)
  | inl (u, sent) ↦ elim (Result-cases p.response) [
    | inr (e, bad) ↦ ground (arith, h, sent, bad)
    | inl (response, answered) ↦ elim (Bool-cases response.approved) [
      | inr rejected ↦ ground (arith, h, sent, answered, rejected)
      | inl approved ↦
          let (pruned, (hash, cut, hashed, live, events)) =
            prune_and_stream-ok p layers response.missing_layers
              (ground (arith, h, sent, answered, approved)) in
          (
            response.missing_layers,
            (
              pruned,
              (
                hash,
                ground (arith, answered, approved),
                cut,
                hashed,
                live,
                ground (arith, sent, answered, approved, events),
              ),
            ),
          )
    ]
  ]
]
