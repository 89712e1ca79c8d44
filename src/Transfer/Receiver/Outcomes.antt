-- ===== src/Transfer/Receiver/Outcomes.antt =====
-- What one incoming transfer leaves behind.
use baleen_engine.Base.{
  ℕ, ◌+◌, suc, ◌≡◌, refl, true, ◌||◌, ◌⊎◌, none, some, List, [], ◌∷◌, ◌++◌, Text, ==_iff, arith,
  if◌then◌else◌, all, ok, text_eq, string_eq, Result-cases, Bool-cases, inl, inr,
}
use baleen_engine.Base.Map.{Map}
use baleen_engine.Ledger.Interface.{Bucket}
use baleen_engine.Ledger.{has_layer}
use baleen_engine.Transfer.Archive.{Body, Tarball}
use baleen_engine.Transfer.Partition.{partition_layers}
use baleen_engine.Transfer.Stitch.{stitch_tarball}
use baleen_engine.Transfer.Digest.{is_hex, is_digest}
use baleen_engine.Transfer.Status.{parse_error_to_status}
use baleen_engine.Transfer.Receiver.{
  Arrival, TransferRequest, StreamHeader, Event, publishes, records, replies, receive_and_approve,
  require, receive_stream, verify_hash, download_payload, reconstruct_tarball, accept, after_answer,
  after_approval, handle_incoming_transfer, Held, stops,
}

-- How many ledger commits stand among the events.
unfoldable pub commits : List Event → ℕ
commits [] = 0
commits (publishes s ∷ rest) = commits rest
commits (records s ∷ rest) = suc (commits rest)
commits (replies r ∷ rest) = commits rest

commits-append : (a b : List Event) → commits (a ++ b) ≡ commits a + commits b
unfolding commits
commits-append [] b = omega arith
commits-append (publishes s ∷ a) b = commits-append a b
commits-append (records s ∷ a) b = omega (arith, commits-append a b)
commits-append (replies r ∷ a) b = commits-append a b

commits-download : (a : Arrival) → commits (download_payload a).0 ≡ 0
unfolding download_payload verify_hash commits
commits-download a = elim (Result-cases (receive_stream a)) [
  | inr (e, broken) ↦ ground (arith, broken)
  | inl (expected, arrived) ↦ ground (arith, arrived)
]

commits-receive : (a : Arrival) → commits (receive_and_approve a).0 ≡ 0
unfolding receive_and_approve commits
commits-receive a = ground arith

approved_lem :
    (a : Arrival) → (receive_and_approve a).1 ≡ true → (a.auto_approve || a.decision) ≡ true
unfolding receive_and_approve
approved_lem a e = ground arith

-- A stream that ends well had a header with a hash, and the file has that hash.
download-verified :
    (a : Arrival)
    → (download_payload a).1 ≡ ok tt
    → (header : StreamHeader) × (a.header ≡ ok header)
      × (is_hex header.pruned_hash ≡ true)
      × (a.actual_hash ≡ ok header.pruned_hash)
unfolding download_payload receive_stream verify_hash require
download-verified a done = elim (Result-cases a.header) [
  | inr (e, no_header) ↦ ground (arith, no_header)
  | inl (header, is_header) ↦ elim (Result-cases a.actual_hash) [
    | inr (e, no_hash) ↦ ground (arith, is_header, no_hash)
    | inl (actual, is_actual) ↦ (
      header,
      is_header,
      ground (arith, is_header),
      ground (arith, is_header, is_actual, ==_iff actual header.pruned_hash),
    )
  ]
]

reconstruct-stitched :
    (a : Arrival) (req : TransferRequest) (cache : Map Text Body) (owned : List Text) (t : Tarball)
    → reconstruct_tarball a req cache owned ≡ ok t
    → stitch_tarball (some a.payload) a.disk cache req.layers owned ≡ ok t
unfolding reconstruct_tarball require
reconstruct-stitched a req cache owned t e =
    elim (Result-cases (stitch_tarball (some a.payload) a.disk cache req.layers owned)) [
      | inl (u, stitched) ↦ ground (arith, stitched)
      | inr (m, failed) ↦ ground (arith, failed)
    ]

module _ (K : Bucket (Unit {0})) where
  -- The three ends of the handler behind its answer.
  after_answer-cases :
      (a : Arrival) (req : TransferRequest) (missing owned : List Text) (held : Held K)
      (events : List Event)
      → ((e : Text) × (after_answer K a req missing owned held events
            ≡ stops K held (
                events
                ++ ((download_payload a).0
                    ++ (publishes "failed" ∷ (records (parse_error_to_status (some e)) ∷ []))))))
        ⊎ ((t : Tarball) × (after_answer K a req missing owned held events
              ≡ accept K a req missing held (events ++ (download_payload a).0) t)
            × ((download_payload a).1 ≡ ok tt)
            × (reconstruct_tarball a req held.0 owned ≡ ok t))
  unfolding after_answer
  after_answer-cases a req missing owned held events = elim (Result-cases (download_payload a).1) [
    | inr (e, failed) ↦ inl (e, ground (arith, failed))
    | inl (done, arrived) ↦ elim (Result-cases (reconstruct_tarball a req held.0 owned)) [
      | inr (e, failed) ↦ inl (e, ground (arith, arrived, failed))
      | inl (t, rebuilt) ↦ inr (t, ground (arith, arrived, rebuilt), arrived, rebuilt)
    ]
  ]

  commits-after_answer :
      (a : Arrival) (req : TransferRequest) (missing owned : List Text) (held : Held K)
      (events : List Event)
      → commits events ≡ 0
      → commits (after_answer K a req missing owned held events).events ≡ 1
  unfolding accept commits
  commits-after_answer a req missing owned held events none_yet =
      elim (after_answer-cases a req missing owned held events) [
        | inl (e, stopped) ↦ rw stopped (
            omega (
              arith,
              commits-append events (
                  (download_payload a).0
                  ++ (publishes "failed" ∷ (records (parse_error_to_status (some e)) ∷ []))),
              commits-append (download_payload a).0
                  (publishes "failed" ∷ (records (parse_error_to_status (some e)) ∷ [])),
              commits-download a,
            ))
        | inr (t, accepted, _, _) ↦ rw accepted (
            omega (
              arith,
              commits-append (events ++ (download_payload a).0) (records "Completed" ∷ []),
              commits-append events (download_payload a).0,
              commits-download a,
            ))
      ]

  commits-after_approval :
      (a : Arrival) (req : TransferRequest) (held : Held K) (events : List Event)
      → commits events ≡ 0
      → commits (after_approval K a req held events).events ≡ 1
  unfolding after_approval commits
  commits-after_approval a req held events none_yet =
      let (missing, owned) = partition_layers (has_layer K held.1) req.layers in
      let answer = replies (record { approved = true; missing_layers = missing }) in
      ground (
        arith,
        commits-append events (records "Failed" ∷ []),
        commits-append events (answer ∷ []),
        commits-after_answer a req missing owned held (events ++ answer ∷ []),
      )

  delivered-after_answer :
      (a : Arrival) (req : TransferRequest) (missing owned : List Text) (held : Held K)
      (events : List Event) (t : Tarball)
      → (after_answer K a req missing owned held events).delivered ≡ some t
      → ((download_payload a).1 ≡ ok tt) × (reconstruct_tarball a req held.0 owned ≡ ok t)
  unfolding accept
  delivered-after_answer a req missing owned held events t d =
      elim (after_answer-cases a req missing owned held events) [
        | inl (e, stopped) ↦ ground (arith, stopped)
        | inr (u, accepted, arrived, rebuilt) ↦ ground (arith, accepted, arrived, rebuilt)
      ]

  keeps-after_answer :
      (a : Arrival) (req : TransferRequest) (missing owned : List Text) (held : Held K)
      (events : List Event)
      → (after_answer K a req missing owned held events).delivered ≡ none
      → ((after_answer K a req missing owned held events).cache ≡ held.0)
        × ((after_answer K a req missing owned held events).known ≡ held.1)
  unfolding accept
  keeps-after_answer a req missing owned held events d =
      elim (after_answer-cases a req missing owned held events) [
        | inl (e, stopped) ↦ rw stopped (refl, refl)
        | inr (u, accepted, arrived, rebuilt) ↦ ground (arith, accepted)
      ]

  module _ (a : Arrival) (req : TransferRequest) (held : Held K) (events : List Event) where
    abbrev parts : List Text × List Text
    parts = partition_layers (has_layer K held.1) req.layers

    abbrev answered : List Event
    answered = events ++ replies (record { approved = true; missing_layers = parts.0 }) ∷ []

    delivered-after_approval :
        (t : Tarball)
        → (after_approval K a req held events).delivered ≡ some t
        → ((download_payload a).1 ≡ ok tt) × (reconstruct_tarball a req held.0 parts.1 ≡ ok t)
    unfolding after_approval
    delivered-after_approval t d =
        ground (arith, delivered-after_answer a req parts.0 parts.1 held answered t)

    keeps-after_approval :
        (after_approval K a req held events).delivered ≡ none
        → ((after_approval K a req held events).cache ≡ held.0)
          × ((after_approval K a req held events).known ≡ held.1)
    unfolding after_approval
    keeps-after_approval d = ground (arith, keeps-after_answer a req parts.0 parts.1 held answered)

  -- Every request with valid digests ends in exactly one commit of the ledger, on every path; a
  -- request with an invalid digest leaves none.
  pub handled_once :
      (a : Arrival) (req : TransferRequest) (held : Held K)
      → commits (handle_incoming_transfer K a req held).events
        ≡ (if all is_digest req.layers then 1 else 0)
  unfolding handle_incoming_transfer commits
  handled_once a req held = ground (
    arith,
    commits-receive a,
    commits-append (receive_and_approve a).0 (publishes "rejected" ∷ (records "Rejected" ∷ [])),
    commits-after_approval a req held (receive_and_approve a).0,
  )

  -- A tarball is handed over to Docker only if every digest is valid, the transfer was approved, the
  -- hash of the received file is the one that the header promised, and the tarball is that file with
  -- the cached layers stitched in.
  pub delivered_verified :
      (a : Arrival) (req : TransferRequest) (held : Held K) (t : Tarball)
      → (handle_incoming_transfer K a req held).delivered ≡ some t
      → (all is_digest req.layers ≡ true)
        × ((a.auto_approve || a.decision) ≡ true)
        × ((header : StreamHeader) × (a.header ≡ ok header)
            × (is_hex header.pruned_hash ≡ true)
            × (a.actual_hash ≡ ok header.pruned_hash))
        × (stitch_tarball
              (some a.payload)
              a.disk
              held.0
              req.layers
              (partition_layers (has_layer K held.1) req.layers).1
            ≡ ok t)
  unfolding handle_incoming_transfer
  delivered_verified a req held t d = elim (Bool-cases (all is_digest req.layers)) [
    | inr invalid ↦ ground (arith, invalid)
    | inl valid ↦ elim (Bool-cases (receive_and_approve a).1) [
      | inr refused ↦ ground (arith, valid, refused)
      | inl approved ↦
          let (arrived, rebuilt) =
            delivered-after_approval a req held (receive_and_approve a).0 t
              (ground (arith, valid, approved)) in
          (
            valid,
            approved_lem a approved,
            download-verified a arrived,
            reconstruct-stitched a req held.0 (partition_layers (has_layer K held.1) req.layers).1 t
                rebuilt,
          )
    ]
  ]

  -- Unless a tarball is handed over, the cache and the ledger's memory of layers stay as they were.
  pub undelivered_keeps :
      (a : Arrival) (req : TransferRequest) (held : Held K)
      → (handle_incoming_transfer K a req held).delivered ≡ none
      → ((handle_incoming_transfer K a req held).cache ≡ held.0)
        × ((handle_incoming_transfer K a req held).known ≡ held.1)
  unfolding handle_incoming_transfer accept
  undelivered_keeps a req held d =
      ground (arith, keeps-after_approval a req held (receive_and_approve a).0)
