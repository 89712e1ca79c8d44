-- ===== src/Transfer/Sender.antt =====
-- internal/transfer/sender.go: one push, from the exported tarball to the last byte of the pruned
-- one. What the network, the disk and the peer answer is a `Push`; what PushImage sends and shows is
-- a list of events, in order. The control signals that arrive during the stream are Progress's.
pub mod Pinned
use baleen_engine.Base.{
  ℕ, Bool, true, false, not, ◌&&◌, Option, none, some, List, [], ◌∷◌, ◌++◌, String, Text, text,
  ◌==◌, if◌then◌else◌, Result, ok, err, ◌>>=◌, ◌>>◌, wrap, text_eq,
}
use baleen_engine.Transfer.Archive.{Tarball, get_layers_from_tarball}
use baleen_engine.Transfer.Prune.{Disk, prune_tarball}
use baleen_engine.Transfer.Receiver.{TransferRequest, TransferResponse, StreamHeader}

pub record Push : Type 0 where
  -- os.Stat, and the tarball
  pub info : Result (Unit {0})
  pub file : Option Tarball
  -- the certificates that the node at the address presents, if it answers
  pub certificates : Result (List Text)
  -- Encode and Decode of the negotiation
  pub sent : Result (Unit {0})
  pub response : Result TransferResponse
  -- the pruned file: its disk, its hash, os.Stat, Encode of the header, os.Open
  pub disk : Disk
  pub pruned_hash : Result Text
  pub pruned_info : Result (Unit {0})
  pub header_sent : Result (Unit {0})
  pub opened : Result (Unit {0})
  -- io.Copy, and pw.canceled behind it
  pub copied : Result (Unit {0})
  pub canceled : Bool

-- inspectTarball without the size: an error of getLayersFromTarball is only logged.
unfoldable pub inspect_tarball : Push → Result (List Text)
inspect_tarball p = do
  _ ← wrap "failed to get file info: " p.info
  ok (elim (get_layers_from_tarball p.file) [ err e ↦ [] | ok layers ↦ layers ])

-- VerifyPeerCertificate; `sha` is the hash of a certificate, in hexadecimal
unfoldable pub verify_peer_certificate : (Text → Text) → Text → List Text → Result (Unit {0})
verify_peer_certificate sha expected [] = err (text "no certificate presented by server")
verify_peer_certificate sha expected (cert ∷ certs) =
    if sha cert == expected
    then ok tt
    else err (
        text "TLS certificate fingerprint mismatch! Expected "
        ++ (expected ++ (text ", got " ++ sha cert)))

-- tls.Dial, which asks VerifyPeerCertificate
unfoldable pub dial : (Text → Text) → Text → Result (List Text) → Result (Unit {0})
dial sha expected certificates = do certs ← certificates; verify_peer_certificate sha expected certs

-- dialReceiver
unfoldable pub dial_receiver : (Text → Text) → Text → Text → Result (List Text) → Result (Unit {0})
unfolding dial verify_peer_certificate
dial_receiver sha address expected certificates =
    if expected == []
    then err (
        text
          "refusing to connect: target node did not provide a TLS fingerprint (it may be running an outdated, insecure version of Baleen)")
    else elim (dial sha expected certificates) [
      | err e ↦ err (text "failed to connect to " ++ (address ++ (text ": " ++ e)))
      | ok _ ↦ ok tt
    ]

pub data SenderEvent : Type 0 where
  -- PublishStatus and GlobalHub.Publish, by the status
  publishes : String → SenderEvent
  -- what goes to the peer: the request, the header, and the bytes of the pruned tarball
  requests : TransferRequest → SenderEvent
  announces : StreamHeader → SenderEvent
  streams : Tarball → SenderEvent

-- negotiate: the request, and the layers that the peer lacks
unfoldable pub negotiate : Push → TransferRequest → List SenderEvent × Result (List Text)
negotiate p req = elim (wrap "failed to send handshake: " p.sent) [
  | err e ↦ ([], err e)
  | ok _ ↦ (
    requests req ∷ [],
    (do
      response ← wrap "failed to read transfer response: " p.response
      if response.approved
          then ok response.missing_layers
          else err (text "transfer rejected by remote node")),
  )
]

-- pruneAndHash
unfoldable pub prune_and_hash : Push → List Text → List Text → Result (Tarball × Text)
prune_and_hash p layers missing = do
  pruned ← wrap "failed to prune tarball: " (prune_tarball p.file p.disk layers missing)
  hash ← wrap "failed to hash pruned file: " p.pruned_hash
  ok (pruned, hash)

-- The part of streamPayload behind the header.
unfoldable pub stream_file : Push → Tarball → List SenderEvent × Result (Unit {0})
stream_file p pruned = elim (wrap "failed to open pruned file: " p.opened) [
  | err e ↦ ([], err e)
  | ok _ ↦ elim (wrap "file stream failed: " p.copied) [
    | err e ↦
        if p.canceled
        then ([], err (text "transfer canceled"))
        else (publishes "failed" ∷ [], err e)
    | ok _ ↦
        if p.canceled
        then (streams pruned ∷ [], err (text "transfer canceled"))
        else (streams pruned ∷ (publishes "completed" ∷ []), ok tt)
  ]
]

-- streamPayload
unfoldable pub stream_payload : Push → Tarball → Text → List SenderEvent × Result (Unit {0})
unfolding stream_file
stream_payload p pruned hash = elim (wrap "failed to stat pruned file: " p.pruned_info) [
  | err e ↦ ([], err e)
  | ok _ ↦ elim (wrap "failed to send stream header: " p.header_sent) [
    | err e ↦ ([], err e)
    | ok _ ↦
        let (events, done) = stream_file p pruned in
        (announces (record { pruned_hash = hash }) ∷ events, done)
  ]
]

-- PushImage behind the negotiation.
unfoldable pub prune_and_stream :
    Push → List Text → List Text → List SenderEvent × Result (Unit {0})
prune_and_stream p layers missing = elim (prune_and_hash p layers missing) [
  | err e ↦ (publishes "pruning" ∷ [], err e)
  | ok (pruned, hash) ↦
      let (events, done) = stream_payload p pruned hash in (publishes "pruning" ∷ events, done)
]

-- PushImage behind the connection.
unfoldable pub offer : Push → List Text → TransferRequest → List SenderEvent × Result (Unit {0})
offer p layers req =
    let (asked, answer) = negotiate p req in
    elim answer [
      | err e ↦ (publishes "waiting for approval" ∷ (asked ++ publishes "rejected" ∷ []), err e)
      | ok missing ↦
          let (events, done) = prune_and_stream p layers missing in
          (publishes "waiting for approval" ∷ (asked ++ events), done)
    ]

-- PushImage
unfoldable pub push_image :
    (Text → Text)
    → Text
    → Text
    → (List Text → TransferRequest)
    → Push
    → List SenderEvent × Result (Unit {0})
push_image sha address fingerprint request p = elim (inspect_tarball p) [
  | err e ↦ ([], err e)
  | ok layers ↦ elim (dial_receiver sha address fingerprint p.certificates) [
    | err e ↦ ([], err e)
    | ok _ ↦ offer p layers (request layers)
  ]
]
