-- ===== src/Transfer/Receiver.antt =====
-- internal/transfer/receiver.go: one incoming transfer, from the decoded request to the file that is
-- handed over to Docker. What the network, the disk, the settings and the user answer is an
-- `Arrival`; what the handler tells the UI, the ledger and the peer is a list of events, in order.
-- The control branch of the handler is `control_branch` of Session.
pub mod Outcomes
use baleen_engine.Base.{
  ℕ, ◌/◌, Bool, true, false, not, ◌&&◌, Option, none, some, List, [], ◌∷◌, ◌++◌, String, Text, text,
  ◌==◌, if◌then◌else◌, all, take, Result, ok, err, ◌>>=◌, ◌>>◌, wrap, text_eq, string_eq,
}
use baleen_engine.Base.Map.{Map}
use baleen_engine.Ledger.Interface.{Bucket}
use baleen_engine.Ledger.{has_layer}
use baleen_engine.Transfer.Archive.{Body, Tarball}
use baleen_engine.Transfer.Prune.{Disk}
use baleen_engine.Transfer.Partition.{partition_layers}
use baleen_engine.Transfer.Stitch.{stitch_tarball}
use baleen_engine.Transfer.Cache.{update_cache_and_ledger}
use baleen_engine.Transfer.Digest.{is_hex, is_digest}
use baleen_engine.Transfer.Status.{parse_error_to_status}

-- TransferRequest, without the fields of a control message
pub record TransferRequest : Type 0 where
  pub image_name : Text
  pub hash : Text
  pub author : Text
  pub image_arch : Text
  pub layers : List Text

-- TransferResponse
pub record TransferResponse : Type 0 where
  pub approved : Bool
  pub missing_layers : List Text

-- StreamHeader, without the size, which only the progress shows
pub record StreamHeader : Type 0 where
  pub pruned_hash : Text

pub record Arrival : Type 0 where
  -- LoadTransferSettings().AutoApprove, and what comes through the response channel
  pub auto_approve : Bool
  pub decision : Bool
  -- SetupBaleenDirectory, and the encoding of the answer
  pub directories : Result (Unit {0})
  pub answered : Result (Unit {0})
  -- the stream: its header, os.Create, io.Copy, and the file with its hash
  pub header : Result StreamHeader
  pub created : Result (Unit {0})
  pub copied : Result (Unit {0})
  pub payload : Tarball
  pub actual_hash : Result Text
  -- the disk under the rebuilt tarball and under the cache
  pub disk : Disk
  pub makes : Text → Bool

pub data Event : Type 0 where
  -- PublishStatus and GlobalHub.Publish, by the status; RecordCommit, by the status
  publishes : String → Event
  records : String → Event
  replies : TransferResponse → Event

-- receiveAndApprove
unfoldable pub receive_and_approve : Arrival → List Event × Bool
receive_and_approve a =
    if a.auto_approve
    then (publishes "auto-approved, waiting for sender" ∷ [], true)
    else if a.decision
    then (publishes "waiting for approval" ∷ [], true)
    else (
      publishes "waiting for approval"
          ∷ (replies (record { approved = false; missing_layers = [] }) ∷ []),
      false,
    )

unfoldable pub require : Bool → Text → Result (Unit {0})
require true message = ok tt
require false message = err message

-- "incoming_pruned_" + PrunedHash[:8] + ".tar"
unfoldable pub safe_filename : Text → Text
safe_filename hash = text "incoming_pruned_" ++ (take 8 hash ++ text ".tar")

-- The part of downloadPayload up to the end of the stream: the hash that the header promises.
unfoldable pub receive_stream : Arrival → Result Text
receive_stream a = do
  header ← wrap "failed to read stream header: " a.header
  require (is_hex header.pruned_hash) (text "invalid hash format from peer")
  _ ← wrap "failed to create incoming file: " a.created
  _ ← wrap "file stream failed: " a.copied
  ok header.pruned_hash

-- The lines are ended by the byte 10.
unfoldable pub mismatch : Text → Text → Text
mismatch expected actual =
    text "INTEGRITY FAILURE: checksum mismatch"
    ++ (10 ∷ (text "Expected: " ++ (expected ++ (10 ∷ (text "Actual:   " ++ actual)))))

-- The check behind the stream, with its events.
unfoldable pub verify_hash : Arrival → Text → List Event × Result (Unit {0})
verify_hash a expected = elim (wrap "failed to calculate checksum: " a.actual_hash) [
  | err e ↦ (publishes "unpacking" ∷ [], err e)
  | ok actual ↦
      if actual == expected
      then (publishes "unpacking" ∷ [], ok tt)
      else (publishes "unpacking" ∷ (publishes "failed" ∷ []), err (mismatch expected actual))
]

-- downloadPayload; the file is `payload`
unfoldable pub download_payload : Arrival → List Event × Result (Unit {0})
download_payload a = elim (receive_stream a) [
  | err e ↦ ([], err e)
  | ok expected ↦ verify_hash a expected
]

-- reconstructTarball
unfoldable pub reconstruct_tarball :
    Arrival → TransferRequest → Map Text Body → List Text → Result Tarball
reconstruct_tarball a req cache already_owned = do
  require (is_hex req.hash) (text "invalid hash format from peer")
  wrap "stitching failed: " (stitch_tarball (some a.payload) a.disk cache req.layers already_owned)

pub record Outcome (Known : Type 0) : Type 0 where
  pub events : List Event
  pub cache : Map Text Body
  pub known : Known
  -- the DownloadResult, by its tarball
  pub delivered : Option Tarball

module _ (K : Bucket (Unit {0})) where
  abbrev pub Held : Type 0
  Held = Map Text Body × K.Store

  -- A return of the handler that delivers nothing.
  abbrev pub stops : Held → List Event → Outcome K.Store
  stops held events = record { events = events; cache = held.0; known = held.1; delivered = none }

  -- The end of the handler, once the image is rebuilt.
  unfoldable pub accept :
      Arrival → TransferRequest → List Text → Held → List Event → Tarball → Outcome K.Store
  accept a req missing held events rebuilt =
      let (cache, known) =
        update_cache_and_ledger K a.makes (some rebuilt) req.layers missing held.0 held.1 in
      record {
        events = events ++ records "Completed" ∷ [];
        cache = cache;
        known = known;
        delivered = some rebuilt;
      }

  -- The handler behind the answer: download, stitch, cache.
  unfoldable pub after_answer :
      Arrival → TransferRequest → List Text → List Text → Held → List Event → Outcome K.Store
  after_answer a req missing owned held events =
      let (downloads, done) = download_payload a in
      elim done [
        | err e ↦ stops held (
            events
            ++ (downloads
                ++ (publishes "failed" ∷ (records (parse_error_to_status (some e)) ∷ []))))
        | ok _ ↦ elim (reconstruct_tarball a req held.0 owned) [
          | err e ↦ stops held (
              events
              ++ (downloads
                  ++ (publishes "failed" ∷ (records (parse_error_to_status (some e)) ∷ []))))
          | ok rebuilt ↦ accept a req missing held (events ++ downloads) rebuilt
        ]
      ]

  -- The handler behind the approval: the directories and the answer.
  unfoldable pub after_approval : Arrival → TransferRequest → Held → List Event → Outcome K.Store
  after_approval a req held events =
      let (missing, owned) = partition_layers (has_layer K held.1) req.layers in
      let answer = replies (record { approved = true; missing_layers = missing }) in
      elim a.directories [
        | err e ↦ stops held (events ++ records "Failed" ∷ [])
        | ok _ ↦ elim a.answered [
          | err e ↦ stops held (events ++ records "Failed" ∷ [])
          | ok _ ↦ after_answer a req missing owned held (events ++ answer ∷ [])
        ]
      ]

  -- handleIncomingTransfer for a request that is no control message
  unfoldable pub handle_incoming_transfer : Arrival → TransferRequest → Held → Outcome K.Store
  handle_incoming_transfer a req held =
      let (asks, approved) = receive_and_approve a in
      if all is_digest req.layers
      then (if approved
          then after_approval a req held asks
          else stops held (asks ++ (publishes "rejected" ∷ (records "Rejected" ∷ []))))
      else stops held []

-- StartReceiver's choice for a connection: with broadcast off it is refused, by rejectConnection.
unfoldable pub on_connection : Bool → List Event
on_connection accepting =
    if accepting then [] else replies (record { approved = false; missing_layers = [] }) ∷ []
