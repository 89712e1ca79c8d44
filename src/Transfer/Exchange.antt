-- ===== src/Transfer/Exchange.antt =====
-- internal/transfer/sender.go and receiver.go together: the push of an image and its arrival.
use baleen_engine.Base.{
  ◌≡◌, arith, true, false, ◌||◌, Option, none, some, List, [], ◌∷◌, Text, ok, all, text_eq, ==_iff,
}
use baleen_engine.Base.Map.{Map, lookup}
use baleen_engine.Ledger.Interface.{Bucket}
use baleen_engine.Ledger.{has_layer}
use baleen_engine.Transfer.Archive.{Body, Tarball}
use baleen_engine.Transfer.Prune.{prune_tarball}
use baleen_engine.Transfer.Partition.{partition_layers}
use baleen_engine.Transfer.Stitch.{stitch_tarball}
use baleen_engine.Transfer.Delta.RoundTrip.{Setting, IsSound, missing, owned, transferred-restores}
use baleen_engine.Transfer.Digest.{is_hex, is_digest}
use baleen_engine.Transfer.Receiver.{
  Arrival, TransferRequest, StreamHeader, handle_incoming_transfer, receive_and_approve,
  after_approval, after_answer, accept, download_payload, receive_stream, verify_hash, require,
  reconstruct_tarball,
}
use baleen_engine.Transfer.Sender.{
  Push, SenderEvent, publishes, requests, announces, streams, offer,
}
use baleen_engine.Transfer.Sender.Pinned.{push_succeeds}

-- What the receiver reads off the stream: the header, then the bytes.
unfoldable pub wire : Option StreamHeader → List SenderEvent → Option (StreamHeader × Tarball)
wire header [] = none
wire header (publishes status ∷ rest) = wire header rest
wire header (requests req ∷ rest) = wire header rest
wire header (announces h ∷ rest) = wire (some h) rest
wire none (streams t ∷ rest) = wire none rest
wire (some h) (streams t ∷ rest) = some (h, t)

-- The two ends handle one image, and nothing fails at the receiver. The sender gets the answer
-- that the receiver gives, and the receiver's hash of the file is the sender's.
pub record IsHonest (s : Setting) (p : Push) (a : Arrival) (req : TransferRequest) : Type 0 where
  pub layers : req.layers ≡ s.digests
  pub digests : all is_digest s.digests ≡ true
  pub hash : is_hex req.hash ≡ true
  pub file : p.file ≡ some s.image
  pub sender_disk : p.disk ≡ s.sender
  pub answer : p.response ≡ ok (record { approved = true; missing_layers = missing s })
  pub approved : (a.auto_approve || a.decision) ≡ true
  pub directories : a.directories ≡ ok tt
  pub answered : a.answered ≡ ok tt
  pub created : a.created ≡ ok tt
  pub copied : a.copied ≡ ok tt
  pub receiver_disk : a.disk ≡ s.receiver
  pub same_hash : a.actual_hash ≡ p.pruned_hash

approved-receive :
    (a : Arrival) → (a.auto_approve || a.decision) ≡ true → (receive_and_approve a).1 ≡ true
unfolding receive_and_approve
approved-receive a h = ground (arith, h)

download-ok :
    (a : Arrival) (h : Text)
    → a.header ≡ ok (record { pruned_hash = h })
    → is_hex h ≡ true
    → a.created ≡ ok tt
    → a.copied ≡ ok tt
    → a.actual_hash ≡ ok h
    → (download_payload a).1 ≡ ok tt
unfolding download_payload receive_stream verify_hash require
download-ok a h header hex created copied actual =
    ground (arith, header, hex, created, copied, actual, ==_iff h h)

wire-sent :
    (p : Push) (layers : List Text) (req : TransferRequest) (hash h : Text) (pruned t : Tarball)
    → (offer p layers req).0
      ≡ publishes "waiting for approval"
        ∷ (requests req
            ∷ (publishes "pruning"
                ∷ (announces (record { pruned_hash = hash })
                    ∷ (streams pruned ∷ (publishes "completed" ∷ [])))))
    → wire none (offer p layers req).0 ≡ some (record { pruned_hash = h }, t)
    → (hash ≡ h) × (pruned ≡ t)
unfolding wire
wire-sent p layers req hash h pruned t events read = ground (arith, events, read)

module _ (K : Bucket (Unit {0})) where
  delivers-ok :
      (a : Arrival) (req : TransferRequest) (cache : Map Text Body) (known : K.Store)
      (out : Tarball)
      → all is_digest req.layers ≡ true
      → (a.auto_approve || a.decision) ≡ true
      → a.directories ≡ ok tt
      → a.answered ≡ ok tt
      → (download_payload a).1 ≡ ok tt
      → reconstruct_tarball a req cache (partition_layers (has_layer K known) req.layers).1 ≡ ok out
      → (handle_incoming_transfer K a req (cache, known)).delivered ≡ some out
  unfolding handle_incoming_transfer after_approval after_answer accept
  delivers-ok a req cache known out valid approved directories answered arrived rebuilt =
      ground (arith, valid, approved-receive a approved, directories, answered, arrived, rebuilt)

  reconstructs :
      (a : Arrival) (req : TransferRequest) (cache : Map Text Body) (known : K.Store)
      (out : Tarball)
      → is_hex req.hash ≡ true
      → stitch_tarball
          (some a.payload)
          a.disk
          cache
          req.layers
          (partition_layers (has_layer K known) req.layers).1
        ≡ ok out
      → reconstruct_tarball a req cache (partition_layers (has_layer K known) req.layers).1 ≡ ok out
  unfolding reconstruct_tarball require
  reconstructs a req cache known out hex stitched = ground (arith, hex, stitched)

  -- If an honest push succeeds and the receiver reads the header and the bytes that it sent, the
  -- receiver hands over to Docker a whole tarball that holds under every name what the sender's
  -- image held there, whatever layers it had cached.
  pub push_delivers :
      (s : Setting) (p : Push) (a : Arrival) (req : TransferRequest) (known : K.Store) (h : Text)
      → IsSound s
      → IsHonest s p a req
      → s.has ≡ has_layer K known
      → (offer p s.digests req).1 ≡ ok tt
      → wire none (offer p s.digests req).0 ≡ some (record { pruned_hash = h }, a.payload)
      → a.header ≡ ok (record { pruned_hash = h })
      → is_hex h ≡ true
      → (out : Tarball) × ((handle_incoming_transfer K a req (s.cache, known)).delivered ≡ some out)
        × (out.broken ≡ false)
        × ((n : Text) → lookup n out.entries ≡ lookup n s.image.entries)
  push_delivers s p a req known h sound honest knows pushed read header hex =
      let (asked, (pruned, (hash, response, cut, hashed, live, events))) =
        push_succeeds p s.digests req pushed in
      let (out, through, whole, same) = transferred-restores s sound in
      let wanted : asked ≡ missing s = ground (arith, response, honest.answer) in
      let arrived : (hash ≡ h) × (pruned ≡ a.payload) =
        wire-sent p s.digests req hash h pruned a.payload events read in
      let pruned_so : prune_tarball (some s.image) s.sender s.digests (missing s) ≡ ok pruned =
        ground (arith, cut, wanted, honest.file, honest.sender_disk) in
      let stitched : stitch_tarball (some pruned) s.receiver s.cache s.digests (owned s) ≡ ok out =
        ground (arith, through, pruned_so) in
      (
        out,
        delivers-ok a req s.cache known out (ground (arith, honest.layers, honest.digests))
            honest.approved honest.directories honest.answered
            (download-ok a h header hex honest.created honest.copied
              (ground (arith, honest.same_hash, hashed, arrived)))
            (reconstructs a req s.cache known out honest.hash
              (ground (arith, stitched, knows, arrived, honest.layers, honest.receiver_disk))),
        whole,
        same,
      )
