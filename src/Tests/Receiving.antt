-- ===== src/Tests/Receiving.antt =====
-- One incoming transfer.
use baleen_engine.Base.{
  ◌≡◌, refl, true, false, ◌||◌, none, some, [], ◌∷◌, Text, text, if◌then◌else◌, string_eq, nat_eq,
  text_eq, ok, all, has_prefix, text_beq,
}
use baleen_engine.Base.Map.{lookup}
use baleen_engine.Ledger.Interface.{Bucket, in_memory}
use baleen_engine.Ledger.{has_layer}
use baleen_engine.Transfer.Archive.{
  Tarball, manifest, blob, read_manifest, open_tar, find_manifest, decode_manifest,
  get_main_manifest_item, main_item, at_end,
}
use baleen_engine.Transfer.Partition.{partition_layers}
use baleen_engine.Transfer.Prune.{create, require_same_count, write_entry}
use baleen_engine.Transfer.Stitch.{
  stitch_tarball, build_digest_to_path_map, copy_all_tar_entries, copy_all_loop,
  inject_cached_layers,
}
use baleen_engine.Transfer.Digest.{is_hex, is_digest, is_any_hex}
use baleen_engine.Transfer.Receiver.{
  Arrival, TransferRequest, StreamHeader, handle_incoming_transfer, receive_and_approve,
  after_approval, after_answer, accept, download_payload, receive_stream, verify_hash, require,
  reconstruct_tarball,
}
use baleen_engine.Transfer.Receiver.Outcomes.{
  commits, handled_once, delivered_verified, undelivered_keeps,
}
use baleen_engine.Tests.Delta.{good_disk, digest_a}

abbrev pub K : Bucket (Unit {0})
K = in_memory Unit

abbrev pub hash_a : Text
hash_a = text "aaaaaaaaaaaaaaaaaaaaaaaaaaaaaaaaaaaaaaaaaaaaaaaaaaaaaaaaaaaaaaaa"

abbrev pub payload : Tarball
payload = record {
  entries =
      (text "1/layer.tar", blob (text "one"))
      ∷ (
        text "manifest.json",
        manifest (record { config = text "c.json"; layers = text "1/layer.tar" ∷ [] } ∷ []),
      )
      ∷ [];
  broken = false;
}

abbrev arrival : Arrival
arrival = record {
  auto_approve = false;
  decision = true;
  directories = ok tt;
  answered = ok tt;
  header = ok (record { pruned_hash = hash_a });
  created = ok tt;
  copied = ok tt;
  payload = payload;
  actual_hash = ok hash_a;
  disk = good_disk;
  makes = λ folder. true;
}

abbrev pub request : TransferRequest
request = record {
  image_name = text "web";
  hash = hash_a;
  author = text "ann";
  image_arch = text "linux/amd64";
  layers = digest_a ∷ [];
}

handled_once_example :
    commits (handle_incoming_transfer K arrival request ([], K.empty)).events
    ≡ (if all is_digest request.layers then 1 else 0)
handled_once_example = handled_once K arrival request ([], K.empty)

delivers : (handle_incoming_transfer K arrival request ([], K.empty)).delivered ≡ some payload
unfolding handle_incoming_transfer receive_and_approve after_approval after_answer accept
    download_payload receive_stream verify_hash require reconstruct_tarball stitch_tarball
    build_digest_to_path_map get_main_manifest_item read_manifest open_tar find_manifest
    decode_manifest main_item require_same_count create copy_all_tar_entries copy_all_loop
    write_entry at_end inject_cached_layers partition_layers has_layer is_digest is_hex is_any_hex
    all has_prefix text_beq lookup
delivers = refl

delivered_verified_example :
    (all is_digest request.layers ≡ true)
    × ((arrival.auto_approve || arrival.decision) ≡ true)
    × ((header : StreamHeader) × (arrival.header ≡ ok header)
        × (is_hex header.pruned_hash ≡ true)
        × (arrival.actual_hash ≡ ok header.pruned_hash))
    × (stitch_tarball
          (some payload)
          good_disk
          []
          request.layers
          (partition_layers (has_layer K K.empty) request.layers).1
        ≡ ok payload)
delivered_verified_example = delivered_verified K arrival request ([], K.empty) payload delivers

abbrev refusal : Arrival
refusal = record arrival { decision = false }

refuses : (handle_incoming_transfer K refusal request ([], K.empty)).delivered ≡ none
unfolding handle_incoming_transfer receive_and_approve is_digest is_any_hex all has_prefix
refuses = refl

undelivered_keeps_example :
    ((handle_incoming_transfer K refusal request ([], K.empty)).cache ≡ [])
    × ((handle_incoming_transfer K refusal request ([], K.empty)).known ≡ K.empty)
undelivered_keeps_example = undelivered_keeps K refusal request ([], K.empty) refuses
