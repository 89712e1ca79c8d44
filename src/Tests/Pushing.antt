-- ===== src/Tests/Pushing.antt =====
-- One push, its records, and the versions on Docker Hub.
use baleen_engine.Base.{
  ◌≡◌, refl, Bool, true, false, none, some, List, [], ◌∷◌, ◌++◌, Text, text, Result, ok, err, ◌==◌,
  text_eq, nat_eq, string_eq, elem, ◌⊎◌, arith, Option,
}
use baleen_engine.Base.Map.{lookup}
use baleen_engine.Ledger.Interface.{Bucket, in_memory}
use baleen_engine.Ledger.{Stored, json, commit_key, fail_pending_transfers}
use baleen_engine.Network.Peers.{PeerRegistry, new_peer_registry, get_detailed_peers}
use baleen_engine.Network.Address.{resolve_target_address}
use baleen_engine.Transfer.Archive.{Tarball}
use baleen_engine.Transfer.Prune.{prune_tarball}
use baleen_engine.Transfer.Receiver.{TransferRequest}
use baleen_engine.Transfer.Sender.{
  Push, SenderEvent, publishes, requests, announces, streams, push_image, offer,
}
use baleen_engine.Transfer.Sender.Pinned.{
  Pinned, push_is_Pinned, unlisted_is_refused, push_succeeds,
}
use baleen_engine.Cli.Pipeline.{Export, pending_commit, final_commit, record_and_push}
use baleen_engine.Cli.Pipeline.Records.{record_and_push_leaves}
use baleen_engine.Updater.{
  UpdateCache, is_newer_version, is_version, fetch_latest_from_docker_hub, check_for_update, answer,
}
use baleen_engine.Updater.Newest.{fetch_latest_is_newest}
use baleen_engine.Tests.Delta.{good_disk, digest_a}
use baleen_engine.Tests.Receiving.{payload, request}

abbrev push : Push
push = record {
  info = ok tt;
  file = some payload;
  certificates = ok (text "cert" ∷ []);
  sent = ok tt;
  response = ok (record { approved = true; missing_layers = digest_a ∷ [] });
  disk = good_disk;
  pruned_hash = ok (text "aa");
  pruned_info = ok tt;
  header_sent = ok tt;
  opened = ok tt;
  copied = ok tt;
  canceled = false;
}

abbrev asks : List Text → TransferRequest
asks layers = request

abbrev sha : Text → Text
sha cert = text "f1"

push_is_Pinned_example :
    (((push_image sha (text "10.0.0.5:9090") (text "f1") asks push).0 ≡ [])
      × ((e : Text) × ((push_image sha (text "10.0.0.5:9090") (text "f1") asks push).1 ≡ err e)))
    ⊎ ((text "f1" ≡ [] → ⊥) × Pinned sha (text "f1") push.certificates)
push_is_Pinned_example = push_is_Pinned sha (text "10.0.0.5:9090") (text "f1") asks push

unlisted_is_refused_example :
    let target = resolve_target_address 9 new_peer_registry (text "10.0.0.5:9090") in
    ((push_image sha (text "10.0.0.5:9090") target.fingerprint asks push).0 ≡ [])
    × ((e : Text) × ((push_image sha (text "10.0.0.5:9090") target.fingerprint asks push).1
          ≡ err e))
unfolding get_detailed_peers lookup baleen_engine.Network.Peers.detail_loop
unlisted_is_refused_example =
    unlisted_is_refused 9 new_peer_registry (text "10.0.0.5:9090") sha (text "10.0.0.5:9090") asks
      push refl

succeeds : (offer push (digest_a ∷ []) request).1 ≡ ok tt
unfolding offer baleen_engine.Transfer.Sender.negotiate
    baleen_engine.Transfer.Sender.prune_and_stream baleen_engine.Transfer.Sender.prune_and_hash
    prune_tarball baleen_engine.Transfer.Prune.read_main_layers
    baleen_engine.Transfer.Archive.get_main_manifest_item
    baleen_engine.Transfer.Archive.read_manifest baleen_engine.Transfer.Archive.open_tar
    baleen_engine.Transfer.Archive.find_manifest baleen_engine.Base.text_beq
    baleen_engine.Transfer.Archive.decode_manifest baleen_engine.Transfer.Archive.main_item
    baleen_engine.Transfer.Prune.require_same_count baleen_engine.Transfer.Prune.copy_tar_excluding
    baleen_engine.Transfer.Prune.create baleen_engine.Transfer.Prune.copy_loop
    baleen_engine.Transfer.Prune.flag lookup baleen_engine.Base.Map.insert
    baleen_engine.Transfer.Archive.at_end baleen_engine.Transfer.Archive.longest
    baleen_engine.Transfer.Archive.or_no_layers baleen_engine.Transfer.Prune.build_skip_set
    baleen_engine.Transfer.Prune.mark_all baleen_engine.Transfer.Prune.skip_loop
    baleen_engine.Transfer.Prune.write_entry baleen_engine.Transfer.Sender.stream_file
    baleen_engine.Transfer.Sender.stream_payload
succeeds = refl

push_succeeds_example :
    (missing : List Text) × ((pruned : Tarball) × ((hash : Text) × (push.response
          ≡ ok (record { approved = true; missing_layers = missing }))
        × (prune_tarball push.file push.disk (digest_a ∷ []) missing ≡ ok pruned)
        × (push.pruned_hash ≡ ok hash)
        × (push.canceled ≡ false)
        × ((offer push (digest_a ∷ []) request).0
            ≡ publishes "waiting for approval"
              ∷ (requests request
                  ∷ (publishes "pruning"
                      ∷ (announces (record { pruned_hash = hash })
                          ∷ (streams pruned ∷ (publishes "completed" ∷ []))))))))
push_succeeds_example = push_succeeds push (digest_a ∷ []) request succeeds

abbrev B : Bucket Stored
B = in_memory Stored

abbrev export : Export
export = record {
  image = text "web";
  node = text "ann";
  peer = text "bob";
  hash = ok (text "aa");
  temp_id = [];
  fresh_id = text "pending-1";
  started = text "10:00:00";
  ended = text "10:00:09";
  pushed = ok tt;
}

record_and_push_leaves_example :
    let after = record_and_push B export B.empty in
    (B.get (commit_key (final_commit export)) after ≡ some (json (final_commit export)))
    × (B.get (commit_key (pending_commit export)) after ≡ some (json (pending_commit export)))
    × (B.get (commit_key (pending_commit export)) (fail_pending_transfers B after)
        ≡ some (json (record (pending_commit export) { status = "Failed" })))
unfolding elem
record_and_push_leaves_example =
    record_and_push_leaves B export B.empty refl refl (λ e. ground (arith, e))

fetch_latest_is_newest_example :
    let names = text "1.2.3" ∷ (text "latest" ∷ (text "v1.10.0" ∷ [])) in
    (elem (text "v1.10.0") names ≡ true)
    × (is_version (text "v1.10.0") ≡ true)
    × (is_newer_version (text "v1.10.0") (text "1.2.3") ≡ false)
unfolding fetch_latest_from_docker_hub elem is_version baleen_engine.Base.Sort.sort
    baleen_engine.Base.keep baleen_engine.Base.text_beq baleen_engine.Updater.parse_semver
    baleen_engine.Base.split baleen_engine.Base.trim_prefix baleen_engine.Base.Decimal.atoi
    baleen_engine.Base.all is_newer_version baleen_engine.Updater.above
fetch_latest_is_newest_example =
    fetch_latest_is_newest (text "1.2.3" ∷ (text "latest" ∷ (text "v1.10.0" ∷ []))) (text "v1.10.0")
      (text "1.2.3") refl refl refl
