-- ===== src/Tests/Exchange.antt =====
-- A push of an image of two layers, the second of which the receiver has.
use baleen_engine.Base.{
  ◌≡◌, refl, ◌∙◌, sym, ◌⊎◌, true, false, none, some, [], ◌∷◌, arith, Text, text, ok, ◌==◌, text_eq,
}
use baleen_engine.Base.Map.{lookup}
use baleen_engine.Ledger.{has_layer}
use baleen_engine.Transfer.Archive.{manifest, blob, Tarball}
use baleen_engine.Transfer.Delta.RoundTrip.{Setting, IsSound}
use baleen_engine.Transfer.Receiver.{Arrival, TransferRequest, handle_incoming_transfer}
use baleen_engine.Transfer.Sender.{Push, offer}
use baleen_engine.Transfer.Exchange.{wire, IsHonest, push_delivers}
use baleen_engine.Service.Daemon.{DownloadResult, Loader, auto_load}
use baleen_engine.Service.Daemon.Arrives.{HoldsAll, IsTaken, IsRefused, push_arrives}
use baleen_engine.Tests.Images.{memory, images}
use baleen_engine.Transfer.Stitch.{safe_digest}
use baleen_engine.Tests.Delta.{item, image, good_disk, good_disk-Works, digest_a}
use baleen_engine.Tests.Receiving.{K, hash_a}

abbrev digest_b : Text
digest_b = text "sha256:bbbbbbbbbbbbbbbbbbbbbbbbbbbbbbbbbbbbbbbbbbbbbbbbbbbbbbbbbbbbbbbb"

abbrev known : K.Store
known = K.put digest_b tt K.empty

abbrev setting : Setting
setting = record {
  image = image;
  item = item;
  digests = digest_a ∷ digest_b ∷ [];
  has = has_layer K known;
  cache =
      (
        text "sha256-bbbbbbbbbbbbbbbbbbbbbbbbbbbbbbbbbbbbbbbbbbbbbbbbbbbbbbbbbbbbbbbb",
        blob (text "two"),
      )
      ∷ [];
  sender = good_disk;
  receiver = good_disk;
}

setting-IsSound : IsSound setting
unfolding baleen_engine.Transfer.Archive.get_main_manifest_item
    baleen_engine.Transfer.Archive.read_manifest baleen_engine.Transfer.Archive.open_tar
    baleen_engine.Transfer.Archive.find_manifest baleen_engine.Transfer.Archive.decode_manifest
    baleen_engine.Transfer.Archive.main_item baleen_engine.Transfer.Archive.at_end
    baleen_engine.Transfer.Archive.longest baleen_engine.Transfer.Archive.or_no_layers
    baleen_engine.Transfer.Delta.Skip.held baleen_engine.Base.Map.insert lookup safe_digest
    baleen_engine.Base.replace_all baleen_engine.Base.text_beq has_layer
setting-IsSound = record {
  whole = refl;
  chosen = refl;
  layers = (((λ e. ground arith), tt), (tt, tt));
  cached = ((λ e. cc), ((λ e. (blob (text "two"), refl, refl)), tt));
  apart = refl;
  sender_works = good_disk-Works;
  receiver_works = good_disk-Works;
}

abbrev pruned_image : Tarball
pruned_image = record {
  entries =
      (text "1/layer.tar", blob (text "one")) ∷ (text "manifest.json", manifest (item ∷ [])) ∷ [];
  broken = false;
}

abbrev push : Push
push = record {
  info = ok tt;
  file = some image;
  certificates = ok (text "cert" ∷ []);
  sent = ok tt;
  response = ok (record { approved = true; missing_layers = digest_a ∷ [] });
  disk = good_disk;
  pruned_hash = ok hash_a;
  pruned_info = ok tt;
  header_sent = ok tt;
  opened = ok tt;
  copied = ok tt;
  canceled = false;
}

abbrev arrival : Arrival
arrival = record {
  auto_approve = false;
  decision = true;
  directories = ok tt;
  answered = ok tt;
  header = ok (record { pruned_hash = hash_a });
  created = ok tt;
  copied = ok tt;
  payload = pruned_image;
  actual_hash = ok hash_a;
  disk = good_disk;
  makes = λ folder. true;
}

abbrev request : TransferRequest
request = record {
  image_name = text "web";
  hash = hash_a;
  author = text "ann";
  image_arch = text "linux/amd64";
  layers = digest_a ∷ digest_b ∷ [];
}

is_honest : IsHonest setting push arrival request
unfolding baleen_engine.Transfer.Digest.is_hex baleen_engine.Transfer.Digest.is_digest
    baleen_engine.Transfer.Digest.is_any_hex baleen_engine.Base.all baleen_engine.Base.has_prefix
    baleen_engine.Base.text_beq baleen_engine.Base.Map.insert lookup has_layer
    baleen_engine.Transfer.Partition.partition_layers
is_honest = record {
  layers = refl;
  digests = refl;
  hash = refl;
  file = refl;
  sender_disk = refl;
  answer = refl;
  approved = refl;
  directories = refl;
  answered = refl;
  created = refl;
  copied = refl;
  receiver_disk = refl;
  same_hash = refl;
}

pushed : (offer push setting.digests request).1 ≡ ok tt
unfolding baleen_engine.Transfer.Archive.get_main_manifest_item
    baleen_engine.Transfer.Archive.read_manifest baleen_engine.Transfer.Archive.open_tar
    baleen_engine.Transfer.Archive.find_manifest baleen_engine.Transfer.Archive.decode_manifest
    baleen_engine.Transfer.Archive.main_item baleen_engine.Transfer.Archive.at_end
    baleen_engine.Transfer.Archive.longest baleen_engine.Transfer.Archive.or_no_layers
    baleen_engine.Transfer.Delta.Skip.held baleen_engine.Base.Map.insert lookup safe_digest
    baleen_engine.Base.replace_all baleen_engine.Base.text_beq has_layer
    baleen_engine.Transfer.Partition.partition_layers offer baleen_engine.Transfer.Sender.negotiate
    baleen_engine.Transfer.Sender.prune_and_stream baleen_engine.Transfer.Sender.prune_and_hash
    baleen_engine.Transfer.Prune.prune_tarball baleen_engine.Transfer.Prune.read_main_layers
    baleen_engine.Transfer.Prune.require_same_count baleen_engine.Transfer.Prune.copy_tar_excluding
    baleen_engine.Transfer.Prune.create baleen_engine.Transfer.Prune.copy_loop
    baleen_engine.Transfer.Prune.flag baleen_engine.Transfer.Prune.build_skip_set
    baleen_engine.Transfer.Prune.mark_all baleen_engine.Transfer.Prune.skip_loop
    baleen_engine.Transfer.Prune.write_entry baleen_engine.Transfer.Sender.stream_file
    baleen_engine.Transfer.Sender.stream_payload
pushed = refl

read :
    wire none (offer push setting.digests request).0
    ≡ some (record { pruned_hash = hash_a }, pruned_image)
unfolding baleen_engine.Transfer.Archive.get_main_manifest_item
    baleen_engine.Transfer.Archive.read_manifest baleen_engine.Transfer.Archive.open_tar
    baleen_engine.Transfer.Archive.find_manifest baleen_engine.Transfer.Archive.decode_manifest
    baleen_engine.Transfer.Archive.main_item baleen_engine.Transfer.Archive.at_end
    baleen_engine.Transfer.Archive.longest baleen_engine.Transfer.Archive.or_no_layers
    baleen_engine.Transfer.Delta.Skip.held baleen_engine.Base.Map.insert lookup safe_digest
    baleen_engine.Base.replace_all baleen_engine.Base.text_beq has_layer
    baleen_engine.Transfer.Partition.partition_layers offer baleen_engine.Transfer.Sender.negotiate
    baleen_engine.Transfer.Sender.prune_and_stream baleen_engine.Transfer.Sender.prune_and_hash
    baleen_engine.Transfer.Prune.prune_tarball baleen_engine.Transfer.Prune.read_main_layers
    baleen_engine.Transfer.Prune.require_same_count baleen_engine.Transfer.Prune.copy_tar_excluding
    baleen_engine.Transfer.Prune.create baleen_engine.Transfer.Prune.copy_loop
    baleen_engine.Transfer.Prune.flag baleen_engine.Transfer.Prune.build_skip_set
    baleen_engine.Transfer.Prune.mark_all baleen_engine.Transfer.Prune.skip_loop
    baleen_engine.Transfer.Prune.write_entry baleen_engine.Transfer.Sender.stream_file
    baleen_engine.Transfer.Sender.stream_payload wire
read = refl

push_delivers_example :
    (out : Tarball) × ((handle_incoming_transfer K arrival request (setting.cache, known)).delivered
      ≡ some out)
    × (out.broken ≡ false)
    × ((n : Text) → lookup n out.entries ≡ lookup n image.entries)
unfolding baleen_engine.Transfer.Digest.is_hex baleen_engine.Transfer.Digest.is_any_hex
    baleen_engine.Base.all
push_delivers_example =
    push_delivers K setting push arrival request known hash_a setting-IsSound is_honest refl pushed
      read refl refl

-- The file that the receiver hands over, and the daemon that loads it.
abbrev handed :
    (out : Tarball) × ((handle_incoming_transfer K arrival request (setting.cache, known)).delivered
      ≡ some out)
unfolding baleen_engine.Transfer.Digest.is_hex baleen_engine.Transfer.Digest.is_any_hex
    baleen_engine.Base.all
handed =
    let (out, delivered, whole, same) =
      push_delivers K setting push arrival request known hash_a setting-IsSound is_honest refl
        pushed read refl refl in
    (out, delivered)

abbrev result : DownloadResult
result = record { path = text "/in/web.tar"; image_name = text "web:latest"; peer = text "ann" }

abbrev loader : Loader memory
loader = record { received = (text "/in/web.tar", handed.0) ∷ []; images = images; hub = [] }

waits_at_path : lookup result.path loader.received ≡ some handed.0
unfolding lookup baleen_engine.Base.text_beq
waits_at_path = refl

push_arrives_example :
    (out : Tarball) × HoldsAll image out
    × (after : Loader memory) × (auto_load memory 5 result loader ≡ some after)
    × (IsTaken K memory out result loader after ⊎ IsRefused K memory out result loader after)
unfolding baleen_engine.Transfer.Digest.is_hex baleen_engine.Transfer.Digest.is_any_hex
    baleen_engine.Base.all
push_arrives_example =
    push_arrives K memory setting push arrival request known hash_a 5 result loader setting-IsSound
      is_honest refl pushed read refl refl (waits_at_path ∙ sym handed.1)
