-- ===== src/Tests/Delta.antt =====
-- An image of two layers whose second one the receiver has.
use baleen_engine.Base.{
  ◌≡◌, refl, true, false, [], ◌∷◌, arith, Text, text, ok, ◌==◌, text_eq, elem, has_prefix, text_beq,
  replace_all, length, all, ◌≤◌, nat_eq,
}
use baleen_engine.Base.Map.{lookup}
use baleen_engine.Transfer.Archive.{
  manifest, blob, Tarball, ManifestItem, get_main_manifest_item, read_manifest, find_manifest,
  main_item, open_tar, decode_manifest,
}
use baleen_engine.Transfer.Prune.{Disk}
use baleen_engine.Transfer.Stitch.{safe_digest}
use baleen_engine.Transfer.Digest.{is_digest, is_any_hex}
use baleen_engine.Transfer.Digest.Folder.{safe_digest-safe}
use baleen_engine.Transfer.Delta.Skip.{Works, held}
use baleen_engine.Transfer.Delta.RoundTrip.{Setting, IsSound, transferred, transferred-restores}

abbrev pub item : ManifestItem
item = record { config = text "c.json"; layers = text "1/layer.tar" ∷ text "2/layer.tar" ∷ [] }

abbrev pub image : Tarball
image = record {
  entries =
      (text "1/layer.tar", blob (text "one"))
      ∷ (text "2/layer.tar", blob (text "two"))
      ∷ (text "manifest.json", manifest (item ∷ []))
      ∷ [];
  broken = false;
}

abbrev pub good_disk : Disk
good_disk = record { creates = true; writes = λ name. true }

pub good_disk-Works : Works good_disk
good_disk-Works = record { creates = refl; writes = λ name. refl }

abbrev setting : Setting
setting = record {
  image = image;
  item = item;
  digests = text "sha256:a" ∷ text "sha256:b" ∷ [];
  has = λ d. d == text "sha256:b";
  cache = (text "sha256-b", blob (text "two")) ∷ [];
  sender = good_disk;
  receiver = good_disk;
}

setting-IsSound : IsSound setting
unfolding get_main_manifest_item read_manifest open_tar find_manifest decode_manifest main_item held
    lookup safe_digest replace_all text_beq
setting-IsSound = record {
  whole = refl;
  chosen = refl;
  layers = (((λ e. ground arith), tt), (tt, tt));
  cached = ((λ e. cc), ((λ e. (blob (text "two"), refl, refl)), tt));
  apart = refl;
  sender_works = good_disk-Works;
  receiver_works = good_disk-Works;
}

transferred-restores_example :
    (out : Tarball) × (transferred setting ≡ ok out)
    × (out.broken ≡ false)
    × ((n : Text) → lookup n out.entries ≡ lookup n image.entries)
transferred-restores_example = transferred-restores setting setting-IsSound

abbrev pub digest_a : Text
digest_a = text "sha256:aaaaaaaaaaaaaaaaaaaaaaaaaaaaaaaaaaaaaaaaaaaaaaaaaaaaaaaaaaaaaaaa"

pub digest_a_valid : is_digest digest_a ≡ true
unfolding is_digest has_prefix all is_any_hex
digest_a_valid = refl

safe_digest-safe_example :
    (elem b'/' (safe_digest digest_a) ≡ false)
    × (15 ≤ length digest_a)
    × (safe_digest digest_a ≡ safe_digest digest_a → digest_a ≡ digest_a)
safe_digest-safe_example = safe_digest-safe digest_a digest_a digest_a_valid digest_a_valid
