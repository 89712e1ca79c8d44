-- ===== src/Transfer/Delta/RoundTrip.antt =====
-- PruneTarball at the sender, then StitchTarball at the receiver.
use baleen_engine.Base.{
  suc, ◌≡◌, refl, Bool, false, some, List, [], ◌∷◌, ◌++◌, arith, ap, ◌∙◌, Text, length, Result, ok,
  ◌>>=◌, text_eq,
}
use baleen_engine.Base.Map.{Map, lookup}
use baleen_engine.Transfer.Archive.{
  ManifestItem, Body, Tarball, manifest_name, open_tar, read_manifest, get_main_manifest_item,
}
use baleen_engine.Transfer.Partition.{partition_layers}
use baleen_engine.Transfer.Prune.{
  Disk, create, build_skip_set, read_main_layers, require_same_count, copy_tar_excluding,
  prune_tarball,
}
use baleen_engine.Transfer.Stitch.{
  path_loop, build_digest_to_path_map, copy_all_tar_entries, inject_cached_layers, stitch_tarball,
}
use baleen_engine.Transfer.Delta.Skip.{
  Works, held, unskipped, flag-build_skip_set, copy_loop-ok, lookup-unskipped,
  find_manifest-unskipped,
}
use baleen_engine.Transfer.Delta.Inject.{
  Consistent, Cached, path_loop-Placed, copy_all_loop-ok, inject_cached_layers-restores,
  lookup-append,
}

Consistent-length : (ps ds : List Text) → Consistent ps ds → length ps ≡ length ds
Consistent-length [] [] c = refl
Consistent-length [] (d ∷ ds) c = absurd c
Consistent-length (p ∷ ps) [] c = absurd c
Consistent-length (p ∷ ps) (d ∷ ds) c = ap suc (Consistent-length ps ds c.1)

-- The image, the item that the sender and the receiver choose, the layers that the receiver has,
-- its cache, and the two disks.
pub record Setting : Type 0 where
  pub image : Tarball
  pub item : ManifestItem
  pub digests : List Text
  pub has : Text → Bool
  pub cache : Map Text Body
  pub sender : Disk
  pub receiver : Disk

pub record IsSound (s : Setting) : Type 0 where
  pub whole : s.image.broken ≡ false
  pub chosen : get_main_manifest_item (some s.image) ≡ ok s.item
  pub layers : Consistent s.item.layers s.digests
  pub cached : Cached s.has s.cache s.image.entries s.item.layers s.digests
  pub apart : held s.has s.item.layers s.digests manifest_name ≡ false
  pub sender_works : Works s.sender
  pub receiver_works : Works s.receiver

abbrev pub missing : Setting → List Text
missing s = (partition_layers s.has s.digests).0

abbrev pub owned : Setting → List Text
owned s = (partition_layers s.has s.digests).1

-- What goes over the wire, and what the receiver makes of it.
abbrev pub transferred : Setting → Result Tarball
transferred s = do
  pruned ← prune_tarball (some s.image) s.sender s.digests (missing s)
  stitch_tarball (some pruned) s.receiver s.cache s.digests (owned s)

module _ (s : Setting) (sound : IsSound s) where
  abbrev skip : Map Text Bool
  skip = build_skip_set s.item.layers s.digests (missing s)

  abbrev pruned : Tarball
  pruned = record { entries = unskipped skip s.image.entries; broken = false }

  pub prune_tarball-ok : prune_tarball (some s.image) s.sender s.digests (missing s) ≡ ok pruned
  unfolding prune_tarball read_main_layers require_same_count copy_tar_excluding create open_tar
  prune_tarball-ok = ground (
    arith,
    sound.chosen,
    sound.whole,
    sound.sender_works.creates,
    Consistent-length s.item.layers s.digests sound.layers,
    copy_loop-ok s.sender sound.sender_works skip s.image.entries,
  )

  pruned_item : get_main_manifest_item (some pruned) ≡ ok s.item
  unfolding get_main_manifest_item read_manifest open_tar
  pruned_item =
      rw
        (
          find_manifest-unskipped skip s.image.entries
              (flag-build_skip_set s.has s.item.layers s.digests manifest_name ∙ sound.apart),
          ← sound.whole,
        )
        sound.chosen

  stitch_tarball-ok :
      (out : Map Text Body)
      → inject_cached_layers s.receiver s.cache (owned s) (path_loop s.item.layers s.digests [])
        ≡ ok out
      → stitch_tarball (some pruned) s.receiver s.cache s.digests (owned s)
        ≡ ok (record { entries = pruned.entries ++ out; broken = false })
  unfolding stitch_tarball build_digest_to_path_map require_same_count create copy_all_tar_entries
      open_tar
  stitch_tarball-ok out e = ground (
    arith,
    e,
    pruned_item,
    sound.receiver_works.creates,
    Consistent-length s.item.layers s.digests sound.layers,
    copy_all_loop-ok s.receiver sound.receiver_works pruned.entries,
  )

  -- The delta transfer gives the receiver, under every name, what the image held there: whatever
  -- layers it already had, if its cache holds them as the image does.
  pub transferred-restores :
      (out : Tarball) × (transferred s ≡ ok out)
      × (out.broken ≡ false)
      × ((n : Text) → lookup n out.entries ≡ lookup n s.image.entries)
  transferred-restores =
      let (out, e, look) =
        inject_cached_layers-restores s.receiver sound.receiver_works s.has s.cache s.image.entries
          (path_loop s.item.layers s.digests []) s.item.layers s.digests
          (path_loop-Placed s.item.layers s.digests [] sound.layers) sound.layers sound.cached in
      (
        record { entries = pruned.entries ++ out; broken = false },
        rw prune_tarball-ok (stitch_tarball-ok out e),
        refl,
        λ n. ground (
          arith,
          lookup-append n pruned.entries out,
          lookup-unskipped skip s.image.entries n,
          flag-build_skip_set s.has s.item.layers s.digests n,
          look n,
        ),
      )
