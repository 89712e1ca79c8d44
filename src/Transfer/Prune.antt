-- ===== src/Transfer/Prune.antt =====
-- internal/transfer/prune.go: the payload without the layers that the receiver has.
use baleen_engine.Base.{
  Bool, true, false, Option, none, some, List, [], ◌∷◌, Text, text, ◌==◌, if◌then◌else◌, length,
  Result, ok, err, ◌>>=◌, ◌>>◌, text_eq, nat_eq,
}
use baleen_engine.Base.Map.{Map, lookup, insert}
use baleen_engine.Transfer.Archive.{Body, Tarball, open_tar, at_end, get_main_manifest_item}

-- The destination on disk: whether os.Create succeeds, and which entries the tar writer takes.
pub record Disk : Type 0 where
  pub creates : Bool
  pub writes : Text → Bool

-- m[k] of a map[string]bool
unfoldable pub flag : Text → Map Text Bool → Bool
flag k m = elim (lookup k m) [ none ↦ false | some b ↦ b ]

-- missingSet
unfoldable pub mark_all : List Text → Map Text Bool → Map Text Bool
mark_all [] set = set
mark_all (d ∷ ds) set = mark_all ds (insert d true set)

-- The loop over mainLayers; `allDigests[i]` runs beside it.
unfoldable pub skip_loop : Map Text Bool → List Text → List Text → Map Text Bool → Map Text Bool
skip_loop missing [] digests skip = skip
skip_loop missing (p ∷ ps) [] skip = skip
skip_loop missing (p ∷ ps) (d ∷ ds) skip =
    skip_loop missing ps ds (if flag d missing then skip else insert p true skip)

-- buildSkipSet
unfoldable pub build_skip_set : List Text → List Text → List Text → Map Text Bool
unfolding skip_loop mark_all
build_skip_set main_layers all_digests missing_digests =
    skip_loop (mark_all missing_digests []) main_layers all_digests []

-- One entry to the tar writer, then the others.
unfoldable pub write_entry : Disk → Text × Body → Result (Map Text Body) → Result (Map Text Body)
write_entry disk (name, body) rest =
    if disk.writes name
    then (do entries ← rest; ok ((name, body) ∷ entries))
    else err (text "write error")

-- The loop of copyTarExcluding.
unfoldable pub copy_loop : Disk → Map Text Bool → Map Text Body → Bool → Result (Map Text Body)
unfolding write_entry
copy_loop disk skip [] broken = at_end broken (ok [])
copy_loop disk skip ((name, body) ∷ rest) broken =
    let later = copy_loop disk skip rest broken in
    if flag name skip then later else write_entry disk (name, body) later

-- os.Create
unfoldable pub create : Disk → Result (Unit {0})
create disk = if disk.creates then ok tt else err (text "permission denied")

-- copyTarExcluding
unfoldable pub copy_tar_excluding : Option Tarball → Disk → Map Text Bool → Result Tarball
copy_tar_excluding file disk skip = do
  t ← open_tar file
  create disk
  entries ← copy_loop disk skip t.entries t.broken
  ok (record { entries = entries; broken = false })

-- readMainLayers
unfoldable pub read_main_layers : Option Tarball → Result (List Text)
read_main_layers file = do item ← get_main_manifest_item file; ok item.layers

unfoldable pub require_same_count : List Text → List Text → Text → Result (Unit {0})
require_same_count layers digests message =
    if length layers == length digests then ok tt else err message

-- PruneTarball
unfoldable pub prune_tarball : Option Tarball → Disk → List Text → List Text → Result Tarball
prune_tarball file disk all_digests missing_digests = do
  main_layers ← read_main_layers file
  require_same_count main_layers all_digests
      (text "manifest layer count mismatch: cannot prune securely")
  copy_tar_excluding file disk (build_skip_set main_layers all_digests missing_digests)
