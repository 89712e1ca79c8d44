-- ===== src/Transfer/Stitch.antt =====
-- internal/transfer/stitch.go: the payload with the cached layers back in.
use baleen_engine.Base.{
  Bool, false, Option, none, some, List, [], ◌∷◌, ◌++◌, Text, text, Result, ok, err, ◌>>=◌, ◌>>◌,
  text_eq, replace_all,
}
use baleen_engine.Base.Map.{Map, lookup, insert}
use baleen_engine.Transfer.Archive.{Body, Tarball, open_tar, at_end, get_main_manifest_item}
use baleen_engine.Transfer.Prune.{Disk, create, write_entry, require_same_count}

-- The loop of buildDigestToPathMap: a later layer of the same digest overwrites an earlier one.
unfoldable pub path_loop : List Text → List Text → Map Text Text → Map Text Text
path_loop [] digests paths = paths
path_loop (p ∷ ps) [] paths = paths
path_loop (p ∷ ps) (d ∷ ds) paths = path_loop ps ds (insert d p paths)

-- buildDigestToPathMap
unfoldable pub build_digest_to_path_map : Option Tarball → List Text → Result (Map Text Text)
build_digest_to_path_map file all_digests = do
  item ← get_main_manifest_item file
  require_same_count item.layers all_digests
      (text "manifest layer count mismatch: cannot stitch payload safely")
  ok (path_loop item.layers all_digests [])

-- The loop of copyAllTarEntries.
unfoldable pub copy_all_loop : Disk → Map Text Body → Bool → Result (Map Text Body)
copy_all_loop disk [] broken = at_end broken (ok [])
copy_all_loop disk ((name, body) ∷ rest) broken =
    write_entry disk (name, body) (copy_all_loop disk rest broken)

-- copyAllTarEntries
unfoldable pub copy_all_tar_entries : Option Tarball → Disk → Result (Map Text Body)
copy_all_tar_entries file disk = do t ← open_tar file; copy_all_loop disk t.entries t.broken

-- The folder of a digest under the cache: ':' becomes '-'.
unfoldable pub safe_digest : Text → Text
safe_digest digest = replace_all b':' b'-' digest

-- pathMap[digest], "" where it is missing
unfoldable pub path_of : Text → Map Text Text → Text
path_of digest paths = elim (lookup digest paths) [ none ↦ [] | some p ↦ p ]

-- The bytes of <cache>/<safe digest>/layer.tar; the cache maps folders to them.
unfoldable pub open_cached : Map Text Body → Text → Result Body
open_cached cache digest = elim (lookup (safe_digest digest) cache) [
  | none ↦ err (text "open layer.tar: no such file or directory")
  | some body ↦ ok body
]

-- injectCachedLayers over injectOneLayer: the entries that are appended.
unfoldable pub inject_cached_layers :
    Disk → Map Text Body → List Text → Map Text Text → Result (Map Text Body)
inject_cached_layers disk cache [] paths = ok []
inject_cached_layers disk cache (digest ∷ rest) paths =
    let later = inject_cached_layers disk cache rest paths in
    (do body ← open_cached cache digest; write_entry disk (path_of digest paths, body) later)

-- StitchTarball
unfoldable pub stitch_tarball :
    Option Tarball → Disk → Map Text Body → List Text → List Text → Result Tarball
stitch_tarball pruned disk cache all_digests already_owned = do
  paths ← build_digest_to_path_map pruned all_digests
  create disk
  copied ← copy_all_tar_entries pruned disk
  injected ← inject_cached_layers disk cache already_owned paths
  ok (record { entries = copied ++ injected; broken = false })
