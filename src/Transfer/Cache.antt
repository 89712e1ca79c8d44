-- ===== src/Transfer/Cache.antt =====
-- internal/transfer/cache.go, and updateCacheAndLedger of internal/transfer/receiver.go: the layers
-- of a rebuilt image go to the cache, and then to the ledger's memory. The cache maps the folder of
-- a digest to its layer.tar.
pub mod Backed
use baleen_engine.Base.{
  ℕ, Bool, true, false, Option, none, some, List, [], ◌∷◌, Text, text, ltb, ◌==◌, if◌then◌else◌,
  length, Result, ok, err, ◌>>=◌, text_eq, nat_eq,
}
use baleen_engine.Base.Map.{Map, lookup, insert}
use baleen_engine.Transfer.Archive.{ManifestItem, Body, Tarball, open_tar, at_end, read_manifest}
use baleen_engine.Transfer.Stitch.{safe_digest, path_loop}
use baleen_engine.Ledger.{mark_layers_as_owned}
use baleen_engine.Ledger.Interface.{Bucket}

abbrev count_mismatch : Text
count_mismatch = text "manifest layer count mismatch: cannot reliably map digests to folders"

-- layerMap[physicalPath] = expectedDigests[i]
unfoldable pub digest_loop : List Text → List Text → Map Text Text → Map Text Text
digest_loop [] digests paths = paths
digest_loop (p ∷ ps) [] paths = paths
digest_loop (p ∷ ps) (d ∷ ds) paths = digest_loop ps ds (insert p d paths)

unfoldable pub first_layers : List ManifestItem → List Text → Result (Map Text Text)
unfolding digest_loop
first_layers [] digests = err count_mismatch
first_layers (item ∷ items) digests =
    if length item.layers == length digests
    then ok (digest_loop item.layers digests [])
    else err count_mismatch

-- buildLayerDigestMap: of the first item of the manifest
unfoldable pub build_layer_digest_map : Option Tarball → List Text → Result (Map Text Text)
build_layer_digest_map file expected_digests = do
  items ← read_manifest file
  first_layers items expected_digests

-- writeCachedLayer: `makes` tells the folders that os.MkdirAll can make, and a digest of less than
-- 15 bytes panics in the log line, with the file made.
unfoldable pub write_cached_layer :
    (Text → Bool) → Text → Body → Map Text Body → Map Text Body × Result (Unit {0})
write_cached_layer makes digest body cache =
    if makes (safe_digest digest)
    then (
      insert (safe_digest digest) body cache,
      if ltb (length digest) 15 then err (text "panic: slice bounds out of range") else ok tt,
    )
    else (cache, err (text "permission denied"))

-- The loop of extractMatchingLayers; the cache keeps what was written before an error.
unfoldable pub extract_loop :
    (Text → Bool)
    → Map Text Text
    → Map Text Body
    → Bool
    → Map Text Body
    → Map Text Body × Result (Unit {0})
extract_loop makes layer_map [] broken cache = (cache, at_end broken (ok tt))
extract_loop makes layer_map ((name, body) ∷ rest) broken cache = elim (lookup name layer_map) [
  | none ↦ extract_loop makes layer_map rest broken cache
  | some digest ↦
      let (cache', done) = write_cached_layer makes digest body cache in
      elim done [ ok _ ↦ extract_loop makes layer_map rest broken cache' | err e ↦ (cache', err e) ]
]

-- extractMatchingLayers
unfoldable pub extract_matching_layers :
    (Text → Bool)
    → Option Tarball
    → Map Text Text
    → Map Text Body
    → Map Text Body × Result (Unit {0})
unfolding extract_loop
extract_matching_layers makes file layer_map cache = elim (open_tar file) [
  | err e ↦ (cache, err e)
  | ok t ↦ extract_loop makes layer_map t.entries t.broken cache
]

-- ExtractAndCacheLayers
unfoldable pub extract_and_cache_layers :
    (Text → Bool) → Option Tarball → List Text → Map Text Body → Map Text Body × Result (Unit {0})
extract_and_cache_layers makes file expected_digests cache =
    elim (build_layer_digest_map file expected_digests) [
      | err e ↦ (cache, err e)
      | ok layer_map ↦ extract_matching_layers makes file layer_map cache
    ]

-- updateCacheAndLedger
unfoldable pub update_cache_and_ledger :
    (K : Bucket (Unit {0}))
    → (Text → Bool)
    → Option Tarball
    → List Text
    → List Text
    → Map Text Body
    → K.Store
    → Map Text Body × K.Store
update_cache_and_ledger K makes file all_layers [] cache known = (cache, known)
update_cache_and_ledger K makes file all_layers (m ∷ ms) cache known =
    let (cache', done) = extract_and_cache_layers makes file all_layers cache in
    elim done [ ok _ ↦ (cache', mark_layers_as_owned K (m ∷ ms) known) | err e ↦ (cache', known) ]
