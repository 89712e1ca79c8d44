-- ===== src/Transfer/Cache/Backed.antt =====
-- What the ledger takes for cached is in the cache.
use baleen_engine.Base.{
  ◌≡◌, Bool, true, Option, some, List, [], ◌∷◌, arith, Text, ==_iff, ==_self, is_some, Result-cases,
  ok, text_eq, elem, inl, inr, Option-cases,
}
use baleen_engine.Base.Map.{Map, lookup, insert, lookup-insert, lookup-cons}
use baleen_engine.Transfer.Archive.{Body, Tarball, open_tar}
use baleen_engine.Transfer.Stitch.{safe_digest}
use baleen_engine.Transfer.Cache.{
  build_layer_digest_map, write_cached_layer, extract_loop, extract_matching_layers,
  extract_and_cache_layers, update_cache_and_ledger,
}
use baleen_engine.Ledger.{has_layer}
use baleen_engine.Ledger.Layers.{has_layer-mark}
use baleen_engine.Ledger.Interface.{Bucket}

abbrev pub in_cache : Text → Map Text Body → Bool
in_cache digest cache = is_some (lookup (safe_digest digest) cache)

-- Nothing is lost from the cache, however the loop ends.
extract_loop-keeps :
    (makes : Text → Bool) (layer_map : Map Text Text) (entries : Map Text Body) (broken : Bool)
    (cache : Map Text Body) (d : Text)
    → in_cache d cache ≡ true
    → in_cache d (extract_loop makes layer_map entries broken cache).0 ≡ true
unfolding extract_loop write_cached_layer
extract_loop-keeps makes layer_map [] broken cache d h = h
extract_loop-keeps makes layer_map ((name, body) ∷ rest) broken cache d h =
    elim (Option-cases (lookup name layer_map)) [
      | inl e ↦ ground (arith, e, extract_loop-keeps makes layer_map rest broken cache d)
      | inr (digest, e) ↦ ground (
        arith,
        e,
        lookup-insert (safe_digest digest) (safe_digest d) body cache,
        extract_loop-keeps makes layer_map rest broken (insert (safe_digest digest) body cache) d,
      )
    ]

-- A loop that ends well has cached the digest of every entry that the map names.
extract_loop-caches :
    (makes : Text → Bool) (layer_map : Map Text Text) (entries : Map Text Body) (broken : Bool)
    (cache : Map Text Body) (p d : Text)
    → (extract_loop makes layer_map entries broken cache).1 ≡ ok tt
    → lookup p layer_map ≡ some d
    → is_some (lookup p entries) ≡ true
    → in_cache d (extract_loop makes layer_map entries broken cache).0 ≡ true
unfolding extract_loop write_cached_layer
extract_loop-caches makes layer_map [] broken cache p d done e h = unfold lookup in cc
extract_loop-caches makes layer_map ((name, body) ∷ rest) broken cache p d done e h =
    elim (Option-cases (lookup name layer_map)) [
      | inl no_digest ↦ ground (
        arith,
        no_digest,
        lookup-cons p name body rest,
        ==_iff name p,
        extract_loop-caches makes layer_map rest broken cache p d,
      )
      | inr (digest, found) ↦ ground (
        arith,
        found,
        lookup-cons p name body rest,
        ==_iff name p,
        ==_self (safe_digest digest),
        lookup-insert (safe_digest digest) (safe_digest d) body cache,
        extract_loop-keeps makes layer_map rest broken (insert (safe_digest digest) body cache) d,
        extract_loop-caches makes layer_map rest broken (insert (safe_digest digest) body cache) p
            d,
      )
    ]

-- The tarball has an entry for each of the missing layers, under the path that its manifest gives.
abbrev pub Carries : Option Tarball → List Text → List Text → Type 0
Carries file all_layers missing =
    (t : Tarball) (layer_map : Map Text Text)
    → file ≡ some t
    → build_layer_digest_map file all_layers ≡ ok layer_map
    → (d : Text) → elem d missing ≡ true
    → (p : Text) × (lookup p layer_map ≡ some d) × (is_some (lookup p t.entries) ≡ true)

module _ (makes : Text → Bool) (file : Option Tarball) (all_layers : List Text)
    (cache : Map Text Body) where
  extract-keeps :
      (d : Text)
      → in_cache d cache ≡ true
      → in_cache d (extract_and_cache_layers makes file all_layers cache).0 ≡ true
  unfolding extract_and_cache_layers extract_matching_layers
  extract-keeps d h = elim (Result-cases (build_layer_digest_map file all_layers)) [
    | inr (e, refused) ↦ ground (arith, refused)
    | inl (layer_map, built) ↦ elim (Result-cases (open_tar file)) [
      | inr (e, missing) ↦ ground (arith, built, missing)
      | inl (t, opened) ↦
          ground
            (arith, built, opened, extract_loop-keeps makes layer_map t.entries t.broken cache d)
    ]
  ]

  extract-caches :
      (missing : List Text) (d : Text)
      → (extract_and_cache_layers makes file all_layers cache).1 ≡ ok tt
      → Carries file all_layers missing
      → elem d missing ≡ true
      → in_cache d (extract_and_cache_layers makes file all_layers cache).0 ≡ true
  unfolding extract_and_cache_layers extract_matching_layers open_tar
  extract-caches missing d done carries h =
      elim (Result-cases (build_layer_digest_map file all_layers)) [
        | inr (e, refused) ↦ ground (arith, refused)
        | inl (layer_map, built) ↦ elim (Option-cases file) [
          | inl no_file ↦ ground (arith, built, no_file)
          | inr (t, is_file) ↦
              let (p, at, in_tar) = carries t layer_map is_file built d h in
              ground (
                arith,
                built,
                is_file,
                extract_loop-caches makes layer_map t.entries t.broken cache p d,
                at,
                in_tar,
              )
        ]
      ]

module _ (K : Bucket (Unit {0})) where
  -- Every layer that the ledger knows is in the cache.
  abbrev pub IsBacked : Map Text Body → K.Store → Type 0
  IsBacked cache known = (d : Text) → has_layer K known d ≡ true → in_cache d cache ≡ true

  -- updateCacheAndLedger keeps every known layer backed by the cache, whatever fails on the way, if
  -- the rebuilt tarball carries the missing layers.
  pub update_cache_and_ledger-IsBacked :
      (makes : Text → Bool) (file : Option Tarball) (all_layers missing : List Text)
      (cache : Map Text Body) (known : K.Store)
      → Carries file all_layers missing
      → IsBacked cache known
      → let (cache', known') =
          update_cache_and_ledger K makes file all_layers missing cache known in
        IsBacked cache' known'
  unfolding update_cache_and_ledger
  update_cache_and_ledger-IsBacked makes file all_layers [] cache known carries backed d h =
      backed d h
  update_cache_and_ledger-IsBacked makes file all_layers (m ∷ ms) cache known carries backed d h =
      elim (Result-cases (extract_and_cache_layers makes file all_layers cache).1) [
        | inr (e, failed) ↦
            ground (arith, failed, extract-keeps makes file all_layers cache d, backed d)
        | inl (tt, done) ↦ ground (
          arith,
          done,
          extract-keeps makes file all_layers cache d,
          extract-caches makes file all_layers cache (m ∷ ms) d done carries,
          backed d,
          has_layer-mark K d (m ∷ ms) known,
        )
      ]
