-- ===== src/Tests/Store.antt =====
-- The ledger over buckets in memory, and the layer cache.
use baleen_engine.Base.{
  ℕ, ◌≡◌, refl, true, false, Option, some, List, [], ◌∷◌, arith, Text, text, ==_iff, is_some,
  string_eq, nat_eq, text_eq, elem, ok, text_beq,
}
use baleen_engine.Base.Map.{Map, lookup, insert}
use baleen_engine.Ledger.{Commit, Stored, json, fail_pending_transfers, has_layer, commit_key}
use baleen_engine.Ledger.Interface.{Bucket, in_memory}
use baleen_engine.Ledger.History.{any_corrupt, fail_pending_exact}
use baleen_engine.Transfer.Archive.{read_manifest, open_tar, find_manifest, decode_manifest}
use baleen_engine.Tests.Delta.{image}
use baleen_engine.Transfer.Cache.{build_layer_digest_map, first_layers, update_cache_and_ledger}
use baleen_engine.Transfer.Cache.Backed.{IsBacked, Carries, update_cache_and_ledger-IsBacked}

abbrev B : Bucket Stored
B = in_memory Stored

abbrev K : Bucket (Unit {0})
K = in_memory Unit

abbrev pending : Commit
pending = record {
  hash = text "ab12";
  image = text "web";
  author = text "ann";
  peer = text "bob";
  timestamp = text "2026-01-02T00:00:00Z";
  direction = "Exporting";
  status = "Pending";
}

abbrev history : B.Store
history = B.put (commit_key pending) (json pending) B.empty

abbrev parse_all : Text → Option ℕ
parse_all t = some 5

fail_pending_exact_example :
    B.get (commit_key pending) (fail_pending_transfers B history)
    ≡ some (json (record pending { status = "Failed" }))
unfolding commit_key insert lookup text_beq
fail_pending_exact_example = fail_pending_exact B history (commit_key pending)

history_decodes : any_corrupt (B.cursor history) ≡ false
unfolding any_corrupt insert
history_decodes = refl

abbrev web_digests : List Text
web_digests = text "sha256:aaaaaaaaaaaa" ∷ text "sha256:bbbbbbbbbbbb" ∷ []

abbrev web_map : Map Text Text
web_map =
    (text "1/layer.tar", text "sha256:aaaaaaaaaaaa")
    ∷ (text "2/layer.tar", text "sha256:bbbbbbbbbbbb")
    ∷ []

web_map_built : build_layer_digest_map (some image) web_digests ≡ ok web_map
unfolding build_layer_digest_map read_manifest open_tar find_manifest decode_manifest first_layers
    insert text_beq
web_map_built = refl

web_map_first : lookup (text "1/layer.tar") web_map ≡ some (text "sha256:aaaaaaaaaaaa")
unfolding lookup text_beq
web_map_first = refl

web_entry : is_some (lookup (text "1/layer.tar") image.entries) ≡ true
unfolding lookup text_beq
web_entry = refl

web_Carries : Carries (some image) web_digests (text "sha256:aaaaaaaaaaaa" ∷ [])
unfolding elem
web_Carries t layer_map is_file built d h = (
  text "1/layer.tar",
  ground (arith, built, web_map_built, web_map_first, ==_iff (text "sha256:aaaaaaaaaaaa") d),
  ground (arith, is_file, web_entry),
)

update_cache_and_ledger-IsBacked_example :
    let (cache, known) =
      update_cache_and_ledger K
        (λ folder. true)
        (some image)
        web_digests
        (text "sha256:aaaaaaaaaaaa" ∷ [])
        []
        K.empty in
    IsBacked K cache known
unfolding has_layer lookup
update_cache_and_ledger-IsBacked_example =
    update_cache_and_ledger-IsBacked K (λ folder. true) (some image) web_digests
      (text "sha256:aaaaaaaaaaaa" ∷ []) [] K.empty web_Carries (λ d h. cc)
