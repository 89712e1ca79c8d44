-- ===== src/Transfer/Archive.antt =====
-- Docker tarballs as internal/transfer reads them (manifest.go, tarball.go).
-- A tarball is the entries that tar.Reader yields, and whether the stream then breaks. A body is
-- known up to what the JSON decoders make of it: a manifest, an image config, or neither.
use baleen_engine.Base.{
  ℕ, Bool, true, false, Option, none, some, List, [], ◌∷◌, Text, text, ltb, ◌==◌, if◌then◌else◌,
  length, Result, ok, err, ◌>>=◌, text_eq,
}
use baleen_engine.Base.Map.{Map}

-- manifestItem
pub record ManifestItem : Type 0 where
  pub config : Text
  pub layers : List Text

pub data Body : Type 0 where
  manifest : List ManifestItem → Body
  config : List Text → Body
  blob : Text → Body

pub record Tarball : Type 0 where
  pub entries : Map Text Body
  pub broken : Bool

abbrev pub manifest_name : Text
manifest_name = text "manifest.json"

-- json.NewDecoder(tr).Decode(&manifest)
unfoldable pub decode_manifest : Body → Result (List ManifestItem)
decode_manifest (manifest items) = ok items
decode_manifest (config ids) = err (text "failed to parse manifest: invalid JSON")
decode_manifest (blob bytes) = err (text "failed to parse manifest: invalid JSON")

-- What tr.Next() answers behind the last entry: io.EOF, or an error.
unfoldable pub at_end {ℓ} : {A : Type ℓ} → Bool → Result A → Result A
at_end true r = err (text "unexpected EOF")
at_end false r = r

-- The loop of readManifest.
unfoldable pub find_manifest : Map Text Body → Bool → Result (List ManifestItem)
find_manifest [] broken = at_end broken (err (text "manifest.json not found in tarball"))
find_manifest ((name, body) ∷ rest) broken =
    let later = find_manifest rest broken in
    if name == manifest_name then decode_manifest body else later

-- `none` is a path that os.Open refuses.
unfoldable pub open_tar : Option Tarball → Result Tarball
open_tar none = err (text "no such file or directory")
open_tar (some t) = ok t

unfoldable pub read_manifest : Option Tarball → Result (List ManifestItem)
read_manifest file = do t ← open_tar file; find_manifest t.entries t.broken

-- The loop of GetMainManifestItem over `maxLayers` and `mainItem`.
unfoldable pub longest : ℕ → Option ManifestItem → List ManifestItem → Option ManifestItem
longest max_layers main_item [] = main_item
longest max_layers main_item (m ∷ ms) =
    let more = ltb max_layers (length m.layers) in
    longest (if more then length m.layers else max_layers) (if more then some m else main_item) ms

unfoldable pub or_no_layers : Option ManifestItem → Result ManifestItem
or_no_layers none = err (text "no layers found in manifest")
or_no_layers (some m) = ok m

unfoldable pub main_item : List ManifestItem → Result ManifestItem
unfolding longest or_no_layers
main_item items = or_no_layers (longest 0 none items)

-- GetMainManifestItem
unfoldable pub get_main_manifest_item : Option Tarball → Result ManifestItem
get_main_manifest_item file = do items ← read_manifest file; main_item items

-- json.NewDecoder(tr).Decode(&cfg)
unfoldable pub decode_config : Body → Result (List Text)
decode_config (config ids) = ok ids
decode_config (manifest items) = err (text "invalid config JSON")
decode_config (blob bytes) = err (text "invalid config JSON")

-- The loop of getLayersFromTarball.
unfoldable pub find_config : Text → Map Text Body → Bool → Result (List Text)
find_config wanted [] broken = at_end broken (err (text "config file not found inside tarball"))
find_config wanted ((name, body) ∷ rest) broken =
    let later = find_config wanted rest broken in
    if name == wanted then decode_config body else later

-- getLayersFromTarball
unfoldable pub get_layers_from_tarball : Option Tarball → Result (List Text)
get_layers_from_tarball file = do
  item ← get_main_manifest_item file
  t ← open_tar file
  find_config item.config t.entries t.broken
