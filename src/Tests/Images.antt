-- ===== src/Tests/Images.antt =====
-- A Docker daemon in memory, and the exports and loads of images with it.
use baleen_engine.Base.{
  ℕ, ◌≡◌, refl, Bool, true, false, none, some, Option, List, [], ◌∷◌, ◌++◌, Text, text, Result, ok,
  err, ◌==◌, ==_iff, text_eq, nat_eq, elem, ◌⊎◌, inl, inr, arith, if◌then◌else◌, is_some, ◌||◌,
  Option-cases, Bool-cases,
}
use baleen_engine.Base.Map.{Map, lookup, insert, delete, lookup-insert, lookup-delete}
use baleen_engine.Ledger.Interface.{in_memory}
use baleen_engine.Ledger.{Stored, json, commit_key}
use baleen_engine.Network.Peers.{new_peer_registry}
use baleen_engine.Network.Address.{resolve_target_address}
use baleen_engine.Transfer.Archive.{Tarball}
use baleen_engine.Transfer.Manager.{empty_manager, register_pending_conn, register}
use baleen_engine.Transfer.Engine.{Engine, publish_status}
use baleen_engine.Docker.Daemon.{Image, Message, message, Daemon}
use baleen_engine.Docker.Export.{temp_tag}
use baleen_engine.Docker.Export.{export_image}
use baleen_engine.Cli.Push.{export_with_fallback}
use baleen_engine.Cli.Push.Fallback.{fallback_unreachable}
use baleen_engine.Docker.Preflight.{PreflightConfig}
use baleen_engine.Docker.Import.{
  read_messages, load_and_tag, backup, find_free, load_then_tag, retag, load_image, drop_temporary,
  repo_of, next_tag,
}
use baleen_engine.Docker.Import.Backup.{IsFirstFree}
use baleen_engine.Docker.Import.Kept.{IsLoadedFrom, loaded_is_tagged, old_image_kept}
use baleen_engine.Api.Dispatch.{
  DispatchRequest, dispatch, Run, temporary_commit, Sender, prepare, run_export_pipeline,
}
use baleen_engine.Api.Dispatch.Pipeline.{accepted_twice, failed_pipeline_leaves}
use baleen_engine.Service.Daemon.{DownloadResult, Loader, auto_load, auto_load_all}
use baleen_engine.Service.Daemon.Loads.{Settled, auto_load_settles}

-- The keys of a map.
unfoldable pub keys : Map Text Image → List Text
keys [] = []
keys ((k, i) ∷ m) = k ∷ keys m

pub elem-keys :
    (j : Text) (m : Map Text Image) (i : Image) → lookup j m ≡ some i → elem j (keys m) ≡ true
unfolding keys elem lookup
elem-keys j [] i h = ground (arith, h)
elem-keys j ((k, o) ∷ m) i h = ground (arith, h, ==_iff k j, ==_iff j k, elem-keys j m i)

abbrev pub built : Image
built = record { id = text "sha256:2"; os = text "linux"; architecture = text "arm64" }

abbrev pub loaded : Text
loaded = text "web:latest"

unfoldable pub tag_in : Text → Text → Map Text Image → Result (Map Text Image)
tag_in source target m = elim (lookup source m) [
  | none ↦ err (text "no such image")
  | some i ↦ ok (insert target i m)
]

pub tag_in-lookup :
    (source target j : Text) (m m' : Map Text Image)
    → tag_in source target m ≡ ok m'
    → lookup j m' ≡ (if target == j then lookup source m else lookup j m)
unfolding tag_in
tag_in-lookup source target j m m' h = elim (Option-cases (lookup source m)) [
  | inl absent ↦ ground (arith, absent, h)
  | inr (i, found) ↦ ground (arith, found, h, lookup-insert target j i m)
]

unfoldable pub load_in : Tarball → Map Text Image → Result (Map Text Image × List Message)
load_in file m = ok (insert loaded built m, message (text "Loaded image: web:latest") [] ∷ [])

pub load_lem :
    (file : Tarball) (j : Text) (m m' : Map Text Image) (messages : List Message)
    → load_in file m ≡ ok (m', messages)
    → elem j (loaded ∷ []) ≡ false
    → lookup j m' ≡ lookup j m
unfolding load_in elem
load_lem file j m m' messages h absent =
    ground (arith, h, absent, lookup-insert loaded j built m, ==_iff loaded j, ==_iff j loaded)

unfoldable pub remove_in : Text → Map Text Image → Result (Map Text Image)
remove_in name m = ok (delete name m)

pub remove_lem :
    (name j : Text) (m m' : Map Text Image)
    → remove_in name m ≡ ok m'
    → (name == j) ≡ false
    → lookup j m' ≡ lookup j m
unfolding remove_in
remove_lem name j m m' h apart = ground (arith, h, apart, lookup-delete name j m)

unfoldable pub build_in : Text → Text → Map Text Image → Result (Map Text Image)
build_in name platform m = ok (insert name built m)

pub build_lem :
    (name platform j : Text) (m m' : Map Text Image)
    → build_in name platform m ≡ ok m'
    → (name == j) ≡ false
    → lookup j m' ≡ lookup j m
unfolding build_in
build_lem name platform j m m' h apart = ground (arith, h, apart, lookup-insert name j built m)

-- The daemon of one tarball, which brings web:latest.
abbrev pub memory : Daemon
memory = record {
  State = Map Text Image;
  names = keys;
  inspect = λ j m. lookup j m;
  tag = tag_in;
  load = load_in;
  save = λ name m. err (text "no such image");
  remove = remove_in;
  build = build_in;
  brings = λ file. loaded ∷ [];
  inspect-named = elem-keys;
  inspect-tag = tag_in-lookup;
  inspect-load = load_lem;
  inspect-remove = remove_lem;
  inspect-build = build_lem;
}

abbrev pub old : Image
old = record { id = text "sha256:1"; os = text "linux"; architecture = text "amd64" }

-- The name web:latest is taken, and so is web:v1.
abbrev pub images : Map Text Image
images = (loaded, old) ∷ (text "web:v1", old) ∷ []

abbrev file : Tarball
file = record { entries = []; broken = false }

tags : (next : Text) → (m : Map Text Image) × (tag_in loaded next images ≡ ok m)
unfolding tag_in lookup baleen_engine.Base.text_beq
tags next = (_, refl)

old_image_kept_example :
    (n : ℕ) × IsFirstFree memory (repo_of loaded) 1 n images
    × (m : Map Text Image) × (r : Result (Unit {0})) × (load_and_tag memory
          (some file)
          loaded
          images
        ≡ some (m, r))
    × ((elem (next_tag (repo_of loaded) n) (loaded ∷ []) ≡ true)
        ⊎ (lookup (next_tag (repo_of loaded) n) m ≡ some old))
unfolding lookup baleen_engine.Base.text_beq
old_image_kept_example = old_image_kept memory file loaded images old refl tags

abbrev result : DownloadResult
result = record { path = text "/in/web.tar"; image_name = loaded; peer = text "ann" }

abbrev loader : Loader memory
loader = record { received = (text "/in/web.tar", file) ∷ []; images = images; hub = [] }

auto_load_settles_example :
    ((after : Loader memory) × (auto_load memory 5 result loader ≡ some after)
      × Settled memory result loader after)
    × ((last : Loader memory) × (auto_load_all memory ((5, result) ∷ (6, result) ∷ []) loader
          ≡ some last))
auto_load_settles_example =
    auto_load_settles memory 5 result ((5, result) ∷ (6, result) ∷ []) loader

abbrev request : DispatchRequest
request = record { image = loaded; peer = text "nobody"; build_context = [] }

abbrev engine : Engine
engine = record {
  manager = empty_manager;
  hub = [];
  writers = [];
  chans = [];
  wire = [];
  closed = [];
  now = 0;
}

abbrev one_run : Run
one_run = record {
  node = text "me";
  temp_dir = text "/tmp";
  temp_id = text "pending-7";
  fresh_id = text "pending-8";
  now = 7;
  started = text "10:00";
  failed_at = text "10:01";
  push_started = text "10:02";
  push_ended = text "10:03";
  remote_arch = λ target. text "linux/amd64";
  place = record { dockerfile = λ context. false; created = ok tt; copied = ok tt };
  hash = λ exported. ok (text "aa");
  pushed = λ target exported. ok tt;
}

abbrev sender : Sender (in_memory Stored) memory
sender = record { history = (in_memory Stored).empty; images = images; engine = engine }

abbrev exporting : Engine
exporting =
    publish_status loaded (text "nobody") "push" "exporting"
      (prepare (in_memory Stored) memory one_run request sender).engine

accepted_twice_example :
    (dispatch (some request) exporting ≡ (202, some (record request { build_context = text "." })))
    × (dispatch (some request) (record exporting {
      manager =
          register_pending_conn loaded (text "nobody") (record { conn = 3 }) exporting.manager;
    })
        ≡ (409, none))
    × (dispatch
          (some request)
          (record exporting { manager = register loaded (text "nobody") 4 exporting.manager })
        ≡ (409, none))
unfolding dispatch baleen_engine.Transfer.Manager.get_pending_conn lookup
    baleen_engine.Transfer.Manager.get baleen_engine.Api.Dispatch.context_of
    baleen_engine.Base.text_beq
accepted_twice_example =
    accepted_twice (in_memory Stored) memory one_run request sender (record { conn = 3 }) 4 refl

failed_pipeline_leaves_example :
    let after =
      run_export_pipeline (in_memory Stored) memory one_run new_peer_registry request sender in
    let failed = temporary_commit one_run request (text "10:01") "Exported" "Failed" in
    let pending = temporary_commit one_run request (text "10:00") "Exporting" "Pending" in
    ((in_memory Stored).get (commit_key failed) after.history ≡ some (json failed))
    × ((in_memory Stored).get (commit_key pending) after.history ≡ some (json pending))
    × (lookup loaded after.images ≡ some old)
unfolding elem lookup temp_tag resolve_target_address baleen_engine.Base.text_beq
    baleen_engine.Base.cut baleen_engine.Network.Peers.get_detailed_peers
    baleen_engine.Network.Peers.detail_loop
failed_pipeline_leaves_example =
    failed_pipeline_leaves (in_memory Stored) memory one_run new_peer_registry request sender loaded
      refl refl (λ e. ground (arith, e)) refl (inl refl)

-- What LoadAndTag leaves: the old image is web:v2 now.
abbrev other_after : Map Text Image
other_after = (loaded, built) ∷ ((text "web:v1", old) ∷ ((text "web:v2", old) ∷ []))

load_and_tag_test : load_and_tag memory (some file) loaded images ≡ some (other_after, ok tt)
unfolding load_and_tag lookup insert keys elem tag_in load_in temp_tag
    baleen_engine.Docker.Import.next_tag baleen_engine.Docker.Import.repo_of
    baleen_engine.Base.text_beq baleen_engine.Base.Decimal.decimal baleen_engine.Base.has_prefix
    baleen_engine.Base.trim_space baleen_engine.Base.trim_prefix
load_and_tag_test = refl

loaded_is_tagged_example : IsLoadedFrom memory file loaded images other_after
loaded_is_tagged_example = loaded_is_tagged memory file loaded images other_after load_and_tag_test

abbrev config : PreflightConfig
config = record {
  image_name = loaded;
  expected_target = text "linux/arm64";
  export_dir = text "/tmp";
  build_context = text ".";
  force_raw_export = false;
}

fallback_unreachable_example :
    export_with_fallback (in_memory Stored) memory (text "n") one_run.place config images
    ≡ export_image memory one_run.place config images
unfolding baleen_engine.Base.text_beq
fallback_unreachable_example =
    fallback_unreachable (in_memory Stored) memory (text "n") one_run.place config images
      (λ image m. refl) refl refl
