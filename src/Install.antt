-- ===== src/Install.antt =====
-- cmd/baleen/install.go: the copy of the program that is a plugin of the Docker command line. The
-- paths are known; what the calls of the system answer is an argument.
pub mod Plugin
use baleen_engine.Base.{
  ℕ, Bool, true, false, not, ◌&&◌, Option, none, some, List, [], ◌∷◌, ◌++◌, Text, text, ◌==◌,
  if◌then◌else◌, text_eq, nat_eq, ltb, length, take, has_prefix, contains, Result, ok, err,
}
use baleen_engine.Base.Int.{ℤ}
use baleen_engine.Base.Map.{Map, lookup, insert, delete}
use baleen_engine.Service.State.{ServiceState, Files, clear_state}
use baleen_engine.Service.Daemon.{running_service}

-- How far copyFile comes: it does not open both files, it writes so many bytes, or it writes all.
pub data Copied : Type 0 where
  unopened all_of_it : Copied
  stopped_at : ℕ → Copied

-- copyFile
unfoldable pub copy_file : Copied → Text → Text → Map Text Text → Map Text Text
copy_file copied src dst files = elim (lookup src files) [
  | none ↦ files
  | some bytes ↦ elim copied [
    | unopened ↦ files
    | all_of_it ↦ insert dst bytes files
    | stopped_at n ↦ insert dst (take n bytes) files
  ]
]

-- os.Rename
unfoldable pub rename : Text → Text → Map Text Text → Map Text Text
rename from to files = elim (lookup from files) [
  | none ↦ files
  | some bytes ↦ insert to bytes (delete from files)
]

-- err1 == nil && err2 == nil, and then the test of the sizes
unfoldable pub looks_current : Option Text → Option Text → Bool
looks_current none dst = false
looks_current (some src) none = false
looks_current (some src) (some dst) = ltb 0 (length dst) && length src == length dst

-- AutoUpdateCLIPlugin, on Windows or not
unfoldable pub auto_update_cli_plugin : Bool → Copied → Text → Text → Map Text Text → Map Text Text
unfolding copy_file rename looks_current
auto_update_cli_plugin windows copied exe target files =
    if exe == target
    then files
    else if looks_current (lookup exe files) (lookup target files)
    then files
    else if windows
    then copy_file copied exe target
        (rename target (target ++ text ".old") (delete (target ++ text ".old") files))
    else copy_file copied exe target files

-- What the cleanup changes: the state file, the files, and the services that were asked to stop.
pub record Machine : Type 0 where
  pub service : Files
  pub files : Map Text Text
  pub stops : List ServiceState

-- The output of `docker extension ls`, in lower case, if docker is found and answers.
unfoldable pub must_clean : Text → Text → Option Text → Bool
must_clean exe plugin_dir extensions =
    has_prefix exe plugin_dir
    && (elim extensions [ none ↦ false | some output ↦ not (contains output (text "baleen")) ])

-- The request to stop a service that runs.
unfoldable pub ask_to_stop : (ℤ → Bool) → Machine → Machine
ask_to_stop lives m = elim (running_service m.service lives) [
  | none ↦ m
  | some state ↦ record m { stops = m.stops ++ state ∷ [] }
]

-- The removal of the plugin.
unfoldable pub remove_plugin : Bool → Text → Map Text Text → Map Text Text
unfolding rename
remove_plugin windows target files =
    if windows then rename target (target ++ text ".removed") files else delete target files

-- SelfCleanupIfExtensionRemoved, and whether it ends the program
unfoldable pub self_cleanup :
    Bool → Text → Text → Text → Option Text → (ℤ → Bool) → Machine → Machine × Bool
unfolding must_clean ask_to_stop remove_plugin
self_cleanup windows exe plugin_dir target extensions lives m =
    if must_clean exe plugin_dir extensions
    then (
      record (ask_to_stop lives m) {
        service = clear_state m.service;
        files = remove_plugin windows target m.files;
      },
      true,
    )
    else (m, false)
