-- ===== src/Service/Daemon.antt =====
-- cmd/baleen/daemon.go and client.go, and internal/api/server.go: what the launcher reports, the goroutine that
-- loads received files, and the one that stops an idle daemon.
pub mod Reports
pub mod Loads
pub mod Arrives
use baleen_engine.Base.{
  ℕ, ◌+◌, ◌*◌, Bool, true, false, not, ◌&&◌, Option, none, some, List, [], ◌∷◌, Text, text, ◌==◌,
  if◌then◌else◌, ltb, text_eq, nat_eq, Result, ok, err,
}
use baleen_engine.Base.Int.{ℤ, pos}
use baleen_engine.Base.Map.{Map, lookup, delete}
use baleen_engine.Transfer.Archive.{Tarball}
use baleen_engine.Transfer.Hub.{ProgressEvent, Hub, idle, publish}
use baleen_engine.Docker.Daemon.{Daemon}
use baleen_engine.Docker.Import.{load_and_tag}
use baleen_engine.Service.State.{ServiceState, Files, read_state, is_alive, wait_for_ready}

pub data Launched : Type 0 where
  -- what is printed as JSON; and an exit with status 1
  already_running ready : ServiceState → Launched
  not_launched not_ready : Text → Launched

-- The test for a service that runs.
unfoldable pub running_service : Files → (ℤ → Bool) → Option ServiceState
running_service f lives = elim (read_state f) [
  | err e ↦ none
  | ok state ↦ if is_alive lives state then some state else none
]

-- runLauncher, by the file and who lives at the start, the result of LaunchBackground, and what the
-- polls of WaitForReady find.
unfoldable pub run_launcher :
    Files → (ℤ → Bool) → Result (Unit {0}) → List (Files × (ℤ → Bool)) → Launched
unfolding running_service
run_launcher f lives launch polls = elim (running_service f lives) [
  | some state ↦ already_running state
  | none ↦ elim launch [
    | err e ↦ not_launched e
    | ok _ ↦ elim (wait_for_ready polls) [ err e ↦ not_ready e | ok state ↦ ready state ]
  ]
]

-- The name of the node in runDaemon: that of the flag, or the saved one, or a generated one.
unfoldable pub node_name_of : Text → Text → Text → Text
node_name_of flag saved generated =
    if flag == text "auto" then (if not (saved == []) then saved else generated) else flag

-- The name that runClient hands to the daemon that it starts.
unfoldable pub client_node_name : Text → Text → Text
client_node_name flag generated = if flag == text "auto" then generated else flag

pub data Connected : Type 0 where
  -- the service that StartClientREPL gets, or an exit with status 1
  connects : ServiceState → Connected
  exits : Connected

-- runClient, by what it finds as runLauncher does.
unfoldable pub run_client :
    Files → (ℤ → Bool) → Result (Unit {0}) → List (Files × (ℤ → Bool)) → Connected
unfolding running_service
run_client f lives launch polls = elim (running_service f lives) [
  | some state ↦ connects state
  | none ↦ elim launch [
    | err e ↦ exits
    | ok _ ↦ elim (wait_for_ready polls) [ err e ↦ exits | ok state ↦ connects state ]
  ]
]

-- The goroutine of StartDaemonServer that stops the daemon, by what its rounds find: the time since
-- the last request, and the transfers that are active. Whether it asks for the stop.
unfoldable pub idle_stop : List (ℕ × ℕ) → Bool
idle_stop [] = false
idle_stop ((idle_time, active) ∷ later) =
    let rest = idle_stop later in
    if ltb (5 * 60 * 1000000000) idle_time && active == 0 then true else rest

-- DownloadResult
pub record DownloadResult : Type 0 where
  pub path : Text
  pub image_name : Text
  pub peer : Text

-- The event at the end of a load.
unfoldable pub load_event : DownloadResult → Bool → ProgressEvent
load_event result loaded = record {
  direction = "pull";
  image = result.image_name;
  peer = result.peer;
  progress = record { num = 100; den = 1 };
  speed = idle;
  status = if loaded then "completed" else "failed";
  updated_at = 0;
}

module _ (D : Daemon) where
  -- What the loading changes: the received files by their paths, the images, and the events.
  pub record Loader : Type 0 where
    pub received : Map Text Tarball
    pub images : D.State
    pub hub : Hub

  -- What follows LoadAndTag: a file that was loaded is removed.
  unfoldable pub after_load : ℕ → DownloadResult → D.State × Result (Unit {0}) → Loader → Loader
  unfolding load_event
  after_load now result (images, ok _) l = record {
    received = delete result.path l.received;
    images = images;
    hub = publish now (load_event result true) l.hub;
  }
  after_load now result (images, err e) l = record {
    received = l.received;
    images = images;
    hub = publish now (load_event result false) l.hub;
  }

  -- One round of the goroutine; `none` is a search for a free tag that does not end.
  unfoldable pub auto_load : ℕ → DownloadResult → Loader → Option Loader
  unfolding after_load
  auto_load now result l =
      elim (load_and_tag D (lookup result.path l.received) result.image_name l.images) [
        | none ↦ none
        | some out ↦ some (after_load now result out l)
      ]

  -- The goroutine over the results that come in, each with its time.
  unfoldable pub auto_load_all : List (ℕ × DownloadResult) → Loader → Option Loader
  unfolding auto_load
  auto_load_all [] l = some l
  auto_load_all ((now, result) ∷ later) l = elim (auto_load now result l) [
    | none ↦ none
    | some l' ↦ auto_load_all later l'
  ]

  -- handleDownload of internal/cli/repl.go, which keeps the file
  unfoldable pub handle_download : ℕ → DownloadResult → Loader → Option Loader
  unfolding after_load
  handle_download now result l =
      elim (load_and_tag D (lookup result.path l.received) result.image_name l.images) [
        | none ↦ none
        | some out ↦ some (record (after_load now result out l) { received = l.received })
      ]
