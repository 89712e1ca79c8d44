-- ===== src/Service/State.antt =====
-- internal/service/state.go: the file with the running service's port and token. Its path is there;
-- times are nanoseconds.
pub mod Ready
use baleen_engine.Base.{
  ℕ, suc, ◌+◌, Bool, true, false, not, ◌&&◌, Option, none, some, List, [], ◌∷◌, Text, text,
  if◌then◌else◌, ltb, Result, ok, err,
}
use baleen_engine.Base.Int.{ℤ, pos, negsuc}

-- ServiceState
pub record ServiceState : Type 0 where
  pub port : ℤ
  pub token : Text
  pub pid : ℤ
  pub node_name : Text
  pub started_at : ℕ

-- The file and its temporary neighbour: not there, unreadable as JSON, or a state.
pub data StateFile : Type 0 where
  absent garbled : StateFile
  holds : ServiceState → StateFile

pub record Files : Type 0 where
  pub current : StateFile
  pub temporary : StateFile

-- The steps of WriteState, each of which the process may not live to take: the temporary file is
-- created empty, filled, and renamed.
pub data Written : Type 0 where
  nothing opened filled renamed : Written

unfoldable pub write_state : Written → ServiceState → Files → Files
write_state nothing state f = f
write_state opened state f = record f { temporary = garbled }
write_state filled state f = record f { temporary = holds state }
write_state renamed state f = record { current = holds state; temporary = absent }

-- ReadState
unfoldable pub read_state : Files → Result ServiceState
read_state f = elim f.current [
  | absent ↦ err (text "no such file or directory")
  | garbled ↦ err (text "parse state file: invalid character")
  | holds state ↦ ok state
]

-- ClearState
unfoldable pub clear_state : Files → Files
clear_state f = record f { current = absent }

unfoldable pub positive : ℤ → Bool
positive (pos n) = ltb 0 n
positive (negsuc n) = false

-- IsAlive; `lives` is os.FindProcess with isProcessAlive
unfoldable pub is_alive : (ℤ → Bool) → ServiceState → Bool
unfolding positive
is_alive lives state = positive state.pid && lives state.pid

-- The test of WaitForReady on one reading of the file.
unfoldable pub ready : (ℤ → Bool) → Result ServiceState → Option ServiceState
unfolding is_alive positive
ready lives (err e) = none
ready lives (ok state) = if positive state.port && is_alive lives state then some state else none

-- WaitForReady, by what its polls find until the deadline: the file and who lives at that moment.
unfoldable pub wait_for_ready : List (Files × (ℤ → Bool)) → Result ServiceState
unfolding ready read_state
wait_for_ready [] = err (text "timed out waiting for background service to become ready")
wait_for_ready ((f, lives) ∷ later) = elim (ready lives (read_state f)) [
  | some state ↦ ok state
  | none ↦ wait_for_ready later
]

-- KillIfOutdated, by the modification time of the executable, if it can be found, and whether
-- os.FindProcess succeeds
unfoldable pub kill_if_outdated : Option ℕ → Bool → ServiceState → Bool
unfolding positive
kill_if_outdated mod_time finds state =
    if not (positive state.pid)
    then false
    else elim mod_time [ none ↦ false | some t ↦ ltb (state.started_at + 1000000000) t && finds ]
