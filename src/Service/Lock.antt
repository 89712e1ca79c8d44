-- ===== src/Service/Lock.antt =====
-- internal/service/lock.go: TryAcquireLock and ReleaseLock. Each call of the file system is one step,
-- so that the steps of several processes can interleave. A live process is one for which
-- os.FindProcess and isProcessAlive succeed.
pub mod Race
use baleen_engine.Base.{
  ℕ, Bool, true, false, Option, none, some, ltb, ◌&&◌, if◌then◌else◌, ◌==◌, nat_eq,
}

-- A lock file: the process that made it, and whether its id has been written. No other process
-- writes to the file; a file without a number in it is one that is not written.
pub record LockFile : Type 0 where
  pub maker : ℕ
  pub written : Bool

-- Where a process stands in TryAcquireLock.
pub data Phase : Type 0 where
  -- before the exclusive create
  starting : Phase
  -- the file existed: before its holder is looked at
  held : Phase
  -- the holder is not alive: before os.Remove
  stale : Phase
  -- before the second exclusive create
  retrying : Phase
  -- the file was created: before the process id is written
  creating : Phase
  -- returned true, and returned false
  owner refused : Phase

-- Whether the holder that the file names is alive.
unfoldable pub holder_lives : (ℕ → Bool) → Option LockFile → Bool
holder_lives alive none = false
holder_lives alive (some f) = f.written && ltb 0 f.maker && alive f.maker

-- os.OpenFile with O_EXCL: the phase that follows if it succeeds, and if it does not.
unfoldable pub create_exclusive : ℕ → Phase → Option LockFile → Option LockFile × Phase
create_exclusive pid otherwise none = (some (record { maker = pid; written = false }), creating)
create_exclusive pid otherwise (some f) = (some f, otherwise)

-- Fprintf of the process id, to the file that this process has open: the lock file, unless another
-- process has removed that.
unfoldable pub write_pid : ℕ → Option LockFile → Option LockFile
write_pid pid none = none
write_pid pid (some f) = if f.maker == pid then some (record f { written = true }) else some f

-- One step of TryAcquireLock by the process `pid`
unfoldable pub step : (ℕ → Bool) → ℕ → Option LockFile × Phase → Option LockFile × Phase
unfolding holder_lives create_exclusive write_pid
step alive pid (file, starting) = create_exclusive pid held file
step alive pid (file, held) = if holder_lives alive file then (file, refused) else (file, stale)
step alive pid (file, stale) = (none, retrying)
step alive pid (file, retrying) = create_exclusive pid refused file
step alive pid (file, creating) = (write_pid pid file, owner)
step alive pid (file, owner) = (file, owner)
step alive pid (file, refused) = (file, refused)

-- TryAcquireLock with nothing between its steps: five are enough to return.
unfoldable pub try_acquire_lock : (ℕ → Bool) → ℕ → Option LockFile → Option LockFile × Phase
try_acquire_lock alive pid file =
    step alive pid
      (step alive pid (step alive pid (step alive pid (step alive pid (file, starting)))))

-- ReleaseLock
unfoldable pub release_lock : Option LockFile → Option LockFile
release_lock file = none

-- Two processes with one lock file.
pub record System : Type 0 where
  pub file : Option LockFile
  pub first : Phase
  pub second : Phase

unfoldable pub first_steps : (ℕ → Bool) → ℕ → System → System
first_steps alive pid s =
    let (file, phase) = step alive pid (s.file, s.first) in record s { file = file; first = phase }

unfoldable pub second_steps : (ℕ → Bool) → ℕ → System → System
second_steps alive pid s =
    let (file, phase) = step alive pid (s.file, s.second) in
    record s { file = file; second = phase }
