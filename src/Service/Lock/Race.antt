-- ===== src/Service/Lock/Race.antt =====
-- internal/service/lock.go: one process alone, and two at once.
use baleen_engine.Base.{ℕ, Bool, true, false, Option, none, some, ◌≡◌, arith, ◌<◌, ==_iff, nat_eq}
use baleen_engine.Service.Lock.{
  LockFile, starting, owner, refused, holder_lives, create_exclusive, write_pid, step,
  try_acquire_lock, release_lock, System, first_steps, second_steps,
}

abbrev pub made_by : ℕ → Option LockFile
made_by pid = some (record { maker = pid; written = true })

-- With no other process at work and no live process named in the file, TryAcquireLock makes the
-- process the owner, and the file names it. While that process is alive, a later TryAcquireLock is
-- refused and leaves the file; once the lock is released, it succeeds.
pub try_acquire_alone :
    (alive : ℕ → Bool) (pid later : ℕ) (file : Option LockFile)
    → 0 < pid
    → alive pid ≡ true
    → holder_lives alive file ≡ false
    → (try_acquire_lock alive pid file ≡ (made_by pid, owner))
      × (try_acquire_lock alive later (made_by pid) ≡ (made_by pid, refused))
      × (try_acquire_lock alive later (release_lock (made_by pid)) ≡ (made_by later, owner))
unfolding try_acquire_lock step create_exclusive holder_lives write_pid release_lock
try_acquire_alone alive pid later none above lives h =
    ground (arith, above, lives, ==_iff pid pid, ==_iff later later)
try_acquire_alone alive pid later (some f) above lives h =
    ground (arith, above, lives, h, ==_iff pid pid, ==_iff later later)

abbrev pub both_starting : Option LockFile → System
both_starting file = record { file = file; first = starting; second = starting }

abbrev pub both_own : ℕ → System
both_own q = record { file = made_by q; first = owner; second = owner }

-- Two processes that both find the lock of a dead one can both become its owner: the second removes
-- the file that the first has just made.
pub two_owners :
    (alive : ℕ → Bool) (p q dead : ℕ)
    → alive dead ≡ false
    → let looked = second_steps alive q (
        second_steps alive q
          (first_steps alive p (first_steps alive p (both_starting (made_by dead))))) in
      let made = first_steps alive p (first_steps alive p (first_steps alive p looked)) in
      second_steps alive q (second_steps alive q (second_steps alive q made)) ≡ both_own q
unfolding first_steps second_steps step create_exclusive holder_lives write_pid
two_owners alive p q dead h = ground (arith, h, ==_iff p p, ==_iff q q)
