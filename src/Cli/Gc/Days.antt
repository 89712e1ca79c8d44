-- ===== src/Cli/Gc/Days.antt =====
-- internal/cli/gc_cli.go: the cutoff that a number of days gives.
use baleen_engine.Base.{
  ℕ, ◌-◌, ◌*◌, ◌<◌, ◌≤◌, ◌≡◌, arith, if◌then◌else◌, ltb, Option, none, some, Text, Bool,
}
use baleen_engine.Ledger.Interface.{Bucket}
use baleen_engine.Ledger.{Stored, Commit, json, is_old}
use baleen_engine.Ledger.History.{prune_history_exact}
use baleen_engine.Cli.Gc.{cutoff_of, day, Held, gc_days}

-- Up to 106751 days the cutoff lies that many days back.
pub cutoff_in_range : (now days : ℕ) → days ≤ 106751 → cutoff_of now days ≡ now - days * day
unfolding cutoff_of
cutoff_in_range now days h = ground (arith, h)

-- From 106752 days to twice as many the cutoff lies in the future.
pub cutoff_overflows : (now days : ℕ) → 106752 ≤ days → days ≤ 213503 → now < cutoff_of now days
unfolding cutoff_of
cutoff_overflows now days h k = ground (arith, h, k)

module _ (B : Bucket Stored) (K : Bucket (Unit {0})) (parse_time : Text → Option ℕ) where
  gc_days-history :
      (now days t : ℕ) (remove_cache : Bool) (s : Held B K parse_time) (k : Text) (c : Commit)
      → B.get k s.history ≡ some (json c)
      → parse_time c.timestamp ≡ some t
      → B.get k (gc_days B K parse_time now days remove_cache s).0.history
        ≡ (if ltb t (cutoff_of now days) then none else some (json c))
  unfolding gc_days is_old
  gc_days-history now days t remove_cache s k c held parsed =
      ground
        (arith, held, parsed, (prune_history_exact B parse_time (cutoff_of now days) s.history).0 k)

  -- `gc old` with at most 106751 days removes a commit exactly if its time lies more than that many
  -- days back.
  pub gc_old_exact :
      (now days t : ℕ) (remove_cache : Bool) (s : Held B K parse_time) (k : Text) (c : Commit)
      → days ≤ 106751
      → B.get k s.history ≡ some (json c)
      → parse_time c.timestamp ≡ some t
      → B.get k (gc_days B K parse_time now days remove_cache s).0.history
        ≡ (if ltb t (now - days * day) then none else some (json c))
  gc_old_exact now days t remove_cache s k c small held parsed =
      rw (← cutoff_in_range now days small)
        (gc_days-history now days t remove_cache s k c held parsed)

  -- With 106752 to 213503 days the duration overflows, and `gc old` removes every commit whose time
  -- is not in the future, however new it is.
  pub gc_old_overflows :
      (now days t : ℕ) (remove_cache : Bool) (s : Held B K parse_time) (k : Text) (c : Commit)
      → 106752 ≤ days
      → days ≤ 213503
      → t ≤ now
      → B.get k s.history ≡ some (json c)
      → parse_time c.timestamp ≡ some t
      → B.get k (gc_days B K parse_time now days remove_cache s).0.history ≡ none
  gc_old_overflows now days t remove_cache s k c low high past held parsed = ground (
    arith,
    past,
    cutoff_overflows now days low high,
    gc_days-history now days t remove_cache s k c held parsed,
  )
