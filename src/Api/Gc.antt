-- ===== src/Api/Gc.antt =====
-- internal/api/handlers/gc_handler.go. gcDeletePhysical is, line for line, the deletePhysicalFiles of
-- internal/cli/gc_cli.go.
pub mod Agrees
use baleen_engine.Base.{
  ℕ, zero, suc, Bool, true, false, Option, none, some, List, [], ◌∷◌, Text, text, ◌==◌,
  if◌then◌else◌, text_eq, Result, ok, err,
}
use baleen_engine.Base.Int.{ℤ, pos, negsuc}
use baleen_engine.Base.Map.{Map}
use baleen_engine.Ledger.Interface.{Bucket}
use baleen_engine.Ledger.{
  Stored, clear_ledger_only, prune_history_older_than, delete_commit, clear_cache_memory,
}
use baleen_engine.Cli.Gc.{
  File, Report, failed, wiped, pruned, deleted, Held, delete_physical_files, cutoff_of,
}

-- The decoded body.
pub record GcRequest : Type 0 where
  pub mode : Text
  pub days : ℤ
  pub hash : Text
  pub remove_cache : Bool

pub data GcResponse : Type 0 where
  -- 400 for a body that is no JSON, for an empty hash, and for another mode
  invalid_json missing_hash invalid_mode : GcResponse
  -- 500, and 200 with the message
  error : Report → GcResponse
  done : Report → GcResponse

-- gcDeletePhysical
unfoldable pub gc_delete_physical : Text → Option ℕ → Map Text File → Map Text File × ℕ
gc_delete_physical hash_filter cutoff dir = delete_physical_files hash_filter cutoff dir

-- days <= 0 stands for seven days
unfoldable pub days_or_week : ℤ → ℕ
days_or_week (pos zero) = 7
days_or_week (pos (suc n)) = suc n
days_or_week (negsuc n) = 7

module _ (B : Bucket Stored) (K : Bucket (Unit {0})) (parse_time : Text → Option ℕ) where
  abbrev Store : Type 0
  Store = Held B K parse_time

  -- case "all"
  unfoldable pub gc_mode_all : Bool → Store → Store × GcResponse
  unfolding gc_delete_physical
  gc_mode_all true s =
      let (files, freed) = gc_delete_physical [] none s.files in
      (
        record {
          history = clear_ledger_only B s.history;
          known = clear_cache_memory K s.known;
          files = files;
        },
        done (wiped (some freed)),
      )
  gc_mode_all false s = (record s { history = clear_ledger_only B s.history }, done (wiped none))

  -- case "old", with the days that count
  unfoldable pub gc_mode_old : ℕ → ℕ → Bool → Store → Store × GcResponse
  unfolding gc_delete_physical
  gc_mode_old now days true s =
      let (history, count) = prune_history_older_than B parse_time (cutoff_of now days) s.history in
      let (files, freed) = gc_delete_physical [] (some (cutoff_of now days)) s.files in
      (
        record { history = history; known = s.known; files = files },
        done (pruned count days (some freed)),
      )
  gc_mode_old now days false s =
      let (history, count) = prune_history_older_than B parse_time (cutoff_of now days) s.history in
      (record s { history = history }, done (pruned count days none))

  -- case "hash", behind the test of the hash
  unfoldable pub gc_mode_hash : Text → Bool → Store → Store × GcResponse
  unfolding gc_delete_physical
  gc_mode_hash hash remove_cache s = elim (delete_commit B hash s.history) [
    | err e ↦ (s, error (failed e))
    | ok history ↦
        if remove_cache
        then (let (files, freed) = gc_delete_physical hash none s.files in
            (
              record { history = history; known = s.known; files = files },
              done (deleted hash (some freed)),
            ))
        else (record s { history = history }, done (deleted hash none))
  ]

  -- GC; `none` is a body that does not decode
  unfoldable pub gc : ℕ → Option GcRequest → Store → Store × GcResponse
  unfolding gc_mode_all gc_mode_old gc_mode_hash days_or_week
  gc now none s = (s, invalid_json)
  gc now (some req) s =
      if req.mode == text "all"
      then gc_mode_all req.remove_cache s
      else if req.mode == text "old"
      then gc_mode_old now (days_or_week req.days) req.remove_cache s
      else if req.mode == text "hash"
      then (if req.hash == [] then (s, missing_hash) else gc_mode_hash req.hash req.remove_cache s)
      else (s, invalid_mode)
