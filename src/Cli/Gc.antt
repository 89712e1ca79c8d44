-- ===== src/Cli/Gc.antt =====
-- internal/cli/gc_cli.go: garbage collection of the history, of the memory of layers and of the
-- exported files. Times are nanoseconds since 1970; what a command prints is a `Report`.
pub mod Files
pub mod Days
use baleen_engine.Base.{
  ℕ, zero, suc, ◌+◌, ◌-◌, ◌*◌, ◌/◌, ◌%◌, ◌^◌, Bool, true, false, not, ◌&&◌, Option, none, some,
  List, [], ◌∷◌, Text, text, ◌==◌, if◌then◌else◌, text_eq, ltb, leb, contains, has_suffix, Result,
  ok, err,
}
use baleen_engine.Base.Int.{ℤ, pos, negsuc}
use baleen_engine.Base.Map.{Map}
use baleen_engine.Base.Decimal.{atoi}
use baleen_engine.Ledger.Interface.{Bucket}
use baleen_engine.Ledger.{
  Stored, clear_ledger_only, prune_history_older_than, delete_commit, clear_cache_memory,
}

-- A file in the directory of exports: whether os.Stat and os.RemoveAll succeed on it.
pub record File : Type 0 where
  pub size : ℕ
  pub mod_time : ℕ
  pub stats : Bool
  pub removes : Bool

-- A zero cutoff is `none`.
unfoldable pub too_new : Option ℕ → File → Bool
too_new none f = false
too_new (some cutoff) f = ltb cutoff f.mod_time

-- The guards of the loop of deletePhysicalFiles.
unfoldable pub selected : Text → Option ℕ → Text → File → Bool
unfolding too_new
selected hash_filter cutoff name f =
    has_suffix name (text ".tar")
    && not (not (hash_filter == []) && not (contains name hash_filter))
    && f.stats
    && not (too_new cutoff f)

-- The loop over the entries of the directory: the files that are left, and freedBytes.
unfoldable pub delete_files : Text → Option ℕ → Map Text File → ℕ → Map Text File × ℕ
unfolding selected
delete_files hash_filter cutoff [] freed = ([], freed)
delete_files hash_filter cutoff ((name, f) ∷ rest) freed =
    let goes = selected hash_filter cutoff name f in
    let (kept, total) =
      delete_files hash_filter cutoff rest (if goes then freed + f.size else freed) in
    ((if goes && f.removes then kept else (name, f) ∷ kept), total)

-- deletePhysicalFiles: the files that are left, and the MB that were freed
unfoldable pub delete_physical_files : Text → Option ℕ → Map Text File → Map Text File × ℕ
delete_physical_files hash_filter cutoff dir =
    let (kept, freed) = delete_files hash_filter cutoff dir 0 in (kept, freed / 1024 / 1024)

-- What the two deletions share; `none` is a run without -rm.
unfoldable pub sweep : Bool → Text → Option ℕ → Map Text File → Map Text File × Option ℕ
unfolding delete_physical_files
sweep remove_cache hash_filter cutoff dir =
    if remove_cache
    then (let (kept, freed) = delete_physical_files hash_filter cutoff dir in (kept, some freed))
    else (dir, none)

abbrev pub day : ℕ
day = 86400000000000

-- time.Now().Add(-time.Duration(days) * 24 * time.Hour), where the product is one of int64
unfoldable pub cutoff_of : ℕ → ℕ → ℕ
cutoff_of now days =
    let product = days * day % 2 ^ 64 in
    if leb product (2 ^ 63) then now - product else now + (2 ^ 64 - product)

pub data Report : Type 0 where
  usage invalid_command invalid_timeline : Report
  failed : Text → Report
  -- with the MB that -rm freed
  wiped : Option ℕ → Report
  pruned : ℕ → ℕ → Option ℕ → Report
  deleted : Text → Option ℕ → Report

-- The two buckets of the ledger, and ctx.TempDir.
pub record Storage (History Known : Type 0) : Type 0 where
  pub history : History
  pub known : Known
  pub files : Map Text File

-- The words without a last "-rm", and whether it was there.
unfoldable pub without_flag : List Text → List Text × Bool
without_flag [] = ([], false)
without_flag (w ∷ []) = if w == text "-rm" then ([], true) else (w ∷ [], false)
without_flag (w ∷ (v ∷ rest)) = let (kept, flag) = without_flag (v ∷ rest) in (w ∷ kept, flag)

-- The days of `gc old`: seven, or the third word if it is a number that is not negative.
unfoldable pub days_of : List Text → Option ℕ
days_of (gc ∷ (old ∷ (word ∷ rest))) = elim (atoi word) [
  | none ↦ none
  | some (pos n) ↦ some n
  | some (negsuc n) ↦ none
]
days_of (gc ∷ (old ∷ [])) = some 7
days_of (gc ∷ []) = some 7
days_of [] = some 7

module _ (B : Bucket Stored) (K : Bucket (Unit {0})) (parse_time : Text → Option ℕ) where
  abbrev pub Held : Type 0
  Held = Storage B.Store K.Store

  -- gcAll
  unfoldable pub gc_all : Bool → Held → Held × Report
  unfolding sweep
  gc_all remove_cache s =
      let (files, freed) = sweep remove_cache [] none s.files in
      (
        record {
          history = clear_ledger_only B s.history;
          known = if remove_cache then clear_cache_memory K s.known else s.known;
          files = files;
        },
        wiped freed,
      )

  -- gcOld, with the days as parsed
  unfoldable pub gc_days : ℕ → ℕ → Bool → Held → Held × Report
  unfolding sweep cutoff_of
  gc_days now days remove_cache s =
      let (history, count) = prune_history_older_than B parse_time (cutoff_of now days) s.history in
      let (files, freed) = sweep remove_cache [] (some (cutoff_of now days)) s.files in
      (record { history = history; known = s.known; files = files }, pruned count days freed)

  -- gcOld
  unfoldable pub gc_old : ℕ → List Text → Bool → Held → Held × Report
  unfolding gc_days days_of
  gc_old now parts remove_cache s = elim (days_of parts) [
    | none ↦ (s, invalid_timeline)
    | some days ↦ gc_days now days remove_cache s
  ]

  -- gcByHash
  unfoldable pub gc_by_hash : Text → Bool → Held → Held × Report
  unfolding sweep
  gc_by_hash target_hash remove_cache s = elim (delete_commit B target_hash s.history) [
    | err e ↦ (s, failed e)
    | ok history ↦
        let (files, freed) = sweep remove_cache target_hash none s.files in
        (record { history = history; known = s.known; files = files }, deleted target_hash freed)
  ]

  -- The switch of handleGC, behind the flag.
  unfoldable pub gc_command : ℕ → List Text → Bool → Held → Held × Report
  unfolding gc_all gc_old gc_by_hash
  gc_command now [] remove_cache s = (s, invalid_command)
  gc_command now (gc ∷ []) remove_cache s = (s, invalid_command)
  gc_command now (gc ∷ (word ∷ rest)) remove_cache s =
      if word == text "all"
      then gc_all remove_cache s
      else if word == text "old"
      then gc_old now (gc ∷ (word ∷ rest)) remove_cache s
      else gc_by_hash word remove_cache s

  -- handleGC
  unfoldable pub handle_gc : ℕ → List Text → Held → Held × Report
  unfolding gc_command without_flag
  handle_gc now [] s = (s, usage)
  handle_gc now (gc ∷ []) s = (s, usage)
  handle_gc now (gc ∷ (word ∷ rest)) s =
      let (parts, remove_cache) = without_flag (gc ∷ (word ∷ rest)) in
      gc_command now parts remove_cache s
