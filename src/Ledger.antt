-- ===== src/Ledger.antt =====
-- internal/ledger/database.go: the history of transfers and the memory of cached layers, in two
-- buckets of bbolt. An operation takes the bucket that it opens; NewLedger makes both and the two
-- clears make theirs anew, so that none is ever missing. An update that fails is rolled back.
pub mod Interface
pub mod History
pub mod Layers
use baleen_engine.Base.{
  ℕ, suc, Bool, true, false, Option, none, some, List, [], ◌∷◌, ◌++◌, String, Text, text, ltb, ◌==◌,
  if◌then◌else◌, Result, ok, err, ◌>>=◌, string_eq, has_prefix, cut, text_lt, is_some,
}
use baleen_engine.Base.Map.{Map}
use baleen_engine.Base.Sort.{sort}
use baleen_engine.Ledger.Interface.{Bucket}

-- Commit
pub record Commit : Type 0 where
  pub hash : Text
  pub image : Text
  pub author : Text
  pub peer : Text
  pub timestamp : Text
  pub direction : String
  pub status : String

-- The bytes of a value, as json.Unmarshal reads them.
pub data Stored : Type 0 where
  json : Commit → Stored
  corrupt : Stored

-- commit.Timestamp + "|" + commit.Hash
unfoldable pub commit_key : Commit → Text
commit_key c = c.timestamp ++ b'|' ∷ c.hash

-- The part of a key behind its first '|', or the key.
unfoldable pub hash_part : Text → Text
hash_part k = elim (cut b'|' k) [ none ↦ k | some (time, hash) ↦ hash ]

-- The loop of GetHistory.
unfoldable pub decode_all : Map Text Stored → Result (List Commit)
decode_all [] = ok []
decode_all ((k, json c) ∷ rest) = do later ← decode_all rest; ok (c ∷ later)
decode_all ((k, corrupt) ∷ rest) = err (text "invalid character")

unfoldable pub newer : Commit → Commit → Bool
newer a b = text_lt b.timestamp a.timestamp

-- A commit that FailPendingTransfers rewrites.
unfoldable pub demote : Stored → Stored
demote corrupt = corrupt
demote (json c) = if c.status == "Pending" then json (record c { status = "Failed" }) else json c

-- err == nil && commitTime.Before(cutoff)
unfoldable pub is_old : (Text → Option ℕ) → ℕ → Stored → Bool
is_old parse_time cutoff corrupt = false
is_old parse_time cutoff (json c) = elim (parse_time c.timestamp) [
  | none ↦ false
  | some t ↦ ltb t cutoff
]

module _ (B : Bucket Stored) where
  open B use {Store, empty, put, get, remove, cursor}

  -- RecordCommit
  unfoldable pub record_commit : Commit → Store → Store
  record_commit commit s = put (commit_key commit) (json commit) s

  -- GetHistory
  unfoldable pub get_history : Store → Result (List Commit)
  unfolding decode_all
  get_history s = do history ← decode_all (cursor s); ok (sort newer history)

  -- The cursor loop of DeleteCommit.
  unfoldable pub delete_loop : Text → Map Text Stored → Store → Result Store
  delete_loop prefix [] s = err (text "no commit found starting with '" ++ (prefix ++ text "'"))
  delete_loop prefix ((k, v) ∷ rest) s =
      let later = delete_loop prefix rest s in
      if has_prefix (hash_part k) prefix then ok (remove k s) else later

  -- DeleteCommit
  unfoldable pub delete_commit : Text → Store → Result Store
  unfolding delete_loop
  delete_commit prefix s = delete_loop prefix (cursor s) s

  -- The cursor loop of PruneHistoryOlderThan, with deletedCount.
  unfoldable pub prune_loop : (Text → Option ℕ) → ℕ → Map Text Stored → Store → ℕ → Store × ℕ
  prune_loop parse_time cutoff [] s count = (s, count)
  prune_loop parse_time cutoff ((k, v) ∷ rest) s count =
      let old = is_old parse_time cutoff v in
      prune_loop parse_time cutoff rest (if old then remove k s else s)
        (if old then suc count else count)

  -- PruneHistoryOlderThan; time.Parse(time.RFC3339, _) is `parse_time`
  unfoldable pub prune_history_older_than : (Text → Option ℕ) → ℕ → Store → Store × ℕ
  unfolding prune_loop
  prune_history_older_than parse_time cutoff s = prune_loop parse_time cutoff (cursor s) s 0

  -- ClearLedgerOnly
  unfoldable pub clear_ledger_only : Store → Store
  clear_ledger_only s = empty

  -- The cursor loop of FailPendingTransfers.
  unfoldable pub fail_loop : Map Text Stored → Store → Store
  fail_loop [] s = s
  fail_loop ((k, corrupt) ∷ rest) s = fail_loop rest s
  fail_loop ((k, json c) ∷ rest) s =
      fail_loop rest (if c.status == "Pending" then put k (demote (json c)) s else s)

  -- FailPendingTransfers
  unfoldable pub fail_pending_transfers : Store → Store
  unfolding fail_loop
  fail_pending_transfers s = fail_loop (cursor s) s

module _ (K : Bucket (Unit {0})) where
  open K use {Store, empty, put, get}

  -- MarkLayersAsOwned
  unfoldable pub mark_layers_as_owned : List Text → Store → Store
  mark_layers_as_owned [] s = s
  mark_layers_as_owned (layer ∷ rest) s = mark_layers_as_owned rest (put layer tt s)

  -- HasLayer
  unfoldable pub has_layer : Store → Text → Bool
  has_layer s layer = is_some (get layer s)

  -- ClearCacheMemory
  unfoldable pub clear_cache_memory : Store → Store
  clear_cache_memory s = empty
