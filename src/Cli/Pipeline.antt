-- ===== src/Cli/Pipeline.antt =====
-- RecordAndPush of internal/cli/pipeline.go, with the history that it writes.
pub mod Records
use baleen_engine.Base.{
  ℕ, Option, none, some, List, [], ◌∷◌, Text, text, ◌==◌, ==_iff, if◌then◌else◌, Result, ok, err,
  text_eq, string_eq, ◌≡◌, refl, arith, ◌++◌, has_prefix, Bool-cases, inl, inr,
}
use baleen_engine.Base.Map.{lookup}
use baleen_engine.Ledger.Interface.{Bucket}
use baleen_engine.Ledger.{
  Commit, Stored, json, commit_key, record_commit, delete_commit, fail_pending_transfers, demote,
}
use baleen_engine.Transfer.Status.{parse_error_to_status}
use baleen_engine.Transfer.Hub.{hub_key}
use baleen_engine.Transfer.Hub.Order.{NoBar, hub_key-injective}

-- What one export comes to: GenerateHash, the identifier that the dispatcher gave, the two times as
-- RFC3339 text, Sprintf("pending-%d") and the result of PushImage.
pub record Export : Type 0 where
  pub image : Text
  pub node : Text
  pub peer : Text
  pub hash : Result Text
  pub temp_id : Text
  pub fresh_id : Text
  pub started : Text
  pub ended : Text
  pub pushed : Result (Unit {0})

unfoldable pub export_hash : Export → Text
export_hash e = elim e.hash [
  | ok hash ↦ hash
  | err reason ↦ if e.temp_id == [] then e.fresh_id else e.temp_id
]

-- pushErr
unfoldable pub error_of : Result (Unit {0}) → Option Text
error_of (ok u) = none
error_of (err e) = some e

unfoldable pub pending_commit : Export → Commit
unfolding export_hash
pending_commit e = record {
  hash = export_hash e;
  image = e.image;
  author = e.node;
  peer = e.peer;
  timestamp = e.started;
  direction = "Exporting";
  status = "Pending";
}

unfoldable pub final_commit : Export → Commit
unfolding export_hash error_of
final_commit e = record {
  hash = export_hash e;
  image = e.image;
  author = e.node;
  peer = e.peer;
  timestamp = e.ended;
  direction = "Exported";
  status = parse_error_to_status (error_of e.pushed);
}

module _ (B : Bucket Stored) where
  -- DeleteCommit, whose error is dropped
  unfoldable pub forget : Text → B.Store → B.Store
  forget id s = elim (delete_commit B id s) [ ok kept ↦ kept | err reason ↦ s ]

  -- The deletion of the dispatcher's commit, once the file has a hash.
  unfoldable pub forget_temporary : Export → B.Store → B.Store
  unfolding forget
  forget_temporary e s = elim e.hash [
    | ok hash ↦ if e.temp_id == [] then s else forget e.temp_id s
    | err reason ↦ s
  ]

  -- RecordAndPush
  unfoldable pub record_and_push : Export → B.Store → B.Store
  unfolding pending_commit final_commit
  record_and_push e s =
      record_commit B (final_commit e) (record_commit B (pending_commit e) (forget_temporary e s))
