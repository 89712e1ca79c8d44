-- ===== src/Cli/Pipeline/Records.antt =====
-- internal/cli/pipeline.go: what RecordAndPush leaves in the history.
use baleen_engine.Base.{some, ==_iff, text_eq, string_eq, ◌≡◌, arith, sym}
use baleen_engine.Ledger.Interface.{Bucket}
use baleen_engine.Ledger.{Stored, json, commit_key, record_commit, fail_pending_transfers, demote}
use baleen_engine.Ledger.History.{get-fail_pending_transfers}
use baleen_engine.Transfer.Hub.{hub_key}
use baleen_engine.Transfer.Hub.Order.{NoBar, hub_key-injective}
use baleen_engine.Cli.Pipeline.{
  Export, pending_commit, final_commit, forget_temporary, record_and_push,
}

keys_differ :
    (e : Export)
    → NoBar e.started
    → NoBar e.ended
    → (e.started ≡ e.ended → ⊥)
    → commit_key (final_commit e) ≡ commit_key (pending_commit e)
    → ⊥
unfolding commit_key hub_key pending_commit final_commit
keys_differ e before after apart same =
    apart (sym (hub_key-injective e.ended e.started _ _ after before same).0)

module _ (B : Bucket Stored) where
  -- After RecordAndPush the history has the final commit under its key. A push that began at
  -- another time than it ended has also left its pending commit, and FailPendingTransfers, at the
  -- next start, turns that one into a failed export, whatever came of the push. Times hold no '|'.
  pub record_and_push_leaves :
      (e : Export) (s : B.Store)
      → NoBar e.started
      → NoBar e.ended
      → (e.started ≡ e.ended → ⊥)
      → let after = record_and_push B e s in
        (B.get (commit_key (final_commit e)) after ≡ some (json (final_commit e)))
        × (B.get (commit_key (pending_commit e)) after ≡ some (json (pending_commit e)))
        × (B.get (commit_key (pending_commit e)) (fail_pending_transfers B after)
            ≡ some (json (record (pending_commit e) { status = "Failed" })))
  unfolding record_and_push record_commit demote pending_commit
  record_and_push_leaves e s before after apart =
      let first = record_commit B (pending_commit e) (forget_temporary B e s) in
      let pending = commit_key (pending_commit e) in
      let final = commit_key (final_commit e) in
      let differ = keys_differ e before after apart in
      let kept : B.get pending (record_and_push B e s) ≡ some (json (pending_commit e)) = ground (
        arith,
        ==_iff final pending,
        differ,
        B.get-put final pending (json (final_commit e)) first,
        B.get-put pending pending (json (pending_commit e)) (forget_temporary B e s),
        ==_iff pending pending,
      ) in
      (
        ground (arith, ==_iff final final, B.get-put final final (json (final_commit e)) first),
        kept,
        ground (arith, kept, get-fail_pending_transfers B (record_and_push B e s) pending),
      )
