-- ===== src/Api/Dispatch/Pipeline.antt =====
-- internal/api/handlers/dispatch.go: a pipeline that fails, and a second request.
use baleen_engine.Base.{
  ℕ, none, ==_self, true, false, some, Text, ◌==◌, ==_iff, is_some, text_eq, string_eq, err, ◌≡◌,
  refl, arith, Option-cases, inl, inr, ◌⊎◌, sym,
}
use baleen_engine.Ledger.Interface.{Bucket}
use baleen_engine.Ledger.{Stored, json, commit_key, record_commit}
use baleen_engine.Network.Peers.{PeerRegistry}
use baleen_engine.Network.Address.{resolve_target_address}
use baleen_engine.Docker.Daemon.{Daemon}
use baleen_engine.Docker.Export.{temp_tag, export_image}
use baleen_engine.Docker.Export.Clean.{export_keeps_images}
use baleen_engine.Base.Map.{lookup-insert}
use baleen_engine.Transfer.Manager.{
  PendingTransfer, register_pending_conn, register, get_pending_conn, get,
}
use baleen_engine.Transfer.Hub.{hub_key}
use baleen_engine.Transfer.Hub.Order.{NoBar, hub_key-injective}
use baleen_engine.Transfer.Engine.{publish_status}
use baleen_engine.Api.Dispatch.{
  context_of, DispatchRequest, dispatch, Run, temporary_commit, config_of, Sender, prepare, give_up,
  export_then_push, run_export_pipeline,
}

keys_differ :
    (r : Run) (req : DispatchRequest)
    → NoBar r.started
    → NoBar r.failed_at
    → (r.started ≡ r.failed_at → ⊥)
    → commit_key (temporary_commit r req r.failed_at "Exported" "Failed")
      ≡ commit_key (temporary_commit r req r.started "Exporting" "Pending")
    → ⊥
unfolding commit_key hub_key temporary_commit
keys_differ r req before after apart same =
    apart (sym (hub_key-injective r.failed_at r.started _ _ after before same).0)

module _ (B : Bucket Stored) (D : Daemon) where
  -- A request that is accepted is accepted again while its pipeline prepares and exports, and starts
  -- a second pipeline. It is refused once the push has registered its connection for that image and
  -- peer, and also once the stream is registered.
  pub accepted_twice :
      (r : Run) (req : DispatchRequest) (s : Sender B D) (pending : PendingTransfer) (pw : ℕ)
      → (dispatch (some req) s.engine).0 ≡ 202
      → let exporting =
          publish_status req.image req.peer "push" "exporting" (prepare B D r req s).engine in
        (dispatch (some req) exporting
          ≡ (202, some (record req { build_context = context_of req })))
        × (dispatch (some req) (record exporting {
          manager = register_pending_conn req.image req.peer pending exporting.manager;
        })
            ≡ (409, none))
        × (dispatch
              (some req)
              (record exporting { manager = register req.image req.peer pw exporting.manager })
            ≡ (409, none))
  unfolding dispatch publish_status prepare register_pending_conn register get_pending_conn get
  accepted_twice r req s pending pw accepted =
      let key = hub_key req.image req.peer in
      (
        ground (arith, accepted),
        ground (arith, lookup-insert key key pending s.engine.manager.pending_conns, ==_self key),
        ground (arith, lookup-insert key key pw s.engine.manager.transfers, ==_self key),
      )

  give_up-history :
      (r : Run) (req : DispatchRequest) (s s' : Sender B D)
      → NoBar r.started
      → NoBar r.failed_at
      → (r.started ≡ r.failed_at → ⊥)
      → s'.history ≡ (prepare B D r req s).history
      → let failed = temporary_commit r req r.failed_at "Exported" "Failed" in
        let pending = temporary_commit r req r.started "Exporting" "Pending" in
        (B.get (commit_key failed) (give_up B D r req s').history ≡ some (json failed))
        × (B.get (commit_key pending) (give_up B D r req s').history ≡ some (json pending))
  unfolding give_up prepare record_commit
  give_up-history r req s s' before after apart same =
      let failed = temporary_commit r req r.failed_at "Exported" "Failed" in
      let pending = temporary_commit r req r.started "Exporting" "Pending" in
      let f = commit_key failed in
      let p = commit_key pending in
      (
        ground (arith, ==_iff f f, B.get-put f f (json failed) s'.history),
        ground (
          arith,
          ==_iff f p,
          keys_differ r req before after apart,
          B.get-put f p (json failed) s'.history,
          same,
          ==_iff p p,
          B.get-put p p (json pending) s.history,
        ),
      )

  -- A pipeline that fails gives up in a state with the pending commit and the images of before.
  failed_pipeline-eq :
      (r : Run) (registry : PeerRegistry) (req : DispatchRequest) (s : Sender B D) (j : Text)
      → (temp_tag req.image == j) ≡ false
      → (is_some (resolve_target_address r.now registry req.peer).error ≡ true)
        ⊎ ((e : Text) × ((export_image D r.place
                (config_of r req (resolve_target_address r.now registry req.peer))
                s.images).1
              ≡ err e))
      → (s' : Sender B D) × (run_export_pipeline B D r registry req s ≡ give_up B D r req s')
        × (s'.history ≡ (prepare B D r req s).history)
        × (D.inspect j s'.images ≡ D.inspect j s.images)
  unfolding run_export_pipeline export_then_push prepare
  failed_pipeline-eq r registry req s j other why =
      let target = resolve_target_address r.now registry req.peer in
      elim (Option-cases target.error) [
        | inr (e, unresolved) ↦ (prepare B D r req s, ground (arith, unresolved), refl, refl)
        | inl resolved ↦ elim why [
          | inl unresolved ↦ ground (arith, resolved, unresolved)
          | inr (e, broken) ↦ (
            record {
              history = (prepare B D r req s).history;
              images = (export_image D r.place (config_of r req target) s.images).0;
              engine =
                  publish_status req.image req.peer "push" "exporting" (prepare B D r req s).engine;
            },
            ground (arith, resolved, broken),
            refl,
            export_keeps_images D r.place (config_of r req target) s.images j other,
          )
        ]
      ]

  -- A pipeline that cannot resolve the peer, or whose export fails, at another time than it started:
  -- the history has its failed commit, and also still the pending one, and each image but the
  -- temporary one is as it was. Times hold no '|'.
  pub failed_pipeline_leaves :
      (r : Run) (registry : PeerRegistry) (req : DispatchRequest) (s : Sender B D) (j : Text)
      → NoBar r.started
      → NoBar r.failed_at
      → (r.started ≡ r.failed_at → ⊥)
      → (temp_tag req.image == j) ≡ false
      → (is_some (resolve_target_address r.now registry req.peer).error ≡ true)
        ⊎ ((e : Text) × ((export_image D r.place
                (config_of r req (resolve_target_address r.now registry req.peer))
                s.images).1
              ≡ err e))
      → let after = run_export_pipeline B D r registry req s in
        let failed = temporary_commit r req r.failed_at "Exported" "Failed" in
        let pending = temporary_commit r req r.started "Exporting" "Pending" in
        (B.get (commit_key failed) after.history ≡ some (json failed))
        × (B.get (commit_key pending) after.history ≡ some (json pending))
        × (D.inspect j after.images ≡ D.inspect j s.images)
  unfolding give_up
  failed_pipeline_leaves r registry req s j before after apart other why =
      let (s', e, same, kept) = failed_pipeline-eq r registry req s j other why in
      let (failed, pending) = give_up-history r req s s' before after apart same in
      (rw e failed, rw e pending, rw e kept)
