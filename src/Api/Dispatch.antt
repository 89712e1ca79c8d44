-- ===== src/Api/Dispatch.antt =====
-- internal/api/handlers/dispatch.go: a push that the interface asks for, from the guard to the end of
-- the export and of RecordAndPush. The branch that recovers from a panic is left out.
pub mod Pipeline
use baleen_engine.Base.{
  ℕ, Bool, true, false, not, ◌||◌, Option, none, some, List, [], ◌∷◌, String, Text, text, ◌==◌,
  if◌then◌else◌, is_some, text_eq, Result, ok, err,
}
use baleen_engine.Ledger.Interface.{Bucket}
use baleen_engine.Ledger.{Commit, Stored, record_commit}
use baleen_engine.Network.Peers.{PeerRegistry}
use baleen_engine.Network.Address.{Target, resolve_target_address}
use baleen_engine.Docker.Daemon.{Daemon}
use baleen_engine.Docker.Preflight.{PreflightConfig}
use baleen_engine.Docker.Export.{Place, Exported, export_image}
use baleen_engine.Cli.Pipeline.{Export, record_and_push}
use baleen_engine.Transfer.Manager.{get, get_pending_conn}
use baleen_engine.Transfer.Engine.{Engine, publish_status}

-- The decoded body.
pub record DispatchRequest : Type 0 where
  pub image : Text
  pub peer : Text
  pub build_context : Text

unfoldable pub context_of : DispatchRequest → Text
context_of req = if req.build_context == [] then text "." else req.build_context

-- Dispatch: the status, and with 202 the request whose pipeline starts. `none` does not decode.
unfoldable pub dispatch : Option DispatchRequest → Engine → ℕ × Option DispatchRequest
unfolding context_of
dispatch none g = (400, none)
dispatch (some req) g =
    if is_some (get_pending_conn req.image req.peer g.manager)
    then (409, none)
    else if is_some (get req.image req.peer g.manager)
    then (409, none)
    else (202, some (record req { build_context = context_of req }))

-- What one run of the pipeline meets: the times as RFC3339 text, its identifiers, the architecture
-- that DetectRemoteArch finds, the disk, GenerateHash and PushImage.
pub record Run : Type 0 where
  pub node : Text
  pub temp_dir : Text
  pub temp_id : Text
  pub fresh_id : Text
  pub now : ℕ
  pub started : Text
  pub failed_at : Text
  pub push_started : Text
  pub push_ended : Text
  pub remote_arch : Target → Text
  pub place : Place
  pub hash : Exported → Result Text
  pub pushed : Target → Exported → Result (Unit {0})

-- The commit of this run under its temporary identifier.
unfoldable pub temporary_commit : Run → DispatchRequest → Text → String → String → Commit
temporary_commit r req time direction status = record {
  hash = r.temp_id;
  image = req.image;
  author = r.node;
  peer = req.peer;
  timestamp = time;
  direction = direction;
  status = status;
}

-- The config of the export.
unfoldable pub config_of : Run → DispatchRequest → Target → PreflightConfig
config_of r req target = record {
  image_name = req.image;
  expected_target = r.remote_arch target;
  export_dir = r.temp_dir;
  build_context = req.build_context;
  force_raw_export = false;
}

-- The arguments of RecordAndPush.
unfoldable pub export_of : Run → DispatchRequest → Target → Exported → Export
export_of r req target e = record {
  image = req.image;
  node = r.node;
  peer = req.peer;
  hash = r.hash e;
  temp_id = r.temp_id;
  fresh_id = r.fresh_id;
  started = r.push_started;
  ended = r.push_ended;
  pushed = r.pushed target e;
}

module _ (B : Bucket Stored) (D : Daemon) where
  -- What the pipeline changes.
  pub record Sender : Type 0 where
    pub history : B.Store
    pub images : D.State
    pub engine : Engine

  -- The start, up to ResolveAndDetect.
  unfoldable pub prepare : Run → DispatchRequest → Sender → Sender
  unfolding temporary_commit
  prepare r req s = record s {
    engine = publish_status req.image req.peer "push" "preparing" s.engine;
    history = record_commit B (temporary_commit r req r.started "Exporting" "Pending") s.history;
  }

  -- What both error branches do.
  unfoldable pub give_up : Run → DispatchRequest → Sender → Sender
  unfolding temporary_commit
  give_up r req s = record s {
    engine = publish_status req.image req.peer "push" "failed" s.engine;
    history = record_commit B (temporary_commit r req r.failed_at "Exported" "Failed") s.history;
  }

  -- The export, and what follows it.
  unfoldable pub export_then_push : Run → DispatchRequest → Target → Sender → Sender
  unfolding give_up config_of export_of
  export_then_push r req target s =
      let shown = publish_status req.image req.peer "push" "exporting" s.engine in
      let (images, exported) = export_image D r.place (config_of r req target) s.images in
      let s' : Sender = record { history = s.history; images = images; engine = shown } in
      elim exported [
        | err e ↦ give_up r req s'
        | ok e ↦ record s' { history = record_and_push B (export_of r req target e) s.history }
      ]

  -- runExportPipeline
  unfoldable pub run_export_pipeline : Run → PeerRegistry → DispatchRequest → Sender → Sender
  unfolding prepare export_then_push
  run_export_pipeline r registry req s =
      let target = resolve_target_address r.now registry req.peer in
      elim target.error [
        | some e ↦ give_up r req (prepare r req s)
        | none ↦ export_then_push r req target (prepare r req s)
      ]
