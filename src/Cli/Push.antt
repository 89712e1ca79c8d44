-- ===== src/Cli/Push.antt =====
-- internal/cli/push.go: the push of the daemon's own prompt. The user's answer to the question for a
-- build context is an argument.
pub mod Fallback
use baleen_engine.Base.{
  ℕ, Bool, true, false, Option, none, some, List, [], ◌∷◌, Text, text, ◌==◌, if◌then◌else◌, text_eq,
  trim_space, Result, ok, err,
}
use baleen_engine.Ledger.Interface.{Bucket}
use baleen_engine.Ledger.{Stored}
use baleen_engine.Network.Peers.{PeerRegistry}
use baleen_engine.Network.Address.{AddressError, Target, resolve_target_address}
use baleen_engine.Docker.Daemon.{Daemon}
use baleen_engine.Docker.Preflight.{PreflightConfig}
use baleen_engine.Docker.Export.{Place, Exported, export_image}
use baleen_engine.Cli.Pipeline.{Export, record_and_push}

-- strings.ToLower(response) == "n"
unfoldable pub sends_as_is : Text → Bool
sends_as_is response = if response == text "n" then true else response == text "N"

-- What one push meets: the times, identifiers and answers of the other parts.
pub record Attempt : Type 0 where
  pub node : Text
  pub temp_dir : Text
  pub fresh_id : Text
  pub now : ℕ
  pub started : Text
  pub ended : Text
  pub answer : Text
  pub remote_arch : Target → Text
  pub place : Place
  pub hash : Exported → Result Text
  pub pushed : Target → Exported → Result (Unit {0})

pub data PushOutcome : Type 0 where
  push_usage pushed : PushOutcome
  unresolved : AddressError → PushOutcome
  export_failed : Text → PushOutcome

-- The context of the words, or ".".
unfoldable pub context_word : List Text → Text
context_word [] = text "."
context_word (context ∷ rest) = context

-- cfg
unfoldable pub push_config : Attempt → Text → Text → Target → PreflightConfig
push_config a image context target = record {
  image_name = image;
  expected_target = a.remote_arch target;
  export_dir = a.temp_dir;
  build_context = context;
  force_raw_export = false;
}

-- The config of the second try.
unfoldable pub retry_config : Text → PreflightConfig → PreflightConfig
unfolding sends_as_is
retry_config answer config =
    if sends_as_is (trim_space answer)
    then record config { force_raw_export = true }
    else record config { build_context = trim_space answer }

module _ (B : Bucket Stored) (D : Daemon) where
  -- exportWithFallback
  unfoldable pub export_with_fallback :
      Text → Place → PreflightConfig → D.State → D.State × Result Exported
  unfolding retry_config
  export_with_fallback answer place config s =
      let (s', exported) = export_image D place config s in
      elim exported [
        | ok e ↦ (s', ok e)
        | err e ↦
            if e == text "ERR_NO_DOCKERFILE"
            then export_image D place (retry_config answer config) s'
            else (s', err e)
      ]

  -- handlePush behind the check of the words
  unfoldable pub push_image_to :
      Attempt
      → PeerRegistry
      → Text
      → Text
      → Text
      → D.State
      → B.Store
      → D.State × B.Store × PushOutcome
  unfolding export_with_fallback push_config
  push_image_to a registry peer image context s history =
      let target = resolve_target_address a.now registry peer in
      elim target.error [
        | some e ↦ (s, history, unresolved e)
        | none ↦
            let (s', exported) =
              export_with_fallback a.answer a.place (push_config a image context target) s in
            elim exported [
              | err e ↦ (s', history, export_failed e)
              | ok e ↦ (
                s',
                record_and_push B
                    (record {
                      image = image;
                      node = a.node;
                      peer = peer;
                      hash = a.hash e;
                      temp_id = [];
                      fresh_id = a.fresh_id;
                      started = a.started;
                      ended = a.ended;
                      pushed = a.pushed target e;
                    })
                    history,
                pushed,
              )
            ]
      ]

  -- handlePush
  unfoldable pub handle_push :
      Attempt → PeerRegistry → List Text → D.State → B.Store → D.State × B.Store × PushOutcome
  unfolding push_image_to context_word
  handle_push a registry [] s history = (s, history, push_usage)
  handle_push a registry (p ∷ []) s history = (s, history, push_usage)
  handle_push a registry (p ∷ (peer ∷ [])) s history = (s, history, push_usage)
  handle_push a registry (p ∷ (peer ∷ (image ∷ rest))) s history =
      push_image_to a registry peer image (context_word rest) s history
