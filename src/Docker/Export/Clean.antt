-- ===== src/Docker/Export/Clean.antt =====
-- internal/docker/export.go: what an export gives and what it leaves behind.
use baleen_engine.Base.{false, Text, ◌==◌, text_eq, ◌≡◌, arith, Result-cases, inl, inr}
use baleen_engine.Docker.Daemon.{Daemon}
use baleen_engine.Docker.Preflight.{PreflightConfig, HandshakeReport, run_preflight_handshake}
use baleen_engine.Docker.Export.{Place, temp_tag, remove_temporary, export_built, export_image}

module _ (D : Daemon) where
  open D use {State, inspect, build, remove, inspect-build, inspect-remove}

  remove_temporary_keeps :
      (image j : Text) (s : State)
      → (image == j) ≡ false
      → inspect j (remove_temporary D image s) ≡ inspect j s
  unfolding remove_temporary
  remove_temporary_keeps image j s apart = elim (Result-cases (remove image s)) [
    | inl (s', gone) ↦ ground (arith, gone, inspect-remove image j s s' gone apart)
    | inr (e, kept) ↦ ground (arith, kept)
  ]

  export_built_keeps :
      (place : Place) (config : PreflightConfig) (report : HandshakeReport) (s : State) (j : Text)
      → (temp_tag config.image_name == j) ≡ false
      → inspect j (export_built D place config report s).0 ≡ inspect j s
  unfolding export_built
  export_built_keeps place config report s j apart =
      let image = temp_tag config.image_name in
      elim (Result-cases (build image report.target_platform s)) [
        | inl (s', built) ↦ ground (
          arith,
          built,
          remove_temporary_keeps image j s' apart,
          inspect-build image report.target_platform j s s' built apart,
        )
        | inr (e, failed) ↦ ground (arith, failed)
      ]

  -- An export, whether it succeeds or not, leaves every image but the temporary one as it was.
  pub export_keeps_images :
      (place : Place) (config : PreflightConfig) (s : State) (j : Text)
      → (temp_tag config.image_name == j) ≡ false
      → inspect j (export_image D place config s).0 ≡ inspect j s
  unfolding export_image
  export_keeps_images place config s j apart =
      let report = run_preflight_handshake (inspect config.image_name s) config in
      ground (arith, export_built_keeps place config report s j apart)
