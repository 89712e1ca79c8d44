-- ===== src/Docker/Export.antt =====
-- internal/docker/export.go, and silentlyResolveArchitecture of crossbuild.go. The disk is an
-- argument: whether a Dockerfile is in the build context, and os.Create with io.Copy.
pub mod Clean
use baleen_engine.Base.{
  ℕ, Bool, true, false, not, ◌&&◌, Option, none, some, List, [], ◌∷◌, ◌++◌, Text, text, ◌==◌,
  if◌then◌else◌, text_eq, replace_all, Result, ok, err, ◌>>=◌, wrap,
}
use baleen_engine.Transfer.Archive.{Tarball}
use baleen_engine.Docker.Daemon.{Image, Daemon}
use baleen_engine.Docker.Preflight.{PreflightConfig, HandshakeReport, run_preflight_handshake}

pub record Place : Type 0 where
  pub dockerfile : Text → Bool
  pub created : Result (Unit {0})
  pub copied : Result (Unit {0})

-- filepath.Join of a directory and a name without separators
unfoldable pub join : Text → Text → Text
join dir name = dir ++ b'/' ∷ name

-- The path that saveToTarball writes.
unfoldable pub export_path : Text → Text → Text
unfolding join
export_path image export_dir =
    join export_dir (replace_all b'/' b'-' (replace_all b':' b'_' image) ++ text ".tar")

-- tempExportTag
unfoldable pub temp_tag : Text → Text
temp_tag image = image ++ text "-baleen-tmp"

-- An export that succeeds: the path, the architecture and the file.
pub record Exported : Type 0 where
  pub path : Text
  pub arch : Text
  pub file : Tarball

module _ (D : Daemon) where
  open D use {State, inspect, save, remove, build}

  -- saveToTarball
  unfoldable pub save_to_tarball : Place → Text → Text → State → Result (Text × Tarball)
  unfolding export_path
  save_to_tarball place image export_dir s = do
    file ← save image s
    _ ← place.created
    _ ← place.copied
    ok (export_path image export_dir, file)

  -- The end of ExportImage.
  unfoldable pub export_as : Place → PreflightConfig → Text → Text → State → Result Exported
  unfolding save_to_tarball
  export_as place config image arch s = do
    saved ← save_to_tarball place image config.export_dir s
    ok (record { path = saved.0; arch = arch; file = saved.1 })

  -- ImageRemove of the temporary image; an error is only logged.
  unfoldable pub remove_temporary : Text → State → State
  remove_temporary image s = elim (remove image s) [ ok s' ↦ s' | err e ↦ s ]

  -- The branch that builds the image for the target.
  unfoldable pub export_built :
      Place → PreflightConfig → HandshakeReport → State → State × Result Exported
  unfolding temp_tag export_as remove_temporary
  export_built place config report s =
      elim (build (temp_tag config.image_name) report.target_platform s) [
        | err e ↦ (
          s,
          err (text "failed to resolve architecture: autonomous cross-compilation failed: " ++ e),
        )
        | ok s' ↦ (
          remove_temporary (temp_tag config.image_name) s',
          export_as place config (temp_tag config.image_name) report.target_platform s',
        )
      ]

  -- ExportImage
  unfoldable pub export_image : Place → PreflightConfig → State → State × Result Exported
  unfolding export_built
  export_image place config s =
      let report = run_preflight_handshake (inspect config.image_name s) config in
      if report.requires_cross_build && not config.force_raw_export
      then (if place.dockerfile config.build_context
          then export_built place config report s
          else (s, export_as place config config.image_name report.actual_platform s))
      else (s, export_as place config config.image_name report.actual_platform s)
