-- ===== src/Cli/Push/Fallback.antt =====
-- internal/cli/push.go: the second export.
use baleen_engine.Base.{
  Bool, false, ◌++◌, Text, text, ◌==◌, text_eq, text_beq, Result, ok, err, ◌≡◌, refl, arith,
  Result-cases, inl, inr,
}
use baleen_engine.Ledger.Interface.{Bucket}
use baleen_engine.Ledger.{Stored}
use baleen_engine.Docker.Daemon.{Daemon}
use baleen_engine.Docker.Preflight.{PreflightConfig, HandshakeReport, run_preflight_handshake}
use baleen_engine.Docker.Export.{
  Place, temp_tag, save_to_tarball, export_as, export_built, export_image,
}
use baleen_engine.Cli.Push.{export_with_fallback}

abbrev pub no_dockerfile : Text
no_dockerfile = text "ERR_NO_DOCKERFILE"

-- A result with just that error.
abbrev pub says_no_dockerfile {ℓ} : {A : Type ℓ} → Result A → Bool
says_no_dockerfile (ok a) = false
says_no_dockerfile (err e) = e == no_dockerfile

module _ (B : Bucket Stored) (D : Daemon) where
  export_as_lem :
      (place : Place) (config : PreflightConfig) (image arch : Text) (s : D.State)
      → says_no_dockerfile (D.save image s) ≡ false
      → says_no_dockerfile place.created ≡ false
      → says_no_dockerfile place.copied ≡ false
      → says_no_dockerfile (export_as D place config image arch s) ≡ false
  unfolding export_as save_to_tarball
  export_as_lem place config image arch s saves creates copies =
      elim (Result-cases (D.save image s)) [
        | inr (e, refused) ↦ ground (arith, refused, saves)
        | inl (file, saved) ↦ elim (Result-cases place.created) [
          | inr (e, refused) ↦ ground (arith, saved, refused, creates)
          | inl (u, made) ↦ elim (Result-cases place.copied) [
            | inr (e, refused) ↦ ground (arith, saved, made, refused, copies)
            | inl (v, copied) ↦ ground (arith, saved, made, copied)
          ]
        ]
      ]

  wrapped_lem :
      (e : Text)
      → (text "failed to resolve architecture: autonomous cross-compilation failed: " ++ e
          == no_dockerfile)
        ≡ false
  unfolding text_beq
  wrapped_lem e = refl

  export_built_lem :
      (place : Place) (config : PreflightConfig) (report : HandshakeReport) (s : D.State)
      → ((image : Text) (t : D.State) → says_no_dockerfile (D.save image t) ≡ false)
      → says_no_dockerfile place.created ≡ false
      → says_no_dockerfile place.copied ≡ false
      → says_no_dockerfile (export_built D place config report s).1 ≡ false
  unfolding export_built
  export_built_lem place config report s saves creates copies =
      let image = temp_tag config.image_name in
      elim (Result-cases (D.build image report.target_platform s)) [
        | inr (e, failed) ↦ ground (arith, failed, wrapped_lem e)
        | inl (s', built) ↦ ground (
          arith,
          built,
          export_as_lem place config image report.target_platform s' (saves image s') creates
              copies,
        )
      ]

  export_image_lem :
      (place : Place) (config : PreflightConfig) (s : D.State)
      → ((image : Text) (t : D.State) → says_no_dockerfile (D.save image t) ≡ false)
      → says_no_dockerfile place.created ≡ false
      → says_no_dockerfile place.copied ≡ false
      → says_no_dockerfile (export_image D place config s).1 ≡ false
  unfolding export_image
  export_image_lem place config s saves creates copies =
      let report = run_preflight_handshake (D.inspect config.image_name s) config in
      ground (
        arith,
        export_built_lem place config report s saves creates copies,
        export_as_lem place config config.image_name report.actual_platform s
            (saves config.image_name s) creates copies,
      )

  -- Where neither Docker nor the disk fails with just the text ERR_NO_DOCKERFILE, the push of the
  -- daemon's own prompt exports the image once, as ExportImage does, and the user's answer does not
  -- matter: the question for a build context is never asked.
  pub fallback_unreachable :
      (answer : Text) (place : Place) (config : PreflightConfig) (s : D.State)
      → ((image : Text) (t : D.State) → says_no_dockerfile (D.save image t) ≡ false)
      → says_no_dockerfile place.created ≡ false
      → says_no_dockerfile place.copied ≡ false
      → export_with_fallback B D answer place config s ≡ export_image D place config s
  unfolding export_with_fallback
  fallback_unreachable answer place config s saves creates copies =
      elim (Result-cases (export_image D place config s).1) [
        | inl (e, exported) ↦ ground (arith, exported)
        | inr (e, failed) ↦
            ground (arith, failed, export_image_lem place config s saves creates copies)
      ]
