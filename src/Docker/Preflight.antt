-- ===== src/Docker/Preflight.antt =====
-- internal/docker/preflight.go: whether an image fits the target, or has to be built for it.
use baleen_engine.Base.{
  Bool, true, not, Option, none, some, List, [], ◌∷◌, ◌++◌, Text, text, ◌==◌, text_eq, nat_eq,
  split,
}
use baleen_engine.Docker.Daemon.{Image}

-- PreflightConfig
pub record PreflightConfig : Type 0 where
  pub image_name : Text
  pub expected_target : Text
  pub export_dir : Text
  pub build_context : Text
  pub force_raw_export : Bool

-- HandshakeReport; FatalErrors is always empty
pub record HandshakeReport : Type 0 where
  pub passed : Bool
  pub requires_cross_build : Bool
  pub target_platform : Text
  pub actual_platform : Text

unfoldable pub last_of : Text → List Text → Text
last_of first [] = first
last_of first (next ∷ rest) = last_of next rest

-- archOnly
unfoldable pub arch_only : Text → Text
unfolding last_of
arch_only platform = let (first, rest) = split b'/' platform in last_of first rest

unfoldable pub platform_of : Image → Text
platform_of i = i.os ++ b'/' ∷ i.architecture

-- RunPreflightHandshake, by what ImageInspect answers
unfoldable pub run_preflight_handshake : Option Image → PreflightConfig → HandshakeReport
unfolding arch_only platform_of
run_preflight_handshake none config = record {
  passed = true;
  requires_cross_build = true;
  target_platform = config.expected_target;
  actual_platform = text "unknown";
}
run_preflight_handshake (some i) config = record {
  passed = true;
  requires_cross_build = not (arch_only (platform_of i) == arch_only config.expected_target);
  target_platform = config.expected_target;
  actual_platform = platform_of i;
}
