-- ===== src/Transfer/Digest.antt =====
-- The formats that internal/transfer/receiver.go demands of a peer's texts, isHex and isDigest.
pub mod Folder
use baleen_engine.Base.{
  ℕ, Bool, true, false, ◌&&◌, ◌||◌, List, [], ◌∷◌, Text, text, leb, ◌==◌, if◌then◌else◌, length,
  all, has_prefix, drop, nat_eq,
}

unfoldable pub is_lower_hex : ℕ → Bool
is_lower_hex c = leb b'0' c && leb c b'9' || leb b'a' c && leb c b'f'

unfoldable pub is_any_hex : ℕ → Bool
unfolding is_lower_hex
is_any_hex c = is_lower_hex c || leb b'A' c && leb c b'F'

-- ^[0-9a-f]{64}$
unfoldable pub is_hex : Text → Bool
is_hex s = length s == 64 && all is_lower_hex s

-- ^sha256:[0-9a-fA-F]{64}$
unfoldable pub is_digest : Text → Bool
is_digest s = has_prefix s (text "sha256:") && (length s == 71 && all is_any_hex (drop 7 s))
