-- ===== src/Transfer/Status.antt =====
-- ParseErrorToStatus of internal/transfer/types.go.
use baleen_engine.Base.{
  ℕ, ◌+◌, ◌&&◌, Option, none, some, map, String, Text, text, leb, if◌then◌else◌, contains,
}

-- strings.ToLower on one byte of ASCII
unfoldable pub to_lower : ℕ → ℕ
to_lower c = if leb b'A' c && leb c b'Z' then c + 32 else c

-- nil is `none`
unfoldable pub parse_error_to_status : Option Text → String
unfolding to_lower contains
parse_error_to_status none = "Completed"
parse_error_to_status (some message) =
    let lower = map to_lower message in
    if contains lower (text "reject")
    then "Rejected"
    else if contains lower (text "cancel")
    then "Canceled"
    else if contains lower (text "panic")
    then "Crashed"
    else "Failed"
