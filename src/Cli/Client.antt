-- ===== src/Cli/Client.antt =====
-- internal/cli/client_repl.go: the commands of the terminal client, the requests they send, and the
-- wait for the end of a push.
pub mod Gc
pub mod Wait
pub mod Words
pub mod Prompt
use baleen_engine.Base.{
  ℕ, Bool, true, false, not, ◌&&◌, Option, none, some, List, [], ◌∷◌, ◌++◌, String, Text, text,
  ◌==◌, if◌then◌else◌, text_eq, string_eq, is_space, is_some,
}
use baleen_engine.Base.Int.{ℤ, pos}
use baleen_engine.Base.Decimal.{scan_d}
use baleen_engine.Ledger.{Commit}
use baleen_engine.Cli.Gc.{without_flag}
use baleen_engine.Cli.Commands.{ends_with_flag}
use baleen_engine.Api.Gc.{GcRequest}

pub data ClientGc : Type 0 where
  -- the usage; an index out of range, which ends the client; the body of the request
  gc_usage panics : ClientGc
  asks : GcRequest → ClientGc

-- The days of `gc old`: those of the third word, as far as Sscanf reads it, or seven.
unfoldable pub asked_days : List Text → ℤ
asked_days [] = pos 7
asked_days (word ∷ rest) = elim (scan_d word) [ none ↦ pos 7 | some days ↦ days ]

-- The switch of clientHandleGC, behind the flag.
unfoldable pub gc_payload : List Text → Bool → ClientGc
unfolding asked_days
gc_payload [] remove_cache = panics
gc_payload (gc ∷ []) remove_cache = panics
gc_payload (gc ∷ (word ∷ rest)) remove_cache = asks (
    if word == text "all"
    then record { mode = text "all"; days = pos 0; hash = []; remove_cache = remove_cache }
    else if word == text "old"
    then record {
      mode = text "old";
      days = asked_days rest;
      hash = [];
      remove_cache = remove_cache;
    }
    else record { mode = text "hash"; days = pos 0; hash = word; remove_cache = remove_cache })

-- clientHandleGC, up to the request
unfoldable pub client_handle_gc : List Text → ClientGc
unfolding gc_payload
client_handle_gc [] = gc_usage
client_handle_gc (gc ∷ []) = gc_usage
client_handle_gc (gc ∷ (word ∷ rest)) =
    let (parts, remove_cache) = without_flag (gc ∷ (word ∷ rest)) in gc_payload parts remove_cache

pub data ClientCommand : Type 0 where
  nothing peers history prune logs stop exit unknown : ClientCommand
  push_usage clean_unknown : ClientCommand
  -- the peer, the image and the build context
  push : Text → Text → Text → ClientCommand
  gc : ClientGc → ClientCommand
  clean_logs : Bool → ClientCommand

-- strings.Fields behind the word so far
unfoldable pub fields_from : Text → Text → List Text
fields_from word [] = if word == [] then [] else word ∷ []
fields_from word (c ∷ s) =
    let ended = fields_from [] s in
    let longer = fields_from (word ++ c ∷ []) s in
    if is_space c then (if word == [] then ended else word ∷ ended) else longer

-- strings.Fields
unfoldable pub fields : Text → List Text
unfolding fields_from
fields input = fields_from [] input

-- The case "push".
unfoldable pub client_push : List Text → ClientCommand
client_push [] = push_usage
client_push (p ∷ []) = push_usage
client_push (p ∷ (peer ∷ [])) = push_usage
client_push (p ∷ (peer ∷ (image ∷ []))) = push peer image (text ".")
client_push (p ∷ (peer ∷ (image ∷ (context ∷ rest)))) = push peer image context

-- The case "clean".
unfoldable pub client_clean : List Text → ClientCommand
unfolding ends_with_flag
client_clean [] = clean_unknown
client_clean (c ∷ []) = clean_unknown
client_clean (c ∷ (word ∷ rest)) =
    if word == text "logs" then clean_logs (ends_with_flag (c ∷ (word ∷ rest))) else clean_unknown

-- The switch of handleClientCommand.
unfoldable pub client_choose : List Text → ClientCommand
unfolding client_push client_clean client_handle_gc
client_choose [] = nothing
client_choose (word ∷ rest) =
    if word == text "peers"
    then peers
    else if word == text "push"
    then client_push (word ∷ rest)
    else if word == text "history"
    then history
    else if word == text "gc"
    then gc (client_handle_gc (word ∷ rest))
    else if word == text "prune"
    then prune
    else if word == text "clean"
    then client_clean (word ∷ rest)
    else if word == text "logs"
    then logs
    else if word == text "stop"
    then stop
    else if word == text "exit"
    then exit
    else unknown

-- handleClientCommand, up to the handler of the command
unfoldable pub handle_client_command : Text → ClientCommand
unfolding client_choose fields
handle_client_command input = client_choose (fields input)

-- What one round of clientWaitForPushCompletion gets from the daemon: the lines of its log and the
-- commits of its history, each if the request and the decoding succeed.
pub record Poll : Type 0 where
  pub lines : Option (List Text)
  pub commits : Option (List Commit)

-- The lines behind the last one that is `last`.
unfoldable pub behind_last : Text → List Text → Option (List Text)
behind_last last [] = none
behind_last last (l ∷ ls) = elim (behind_last last ls) [
  | some rest ↦ some rest
  | none ↦ if l == last then some ls else none
]

unfoldable pub last_line : Text → List Text → Text
last_line last [] = last
last_line last (l ∷ ls) = last_line l ls

-- The lines that a round prints, and lastPrintedLine behind it.
unfoldable pub print_new : Text → List Text → List Text × Text
unfolding behind_last last_line
print_new last lines =
    if last == [] then ([], last_line last lines) else elim (behind_last last lines) [
      | none ↦ (lines, last_line last lines)
      | some rest ↦ (rest, last_line last rest)
    ]

-- The first commit of the image, unless it is pending.
unfoldable pub completed : Text → List Commit → Option Commit
completed image [] = none
completed image (c ∷ rest) =
    let later = completed image rest in
    if c.image == image then (if c.status == "Pending" then none else some c) else later

-- The lines that a round prints, if it gets the log.
unfoldable pub print_round : Text → Option (List Text) → List Text × Text
unfolding print_new
print_round last none = ([], last)
print_round last (some lines) = print_new last lines

-- The commit that a round reports, if it gets the history.
unfoldable pub done_round : Text → Option (List Commit) → Option Commit
unfolding completed
done_round image none = none
done_round image (some commits) = completed image commits

-- The loop of clientWaitForPushCompletion over its rounds until the timeout: what it prints and the
-- commit it reports, if it is not out of time.
unfoldable pub wait_loop : Text → Text → List Poll → List Text × Option Commit
unfolding print_round done_round
wait_loop image last [] = ([], none)
wait_loop image last (p ∷ polls) =
    let (printed, last') = print_round last p.lines in
    let (more, later) = wait_loop image last' polls in
    if is_some (done_round image p.commits)
    then (printed, done_round image p.commits)
    else (printed ++ more, later)

-- clientWaitForPushCompletion
unfoldable pub client_wait_for_push_completion : Text → List Poll → List Text × Option Commit
unfolding wait_loop
client_wait_for_push_completion image polls = wait_loop image [] polls
