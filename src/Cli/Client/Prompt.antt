-- ===== src/Cli/Client/Prompt.antt =====
-- internal/cli/client_repl.go: how a request for approval reaches the user of the client, and where
-- the answer goes. The polling goroutine and the prompt share a channel of capacity 1.
pub mod Stale
use baleen_engine.Base.{
  ℕ, Bool, true, false, not, Option, none, some, List, [], ◌∷◌, ◌++◌, Text, text, ◌==◌,
  if◌then◌else◌, text_eq, trim_space,
}
use baleen_engine.Transfer.Receiver.{TransferRequest}

pub record Prompt : Type 0 where
  -- lastHash of the goroutine, pendingChan, and pendingApproval
  pub last_hash : Text
  pub pending_chan : Option TransferRequest
  pub pending_approval : Option TransferRequest

unfoldable pub key_of : TransferRequest → Text
key_of req = req.hash ++ req.image_name

-- select { case out <- req: default: }
unfoldable pub offer_request : TransferRequest → Option TransferRequest → Option TransferRequest
offer_request req none = some req
offer_request req (some waiting) = some waiting

-- One round of pollPendingApproval; `none` is a round without a request.
unfoldable pub poll_round : Option TransferRequest → Prompt → Prompt
unfolding key_of offer_request
poll_round none p = p
poll_round (some req) p =
    if key_of req == p.last_hash
    then p
    else record p { last_hash = key_of req; pending_chan = offer_request req p.pending_chan }

-- case req := <-pendingChan
unfoldable pub show_request : Prompt → Prompt
show_request p = elim p.pending_chan [
  | none ↦ p
  | some req ↦ record p { pending_chan = none; pending_approval = some req }
]

-- strings.ToLower(input) == "y"
unfoldable pub says_yes : Text → Bool
says_yes input = if input == text "y" then true else input == text "Y"

-- case input := <-inputChan, which is trimmed: the decision that is sent if a request is pending, else a command.
unfoldable pub take_input : Text → Prompt → Prompt × Option Bool
unfolding says_yes
take_input input p = elim p.pending_approval [
  | none ↦ (p, none)
  | some req ↦ (record p { pending_approval = none }, some (says_yes (trim_space input)))
]

pub data Event : Type 0 where
  polls : Option TransferRequest → Event
  shows : Event
  inputs : Text → Event

unfoldable pub step : Event → Prompt → Prompt
unfolding poll_round show_request take_input
step (polls found) p = poll_round found p
step shows p = show_request p
step (inputs input) p = (take_input input p).0

unfoldable pub run : List Event → Prompt → Prompt
unfolding step
run [] p = p
run (e ∷ es) p = run es (step e p)
