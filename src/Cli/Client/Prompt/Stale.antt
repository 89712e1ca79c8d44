-- ===== src/Cli/Client/Prompt/Stale.antt =====
-- internal/cli/client_repl.go: requests that come after another one was shown.
use baleen_engine.Base.{
  Bool, trim_space, true, false, none, some, List, [], ◌∷◌, Text, text, ◌==◌, ==_iff, ==_self,
  text_eq, nat_eq, ◌≡◌, arith,
}
use baleen_engine.Base.Map.{lookup, lookup-delete}
use baleen_engine.Transfer.Receiver.{TransferRequest}
use baleen_engine.Transfer.Manager.{Chans, receive}
use baleen_engine.Cli.Approvals.{ApprovalRequest, send_decision, send_decision_oldest, load}
use baleen_engine.Cli.Client.Prompt.{
  Prompt, key_of, offer_request, poll_round, show_request, says_yes, take_input, Event, polls,
  shows, inputs, step, run,
}

-- Each poll finds nothing, or a request with this hash and name.
abbrev pub SameKey : Text → List Event → Type 0
SameKey key [] = Unit
SameKey key (polls none ∷ es) = SameKey key es
SameKey key (polls (some req) ∷ es) = (key_of req ≡ key) × SameKey key es
SameKey key (shows ∷ es) = SameKey key es
SameKey key (inputs input ∷ es) = SameKey key es

-- Nothing waits to be shown, is shown, or is going to be: the prompt takes commands.
abbrev pub IsIdle : Text → Prompt → Type 0
IsIdle key p = (p.last_hash ≡ key) × (p.pending_chan ≡ none) × (p.pending_approval ≡ none)

run-IsIdle :
    (key : Text) (es : List Event) (p : Prompt)
    → SameKey key es
    → IsIdle key p
    → IsIdle key (run es p)
unfolding run step poll_round show_request take_input
run-IsIdle key [] p same idle = idle
run-IsIdle key (polls none ∷ es) p same idle = run-IsIdle key es p same idle
run-IsIdle key (polls (some req) ∷ es) p same idle =
    run-IsIdle key es (poll_round (some req) p) same.1 (
      ground (arith, same, idle, ==_iff (key_of req) p.last_hash),
      ground (arith, same, idle, ==_iff (key_of req) p.last_hash),
      ground (arith, same, idle, ==_iff (key_of req) p.last_hash),
    )
run-IsIdle key (shows ∷ es) p same idle =
    run-IsIdle key es (show_request p) same
      (ground (arith, idle), ground (arith, idle), ground (arith, idle))
run-IsIdle key (inputs input ∷ es) p same idle =
    run-IsIdle key es (take_input input p).0 same
      (ground (arith, idle), ground (arith, idle), ground (arith, idle))

-- Once a request has been shown and answered, whatever the answer, a later one with the same hash and
-- image name, such as the retry of a push that was rejected, or the push of the same image by another
-- peer, is never shown, as long as no request with another hash or name comes between.
pub retry_never_shown :
    (req : TransferRequest) (input : Text) (es : List Event) (p : Prompt)
    → (key_of req == p.last_hash) ≡ false
    → p.pending_chan ≡ none
    → SameKey (key_of req) es
    → let asked = run (polls (some req) ∷ (shows ∷ [])) p in
      let later = run (inputs input ∷ es) asked in
      (asked.pending_approval ≡ some req)
      × (later.pending_chan ≡ none)
      × (later.pending_approval ≡ none)
unfolding run step poll_round show_request offer_request take_input
retry_never_shown req input es p fresh empty same =
    let asked = run (polls (some req) ∷ (shows ∷ [])) p in
    let idle =
      run-IsIdle (key_of req) es (take_input input asked).0 same (
        ground (arith, fresh, empty),
        ground (arith, fresh, empty),
        ground (arith, fresh, empty),
      ) in
    (ground (arith, fresh, empty), idle.1, idle.2)

-- Two requests wait, `a` before `b`, and both are undecided. The client polls `a` and shows it. Then
-- another interface decides `a`, and the receiver takes that decision out of its channel. If the user
-- of the client, who has been shown no other request, answers "y", that goes to `b`: the status is 200
-- and the channel of `b` holds an approval.
pub approves_unseen :
    (req : TransferRequest) (a b : ApprovalRequest) (newer : List ApprovalRequest) (chans : Chans)
    (p : Prompt) (other : Bool)
    → a.image ≡ req.image_name
    → lookup a.response chans ≡ none
    → lookup b.response chans ≡ none
    → (a.response ≡ b.response → ⊥)
    → (key_of req == p.last_hash) ≡ false
    → p.pending_chan ≡ none
    → let asked = run (polls (some req) ∷ (shows ∷ [])) p in
      let decided = send_decision other (a ∷ (b ∷ newer)) chans in
      let taken = receive a.response decided.2 in
      let answered = send_decision true decided.1 taken.1 in
      ((load chans (a ∷ (b ∷ newer))).1 ≡ some a)
      × (asked.pending_approval ≡ some req)
      × (taken.0 ≡ some other)
      × ((take_input (text "y") asked).1 ≡ some true)
      × (answered.0 ≡ 200)
      × (lookup b.response answered.2 ≡ some true)
unfolding run step poll_round show_request offer_request take_input says_yes trim_space receive load
approves_unseen req a b newer chans p other named a_waits b_waits apart fresh empty =
    let (s, left, sent) = send_decision_oldest other [] (b ∷ newer) a chans tt a_waits in
    let decided = send_decision other (a ∷ (b ∷ newer)) chans in
    let b_free : lookup b.response (receive a.response decided.2).1 ≡ none = ground (
      arith,
      lookup-delete a.response b.response decided.2,
      sent b.response,
      ==_iff a.response b.response,
      apart,
      b_waits,
    ) in
    let (status, rest, approved) =
      send_decision_oldest true [] newer b (receive a.response decided.2).1 tt b_free in
    (
      ground (arith, a_waits),
      ground (arith, fresh, empty),
      ground (arith, sent a.response, ==_self a.response),
      ground (arith, fresh, empty, ==_self (text "y")),
      cc (left, status),
      cc (left, approved b.response, ==_self b.response),
    )
