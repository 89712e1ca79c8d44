-- ===== src/Cli/Approvals.antt =====
-- PendingApprovalStore of internal/cli/repl.go, with Pending, Approve and Reject of
-- internal/api/handlers/approval.go on it.
use baleen_engine.Base.{
  ℕ, ◌≡◌, refl, Bool, true, Option, none, some, List, [], ◌∷◌, ◌++◌, arith, Text, ◌==◌, ==_self,
  is_some, if◌then◌else◌, nat_eq,
}
use baleen_engine.Base.Map.{lookup, insert, lookup-insert, lookup-delete}
use baleen_engine.Transfer.Manager.{Chans, try_send, receive}

-- ApprovalRequest, with the name of what is requested and the response channel
pub record ApprovalRequest : Type 0 where
  pub image : Text
  pub response : ℕ

-- PendingApprovalStore.Store
unfoldable pub store : ApprovalRequest → List ApprovalRequest → List ApprovalRequest
store r queue = queue ++ r ∷ []

-- PendingApprovalStore.Load: the queue it leaves, and the request
unfoldable pub load : Chans → List ApprovalRequest → List ApprovalRequest × Option ApprovalRequest
load chans [] = ([], none)
load chans (r ∷ rest) =
    let later = load chans rest in
    if is_some (lookup r.response chans) then later else (r ∷ rest, some r)

-- PendingApprovalStore.Clear
unfoldable pub clear : List ApprovalRequest → List ApprovalRequest
clear [] = []
clear (r ∷ rest) = rest

-- sendDecision: the status, the queue and the channels
unfoldable pub send_decision :
    Bool → List ApprovalRequest → Chans → ℕ × List ApprovalRequest × Chans
unfolding load clear
send_decision approved queue chans =
    let (left, found) = load chans queue in
    elim found [
      | none ↦ (409, left, chans)
      | some r ↦ (200, clear left, try_send r.response approved chans)
    ]

-- Every request of the list has a decision in its channel.
abbrev pub Decided : Chans → List ApprovalRequest → Type 0
Decided chans [] = Unit
Decided chans (r ∷ rest) = (is_some (lookup r.response chans) ≡ true) × Decided chans rest

load-undecided :
    (chans : Chans) (older : List ApprovalRequest) (r : ApprovalRequest)
    (newer : List ApprovalRequest)
    → Decided chans older
    → lookup r.response chans ≡ none
    → load chans (older ++ r ∷ newer) ≡ (r ∷ newer, some r)
unfolding load
load-undecided chans [] r newer d open_ = ground arith
load-undecided chans (o ∷ older) r newer d open_ =
    ground (arith, load-undecided chans older r newer d.1 open_)

load-Decided :
    (chans : Chans) (queue : List ApprovalRequest)
    → Decided chans queue
    → load chans queue ≡ ([], none)
unfolding load
load-Decided chans [] d = refl
load-Decided chans (o ∷ older) d = ground (arith, load-Decided chans older d.1)

pub send_decision_oldest :
    (approved : Bool) (older newer : List ApprovalRequest) (r : ApprovalRequest) (chans : Chans)
    → Decided chans older
    → lookup r.response chans ≡ none
    → let (status, left, chans') = send_decision approved (older ++ r ∷ newer) chans in
      (status ≡ 200)
      × (left ≡ newer)
      × ((ch : ℕ)
          → lookup ch chans' ≡ (if r.response == ch then some approved else lookup ch chans))
unfolding send_decision try_send
send_decision_oldest approved older newer r chans d undecided = (
  ground (arith, load-undecided chans older r newer d undecided),
  ground (arith, load-undecided chans older r newer d undecided),
  λ ch. ground (
    arith,
    undecided,
    load-undecided chans older r newer d undecided,
    lookup-insert r.response ch approved chans,
  ),
)

-- Where every request has a decision the answer is 409, the channels stay, and the queue is emptied.
pub send_decision_conflict :
    (approved : Bool) (queue : List ApprovalRequest) (chans : Chans)
    → Decided chans queue
    → send_decision approved queue chans ≡ (409, [], chans)
unfolding send_decision
send_decision_conflict approved queue chans d = ground (arith, load-Decided chans queue d)

-- A request counts as decided only while its decision waits in the channel. Once the receiver has
-- taken the decision, such as the rejection of a cancel, the request is offered again.
pub decided_request_returns :
    (r : ApprovalRequest) (newer : List ApprovalRequest) (decision : Bool) (chans : Chans)
    → lookup r.response chans ≡ none
    → let sent = try_send r.response decision chans in
      ((load sent (r ∷ newer)).1 ≡ (load sent newer).1)
      × ((load (receive r.response sent).1 (r ∷ newer)).1 ≡ some r)
unfolding load try_send receive
decided_request_returns r newer decision chans undecided = ground (
  arith,
  lookup-insert r.response r.response decision chans,
  lookup-delete r.response r.response (insert r.response decision chans),
  ==_self r.response,
)
