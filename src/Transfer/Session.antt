-- ===== src/Transfer/Session.antt =====
-- The control protocol between the two ends of a stream: the goroutine of streamPayload
-- (internal/transfer/sender.go) that serves the receiver's bytes, and the control branch of
-- handleIncomingTransfer (internal/transfer/receiver.go).
pub mod Agreement
use baleen_engine.Base.{
  ℕ, Bool, true, false, Option, none, some, List, [], ◌∷◌, ◌++◌, String, Text, ◌==◌, if◌then◌else◌,
  is_some, string_eq, nat_eq,
}
use baleen_engine.Transfer.Progress.{
  Writer, Effect, pause, resume, cancel, notify_paused_by, notify_resumed,
}
use baleen_engine.Transfer.Manager.{get, cancel_approval}
use baleen_engine.Transfer.Engine.{Engine, call, publish_status}

-- Resume, its error dropped or logged.
abbrev pub resumed : String → Writer → Writer × List Effect
resumed side w = let (w', effects, _) = resume side w in (w', effects)

-- One byte of the receiver at the sender's writer; other bytes are ignored.
unfoldable pub serve_byte : ℕ → Writer → Writer × List Effect
serve_byte b w =
    if b == b'P'
    then pause "receiver" w
    else if b == b'R'
    then resumed "receiver" w
    else if b == b'C'
    then cancel w
    else (w, [])

-- A control message of the sender at the receiver's writer, once it is found.
unfoldable pub serve_control : String → String → Writer → Writer × List Effect
serve_control action initiator w =
    if action == "pause"
    then (if initiator == "sender" then notify_paused_by "sender" w else pause initiator w)
    else if action == "resume"
    then (if initiator == "sender" then notify_resumed w else resumed initiator w)
    else if action == "cancel"
    then cancel w
    else (w, [])

-- A cancel that finds no running transfer rejects the pending approval.
unfoldable pub cancel_pending : Text → Engine → Engine
cancel_pending image g =
    let (found, m, chans) = cancel_approval image g.manager g.chans in
    elim found [
      | none ↦ g
      | some peer ↦
          publish_status image peer "pull" "cancelled" (record g { manager = m; chans = chans })
    ]

-- The control branch of handleIncomingTransfer.
unfoldable pub control_branch : Text → Text → String → String → Engine → Engine
unfolding serve_control cancel_pending
control_branch image author action initiator g = elim (get image author g.manager) [
  | some pw ↦ call pw (serve_control action initiator) g
  | none ↦ if action == "cancel" then cancel_pending image g else g
]
