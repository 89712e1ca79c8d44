-- ===== src/Api/Control.antt =====
-- internal/api/handlers/transfer_control.go: pause, resume and cancel of a transfer of this process.
pub mod CleanUp
pub mod Outcome
use baleen_engine.Base.{
  ℕ, Bool, true, false, Option, none, some, List, [], ◌∷◌, ◌++◌, String, Text, ◌==◌, if◌then◌else◌,
  is_some, string_eq, nat_eq,
}
use baleen_engine.Base.Map.{lookup}
use baleen_engine.Transfer.Progress.{Writer, pause, resume, cancel}
use baleen_engine.Transfer.Manager.{get, get_pending_conn, cancel_approval}
use baleen_engine.Transfer.Session.{resumed}
use baleen_engine.Transfer.Engine.{Engine, pending_message, call, publish_status}

-- controlPayload
pub record ControlPayload : Type 0 where
  pub image_name : Text
  pub peer_ip : Text

-- A cancel of a request that waits for its answer here; 404 if there is none.
unfoldable pub cancel_at_receiver : Text → Engine → Engine × ℕ
cancel_at_receiver image g =
    let (found, m, chans) = cancel_approval image g.manager g.chans in
    elim found [
      | none ↦ (g, 404)
      | some peer ↦ (
        publish_status image peer "pull" "cancelled" (record g { manager = m; chans = chans }),
        200,
      )
    ]

-- A cancel that finds no running transfer: a connection that waits for the answer of the peer is
-- closed and the peer is told, else the request is one that waits here.
unfoldable pub cancel_before_stream : ControlPayload → Engine → Engine × ℕ
unfolding cancel_at_receiver
cancel_before_stream p g = elim (get_pending_conn p.image_name p.peer_ip g.manager) [
  | none ↦ cancel_at_receiver p.image_name g
  | some pt ↦ (
    publish_status p.image_name p.peer_ip "push" "cancelled" (record g {
      closed = g.closed ++ pt.conn ∷ [];
      wire = g.wire ++ pending_message pt.conn "cancel" "sender" ∷ [];
    }),
    200,
  )
]

-- Who asks: the side of the stream that this process is.
unfoldable pub initiator_of : Writer → String
initiator_of w = if w.direction == "pull" then "receiver" else "sender"

-- The switch over the action, on a writer by its pointer and its value.
unfoldable pub control_writer : String → ℕ → Writer → Engine → Engine × ℕ
unfolding initiator_of
control_writer action pw w g =
    if action == "pause"
    then (call pw (pause (initiator_of w)) g, 200)
    else if action == "resume"
    then (
      call pw (resumed (initiator_of w)) g,
      (if is_some (resume (initiator_of w) w).2 then 409 else 200),
    )
    else if action == "cancel"
    then (call pw cancel g, 200)
    else (g, 200)

-- handleControl; `none` is a body that does not decode
unfoldable pub handle_control : String → Option ControlPayload → Engine → Engine × ℕ
unfolding cancel_before_stream control_writer
handle_control action none g = (g, 400)
handle_control action (some p) g = elim (get p.image_name p.peer_ip g.manager) [
  | none ↦ if action == "cancel" then cancel_before_stream p g else (g, 404)
  | some pw ↦ elim (lookup pw g.writers) [ none ↦ (g, 200) | some w ↦ control_writer action pw w g ]
]
