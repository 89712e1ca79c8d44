-- ===== src/Api/Control/Outcome.antt =====
-- internal/api/handlers/transfer_control.go: what a request has done when it is answered.
use baleen_engine.Base.{
  ℕ, true, false, ◌||◌, some, List, [], ◌∷◌, ◌++◌, String, is_some, string_eq, ◌≡◌, refl, arith,
  inl, inr, Bool-cases, ◌⊎◌, nat_eq, ==_self,
}
use baleen_engine.Base.Map.{lookup, insert, lookup-insert}
use baleen_engine.Transfer.Progress.{
  Writer, Effect, publishes, sends_byte, notifies, pause, resume, cancel, release, held_by_other,
}
use baleen_engine.Transfer.Hub.{publish}
use baleen_engine.Transfer.Manager.{get}
use baleen_engine.Transfer.Session.{resumed}
use baleen_engine.Transfer.Engine.{Engine, byte, message, perform, call}
use baleen_engine.Api.Control.{ControlPayload, initiator_of, control_writer, handle_control}

perform-writers :
    (pw : ℕ) (effects : List Effect) (g : Engine) → (perform pw effects g).writers ≡ g.writers
unfolding perform
perform-writers pw [] g = refl
perform-writers pw (publishes event ∷ rest) g =
    perform-writers pw rest (record g { hub = publish g.now event g.hub })
perform-writers pw (sends_byte b ∷ rest) g =
    perform-writers pw rest (record g { wire = g.wire ++ byte pw b ∷ [] })
perform-writers pw (notifies action side ∷ rest) g =
    perform-writers pw rest (record g { wire = g.wire ++ message pw action side ∷ [] })

-- After a call of a method the writer is what the method made of it.
lookup-call :
    (pw : ℕ) (method : Writer → Writer × List Effect) (w : Writer) (g : Engine)
    → lookup pw g.writers ≡ some w
    → lookup pw (call pw method g).writers ≡ some (method w).0
unfolding call
lookup-call pw method w g held = ground (
  arith,
  held,
  perform-writers pw (method w).1 (record g { writers = insert pw (method w).0 g.writers }),
  lookup-insert pw pw (method w).0 g.writers,
  ==_self pw,
)

pause_stops :
    (side : String) (w : Writer) → ((pause side w).0.paused || (pause side w).0.canceled) ≡ true
unfolding pause
pause_stops side w = ground arith

cancel_stops : (w : Writer) → (cancel w).0.canceled ≡ true
unfolding cancel
cancel_stops w = ground arith

-- What a resume that is not refused leaves running, and what refuses it.
resume-cases :
    (side : String) (w : Writer)
    → ((is_some (resume side w).2 ≡ false)
        × ((resumed side w).0.paused ≡ false)
        × ((resumed side w).0.canceled ≡ false))
      ⊎ ((is_some (resume side w).2 ≡ true)
          × ((resumed side w).0 ≡ w)
          × ((w.canceled || held_by_other w.paused_by side) ≡ true))
unfolding resume release
resume-cases side w = elim (Bool-cases w.canceled) [
  | inl gone ↦ inr (ground (arith, gone), ground (arith, gone), ground (arith, gone))
  | inr live ↦ elim (Bool-cases (held_by_other w.paused_by side)) [
    | inl other ↦
        inr (ground (arith, live, other), ground (arith, live, other), ground (arith, live, other))
    | inr own ↦
        inl (ground (arith, live, own), ground (arith, live, own), ground (arith, live, own))
  ]
]

control-eq :
    (action : String) (p : ControlPayload) (g : Engine) (pw : ℕ) (w : Writer)
    → get p.image_name p.peer_ip g.manager ≡ some pw
    → lookup pw g.writers ≡ some w
    → handle_control action (some p) g ≡ control_writer action pw w g
unfolding handle_control
control-eq action p g pw w found held = ground (arith, found, held)

-- A request that finds the transfer is answered once the transfer is in the state that was asked for:
-- a pause with a writer that is paused or was cancelled, a cancel with one that is cancelled, and a
-- resume with one that runs, or with 409 and the writer as it was, which is cancelled or paused by
-- the other side.
pub control_outcome :
    (p : ControlPayload) (g : Engine) (pw : ℕ) (w : Writer)
    → get p.image_name p.peer_ip g.manager ≡ some pw
    → lookup pw g.writers ≡ some w
    → ((after : Writer) × (lookup pw (handle_control "pause" (some p) g).0.writers ≡ some after)
        × ((after.paused || after.canceled) ≡ true)
        × ((handle_control "pause" (some p) g).1 ≡ 200))
      × ((after : Writer) × (lookup pw (handle_control "cancel" (some p) g).0.writers ≡ some after)
          × (after.canceled ≡ true)
          × ((handle_control "cancel" (some p) g).1 ≡ 200))
      × ((after : Writer) × (lookup pw (handle_control "resume" (some p) g).0.writers ≡ some after)
          × ((((handle_control "resume" (some p) g).1 ≡ 200)
                × (after.paused ≡ false)
                × (after.canceled ≡ false))
              ⊎ (((handle_control "resume" (some p) g).1 ≡ 409)
                  × (after ≡ w)
                  × ((w.canceled || held_by_other w.paused_by (initiator_of w)) ≡ true))))
unfolding control_writer
control_outcome p g pw w found held = (
  (
    (pause (initiator_of w) w).0,
    ground (
      arith,
      control-eq "pause" p g pw w found held,
      lookup-call pw (pause (initiator_of w)) w g held,
    ),
    pause_stops (initiator_of w) w,
    ground (arith, control-eq "pause" p g pw w found held),
  ),
  (
    (cancel w).0,
    ground (arith, control-eq "cancel" p g pw w found held, lookup-call pw cancel w g held),
    cancel_stops w,
    ground (arith, control-eq "cancel" p g pw w found held),
  ),
  (
    (resumed (initiator_of w) w).0,
    ground (
      arith,
      control-eq "resume" p g pw w found held,
      lookup-call pw (resumed (initiator_of w)) w g held,
    ),
    elim (resume-cases (initiator_of w) w) [
      | inl (none_, runs, live) ↦
          inl (ground (arith, control-eq "resume" p g pw w found held, none_), runs, live)
      | inr (error, same, why) ↦
          inr (ground (arith, control-eq "resume" p g pw w found held, error), same, why)
    ],
  ),
)
