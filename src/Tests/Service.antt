-- ===== src/Tests/Service.antt =====
-- The daemon's settings, its start, the control of its transfers, and its peers.
use baleen_engine.Base.{
  ℕ, ◌≡◌, refl, ◌<◌, ◌≤◌, Bool, true, false, none, some, Option, List, [], ◌∷◌, ◌++◌, Text, text,
  ◌==◌, ok, err, text_eq, nat_eq, arith, ◌⊎◌, inl, inr, leb, if◌then◌else◌, length, ◌||◌,
  trim_space, Result,
}
use baleen_engine.Base.Int.{ℤ, pos}
use baleen_engine.Base.Map.{lookup}
use baleen_engine.Config.{NetworkSettings, TransferSettings, Settings, Writable, missing, garbled}
use baleen_engine.Api.Auth.{Headers, cors_and_auth_middleware, served_has_token}
use baleen_engine.Api.Control.{ControlPayload, handle_control, initiator_of}
use baleen_engine.Api.Control.Outcome.{control_outcome}
use baleen_engine.Api.Peers.{manual_name, post_peer}
use baleen_engine.Api.Peers.Manual.{same_second_replaces}
use baleen_engine.Network.Peers.{new_peer_registry}
use baleen_engine.Service.State.{ServiceState, Files, absent, holds}
use baleen_engine.Service.State.Ready.{NoneReady}
use baleen_engine.Service.Daemon.{Launched, already_running, not_launched, not_ready, run_launcher}
use baleen_engine.Service.Daemon.Reports.{SeenAlive, FirstReady, launcher_reports_alive}
use baleen_engine.Transfer.Engine.{Engine}
use baleen_engine.Transfer.Manager.{empty_manager, register}
use baleen_engine.Transfer.Progress.{Writer, held_by_other}
use baleen_engine.Transfer.Throttle.{limiter_of, copy}
use baleen_engine.Transfer.Throttle.Copy.{throttled_copy_complete}
use baleen_engine.Tests.Control.{push_writer}

abbrev may : Writable
may = record { network = true; transfer = true; node_name = true }

abbrev quiet : NetworkSettings
quiet = record { mdns_discovery = false; broadcast_presence = false }

abbrev slow : TransferSettings
slow = record { auto_approve = true; max_bandwidth = pos 5 }

abbrev fresh : Settings
fresh = record { network = missing; transfer = garbled; node_name = none }

abbrev headers : Headers
headers = record { method = "GET"; origin = []; authorization = text "Bearer t" }

served_has_token_example : (text "t" ≡ []) ⊎ (text "Bearer t" ≡ text "Bearer " ++ text "t")
unfolding cors_and_auth_middleware baleen_engine.Base.text_beq
served_has_token_example = served_has_token (text "t") headers refl

-- A limiter refuses no more than its burst.
wait_lem : (burst n : ℕ) → n ≤ burst → (if leb n burst then none else some (text "exceeds")) ≡ none
wait_lem burst n h = ground (arith, h)

one_byte : (r : ℕ) → 0 < r → (0 < 1) × (1 ≤ r)
one_byte r h = (omega arith, omega (arith, h))

throttled_copy_complete_example :
    copy 5
      (λ r. 1)
      (λ burst n. if leb n burst then none else some (text "exceeds"))
      (limiter_of (pos 3))
      8
      (text "abc")
    ≡ some (ok (text "abc"))
throttled_copy_complete_example =
    throttled_copy_complete (pos 3) (λ r. 1)
      (λ burst n. if leb n burst then none else some (text "exceeds")) 8 5 (text "abc")
      (omega arith) one_byte wait_lem (omega arith)

abbrev engine : Engine
engine = record {
  manager = register (text "web") (text "ann") 3 empty_manager;
  hub = [];
  writers = (3, push_writer) ∷ [];
  chans = [];
  wire = [];
  closed = [];
  now = 0;
}

abbrev asked : ControlPayload
asked = record { image_name = text "web"; peer_ip = text "ann" }

control_outcome_example :
    ((after : Writer) × (lookup 3 (handle_control "pause" (some asked) engine).0.writers
        ≡ some after)
      × ((after.paused || after.canceled) ≡ true)
      × ((handle_control "pause" (some asked) engine).1 ≡ 200))
    × ((after : Writer) × (lookup 3 (handle_control "cancel" (some asked) engine).0.writers
          ≡ some after)
        × (after.canceled ≡ true)
        × ((handle_control "cancel" (some asked) engine).1 ≡ 200))
    × ((after : Writer) × (lookup 3 (handle_control "resume" (some asked) engine).0.writers
          ≡ some after)
        × ((((handle_control "resume" (some asked) engine).1 ≡ 200)
              × (after.paused ≡ false)
              × (after.canceled ≡ false))
            ⊎ (((handle_control "resume" (some asked) engine).1 ≡ 409)
                × (after ≡ push_writer)
                × ((push_writer.canceled
                      || held_by_other push_writer.paused_by (initiator_of push_writer))
                    ≡ true))))
unfolding lookup register baleen_engine.Base.text_beq baleen_engine.Transfer.Manager.get
    baleen_engine.Base.Map.insert
control_outcome_example = control_outcome asked engine 3 push_writer refl refl

same_second_replaces_example :
    let a = text "10.0.0.1:9090" in
    let b = text "10.0.0.2:9090" in
    let first = post_peer (λ address. true) 60 a new_peer_registry in
    let second = post_peer (λ address. true) 60 b first.0 in
    (first.1 ≡ 201)
    × (second.1 ≡ 201)
    × (lookup (manual_name 60) first.0.nodes ≡ some a)
    × (lookup (manual_name 60) second.0.nodes ≡ some b)
    × ((j : Text) → lookup j second.0.nodes ≡ some a → ⊥)
unfolding baleen_engine.Base.text_beq
same_second_replaces_example =
    same_second_replaces (λ address. true) 60 (text "10.0.0.1:9090") (text "10.0.0.2:9090")
      new_peer_registry refl refl refl

abbrev state : ServiceState
state = record {
  port = pos 52341;
  token = text "t";
  pid = pos 77;
  node_name = text "whale";
  started_at = 4;
}

abbrev nobody : Files
nobody = record { current = absent; temporary = absent }

abbrev written : Files
written = record { current = holds state; temporary = absent }

abbrev polls : List (Files × (ℤ → Bool))
polls = (nobody, λ pid. true) ∷ ((written, λ pid. true) ∷ [])

abbrev launched : Result (Unit {0})
launched = ok tt

launcher_reports_alive_example :
    ((found : ServiceState) × (run_launcher nobody (λ pid. true) launched polls
        ≡ already_running found)
      × SeenAlive found nobody (λ pid. true))
    ⊎ (((found : ServiceState) × (run_launcher nobody (λ pid. true) launched polls
            ≡ Launched.ready found)
          × FirstReady polls found)
        ⊎ (((e : Text) × (run_launcher nobody (λ pid. true) launched polls ≡ not_launched e)
              × (launched ≡ err e))
            ⊎ ((e : Text) × (run_launcher nobody (λ pid. true) launched polls ≡ not_ready e)
                × NoneReady polls)))
launcher_reports_alive_example = launcher_reports_alive nobody (λ pid. true) launched polls
