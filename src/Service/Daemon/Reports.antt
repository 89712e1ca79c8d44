-- ===== src/Service/Daemon/Reports.antt =====
-- cmd/baleen/daemon.go and client.go: what is reported of the service; and the idle test of
-- internal/api/server.go.
use baleen_engine.Base.{
  ◌==◌, ==_self, text, text_eq, ℕ, ◌*◌, ◌<◌, Bool, true, false, ◌&&◌, none, some, List, [], ◌∷◌,
  ◌++◌, Text, text_eq, nat_eq, Result, ok, err, ◌≡◌, refl, arith, ap, ◌≤◌, ◌⊎◌, inl, inr,
  Option-cases, Result-cases, Bool-cases,
}
use baleen_engine.Base.Int.{ℤ}
use baleen_engine.Service.State.{
  ServiceState, Files, read_state, positive, is_alive, ready, wait_for_ready,
}
use baleen_engine.Service.State.Ready.{NoneReady}
use baleen_engine.Service.Daemon.{
  Launched, Connected, connects, exits, run_client, node_name_of, client_node_name, already_running,
  not_launched, not_ready, running_service, run_launcher, idle_stop,
}

-- A state of a live process, read at one moment.
abbrev pub SeenAlive : ServiceState → Files → (ℤ → Bool) → Type 0
SeenAlive state f lives = (read_state f ≡ ok state) × (is_alive lives state ≡ true)

ready_sound :
    (f : Files) (lives : ℤ → Bool) (state : ServiceState)
    → ready lives (read_state f) ≡ some state
    → SeenAlive state f lives
unfolding ready
ready_sound f lives state h = elim (Result-cases (read_state f)) [
  | inr (e, unread) ↦ (ground (arith, unread, h), ground (arith, unread, h))
  | inl (found, read) ↦ elim (Bool-cases (positive found.port && is_alive lives found)) [
    | inr not_yet ↦ (ground (arith, read, h, not_yet), ground (arith, read, h, not_yet))
    | inl there ↦ (ground (arith, read, h, there), ground (arith, read, h, there))
  ]
]

-- The first of the polls that finds a state, if one does.
abbrev pub FirstReady : List (Files × (ℤ → Bool)) → ServiceState → Type 0
FirstReady polls state =
    (before : List (Files × (ℤ → Bool))) × (f : Files) × (lives : ℤ → Bool) × (later : List
      (Files × (ℤ → Bool)))
    × (polls ≡ before ++ (f, lives) ∷ later)
    × NoneReady before
    × SeenAlive state f lives

wait-cases :
    (polls : List (Files × (ℤ → Bool)))
    → ((state : ServiceState) × (wait_for_ready polls ≡ ok state) × FirstReady polls state)
      ⊎ ((e : Text) × (wait_for_ready polls ≡ err e) × NoneReady polls)
unfolding wait_for_ready
wait-cases [] = inr (_, refl, tt)
wait-cases ((f, lives) ∷ polls) = elim (Option-cases (ready lives (read_state f))) [
  | inr (state, found) ↦ inl (
    state,
    ground (arith, found),
    ([], f, lives, polls, refl, tt, ready_sound f lives state found),
  )
  | inl not_yet ↦ elim (wait-cases polls) [
    | inr (e, out, none_) ↦ inr (e, ground (arith, not_yet, out), (not_yet, none_))
    | inl (state, out, (before, g, others, later, e, none_, seen)) ↦ inl (
      state,
      ground (arith, not_yet, out),
      (
        (f, lives) ∷ before,
        g,
        others,
        later,
        ap (λ rest. (f, lives) ∷ rest) e,
        (not_yet, none_),
        seen,
      ),
    )
  ]
]

running-cases :
    (f : Files) (lives : ℤ → Bool)
    → ((state : ServiceState) × (running_service f lives ≡ some state) × SeenAlive state f lives)
      ⊎ (running_service f lives ≡ none)
unfolding running_service
running-cases f lives = elim (Result-cases (read_state f)) [
  | inr (e, unread) ↦ inr (ground (arith, unread))
  | inl (state, read) ↦ elim (Bool-cases (is_alive lives state)) [
    | inl alive ↦ inl (state, ground (arith, read, alive), (read, alive))
    | inr dead ↦ inr (ground (arith, read, dead))
  ]
]

-- The launcher reports a service as running only if the file named a live process when it looked,
-- and as ready only if a poll found one, the first that did. Else the launch failed, or no poll
-- found a state that was ready.
pub launcher_reports_alive :
    (f : Files) (lives : ℤ → Bool) (launch : Result (Unit {0})) (polls : List (Files × (ℤ → Bool)))
    → ((state : ServiceState) × (run_launcher f lives launch polls ≡ already_running state)
        × SeenAlive state f lives)
      ⊎ (((state : ServiceState) × (run_launcher f lives launch polls ≡ Launched.ready state)
            × FirstReady polls state)
          ⊎ (((e : Text) × (run_launcher f lives launch polls ≡ not_launched e) × (launch ≡ err e))
              ⊎ ((e : Text) × (run_launcher f lives launch polls ≡ not_ready e) × NoneReady polls)))
unfolding run_launcher
launcher_reports_alive f lives launch polls = elim (running-cases f lives) [
  | inl (state, runs, seen) ↦ inl (state, ground (arith, runs), seen)
  | inr idle ↦ elim (Result-cases launch) [
    | inr (e, failed) ↦ inr (inr (inl (e, ground (arith, idle, failed), failed)))
    | inl (u, started) ↦ elim (wait-cases polls) [
      | inl (state, out, first) ↦ inr (inl (state, ground (arith, idle, started, out), first))
      | inr (e, out, none_) ↦ inr (inr (inr (e, ground (arith, idle, started, out), none_)))
    ]
  ]
]

-- The rounds of the idle test in which a transfer is active, or a request came within five minutes.
abbrev pub Busy : List (ℕ × ℕ) → Type 0
Busy [] = Unit
Busy ((idle_time, active) ∷ later) = ((0 < active) ⊎ (idle_time ≤ 5 * 60 * 1000000000)) × Busy later

-- The daemon is not stopped by its idle test while each round finds an active transfer or a request
-- of the last five minutes; and it is stopped by the first round that finds neither.
pub idle_stop_exact :
    (before later : List (ℕ × ℕ)) (idle_time : ℕ)
    → Busy before
    → 5 * 60 * 1000000000 < idle_time
    → (idle_stop before ≡ false) × (idle_stop (before ++ (idle_time, 0) ∷ later) ≡ true)
unfolding idle_stop
idle_stop_exact [] later idle_time busy long = (refl, ground (arith, long))
idle_stop_exact ((t, active) ∷ before) later idle_time busy long =
    let (stays, stops) = idle_stop_exact before later idle_time busy.1 long in
    (ground (arith, busy.0, stays), ground (arith, busy.0, stops))

-- The client connects to the service that the launcher would report, and exits where it would fail.
abbrev pub connection_of : Launched → Connected
connection_of (already_running state) = connects state
connection_of (Launched.ready state) = connects state
connection_of (not_launched e) = exits
connection_of (not_ready e) = exits

run_client_lem :
    (f : Files) (lives : ℤ → Bool) (launch : Result (Unit {0})) (polls : List (Files × (ℤ → Bool)))
    → run_client f lives launch polls ≡ connection_of (run_launcher f lives launch polls)
unfolding run_client run_launcher
run_client_lem f lives launch polls = elim (Option-cases (running_service f lives)) [
  | inr (state, runs) ↦ ground (arith, runs)
  | inl idle ↦ elim (Result-cases launch) [
    | inr (e, failed) ↦ ground (arith, idle, failed)
    | inl (u, started) ↦ elim (Result-cases (wait_for_ready polls)) [
      | inr (e, out) ↦ ground (arith, idle, started, out)
      | inl (state, out) ↦ ground (arith, idle, started, out)
    ]
  ]
]

-- A daemon that the client starts does not take the name that the user has saved: it has the one
-- that the client generates, though a daemon that is started without a name takes the saved one.
client_ignores_saved :
    (saved generated own : Text)
    → (saved == []) ≡ false
    → (generated == text "auto") ≡ false
    → (node_name_of (client_node_name (text "auto") generated) saved own ≡ generated)
      × (node_name_of (text "auto") saved own ≡ saved)
unfolding node_name_of client_node_name
client_ignores_saved saved generated own there named =
    (ground (arith, named, ==_self (text "auto")), ground (arith, there, ==_self (text "auto")))
