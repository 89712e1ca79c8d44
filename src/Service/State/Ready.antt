-- ===== src/Service/State/Ready.antt =====
-- internal/service/state.go: what a reader of the file and WaitForReady find.
use baleen_engine.Base.{
  Bool, true, none, some, List, [], ◌∷◌, ◌++◌, Text, ok, err, ◌≡◌, refl, arith, ◌⊎◌, inl, inr,
}
use baleen_engine.Base.Int.{ℤ}
use baleen_engine.Service.State.{
  ServiceState, Files, Written, nothing, opened, filled, renamed, write_state, read_state, positive,
  is_alive, ready, wait_for_ready,
}

-- However far WriteState comes, a reader sees the old file or the whole new state, and after a
-- complete write the state that was written.
pub write_state_atomic :
    (written : Written) (state : ServiceState) (f : Files)
    → ((read_state (write_state written state f) ≡ read_state f)
        ⊎ (read_state (write_state written state f) ≡ ok state))
      × (read_state (write_state renamed state f) ≡ ok state)
unfolding write_state read_state
write_state_atomic nothing state f = (inl refl, refl)
write_state_atomic opened state f = (inl refl, refl)
write_state_atomic filled state f = (inl refl, refl)
write_state_atomic renamed state f = (inr refl, refl)

-- Polls none of which finds a state that is ready.
abbrev pub NoneReady : List (Files × (ℤ → Bool)) → Type 0
NoneReady [] = Unit
NoneReady ((f, lives) ∷ rest) = (ready lives (read_state f) ≡ none) × NoneReady rest

ready-eq :
    (lives : ℤ → Bool) (f : Files) (state : ServiceState)
    → read_state f ≡ ok state
    → positive state.port ≡ true
    → is_alive lives state ≡ true
    → ready lives (read_state f) ≡ some state
unfolding ready
ready-eq lives f state found port alive = ground (arith, found, port, alive)

-- If the service has written a state with a port and a live process by some poll before the
-- deadline, and no poll before found one, WaitForReady returns that state.
pub wait_finds_first :
    (before later : List (Files × (ℤ → Bool))) (f : Files) (lives : ℤ → Bool) (state : ServiceState)
    → NoneReady before
    → read_state f ≡ ok state
    → positive state.port ≡ true
    → is_alive lives state ≡ true
    → wait_for_ready (before ++ (f, lives) ∷ later) ≡ ok state
unfolding wait_for_ready
wait_finds_first [] later f lives state h found port alive =
    ground (arith, ready-eq lives f state found port alive)
wait_finds_first ((g, others) ∷ before) later f lives state h found port alive =
    ground (arith, h.0, wait_finds_first before later f lives state h.1 found port alive)

-- WaitForReady times out only where no poll found a state that is ready.
pub wait_times_out :
    (polls : List (Files × (ℤ → Bool)))
    → NoneReady polls
    → (e : Text) × (wait_for_ready polls ≡ err e)
unfolding wait_for_ready
wait_times_out [] h = (_, refl)
wait_times_out ((f, lives) ∷ polls) h =
    let (e, rest) = wait_times_out polls h.1 in (e, ground (arith, h.0, rest))
