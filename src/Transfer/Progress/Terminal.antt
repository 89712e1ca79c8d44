-- ===== src/Transfer/Progress/Terminal.antt =====
-- What a Write can still send once the transfer is cancelled.
use baleen_engine.Base.{
  ℕ, ◌+◌, ◌≡◌, refl, Bool, true, false, List, [], ◌∷◌, arith, string_eq, nat_eq, elem, ==_self, ◌≤◌,
  ◌*◌, ◌∙◌, ap, ◌⊎◌, inl, inr, Bool-cases,
}
use baleen_engine.Base.Int.{ℤ}
use baleen_engine.Transfer.Progress.{
  Writer, pause, resume, cancel, notify_paused_by, notify_resumed, select_token, account,
  WriteStage, idle, tested, selecting, writing, counting, write_step, progress_from_bytes,
}
use baleen_engine.Transfer.Progress.Steps.{
  Stream, Op, pauses, resumes, is_paused_by, cancels, is_resumed, writes, taken_in, step, run,
  is_under_way, sizes,
}

account-canceled : (now n : ℕ) (w : Writer) → (account now n w).0.canceled ≡ w.canceled
unfolding account
account-canceled now n w = ground arith

write_step-canceled :
    (first : Bool) (now n : ℕ) (phase : WriteStage) (w : Writer)
    → w.canceled ≡ true
    → (write_step first now n phase w).1.canceled ≡ true
unfolding write_step select_token
write_step-canceled first now n idle w h = h
write_step-canceled first now n tested w h = h
write_step-canceled first now n selecting w h = ground arith
write_step-canceled first now n writing w h = h
write_step-canceled first now n (counting taken) w h = account-canceled now taken w ∙ h

step-canceled :
    (op : Op) (s : Stream) → s.writer.canceled ≡ true → (step op s).writer.canceled ≡ true
unfolding step pause resume cancel notify_paused_by notify_resumed
step-canceled (pauses side) s h = ground arith
step-canceled (resumes side) s h = ground arith
step-canceled (is_paused_by side) s h = ground arith
step-canceled cancels s h = ground arith
step-canceled is_resumed s h = ground arith
step-canceled (writes first now n) s h = write_step-canceled first now n s.phase s.writer h

run-canceled :
    (ops : List Op) (s : Stream) → s.writer.canceled ≡ true → (run ops s).writer.canceled ≡ true
unfolding run
run-canceled [] s h = h
run-canceled (op ∷ ops) s h = run-canceled ops (step op s) (step-canceled op s h)

write_step-rests :
    (first : Bool) (now n : ℕ) (phase : WriteStage) (w : Writer)
    → w.canceled ≡ true
    → is_under_way phase ≡ false
    → (taken_in phase n ≡ 0) × (is_under_way (write_step first now n phase w).0 ≡ false)
unfolding write_step taken_in
write_step-rests first now n idle w h rests = ground arith
write_step-rests first now n tested w h rests = ground arith
write_step-rests first now n selecting w h rests = ground arith
write_step-rests first now n writing w h rests = ground arith
write_step-rests first now n (counting taken) w h rests = (refl, refl)

-- Without a Write under way a step of a cancelled stream takes no byte, and none gets under way.
step-rests :
    (op : Op) (s : Stream)
    → s.writer.canceled ≡ true
    → is_under_way s.phase ≡ false
    → ((step op s).out ≡ s.out) × (is_under_way (step op s).phase ≡ false)
unfolding step
step-rests (pauses side) s h rests = (refl, rests)
step-rests (resumes side) s h rests = (refl, rests)
step-rests (is_paused_by side) s h rests = (refl, rests)
step-rests cancels s h rests = (refl, rests)
step-rests is_resumed s h rests = (refl, rests)
step-rests (writes first now n) s h rests =
    let (none_taken, still) = write_step-rests first now n s.phase s.writer h rests in
    (omega (arith, none_taken), still)

run-rests :
    (ops : List Op) (s : Stream)
    → s.writer.canceled ≡ true
    → is_under_way s.phase ≡ false
    → ((run ops s).out ≡ s.out) × (is_under_way (run ops s).phase ≡ false)
unfolding run
run-rests [] s h rests = (refl, rests)
run-rests (op ∷ ops) s h rests =
    let (same, still) = step-rests op s h rests in
    let (later, end) = run-rests ops (step op s) (step-canceled op s h) still in (later ∙ same, end)

write_step-once :
    (first : Bool) (now n : ℕ) (phase : WriteStage) (w : Writer)
    → (taken_in phase n ≡ 0)
      ⊎ ((taken_in phase n ≡ n) × (is_under_way (write_step first now n phase w).0 ≡ false))
unfolding write_step taken_in
write_step-once first now n idle w = inl refl
write_step-once first now n tested w = inl refl
write_step-once first now n selecting w = inl refl
write_step-once first now n writing w = inr (refl, refl)
write_step-once first now n (counting taken) w = inl refl

-- A run adds the bytes of one of its steps of Write.
abbrev pub TakesOne : List Op → Stream → Stream → Type 0
TakesOne ops s after = (n : ℕ) × (elem n (sizes ops) ≡ true) × (after.out ≡ s.out + n)

abbrev TakesOnce : List Op → Stream → Stream → Type 0
TakesOnce ops s after = (after.out ≡ s.out) ⊎ TakesOne ops s after

run-same :
    (op : Op) (ops : List Op) (s : Stream)
    → ((n : ℕ) → elem n (sizes ops) ≡ true → elem n (sizes (op ∷ ops)) ≡ true)
    → (step op s).out ≡ s.out
    → TakesOnce ops (step op s) (run ops (step op s))
    → TakesOnce (op ∷ ops) s (run (op ∷ ops) s)
unfolding run
run-same op ops s grows same (inl none_taken) = inl (none_taken ∙ same)
run-same op ops s grows same (inr (n, listed, taken)) =
    inr (n, grows n listed, omega (arith, taken, same))

run-TakesOnce :
    (ops : List Op) (s : Stream) → s.writer.canceled ≡ true → TakesOnce ops s (run ops s)
unfolding run step elem
run-TakesOnce [] s h = inl refl
run-TakesOnce (pauses side ∷ ops) s h =
    run-same (pauses side) ops s (λ n e. e) refl
      (run-TakesOnce ops (step (pauses side) s) (step-canceled (pauses side) s h))
run-TakesOnce (resumes side ∷ ops) s h =
    run-same (resumes side) ops s (λ n e. e) refl
      (run-TakesOnce ops (step (resumes side) s) (step-canceled (resumes side) s h))
run-TakesOnce (is_paused_by side ∷ ops) s h =
    run-same (is_paused_by side) ops s (λ n e. e) refl
      (run-TakesOnce ops (step (is_paused_by side) s) (step-canceled (is_paused_by side) s h))
run-TakesOnce (cancels ∷ ops) s h =
    run-same cancels ops s (λ n e. e) refl
      (run-TakesOnce ops (step cancels s) (step-canceled cancels s h))
run-TakesOnce (is_resumed ∷ ops) s h =
    run-same is_resumed ops s (λ n e. e) refl
      (run-TakesOnce ops (step is_resumed s) (step-canceled is_resumed s h))
run-TakesOnce (writes first now n ∷ ops) s h =
    let op = writes first now n in
    let canceled = step-canceled op s h in
    elim (write_step-once first now n s.phase s.writer) [
      | inl none_taken ↦
          run-same op ops s (λ m e. ground (arith, e)) (omega (arith, none_taken))
            (run-TakesOnce ops (step op s) canceled)
      | inr (taken, ended) ↦ inr (
        n,
        ground (arith, ==_self n),
        (run-rests ops (step op s) canceled ended).0 ∙ ap (λ m. s.out + m) taken,
      )
    ]

cancel-canceled : (w : Writer) → (cancel w).0.canceled ≡ true
unfolding cancel
cancel-canceled w = ground arith

-- After Cancel, whatever calls and steps of Write follow, the inner writer takes nothing more, or the
-- bytes of one write of a Write that had passed its test before the Cancel. And then a Write that
-- begins is refused: it stops at its test and changes nothing.
pub run-cancel :
    (ops : List Op) (s : Stream) (first : Bool) (now n : ℕ)
    → let after = run ops (step cancels s) in
      ((after.out ≡ s.out) ⊎ ((is_under_way s.phase ≡ true) × TakesOne ops s after))
      × (write_step first now n idle after.writer ≡ (idle, after.writer))
unfolding step write_step
run-cancel ops s first now n =
    let canceled = cancel-canceled s.writer in
    (
      elim (Bool-cases (is_under_way s.phase)) [
        | inr rests ↦ inl (run-rests ops (step cancels s) canceled rests).0
        | inl busy ↦ elim (run-TakesOnce ops (step cancels s) canceled) [
          | inl nothing ↦ inl nothing
          | inr one ↦ inr (busy, one)
        ]
      ],
      ground (arith, run-canceled ops (step cancels s) canceled),
    )

-- A progress is a percentage: its denominator is positive and it is at most 100.
pub progress_from_bytes-le :
    (total : ℤ) (bytes : ℕ)
    → let p = progress_from_bytes total bytes in (1 ≤ p.den) × (p.num ≤ 100 * p.den)
unfolding progress_from_bytes
progress_from_bytes-le total bytes = ground arith
