-- ===== src/Tests/Lock.antt =====
-- The lock of a dead process 7.
use baleen_engine.Base.{ℕ, Bool, ◌≡◌, refl, ◌==◌, nat_eq, not}
use baleen_engine.Service.Lock.{first_steps, second_steps}
use baleen_engine.Service.Lock.Race.{made_by, both_starting, both_own, two_owners}

abbrev alive : ℕ → Bool
alive pid = not (pid == 7)

two_owners_example :
    let looked = second_steps alive 9 (
      second_steps alive 9
        (first_steps alive 8 (first_steps alive 8 (both_starting (made_by 7))))) in
    let made = first_steps alive 8 (first_steps alive 8 (first_steps alive 8 looked)) in
    second_steps alive 9 (second_steps alive 9 (second_steps alive 9 made)) ≡ both_own 9
two_owners_example = two_owners alive 8 9 7 refl
