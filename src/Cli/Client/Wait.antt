-- ===== src/Cli/Client/Wait.antt =====
-- clientWaitForPushCompletion of internal/cli/client_repl.go: which lines it prints and what it
-- reports.
use baleen_engine.Base.{
  false, Option, none, some, List, [], ◌∷◌, ◌++◌, Text, ◌==◌, ==_iff, ==_self, text_eq, string_eq,
  elem, ◌≡◌, refl, arith, Bool-cases, inl, inr,
}
use baleen_engine.Ledger.{Commit}
use baleen_engine.Cli.Client.{
  Poll, behind_last, last_line, print_new, completed, print_round, done_round, wait_loop,
  client_wait_for_push_completion,
}

behind_last_absent :
    (last : Text) (lines : List Text) → elem last lines ≡ false → behind_last last lines ≡ none
unfolding behind_last elem
behind_last_absent last [] h = refl
behind_last_absent last (l ∷ ls) h =
    ground (arith, h, ==_iff l last, ==_iff last l, behind_last_absent last ls)

behind_last_found :
    (last : Text) (older newer : List Text)
    → elem last newer ≡ false
    → behind_last last (older ++ last ∷ newer) ≡ some newer
unfolding behind_last
behind_last_found last [] newer h = ground (arith, behind_last_absent last newer h, ==_self last)
behind_last_found last (l ∷ older) newer h = ground (arith, behind_last_found last older newer h)

-- If the log has the line that was printed last, which is not empty and does not come again behind
-- it, a round prints just what is behind it, and remembers the last of that.
pub print_new_exact :
    (last : Text) (older newer : List Text)
    → (last == []) ≡ false
    → elem last newer ≡ false
    → print_new last (older ++ last ∷ newer) ≡ (newer, last_line last newer)
unfolding print_new
print_new_exact last older newer full h = ground (arith, full, behind_last_found last older newer h)

completed_sound :
    (image : Text) (commits : List Commit) (c : Commit)
    → completed image commits ≡ some c
    → (c.image ≡ image) × ((c.status == "Pending") ≡ false)
unfolding completed
completed_sound image [] c h = (ground (arith, h), ground (arith, h))
completed_sound image (d ∷ rest) c h = elim (Bool-cases (d.image == image)) [
  | inr other ↦ completed_sound image rest c (ground (arith, h, other))
  | inl same ↦ elim (Bool-cases (d.status == "Pending")) [
    | inl pending ↦ (ground (arith, h, same, pending), ground (arith, h, same, pending))
    | inr done ↦
        (ground (arith, h, same, done, ==_iff d.image image), ground (arith, h, same, done))
  ]
]

-- Rounds none of which finds the push at its end.
abbrev pub NoneDone : Text → List Poll → Type 0
NoneDone image [] = Unit
NoneDone image (p ∷ polls) = (done_round image p.commits ≡ none) × NoneDone image polls

wait_loop_first :
    (image last : Text) (before later : List Poll) (p : Poll) (c : Commit)
    → NoneDone image before
    → done_round image p.commits ≡ some c
    → (wait_loop image last (before ++ p ∷ later)).1 ≡ some c
unfolding wait_loop
wait_loop_first image last [] later p c h done = ground (arith, done)
wait_loop_first image last (q ∷ before) later p c h done =
    ground
      (arith, h.0, wait_loop_first image (print_round last q.lines).1 before later p c h.1 done)

-- If a round before the timeout finds that the newest commit of the image is not pending, and none
-- before it does, the wait ends and reports that commit, which is one of the image.
pub wait_reports_first :
    (image : Text) (before later : List Poll) (lines : Option (List Text)) (commits : List Commit)
    (c : Commit)
    → NoneDone image before
    → completed image commits ≡ some c
    → ((client_wait_for_push_completion image
          (before ++ record { lines = lines; commits = some commits } ∷ later)).1
        ≡ some c)
      × (c.image ≡ image)
      × ((c.status == "Pending") ≡ false)
unfolding client_wait_for_push_completion done_round
wait_reports_first image before later lines commits c h done = (
  wait_loop_first image [] before later (record { lines = lines; commits = some commits }) c h done,
  (completed_sound image commits c done).0,
  (completed_sound image commits c done).1,
)
