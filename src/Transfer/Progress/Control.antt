-- ===== src/Transfer/Progress/Control.antt =====
-- Who may pause and resume.
use baleen_engine.Base.{
  ◌≡◌, ◌≢◌, Bool, true, false, none, [], arith, String, is_some, ==_self, ==_iff, string_eq,
}
use baleen_engine.Transfer.Progress.{
  Writer, opens, refuses, waits, held_by_other, pause, resume, cancel, release, gate, select_token,
}

held_by_other_lem :
    (by requester : String) → by ≢ "" → by ≢ requester → held_by_other by requester ≡ true
unfolding held_by_other
held_by_other_lem by requester named other = ground (arith, ==_iff by "", ==_iff by requester)

pub held_by_other_self : (side : String) → held_by_other side side ≡ false
unfolding held_by_other
held_by_other_self side = ground (arith, ==_self side, ==_iff side "")

-- Only the side that paused a transfer resumes it: a request of the other side returns an error,
-- tells nobody and leaves the writer as it was.
pub resume_only_by_pauser :
    (w : Writer) (requester : String)
    → w.paused_by ≢ ""
    → w.paused_by ≢ requester
    → ((resume requester w).0 ≡ w)
      × ((resume requester w).1 ≡ [])
      × (is_some (resume requester w).2 ≡ true)
unfolding resume
resume_only_by_pauser w requester named other =
    ground (arith, held_by_other_lem w.paused_by requester)

-- After a side has paused a running transfer and resumed it, the transfer runs, with no error and
-- nobody on record as its pauser.
pub pause-resume :
    (w : Writer) (side : String)
    → w.canceled ≡ false
    → w.paused ≡ false
    → (((pause side w).0).paused ≡ true)
      × (((resume side (pause side w).0).0).paused ≡ false)
      × (((resume side (pause side w).0).0).paused_by ≡ "")
      × ((resume side (pause side w).0).2 ≡ none)
unfolding pause resume release
pause-resume w side live running = ground (arith, held_by_other_self side)

-- A paused writer with empty channels waits; the resume of its pauser lets the next write through.
pub paused_write :
    (w : Writer) (side : String) (first : Bool)
    → w.canceled ≡ false
    → w.paused ≡ true
    → w.paused_by ≡ side
    → w.resume_ch ≡ false
    → w.cancel_ch ≡ false
    → (gate first w ≡ waits)
      × (gate first (resume side w).0
          ≡ opens (record w { paused = false; paused_by = ""; resume_ch = true }))
unfolding gate resume release
paused_write w side first live halted by no_resume no_cancel =
    ground (arith, held_by_other_self side)

-- A resume that no write was waiting for leaves its token in the channel. So after pause, resume
-- and pause again, by whatever side, the next write takes the token and goes on, though the
-- transfer is paused.
pub stale_resume_token :
    (w : Writer) (side : String) (first : Bool)
    → w.canceled ≡ false
    → w.paused ≡ false
    → w.cancel_ch ≡ false
    → let again = (pause side (resume side (pause side w).0).0).0 in
      (again.paused ≡ true) × (gate first again ≡ opens (record again { resume_ch = false }))
unfolding pause resume release gate
stale_resume_token w side first live running no_cancel = ground (arith, held_by_other_self side)

-- A write that waits in the select when the transfer is cancelled finds both channels ready: if the
-- select takes the resume channel the write goes on, and otherwise it is refused.
pub cancelled_waiter :
    (w : Writer)
    → w.canceled ≡ false
    → (select_token true (cancel w).0 ≡ opens (record (cancel w).0 { resume_ch = false }))
      × (select_token false (cancel w).0 ≡ refuses (record (cancel w).0 { cancel_ch = false }))
unfolding cancel select_token
cancelled_waiter w live = ground arith
