-- ===== src/Tests/Control.antt =====
-- Transfers under control: writers, the hub, the registry and the approval queue.
use baleen_engine.Base.{
  ◌≡◌, refl, arith, ◌⊎◌, List, true, false, none, some, [], ◌∷◌, text, string_eq, nat_eq, text_eq,
}
use baleen_engine.Base.Int.{pos}
use baleen_engine.Base.Map.{lookup, Distinct}
use baleen_engine.Transfer.Hub.{Hub, ProgressEvent}
use baleen_engine.Transfer.Hub
use baleen_engine.Transfer.Progress.{
  Writer, opens, pause, resume, cancel, gate, idle, selecting, write_step,
}
use baleen_engine.Transfer.Progress.Control.{pause-resume, stale_resume_token}
use baleen_engine.Transfer.Progress.Steps.{Stream, Op, writes, cancels, step, run, is_under_way}
use baleen_engine.Transfer.Progress.Terminal.{TakesOne, run-cancel}
use baleen_engine.Transfer.Session.{resumed}
use baleen_engine.Transfer.Session.Agreement.{
  Ends, AreWired, AreRunning, at_push, at_pull, pause_then_resume, cancel_both,
}
use baleen_engine.Transfer.Manager.{empty_manager, Chans}
use baleen_engine.Transfer.Engine.{Engine, start_writer, clean_up}
use baleen_engine.Api.Control.{control_writer, handle_control}
use baleen_engine.Api.Control.CleanUp.{payload_of, unregister_older}
use baleen_engine.Cli.Approvals.{ApprovalRequest}

abbrev pub push_writer : Writer
push_writer = record {
  total = pos 10;
  sent = 4;
  image = text "web";
  peer = text "ann";
  direction = "push";
  last_time = 0;
  last_bytes = 0;
  resume_ch = false;
  cancel_ch = false;
  paused = false;
  canceled = false;
  paused_by = "";
  control_conn = false;
  notify_peer = true;
}

abbrev halted : Writer
halted = record push_writer { paused = true; paused_by = "receiver" }

abbrev pull_writer : Writer
pull_writer = record push_writer { direction = "pull"; control_conn = true; notify_peer = false }

abbrev ends : Ends
ends = record { push = push_writer; pull = pull_writer }

ends-AreWired : AreWired ends
ends-AreWired = record {
  push_direction = refl;
  push_wire = refl;
  push_notifies = refl;
  pull_direction = refl;
  pull_wire = refl;
}

ends-AreRunning : AreRunning ends
ends-AreRunning = record { push_live = refl; pull_live = refl; push_runs = refl; pull_runs = refl }

pause-resume_example :
    (((pause "sender" push_writer).0).paused ≡ true)
    × (((resume "sender" (pause "sender" push_writer).0).0).paused ≡ false)
    × (((resume "sender" (pause "sender" push_writer).0).0).paused_by ≡ "")
    × ((resume "sender" (pause "sender" push_writer).0).2 ≡ none)
pause-resume_example = pause-resume push_writer "sender" refl refl

stale_resume_token_example :
    let again = (pause "sender" (resume "sender" (pause "sender" push_writer).0).0).0 in
    (again.paused ≡ true) × (gate false again ≡ opens (record again { resume_ch = false }))
stale_resume_token_example = stale_resume_token push_writer "sender" false refl refl refl

-- A Write waits in the select while the transfer is cancelled; the resume token of Cancel lets it
-- through, and the next one is refused.
abbrev paused_stream : Stream
paused_stream = record { writer = record halted { sent = 4 }; phase = selecting; out = 4 }

abbrev late_steps : List Op
late_steps = writes true 9 3 ∷ (writes true 9 3 ∷ (writes true 9 3 ∷ (writes true 9 5 ∷ [])))

run-cancel_example :
    (((run late_steps (step cancels paused_stream)).out ≡ 4)
      ⊎ ((is_under_way selecting ≡ true)
          × TakesOne late_steps paused_stream (run late_steps (step cancels paused_stream))))
    × (write_step true 9 3 idle (run late_steps (step cancels paused_stream)).writer
        ≡ (idle, (run late_steps (step cancels paused_stream)).writer))
run-cancel_example = run-cancel late_steps paused_stream true 9 3

late_bytes_test : (run late_steps (step cancels paused_stream)).out ≡ 7
unfolding run step baleen_engine.Transfer.Progress.Steps.taken_in cancel write_step
    baleen_engine.Transfer.Progress.select_token baleen_engine.Transfer.Progress.account
late_bytes_test = refl

pause_then_resume_example :
    let t = at_push (resumed "sender") (at_push (pause "sender") ends) in
    let u = at_pull (resumed "receiver") (at_pull (pause "receiver") ends) in
    AreRunning t
    × AreRunning u
    × (t.push.paused_by ≡ "")
    × (t.pull.paused_by ≡ "")
    × (u.push.paused_by ≡ "")
    × (u.pull.paused_by ≡ "")
pause_then_resume_example = pause_then_resume ends ends-AreWired ends-AreRunning

cancel_both_example :
    ((at_push cancel ends).push.canceled ≡ true)
    × ((at_push cancel ends).pull.canceled ≡ true)
    × ((at_pull cancel ends).push.canceled ≡ true)
    × ((at_pull cancel ends).pull.canceled ≡ true)
cancel_both_example = cancel_both ends ends-AreWired ends-AreRunning

abbrev event : ProgressEvent
event = record {
  direction = "push";
  image = text "web";
  peer = text "ann";
  progress = record { num = 100; den = 1 };
  speed = Hub.idle;
  status = "completed";
  updated_at = 0;
}

abbrev hub : Hub
hub = (text "web|ann", event) ∷ []

hub-Distinct : Distinct hub
unfolding lookup
hub-Distinct = (refl, tt)

abbrev idle_engine : Engine
idle_engine = record {
  manager = empty_manager;
  hub = [];
  writers = [];
  chans = [];
  wire = [];
  closed = [];
  now = 0;
}

-- A pull of the same image runs beside the push.
unregister_older_example :
    let both = start_writer 8 pull_writer (start_writer 7 push_writer idle_engine) in
    let after = clean_up 7 both in
    (handle_control "cancel" (some (payload_of pull_writer)) both
      ≡ control_writer "cancel" 8 pull_writer both)
    × (lookup 8 after.writers ≡ some pull_writer)
    × (handle_control "pause" (some (payload_of pull_writer)) after ≡ (after, 404))
    × (handle_control "resume" (some (payload_of pull_writer)) after ≡ (after, 404))
unregister_older_example =
    unregister_older 7 8 push_writer pull_writer "cancel" idle_engine (λ e. ground (arith, e)) refl
      refl

abbrev web_request : ApprovalRequest
web_request = record { image = text "web"; response = 1 }

abbrev db_request : ApprovalRequest
db_request = record { image = text "db"; response = 2 }

abbrev decided : Chans
decided = (1, false) ∷ []
