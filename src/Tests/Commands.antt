-- ===== src/Tests/Commands.antt =====
-- The commands of the two prompts, and the garbage collection they ask for.
use baleen_engine.Base.{
  ℕ, ◌≡◌, refl, ◌^◌, Bool, true, false, none, some, Option, List, [], ◌∷◌, ◌++◌, Text, text, ◌==◌,
  ok, err, text_eq, nat_eq, string_eq, arith,
}
use baleen_engine.Ledger.Interface.{Bucket, in_memory}
use baleen_engine.Ledger.{Commit, Stored, commit_key, record_commit}
use baleen_engine.Cli.Gc.{Held, delete_physical_files, gc_days, handle_gc}
use baleen_engine.Cli.Gc.Files.{short_hash_deletes_all}
use baleen_engine.Cli.Gc.Days.{gc_old_overflows}
use baleen_engine.Cli.Client.{
  asks, client_handle_gc, client_wait_for_push_completion, Poll, done_round, completed,
}
use baleen_engine.Base.Map.{lookup}
use baleen_engine.Transfer.Receiver.{TransferRequest}
use baleen_engine.Cli.Approvals.{ApprovalRequest, load, send_decision}
use baleen_engine.Transfer.Manager.{receive}
use baleen_engine.Cli.Client.Prompt.{Prompt, polls, shows, inputs, run, take_input, key_of}
use baleen_engine.Cli.Client.Prompt.Stale.{retry_never_shown, approves_unseen}
use baleen_engine.Cli.Client.Gc.{client_gc_agrees}
use baleen_engine.Cli.Client.Wait.{wait_reports_first}
use baleen_engine.Api.Gc.{gc}
use baleen_engine.Api.Gc.Agrees.{older, command_of, request_of, answered}

abbrev B : Bucket Stored
B = in_memory Stored

abbrev K : Bucket (Unit {0})
K = in_memory (Unit {0})

abbrev commit : Commit
commit = record {
  hash = text "aa";
  image = text "web";
  author = text "me";
  peer = text "ann";
  timestamp = text "10:00";
  direction = "Exported";
  status = "Success";
}

-- Every time is a thousand nanoseconds after 1970.
abbrev parse_time : Text → Option ℕ
parse_time s = some 1000

abbrev held : Held B K parse_time
held = record {
  history = record_commit B commit B.empty;
  known = K.empty;
  files =
      (text "web.tar", record { size = 9000000; mod_time = 5; stats = true; removes = true }) ∷ [];
}

client_gc_agrees_example :
    (client_handle_gc (command_of (older 6) true) ≡ asks (request_of (older 6) true))
    × (gc B K parse_time 2000 (some (request_of (older 6) true)) held
        ≡ answered B K parse_time (handle_gc B K parse_time 2000 (command_of (older 6) true) held))
client_gc_agrees_example = client_gc_agrees B K parse_time (older 6) true 2000 held (omega arith)

gc_old_overflows_example :
    B.get (commit_key commit) (gc_days B K parse_time 2000 106752 false held).0.history ≡ none
unfolding record_commit commit_key baleen_engine.Base.Map.lookup baleen_engine.Base.Map.insert
    baleen_engine.Base.text_beq
gc_old_overflows_example =
    gc_old_overflows B K parse_time 2000 106752 1000 false held (commit_key commit) commit
      (omega arith) (omega arith) (omega arith) refl refl

short_hash_deletes_all_example :
    delete_physical_files (text "a") none held.files ≡ delete_physical_files [] none held.files
unfolding baleen_engine.Base.contains
short_hash_deletes_all_example = short_hash_deletes_all (text "a") none held.files refl

abbrev waiting : List Poll
waiting =
    record {
      lines = some (text "preparing" ∷ []);
      commits = some (record commit { status = "Pending" } ∷ []);
    }
    ∷ []

wait_reports_first_example :
    ((client_wait_for_push_completion
        (text "web")
        (waiting ++ record { lines = none; commits = some (commit ∷ []) } ∷ [])).1
      ≡ some commit)
    × (commit.image ≡ text "web")
    × ((commit.status == "Pending") ≡ false)
unfolding done_round completed baleen_engine.Base.text_beq
wait_reports_first_example =
    wait_reports_first (text "web") waiting [] none (commit ∷ []) commit (refl, tt) refl

abbrev pushed : TransferRequest
pushed = record {
  image_name = text "web";
  hash = text "aa";
  author = text "ann";
  image_arch = text "linux/amd64";
  layers = [];
}

abbrev silent : Prompt
silent = record { last_hash = []; pending_chan = none; pending_approval = none }

-- The request is polled, shown and refused; then it comes again, and is polled and shown twice.
retry_never_shown_example :
    let asked = run (polls (some pushed) ∷ (shows ∷ [])) silent in
    let later = run (inputs (text "n") ∷ (polls (some pushed) ∷ (shows ∷ []))) asked in
    (asked.pending_approval ≡ some pushed)
    × (later.pending_chan ≡ none)
    × (later.pending_approval ≡ none)
unfolding key_of baleen_engine.Base.text_beq
retry_never_shown_example =
    retry_never_shown pushed (text "n") (polls (some pushed) ∷ (shows ∷ [])) silent refl refl
      (refl, tt)

abbrev first_request : ApprovalRequest
first_request = record { image = text "web"; response = 1 }

abbrev second_request : ApprovalRequest
second_request = record { image = text "virus"; response = 2 }

-- The daemon's web interface rejects the first request after the client has shown it.
approves_unseen_example :
    let asked = run (polls (some pushed) ∷ (shows ∷ [])) silent in
    let decided = send_decision false (first_request ∷ (second_request ∷ [])) [] in
    let taken = receive 1 decided.2 in
    let answered = send_decision true decided.1 taken.1 in
    ((load [] (first_request ∷ (second_request ∷ []))).1 ≡ some first_request)
    × (asked.pending_approval ≡ some pushed)
    × (taken.0 ≡ some false)
    × ((take_input (text "y") asked).1 ≡ some true)
    × (answered.0 ≡ 200)
    × (lookup 2 answered.2 ≡ some true)
unfolding lookup key_of baleen_engine.Base.text_beq
approves_unseen_example =
    approves_unseen pushed first_request second_request [] [] silent false refl refl refl
      (λ e. ground (arith, e)) refl refl
