-- ===== src/Transfer/Progress.antt =====
-- internal/transfer/progress.go: one side of a running transfer, with its pause and cancel protocol.
-- A channel of capacity 1 is whether it holds a token. What an operation does outside the writer
-- comes back as a list of effects, in order.
pub mod Control
pub mod Steps
pub mod Terminal
use baleen_engine.Base.{
  ℕ, ◌+◌, ◌-◌, ◌*◌, ◌<◌, Bool, true, false, not, ◌&&◌, ◌||◌, Option, none, some, List, [], ◌∷◌,
  ◌++◌, String, Text, text, ltb, leb, ◌==◌, if◌then◌else◌, string_eq,
}
use baleen_engine.Base.Int.{ℤ, pos, negsuc, leb_ℤ, pos_part}
use baleen_engine.Transfer.Hub.{ProgressEvent, Percent, Speed, blank, measured}

-- progressWriter
pub record Writer : Type 0 where
  pub total : ℤ
  pub sent : ℕ
  pub image : Text
  pub peer : Text
  pub direction : String
  pub last_time : ℕ
  pub last_bytes : ℕ
  pub resume_ch : Bool
  pub cancel_ch : Bool
  pub paused : Bool
  pub canceled : Bool
  pub paused_by : String
  -- ControlConn and notifyPeer are set
  pub control_conn : Bool
  pub notify_peer : Bool

pub data Effect : Type 0 where
  publishes : ProgressEvent → Effect
  sends_byte : ℕ → Effect
  notifies : String → String → Effect

-- newProgressWriter; GlobalManager.Register is the caller's next step.
unfoldable pub new_progress_writer : ℤ → Text → Text → String → ℕ → Writer
new_progress_writer total image peer direction now = record {
  total = total;
  sent = 0;
  image = image;
  peer = peer;
  direction = direction;
  last_time = now;
  last_bytes = 0;
  resume_ch = false;
  cancel_ch = false;
  paused = false;
  canceled = false;
  paused_by = "";
  control_conn = false;
  notify_peer = false;
}

-- progressFromBytes: 100 * bytes / total, at most 100, and 0 where the total is not positive
unfoldable pub progress_from_bytes : ℤ → ℕ → Percent
progress_from_bytes total bytes =
    if leb_ℤ total (pos 0)
    then record { num = 0; den = 1 }
    else if ltb (100 * pos_part total) (100 * bytes)
    then record { num = 100; den = 1 }
    else record { num = 100 * bytes; den = pos_part total }

-- publishStatus
unfoldable pub publish_status : Writer → String → Percent → Speed → Effect
publish_status w status progress speed = publishes (record {
  direction = w.direction;
  image = w.image;
  peer = w.peer;
  progress = progress;
  speed = speed;
  status = status;
  updated_at = 0;
})

unfoldable pub current_progress : Writer → Percent
unfolding progress_from_bytes
current_progress w = progress_from_bytes w.total w.sent

unfoldable pub is_local_initiator : Writer → String → Bool
is_local_initiator w initiator =
    (w.direction == "push" && initiator == "sender")
    || (w.direction == "pull" && initiator == "receiver")

-- signalPeer
unfoldable pub signal_peer : Writer → ℕ → String → String → List Effect
signal_peer w byte action initiator =
    if w.control_conn
    then sends_byte byte ∷ []
    else if w.notify_peer
    then notifies action initiator ∷ []
    else []

-- Pause
unfoldable pub pause : String → Writer → Writer × List Effect
pause initiator w = if w.paused || w.canceled then (w, []) else (
  record w { paused = true; paused_by = initiator },
  publish_status w "paused" (current_progress w) blank
      ∷ (if is_local_initiator w initiator then signal_peer w b'P' "pause" initiator else []),
)

-- The part of Resume behind its two checks; a send to a full channel is dropped.
unfoldable pub release : Writer → Writer
release w =
    if w.paused
    then record w { paused_by = ""; paused = false; resume_ch = true }
    else record w { paused_by = "" }

-- pw.pausedBy != "" && pw.pausedBy != requester
unfoldable pub held_by_other : String → String → Bool
held_by_other paused_by requester = not (paused_by == "") && not (paused_by == requester)

-- fmt.Errorf("only the %s can resume this paused transfer", pw.pausedBy)
pub only_message : String → Text
only_message side = text "only the " ++ (text side ++ text " can resume this paused transfer")

-- Resume, with its error
unfoldable pub resume : String → Writer → Writer × List Effect × Option Text
resume requester w =
    if w.canceled
    then (w, [], some (text "transfer was cancelled"))
    else if held_by_other w.paused_by requester
    then (w, [], some (only_message w.paused_by))
    else (
      release w,
      publish_status w "transferring" (current_progress w) blank
          ∷ (if is_local_initiator w w.paused_by
              then signal_peer w b'R' "resume" requester
              else []),
      none,
    )

-- Cancel
unfoldable pub cancel : Writer → Writer × List Effect
cancel w = if w.canceled then (w, []) else (
  record w { canceled = true; cancel_ch = true; resume_ch = true },
  publish_status w "cancelled" (current_progress w) blank ∷ signal_peer w b'C' "cancel" "",
)

-- NotifyPausedBy
unfoldable pub notify_paused_by : String → Writer → Writer × List Effect
notify_paused_by initiator w =
    (record w { paused_by = initiator }, publish_status w "paused" (current_progress w) blank ∷ [])

-- NotifyResumed
unfoldable pub notify_resumed : Writer → Writer × List Effect
notify_resumed w =
    (record w { paused_by = "" }, publish_status w "transferring" (current_progress w) blank ∷ [])

pub data Gate : Type 0 where
  -- the write goes on, fails, or waits in the select
  opens : Writer → Gate
  refuses : Writer → Gate
  waits : Gate

-- The select of Write. With both channels ready Go takes either: `first` chooses.
unfoldable pub select_token : Bool → Writer → Gate
select_token first w =
    if w.resume_ch && (first || not w.cancel_ch)
    then opens (record w { resume_ch = false })
    else if w.cancel_ch
    then refuses (record w { cancel_ch = false })
    else waits

-- The head of Write, up to the write itself, when no other call comes in between.
unfoldable pub gate : Bool → Writer → Gate
unfolding select_token
gate first w = if w.canceled then refuses w else if w.paused then select_token first w else opens w

-- The tail of Write, for `n` bytes that the inner writer took at the time `now`.
unfoldable pub account : ℕ → ℕ → Writer → Writer × List Effect
account now n w =
    if ltb 0 n
    then (if leb 100000000 (now - w.last_time)
        then (
          record w { sent = w.sent + n; last_time = now; last_bytes = w.sent + n },
          publish_status w
                (if leb (100 * progress.den) progress.num then "completed" else "transferring")
                progress (measured (w.sent + n - w.last_bytes) (now - w.last_time))
              ∷ [],
        )
        else (record w { sent = w.sent + n }, []))
    else (w, [])
  where
    progress : Percent
    progress = progress_from_bytes w.total (w.sent + n)

-- The effect before the select.
unfoldable pub announce : Writer → List Effect
announce w =
    if w.paused && not w.canceled
    then publish_status w "paused" (current_progress w) blank ∷ []
    else []

-- Where a Write stands between two of its accesses to what it shares with the other goroutines: it
-- has not begun or has returned, has found the transfer not cancelled, waits in the select, is at the
-- write of the inner writer, or has to account for the bytes that this took.
pub data WriteStage : Type 0 where
  idle tested selecting writing : WriteStage
  counting : ℕ → WriteStage

-- One step of Write. It holds no lock, so any call can come between two steps. `n` is what the inner
-- writer takes, `now` the time, and `first` the choice of the select.
unfoldable pub write_step : Bool → ℕ → ℕ → WriteStage → Writer → WriteStage × Writer
unfolding select_token account
write_step first now n idle w = (if w.canceled then idle else tested, w)
write_step first now n tested w = (if w.paused then selecting else writing, w)
write_step first now n selecting w = elim (select_token first w) [
  | opens v ↦ (writing, v)
  | refuses v ↦ (idle, v)
  | waits ↦ (selecting, w)
]
write_step first now n writing w = (counting n, w)
write_step first now n (counting taken) w = (idle, (account now taken w).0)
