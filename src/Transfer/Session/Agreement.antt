-- ===== src/Transfer/Session/Agreement.antt =====
-- The two writers of one stream under the users' calls, with every signal delivered at once.
use baleen_engine.Base.{◌≡◌, refl, true, false, List, [], ◌∷◌, arith, is_some, string_eq, nat_eq}
use baleen_engine.Transfer.Progress.{
  Writer, held_by_other, Effect, publishes, sends_byte, notifies, pause, resume, cancel,
  notify_paused_by, notify_resumed, is_local_initiator, signal_peer, publish_status, release,
}
use baleen_engine.Transfer.Progress.Control.{held_by_other_self}
use baleen_engine.Transfer.Session.{resumed, serve_byte, serve_control}

-- The writer of the sender has notifyPeer, and that of the receiver ControlConn.
pub record Ends : Type 0 where
  pub push : Writer
  pub pull : Writer

pub record AreWired (s : Ends) : Type 0 where
  pub push_direction : s.push.direction ≡ "push"
  pub push_wire : s.push.control_conn ≡ false
  pub push_notifies : s.push.notify_peer ≡ true
  pub pull_direction : s.pull.direction ≡ "pull"
  pub pull_wire : s.pull.control_conn ≡ true

local_push :
    (w : Writer)
    → w.direction ≡ "push"
    → (is_local_initiator w "sender" ≡ true) × (is_local_initiator w "receiver" ≡ false)
unfolding is_local_initiator
local_push w e = rw (e, is_local_initiator) (refl, refl)

local_pull :
    (w : Writer)
    → w.direction ≡ "pull"
    → (is_local_initiator w "receiver" ≡ true) × (is_local_initiator w "sender" ≡ false)
unfolding is_local_initiator
local_pull w e = rw (e, is_local_initiator) (refl, refl)

receiver_held : held_by_other "sender" "receiver" ≡ true
unfolding held_by_other
receiver_held = refl

sender_held : held_by_other "receiver" "sender" ≡ true
unfolding held_by_other
sender_held = refl

-- The signals of the sender's effects reach the receiver's writer; what that does in answer is lost.
unfoldable pub to_pull : List Effect → Writer → Writer
to_pull [] w = w
to_pull (publishes e ∷ rest) w = to_pull rest w
to_pull (sends_byte b ∷ rest) w = to_pull rest w
to_pull (notifies action initiator ∷ rest) w = to_pull rest (serve_control action initiator w).0

unfoldable pub to_push : List Effect → Writer → Writer
to_push [] w = w
to_push (publishes e ∷ rest) w = to_push rest w
to_push (sends_byte b ∷ rest) w = to_push rest (serve_byte b w).0
to_push (notifies action initiator ∷ rest) w = to_push rest w

-- A call of the user at one end, delivered to the other.
unfoldable pub at_push : (Writer → Writer × List Effect) → Ends → Ends
unfolding to_pull
at_push method s =
    let (w, effects) = method s.push in record { push = w; pull = to_pull effects s.pull }

unfoldable pub at_pull : (Writer → Writer × List Effect) → Ends → Ends
unfolding to_push
at_pull method s =
    let (w, effects) = method s.pull in record { push = to_push effects s.push; pull = w }

pub record AreRunning (s : Ends) : Type 0 where
  pub push_live : s.push.canceled ≡ false
  pub pull_live : s.pull.canceled ≡ false
  pub push_runs : s.push.paused ≡ false
  pub pull_runs : s.pull.paused ≡ false

-- A pause of the sender: the sender's writer is paused, both ends name the sender, and a resume at
-- the receiver fails.
pub sender_pauses :
    (s : Ends)
    → AreWired s
    → AreRunning s
    → let t = at_push (pause "sender") s in
      (t.push.paused ≡ true)
      × (t.push.paused_by ≡ "sender")
      × (t.pull.paused_by ≡ "sender")
      × (is_some (resume "receiver" t.pull).2 ≡ true)
unfolding at_push pause resume serve_control notify_paused_by signal_peer publish_status
sender_pauses s wired running = ground (arith, local_push s.push, receiver_held)

-- A pause of the receiver: both writers are paused, both ends name the receiver, and a resume at the
-- sender fails.
pub receiver_pauses :
    (s : Ends)
    → AreWired s
    → AreRunning s
    → let t = at_pull (pause "receiver") s in
      (t.pull.paused ≡ true)
      × (t.push.paused ≡ true)
      × (t.pull.paused_by ≡ "receiver")
      × (t.push.paused_by ≡ "receiver")
      × (is_some (resume "sender" t.push).2 ≡ true)
unfolding at_pull pause resume serve_byte signal_peer publish_status
receiver_pauses s wired running = ground (arith, local_pull s.pull, sender_held)

-- A pause at either end and the resume at the same end: both ends run, and name nobody.
pub pause_then_resume :
    (s : Ends)
    → AreWired s
    → AreRunning s
    → let t = at_push (resumed "sender") (at_push (pause "sender") s) in
      let u = at_pull (resumed "receiver") (at_pull (pause "receiver") s) in
      AreRunning t
      × AreRunning u
      × (t.push.paused_by ≡ "")
      × (t.pull.paused_by ≡ "")
      × (u.push.paused_by ≡ "")
      × (u.pull.paused_by ≡ "")
unfolding at_push at_pull pause resume release serve_byte serve_control notify_paused_by
    notify_resumed signal_peer publish_status
pause_then_resume s wired running = ground (
  arith,
  local_push s.push,
  local_pull s.pull,
  local_push (at_push (pause "sender") s).push,
  local_pull (at_pull (pause "receiver") s).pull,
  held_by_other_self "sender",
  held_by_other_self "receiver",
)

-- A cancel at either end cancels both.
pub cancel_both :
    (s : Ends)
    → AreWired s
    → AreRunning s
    → ((at_push cancel s).push.canceled ≡ true)
      × ((at_push cancel s).pull.canceled ≡ true)
      × ((at_pull cancel s).push.canceled ≡ true)
      × ((at_pull cancel s).pull.canceled ≡ true)
unfolding at_push at_pull cancel serve_byte serve_control signal_peer publish_status
cancel_both s wired running = ground arith
