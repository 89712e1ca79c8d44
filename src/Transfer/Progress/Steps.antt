-- ===== src/Transfer/Progress/Steps.antt =====
-- A stream whose one Write at a time is interleaved with the calls of both sides.
use baleen_engine.Base.{ℕ, ◌+◌, Bool, true, false, List, [], ◌∷◌, String, string_eq, nat_eq}
use baleen_engine.Transfer.Progress.{
  Writer, pause, resume, cancel, notify_paused_by, notify_resumed, WriteStage, idle, tested,
  selecting, writing, counting, write_step,
}

-- A writer, where the Write of its stream stands, and how many bytes the inner writer has taken.
pub record Stream : Type 0 where
  pub writer : Writer
  pub phase : WriteStage
  pub out : ℕ

-- A call of either side, or the next step of Write: the choice of the select, the time and the bytes
-- that the inner writer takes if the step is its write.
pub data Op : Type 0 where
  pauses resumes is_paused_by : String → Op
  cancels is_resumed : Op
  writes : Bool → ℕ → ℕ → Op

-- The bytes that the inner writer takes in the next step of a Write.
unfoldable pub taken_in : WriteStage → ℕ → ℕ
taken_in writing n = n
taken_in idle n = 0
taken_in tested n = 0
taken_in selecting n = 0
taken_in (counting taken) n = 0

unfoldable pub step : Op → Stream → Stream
unfolding taken_in
step (pauses side) s = record s { writer = (pause side s.writer).0 }
step (resumes side) s = record s { writer = (resume side s.writer).0 }
step (is_paused_by side) s = record s { writer = (notify_paused_by side s.writer).0 }
step cancels s = record s { writer = (cancel s.writer).0 }
step is_resumed s = record s { writer = (notify_resumed s.writer).0 }
step (writes first now n) s = record {
  writer = (write_step first now n s.phase s.writer).1;
  phase = (write_step first now n s.phase s.writer).0;
  out = s.out + taken_in s.phase n;
}

unfoldable pub run : List Op → Stream → Stream
unfolding step
run [] s = s
run (op ∷ ops) s = run ops (step op s)

-- A Write is past its test and has not yet written.
abbrev pub is_under_way : WriteStage → Bool
is_under_way idle = false
is_under_way tested = true
is_under_way selecting = true
is_under_way writing = true
is_under_way (counting taken) = false

-- The numbers of bytes that the steps of Write have for the inner writer.
abbrev pub sizes : List Op → List ℕ
sizes [] = []
sizes (pauses side ∷ ops) = sizes ops
sizes (resumes side ∷ ops) = sizes ops
sizes (is_paused_by side ∷ ops) = sizes ops
sizes (cancels ∷ ops) = sizes ops
sizes (is_resumed ∷ ops) = sizes ops
sizes (writes first now n ∷ ops) = n ∷ sizes ops
