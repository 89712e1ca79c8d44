-- ===== src/Api/Logs.antt =====
-- internal/api/handlers/logs.go, and handleLogs and handleCleanLogs of internal/cli/repl.go. The log
-- file is the list of its lines, if there is one; a line that bufio.Scanner refuses is an error of
-- the scan.
pub mod Last
use baleen_engine.Base.{
  ℕ, suc, ◌+◌, Bool, true, false, not, ◌&&◌, Option, none, some, List, [], ◌∷◌, ◌++◌, Text, text,
  ◌==◌, if◌then◌else◌, text_eq, ltb, length, drop, Result, ok, err,
}

-- daemon.log, and which calls on it succeed beyond its being there.
pub record LogFile : Type 0 where
  pub lines : Option (List Text)
  pub opens : Bool
  pub scans : Bool
  pub removes : Bool
  pub truncates : Bool

-- lines = append(lines, text), and lines[1:] if there are more than `limit`
unfoldable pub push_line : ℕ → List Text → Text → List Text
push_line limit lines line =
    let longer = lines ++ line ∷ [] in if ltb limit (length longer) then drop 1 longer else longer

-- The loop of the scanner.
unfoldable pub scan_loop : ℕ → List Text → List Text → List Text
unfolding push_line
scan_loop limit lines [] = lines
scan_loop limit lines (line ∷ rest) = scan_loop limit (push_line limit lines line) rest

pub data LogsResponse : Type 0 where
  -- 200 with the lines, and 500
  shown : List Text → LogsResponse
  unreadable : LogsResponse

-- Logs, behind BaleenDir
unfoldable pub logs : LogFile → LogsResponse
unfolding scan_loop
logs f = elim f.lines [
  | none ↦ shown []
  | some lines ↦
      if f.opens
      then (if f.scans then shown (scan_loop 500 [] lines) else unreadable)
      else unreadable
]

pub data CleanResponse : Type 0 where
  deleted truncated truncated_instead already_empty failed : CleanResponse

-- os.OpenFile with O_TRUNC
unfoldable pub truncate : LogFile → LogFile
truncate f = record f { lines = some [] }

-- CleanLogs, behind BaleenDir, by the removeCache of its body
unfoldable pub clean_logs : Bool → LogFile → LogFile × CleanResponse
unfolding truncate
clean_logs true f = elim f.lines [
  | none ↦ (f, deleted)
  | some lines ↦
      if f.removes
      then (record f { lines = none }, deleted)
      else if f.truncates
      then (truncate f, truncated_instead)
      else (f, failed)
]
clean_logs false f = elim f.lines [
  | none ↦ (f, already_empty)
  | some lines ↦ if f.truncates then (truncate f, truncated) else (f, failed)
]

-- handleCleanLogs of the command line, behind BaleenDir, by its -rm
unfoldable pub handle_clean_logs : Bool → LogFile → LogFile × CleanResponse
unfolding truncate
handle_clean_logs true f = elim f.lines [
  | none ↦ (f, deleted)
  | some lines ↦ if f.removes then (record f { lines = none }, deleted) else (f, failed)
]
handle_clean_logs false f = elim f.lines [
  | none ↦ (f, already_empty)
  | some lines ↦ if f.truncates then (truncate f, truncated) else (f, failed)
]
