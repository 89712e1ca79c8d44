-- ===== src/Cli/Commands.antt =====
-- handleCommand of internal/cli/repl.go: the words of a line and the command they choose.
use baleen_engine.Base.{Bool, false, List, [], ◌∷◌, Text, text, ◌==◌, if◌then◌else◌, text_eq, split}

pub data Command : Type 0 where
  nothing peers history prune logs exit unknown : Command
  -- with the words of the line
  push : List Text → Command
  gc : List Text → Command
  -- whether the file is deleted; and a `clean` of anything but the logs
  clean_logs : Bool → Command
  clean_unknown : Command

-- parts[len(parts)-1] == "-rm"
unfoldable pub ends_with_flag : List Text → Bool
ends_with_flag [] = false
ends_with_flag (w ∷ []) = w == text "-rm"
ends_with_flag (w ∷ (v ∷ rest)) = ends_with_flag (v ∷ rest)

-- The case "clean".
unfoldable pub clean : List Text → Command
unfolding ends_with_flag
clean [] = clean_unknown
clean (c ∷ []) = clean_unknown
clean (c ∷ (word ∷ rest)) =
    if word == text "logs" then clean_logs (ends_with_flag (c ∷ (word ∷ rest))) else clean_unknown

-- strings.Split(input, " ")
unfoldable pub parts_of : Text → List Text
parts_of input = let (first, rest) = split b' ' input in first ∷ rest

-- The switch of handleCommand.
unfoldable pub choose : List Text → Command
unfolding clean
choose [] = nothing
choose (word ∷ rest) =
    if word == []
    then nothing
    else if word == text "push"
    then push (word ∷ rest)
    else if word == text "peers"
    then peers
    else if word == text "history"
    then history
    else if word == text "gc"
    then gc (word ∷ rest)
    else if word == text "prune"
    then prune
    else if word == text "logs"
    then logs
    else if word == text "clean"
    then clean (word ∷ rest)
    else if word == text "exit"
    then exit
    else unknown

-- handleCommand
unfoldable pub handle_command : Text → Command
unfolding choose parts_of
handle_command input = choose (parts_of input)
