-- ===== src/Cli/Client/Words.antt =====
-- internal/cli/client_repl.go and internal/cli/repl.go: one line, read by the two prompts.
use baleen_engine.Base.{false, List, [], ◌∷◌, ◌++◌, Text, ◌==◌, text_eq, is_space, ◌≡◌, ◌⊎◌}
use baleen_engine.Ledger.Interface.{Bucket}
use baleen_engine.Ledger.{Stored}
use baleen_engine.Network.Peers.{PeerRegistry}
use baleen_engine.Docker.Daemon.{Daemon}
use baleen_engine.Cli.Push.{Attempt, PushOutcome, push_image_to, handle_push}
use baleen_engine.Cli.Commands.{Command}
use baleen_engine.Cli.Client.{ClientCommand, client_handle_gc, client_push}

-- The words of a line, one space between them.
abbrev pub unwords : List Text → Text
unwords [] = []
unwords (w ∷ []) = w
unwords (w ∷ (v ∷ rest)) = w ++ (b' ' ∷ unwords (v ∷ rest))

abbrev pub NoSpace : Text → Type 0
NoSpace [] = Unit
NoSpace (c ∷ s) = (is_space c ≡ false) × NoSpace s

-- Words that are not empty and have no space in them.
abbrev pub AreWords : List Text → Type 0
AreWords [] = Unit
AreWords (w ∷ ws) = ((w == []) ≡ false) × NoSpace w × AreWords ws

-- The case of the client's switch for a case of the daemon's, with the words as the client reads them.
unfoldable pub as_client : Command → ClientCommand
as_client c = elim c [
  | Command.nothing ↦ ClientCommand.nothing
  | Command.peers ↦ ClientCommand.peers
  | Command.history ↦ ClientCommand.history
  | Command.prune ↦ ClientCommand.prune
  | Command.logs ↦ ClientCommand.logs
  | Command.exit ↦ ClientCommand.exit
  | Command.unknown ↦ ClientCommand.unknown
  | Command.push words ↦ client_push words
  | Command.gc words ↦ ClientCommand.gc (client_handle_gc words)
  | Command.clean_logs remove ↦ ClientCommand.clean_logs remove
  | Command.clean_unknown ↦ ClientCommand.clean_unknown
]

module _ (B : Bucket Stored) (D : Daemon) where
  -- Both print how push is used; or the client asks for the push that handlePush makes, of the same
  -- image, with the same build context, to the same peer.
  abbrev pub IsSamePush : List Text → ClientCommand → Type 0
  IsSamePush words c =
      ((c ≡ ClientCommand.push_usage)
        × ((a : Attempt) (registry : PeerRegistry) (s : D.State) (history : B.Store)
            → handle_push B D a registry words s history ≡ (s, history, PushOutcome.push_usage)))
      ⊎ ((peer image context : Text) × (c ≡ ClientCommand.push peer image context)
          × ((a : Attempt) (registry : PeerRegistry) (s : D.State) (history : B.Store)
              → handle_push B D a registry words s history
                ≡ push_image_to B D a registry peer image context s history))

  -- The case of the client's prompt goes with that of the daemon's. Of `exit` and of `gc` only the
  -- words are the same: what they do differs.
  abbrev pub IsCounterpart : Command → ClientCommand → Type 0
  IsCounterpart Command.nothing c = c ≡ ClientCommand.nothing
  IsCounterpart Command.peers c = c ≡ ClientCommand.peers
  IsCounterpart Command.history c = c ≡ ClientCommand.history
  IsCounterpart Command.prune c = c ≡ ClientCommand.prune
  IsCounterpart Command.logs c = c ≡ ClientCommand.logs
  IsCounterpart Command.exit c = c ≡ ClientCommand.exit
  IsCounterpart Command.unknown c = c ≡ ClientCommand.unknown
  IsCounterpart (Command.push words) c = IsSamePush words c
  IsCounterpart (Command.gc words) c = c ≡ ClientCommand.gc (client_handle_gc words)
  IsCounterpart (Command.clean_logs remove) c = c ≡ ClientCommand.clean_logs remove
  IsCounterpart Command.clean_unknown c = c ≡ ClientCommand.clean_unknown
