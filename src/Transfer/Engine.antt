-- ===== src/Transfer/Engine.antt =====
-- The transfer state of one process: GlobalManager, GlobalHub, the writers that pointers reach, the
-- approval channels, and what has left for the peers. Effects of a writer act on it.
use baleen_engine.Base.{ℕ, none, some, List, [], ◌∷◌, ◌++◌, String, Text, text_eq, nat_eq}
use baleen_engine.Base.Map.{Map, lookup, insert}
use baleen_engine.Transfer.Hub.{Hub, blank, publish}
use baleen_engine.Transfer.Progress.{Writer, Effect, publishes, sends_byte, notifies}
use baleen_engine.Transfer.Manager.{Manager, Chans, register, unregister}

pub data Signal : Type 0 where
  -- a byte of a writer on its ControlConn; a control message of a writer or of a pending connection
  byte : ℕ → ℕ → Signal
  message : ℕ → String → String → Signal
  pending_message : ℕ → String → String → Signal

pub record Engine : Type 0 where
  pub manager : Manager
  pub hub : Hub
  pub writers : Map ℕ Writer
  pub chans : Chans
  pub wire : List Signal
  pub closed : List ℕ
  pub now : ℕ

-- newProgressWriter: the new writer `w` at the pointer `pw`, and its Register
unfoldable pub start_writer : ℕ → Writer → Engine → Engine
unfolding register
start_writer pw w g = record g {
  writers = insert pw w g.writers;
  manager = register w.image w.peer pw g.manager;
}

-- Cleanup of `pw`, which is its Unregister; it does not look at what is registered.
unfoldable pub clean_up : ℕ → Engine → Engine
unfolding unregister
clean_up pw g = elim (lookup pw g.writers) [
  | none ↦ g
  | some w ↦ record g { manager = unregister w.image w.peer g.manager }
]

-- PublishStatus
unfoldable pub publish_status : Text → Text → String → String → Engine → Engine
publish_status image peer direction status g = record g {
  hub =
      publish g.now
        (record {
          direction = direction;
          image = image;
          peer = peer;
          progress = record { num = 0; den = 1 };
          speed = blank;
          status = status;
          updated_at = 0;
        })
        g.hub;
}

-- The effects of the writer `pw`, in order.
unfoldable pub perform : ℕ → List Effect → Engine → Engine
perform pw [] g = g
perform pw (publishes event ∷ rest) g =
    perform pw rest (record g { hub = publish g.now event g.hub })
perform pw (sends_byte b ∷ rest) g = perform pw rest (record g { wire = g.wire ++ byte pw b ∷ [] })
perform pw (notifies action initiator ∷ rest) g =
    perform pw rest (record g { wire = g.wire ++ message pw action initiator ∷ [] })

-- A method call on `pw`.
unfoldable pub call : ℕ → (Writer → Writer × List Effect) → Engine → Engine
call pw method g = elim (lookup pw g.writers) [
  | none ↦ g
  | some w ↦
      let (w', effects) = method w in
      perform pw effects (record g { writers = insert pw w' g.writers })
]
