-- ===== src/Transfer/Manager.antt =====
-- internal/transfer/manager.go: the registries of running transfers, approvals and connections.
-- A `*progressWriter` and a `chan bool` are numbers: a shared writer is one entry of the engine's
-- heap, and `Chans` holds what a channel of capacity 1 has in its buffer.
pub mod Registry
use baleen_engine.Base.{
  ℕ, Bool, true, false, Option, none, some, List, [], ◌∷◌, Text, if◌then◌else◌, text_eq, nat_eq,
}
use baleen_engine.Base.Map.{Map, lookup, insert, delete}
use baleen_engine.Transfer.Hub.{hub_key}

-- PendingTransfer: the connection that CancelConn closes and whose receiver SendControl tells
pub record PendingTransfer : Type 0 where
  pub conn : ℕ

-- PendingApproval
pub record PendingApproval : Type 0 where
  pub resp_chan : ℕ
  pub peer : Text

pub record Manager : Type 0 where
  pub transfers : Map Text ℕ
  pub pending_approvals : Map Text PendingApproval
  pub pending_conns : Map Text PendingTransfer

abbrev pub empty_manager : Manager
empty_manager = record { transfers = []; pending_approvals = []; pending_conns = [] }

abbrev pub Chans : Type 0
Chans = Map ℕ Bool

-- select { case ch <- b: default: } on a channel of capacity 1
unfoldable pub try_send : ℕ → Bool → Chans → Chans
try_send ch b chans = elim (lookup ch chans) [ none ↦ insert ch b chans | some old ↦ chans ]

-- <-ch, once it holds a value
unfoldable pub receive : ℕ → Chans → Option Bool × Chans
receive ch chans = (lookup ch chans, delete ch chans)

-- Register, Unregister and Get; the image and the peer are those of the writer `pw`
unfoldable pub register : Text → Text → ℕ → Manager → Manager
unfolding hub_key
register image peer pw m = record m { transfers = insert (hub_key image peer) pw m.transfers }

unfoldable pub unregister : Text → Text → Manager → Manager
unfolding hub_key
unregister image peer m = record m { transfers = delete (hub_key image peer) m.transfers }

unfoldable pub get : Text → Text → Manager → Option ℕ
unfolding hub_key
get image peer m = lookup (hub_key image peer) m.transfers

-- RegisterApproval and UnregisterApproval
unfoldable pub register_approval : Text → Text → ℕ → Manager → Manager
register_approval image peer ch m = record m {
  pending_approvals = insert image (record { resp_chan = ch; peer = peer }) m.pending_approvals;
}

unfoldable pub unregister_approval : Text → Manager → Manager
unregister_approval image m = record m { pending_approvals = delete image m.pending_approvals }

-- CancelApproval: the peer, if there was an approval, and a rejection in its channel
unfoldable pub cancel_approval : Text → Manager → Chans → Option Text × Manager × Chans
unfolding try_send
cancel_approval image m chans = elim (lookup image m.pending_approvals) [
  | none ↦ (none, m, chans)
  | some pa ↦ (
    some pa.peer,
    record m { pending_approvals = delete image m.pending_approvals },
    try_send pa.resp_chan false chans,
  )
]

-- RegisterPendingConn, UnregisterPendingConn and GetPendingConn
unfoldable pub register_pending_conn : Text → Text → PendingTransfer → Manager → Manager
unfolding hub_key
register_pending_conn image peer pt m = record m {
  pending_conns = insert (hub_key image peer) pt m.pending_conns;
}

unfoldable pub unregister_pending_conn : Text → Text → Manager → Manager
unfolding hub_key
unregister_pending_conn image peer m = record m {
  pending_conns = delete (hub_key image peer) m.pending_conns;
}

unfoldable pub get_pending_conn : Text → Text → Manager → Option PendingTransfer
unfolding hub_key
get_pending_conn image peer m = lookup (hub_key image peer) m.pending_conns
