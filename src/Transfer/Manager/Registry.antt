-- ===== src/Transfer/Manager/Registry.antt =====
-- The registry of running transfers.
use baleen_engine.Base.{
  ℕ, ◌≡◌, ◌≢◌, false, none, some, arith, Text, ==_iff, ==_self, text_eq, nat_eq,
}
use baleen_engine.Base.Map.{lookup, insert, lookup-insert, lookup-delete}
use baleen_engine.Transfer.Hub.{hub_key}
use baleen_engine.Transfer.Hub.Order.{NoBar, hub_key-injective}
use baleen_engine.Transfer.Manager.{
  Manager, Chans, register, unregister, get, register_approval, cancel_approval,
}

keys_differ : (i j p q : Text) → NoBar i → NoBar j → (i ≡ j → p ≡ q → ⊥) → hub_key i p ≢ hub_key j q
keys_differ i j p q hi hj ne e = let (a, b) = hub_key-injective i j p q hi hj e in ne a b

-- A registered transfer is found under its image and peer until it is unregistered, and neither
-- call touches a transfer of another image or peer, where the images hold no '|'.
pub get-register :
    (i j p q : Text) (pw : ℕ) (m : Manager)
    → NoBar i
    → NoBar j
    → (i ≡ j → p ≡ q → ⊥)
    → (get i p (register i p pw m) ≡ some pw)
      × (get i p (unregister i p (register i p pw m)) ≡ none)
      × (get j q (register i p pw m) ≡ get j q m)
      × (get j q (unregister i p m) ≡ get j q m)
unfolding get register unregister
get-register i j p q pw m hi hj ne = ground (
  arith,
  lookup-insert (hub_key i p) (hub_key i p) pw m.transfers,
  lookup-insert (hub_key i p) (hub_key j q) pw m.transfers,
  lookup-delete (hub_key i p) (hub_key i p) (insert (hub_key i p) pw m.transfers),
  lookup-delete (hub_key i p) (hub_key j q) m.transfers,
  ==_self (hub_key i p),
  ==_iff (hub_key i p) (hub_key j q),
  keys_differ i j p q hi hj ne,
)

-- A cancelled approval is rejected in its own channel, once: a second cancel finds nothing, and a
-- decision that came first stays.
pub cancel_approval_once :
    (image peer : Text) (ch : ℕ) (m : Manager) (chans : Chans)
    → let first = cancel_approval image (register_approval image peer ch m) chans in
      (first.0 ≡ some peer)
      × (lookup ch first.2
          ≡ elim (lookup ch chans) [ none ↦ some false | some decided ↦ some decided ])
      × ((cancel_approval image first.1 first.2).0 ≡ none)
unfolding cancel_approval register_approval
cancel_approval_once image peer ch m chans = ground (
  arith,
  lookup-insert image image (record { resp_chan = ch; peer = peer }) m.pending_approvals,
  lookup-delete image image
      (insert image (record { resp_chan = ch; peer = peer }) m.pending_approvals),
  lookup-insert ch ch false chans,
  ==_self image,
  ==_self ch,
)
