-- ===== src/Transfer/Hub/Order.antt =====
-- What the UI is shown, and when an event goes.
use baleen_engine.Base.{
  ℕ, ◌/◌, ◌≡◌, refl, Bool, true, false, Option, none, some, [], ◌∷◌, arith, Text, ◌==◌, ==_iff,
  if◌then◌else◌, text_eq, text_lt-asymm, elem, nat_eq,
}
use baleen_engine.Base.Map.{Map, lookup, delete, lookup-insert, lookup-delete, Distinct}
use baleen_engine.Base.Sort.{Ordered, sort-perm, sort-Ordered}
use mathlib.Core.List.{Perm}
use baleen_engine.Transfer.Hub.{
  Hub, ProgressEvent, hub_key, publish, is_stale, clean_loop, values, event_less, get_all,
}

event_less-asymm : (a b : ProgressEvent) → event_less a b ≡ true → event_less b a ≡ false
unfolding event_less
event_less-asymm a b h = ground (
  arith,
  ==_iff a.image b.image,
  ==_iff b.image a.image,
  text_lt-asymm a.image b.image,
  text_lt-asymm a.peer b.peer,
)

abbrev pub stale_at : ℕ → Option ProgressEvent → Bool
stale_at t none = false
stale_at t (some v) = is_stale t v

lookup-clean_loop :
    (t : ℕ) (k : Text) (items : Map Text ProgressEvent) (hub : Hub)
    → Distinct items
    → lookup k (clean_loop t items hub)
      ≡ (if stale_at t (lookup k items) then none else lookup k hub)
unfolding clean_loop lookup
lookup-clean_loop t k [] hub d = refl
lookup-clean_loop t k ((j, v) ∷ rest) hub d = ground (
  arith,
  ==_iff j k,
  lookup-delete j k hub,
  lookup-clean_loop t k rest (if is_stale t v then delete j hub else hub) d.1,
)

-- GetAll drops exactly the events that are done and more than ten seconds old, keeps every other
-- event as it is, and returns the events that are left, each once, ordered by image and then peer.
pub get_all-shows :
    (now : ℕ) (hub : Hub)
    → Distinct hub
    → ((k : Text)
        → lookup k (get_all now hub).0
          ≡ (if stale_at (now / 1000000) (lookup k hub) then none else lookup k hub))
      × Perm (get_all now hub).1 (values (get_all now hub).0)
      × Ordered event_less (get_all now hub).1
unfolding get_all
get_all-shows now hub d = (
  λ k. lookup-clean_loop (now / 1000000) k hub hub d,
  sort-perm event_less (values (clean_loop (now / 1000000) hub hub)),
  sort-Ordered event_less event_less-asymm (values (clean_loop (now / 1000000) hub hub)),
)

-- The bytes of a peer or an image that the key does not take apart.
abbrev pub NoBar : Text → Type 0
NoBar t = elem b'|' t ≡ false

-- Two transfers share a key only if they have the same image and peer, where no image holds a '|'.
pub hub_key-injective :
    (i j p q : Text) → NoBar i → NoBar j → hub_key i p ≡ hub_key j q → (i ≡ j) × (p ≡ q)
unfolding hub_key elem
hub_key-injective [] [] p q hi hj e = (refl, ground arith)
hub_key-injective [] (y ∷ j) p q hi hj e = ground arith
hub_key-injective (x ∷ i) [] p q hi hj e = ground arith
hub_key-injective (x ∷ i) (y ∷ j) p q hi hj e = ground (arith, hub_key-injective i j p q)

-- A published event is what its key shows, stamped in milliseconds, and the events of other keys
-- stay as they were.
pub lookup-publish :
    (now : ℕ) (event : ProgressEvent) (k : Text) (hub : Hub)
    → lookup k (publish now event hub) ≡ (
        if hub_key event.image event.peer == k
        then some (record event { updated_at = now / 1000000 })
        else lookup k hub)
unfolding publish
lookup-publish now event k hub = lookup-insert (hub_key event.image event.peer) k _ hub
