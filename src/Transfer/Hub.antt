-- ===== src/Transfer/Hub.antt =====
-- internal/transfer/hub.go: the events that the UI polls, one for each image and peer.
-- A time is in nanoseconds. A progress is the exact fraction that the float64 stands for, so the
-- rounding of floats is not modelled; a speed is the quotient before it is printed.
pub mod Order
use baleen_engine.Base.{
  ℕ, ◌-◌, ◌/◌, ◌*◌, Bool, true, false, not, ◌&&◌, ◌||◌, List, [], ◌∷◌, ◌++◌, map, String, Text, ltb,
  ◌==◌, if◌then◌else◌, text_eq, string_eq, text_lt,
}
use baleen_engine.Base.Map.{Map, insert, delete}
use baleen_engine.Base.Sort.{sort}

-- num / den, in percent
pub record Percent : Type 0 where
  pub num : ℕ
  pub den : ℕ

pub data Speed : Type 0 where
  -- ""
  blank : Speed
  -- "0.00 MB/s"
  idle : Speed
  -- bytes over nanoseconds, printed with "%.2f MB/s"
  measured : ℕ → ℕ → Speed

-- ProgressEvent
pub record ProgressEvent : Type 0 where
  pub direction : String
  pub image : Text
  pub peer : Text
  pub progress : Percent
  pub speed : Speed
  pub status : String
  pub updated_at : ℕ

abbrev pub Hub : Type 0
Hub = Map Text ProgressEvent

-- hubKey
unfoldable pub hub_key : Text → Text → Text
hub_key image peer = image ++ b'|' ∷ peer

-- Hub.Publish; time.Now().UnixMilli()
unfoldable pub publish : ℕ → ProgressEvent → Hub → Hub
publish now event hub =
    insert (hub_key event.image event.peer) (record event { updated_at = now / 1000000 }) hub

unfoldable pub is_done : ProgressEvent → Bool
is_done v =
    v.status == "completed"
    || (v.status == "failed" || (v.status == "rejected" || v.status == "cancelled"))

-- done && now-v.UpdatedAt > 10_000
unfoldable pub is_stale : ℕ → ProgressEvent → Bool
unfolding is_done
is_stale now_ms v = is_done v && ltb 10000 (now_ms - v.updated_at)

-- The first loop of Hub.GetAll, over a snapshot of the map.
unfoldable pub clean_loop : ℕ → Map Text ProgressEvent → Hub → Hub
clean_loop now_ms [] hub = hub
clean_loop now_ms ((k, v) ∷ rest) hub =
    clean_loop now_ms rest (if is_stale now_ms v then delete k hub else hub)

unfoldable pub values {ℓ} : {V : Type ℓ} → Map Text V → List V
values [] = []
values ((k, v) ∷ rest) = v ∷ values rest

-- The order of the sort in Hub.GetAll.
unfoldable pub event_less : ProgressEvent → ProgressEvent → Bool
event_less a b = if not (a.image == b.image) then text_lt a.image b.image else text_lt a.peer b.peer

-- Hub.GetAll: the hub after the clean-up, and the events that are encoded.
unfoldable pub get_all : ℕ → Hub → Hub × List ProgressEvent
get_all now hub =
    let cleaned = clean_loop (now / 1000000) hub hub in (cleaned, sort event_less (values cleaned))
