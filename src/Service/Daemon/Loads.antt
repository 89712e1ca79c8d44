-- ===== src/Service/Daemon/Loads.antt =====
-- cmd/baleen/daemon.go: the rounds of the goroutine that loads received files.
use baleen_engine.Base.{
  ℕ, ◌/◌, true, false, none, some, List, [], ◌∷◌, Text, text_eq, ==_self, Result, ok, err, ◌≡◌,
  refl, arith, ◌⊎◌, inl, inr,
}
use baleen_engine.Base.Map.{lookup, lookup-insert, lookup-delete}
use baleen_engine.Transfer.Hub.{ProgressEvent, hub_key, publish}
use baleen_engine.Docker.Daemon.{Daemon}
use baleen_engine.Docker.Import.Backup.{load_and_tag_returns}
use baleen_engine.Service.Daemon.{
  DownloadResult, Loader, load_event, after_load, auto_load, auto_load_all,
}

module _ (D : Daemon) where
  -- What a round has to have done with its result.
  abbrev pub Settled : DownloadResult → Loader D → Loader D → Type 0
  Settled result l after =
      (event : ProgressEvent) × (lookup (hub_key result.image_name result.peer) after.hub
        ≡ some event)
      × (((event.status ≡ "completed") × (lookup result.path after.received ≡ none))
          ⊎ ((event.status ≡ "failed") × (after.received ≡ l.received)))

  -- LoadAndTag has succeeded: the interface is told so, and the file is gone.
  abbrev pub IsCompleted : DownloadResult → Loader D → Type 0
  IsCompleted result after =
      (event : ProgressEvent) × (lookup (hub_key result.image_name result.peer) after.hub
        ≡ some event)
      × (event.status ≡ "completed")
      × (lookup result.path after.received ≡ none)

  -- LoadAndTag has failed: the interface is told so, and every file is kept.
  abbrev pub IsFailed : DownloadResult → Loader D → Loader D → Type 0
  IsFailed result l after =
      (event : ProgressEvent) × (lookup (hub_key result.image_name result.peer) after.hub
        ≡ some event)
      × (event.status ≡ "failed")
      × (after.received ≡ l.received)

  pub after_load-IsCompleted :
      (now : ℕ) (result : DownloadResult) (images : D.State) (l : Loader D)
      → IsCompleted result (after_load D now result (images, ok tt) l)
  unfolding after_load load_event publish
  after_load-IsCompleted now result images l = (
    record (load_event result true) { updated_at = now / 1000000 },
    ground (
      arith,
      lookup-insert (hub_key result.image_name result.peer) (hub_key result.image_name result.peer)
          (record (load_event result true) { updated_at = now / 1000000 }) l.hub,
      ==_self (hub_key result.image_name result.peer),
    ),
    refl,
    ground (arith, lookup-delete result.path result.path l.received, ==_self result.path),
  )

  pub after_load-IsFailed :
      (now : ℕ) (result : DownloadResult) (images : D.State) (reason : Text) (l : Loader D)
      → IsFailed result l (after_load D now result (images, err reason) l)
  unfolding after_load load_event publish
  after_load-IsFailed now result images reason l = (
    record (load_event result false) { updated_at = now / 1000000 },
    ground (
      arith,
      lookup-insert (hub_key result.image_name result.peer) (hub_key result.image_name result.peer)
          (record (load_event result false) { updated_at = now / 1000000 }) l.hub,
      ==_self (hub_key result.image_name result.peer),
    ),
    refl,
    refl,
  )

  after_load-Settled :
      (now : ℕ) (result : DownloadResult) (out : D.State × Result (Unit {0})) (l : Loader D)
      → Settled result l (after_load D now result out l)
  after_load-Settled now result (images, ok tt) l =
      let (event, told, status, gone) = after_load-IsCompleted now result images l in
      (event, told, inl (status, gone))
  after_load-Settled now result (images, err reason) l =
      let (event, told, status, kept) = after_load-IsFailed now result images reason l in
      (event, told, inr (status, kept))

  auto_load_returns :
      (now : ℕ) (result : DownloadResult) (l : Loader D)
      → (out : D.State × Result (Unit {0})) × (auto_load D now result l
          ≡ some (after_load D now result out l))
  unfolding auto_load
  auto_load_returns now result l =
      let (out, e) =
        load_and_tag_returns D (lookup result.path l.received) result.image_name l.images in
      (out, ground (arith, e))

  auto_load_all_returns :
      (results : List (ℕ × DownloadResult)) (l : Loader D)
      → (last : Loader D) × (auto_load_all D results l ≡ some last)
  unfolding auto_load_all
  auto_load_all_returns [] l = (l, refl)
  auto_load_all_returns ((now, result) ∷ later) l =
      let (out, e) = auto_load_returns now result l in
      let (last, rest) = auto_load_all_returns later (after_load D now result out l) in
      (last, ground (arith, e, rest))

  -- Each file that comes in is settled: LoadAndTag returns, and either the interface is told that the
  -- transfer is completed and the file is gone, or it is told that it failed and the file is kept.
  -- So the goroutine comes through any list of results.
  pub auto_load_settles :
      (now : ℕ) (result : DownloadResult) (results : List (ℕ × DownloadResult)) (l : Loader D)
      → ((after : Loader D) × (auto_load D now result l ≡ some after) × Settled result l after)
        × ((last : Loader D) × (auto_load_all D results l ≡ some last))
  auto_load_settles now result results l =
      let (out, e) = auto_load_returns now result l in
      (
        (after_load D now result out l, e, after_load-Settled now result out l),
        auto_load_all_returns results l,
      )
