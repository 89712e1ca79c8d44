-- ===== src/Service/Daemon/Arrives.antt =====
-- The whole way of an image: PushImage and handleIncomingTransfer of internal/transfer, and the load
-- by cmd/baleen/daemon.go at the receiver.
use baleen_engine.Base.{
  ℕ, true, false, none, some, Text, text_eq, Result, ok, err, ◌≡◌, arith, ◌⊎◌, inl, inr, ◌∙◌,
}
use baleen_engine.Base.Map.{lookup}
use baleen_engine.Ledger.Interface.{Bucket}
use baleen_engine.Ledger.{has_layer}
use baleen_engine.Transfer.Archive.{Tarball}
use baleen_engine.Transfer.Delta.RoundTrip.{Setting, IsSound}
use baleen_engine.Transfer.Digest.{is_hex}
use baleen_engine.Transfer.Receiver.{Arrival, TransferRequest, handle_incoming_transfer}
use baleen_engine.Transfer.Sender.{Push, offer}
use baleen_engine.Transfer.Exchange.{wire, IsHonest, push_delivers}
use baleen_engine.Docker.Daemon.{Daemon}
use baleen_engine.Docker.Import.{load_and_tag}
use baleen_engine.Docker.Import.Backup.{load_and_tag_returns}
use baleen_engine.Docker.Import.Kept.{IsLoadedFrom, loaded_is_tagged}
use baleen_engine.Service.Daemon.{DownloadResult, Loader, after_load, auto_load}
use baleen_engine.Service.Daemon.Loads.{
  IsCompleted, IsFailed, after_load-IsCompleted, after_load-IsFailed,
}

-- A whole tarball with the entries of another.
abbrev pub HoldsAll : Tarball → Tarball → Type 0
HoldsAll image out =
    (out.broken ≡ false) × ((n : Text) → lookup n out.entries ≡ lookup n image.entries)

module _ (K : Bucket (Unit {0})) (D : Daemon) where
  open D use {State}

  -- LoadAndTag has taken the file, Docker's images are as it left them, and the round has ended so.
  abbrev pub IsTaken : Tarball → DownloadResult → Loader D → Loader D → Type 0
  IsTaken file result l after =
      (load_and_tag D (some file) result.image_name l.images ≡ some (after.images, ok tt))
      × IsLoadedFrom D file result.image_name l.images after.images
      × IsCompleted D result after

  -- LoadAndTag has failed on the file, and the round has ended so.
  abbrev pub IsRefused : Tarball → DownloadResult → Loader D → Loader D → Type 0
  IsRefused file result l after =
      (reason : Text) × (load_and_tag D (some file) result.image_name l.images
        ≡ some (after.images, err reason))
      × IsFailed D result l after

  -- What the round has done, by the result of LoadAndTag.
  settled_lem :
      (now : ℕ) (result : DownloadResult) (l : Loader D) (file : Tarball)
      (out : State × Result (Unit {0}))
      → load_and_tag D (some file) result.image_name l.images ≡ some out
      → IsTaken file result l (after_load D now result out l)
        ⊎ IsRefused file result l (after_load D now result out l)
  unfolding after_load
  settled_lem now result l file (images, ok tt) e = inl (
    e,
    loaded_is_tagged D file result.image_name l.images images e,
    after_load-IsCompleted D now result images l,
  )
  settled_lem now result l file (images, err reason) e =
      inr (reason, e, after_load-IsFailed D now result images reason l)

  load_cases :
      (now : ℕ) (result : DownloadResult) (l : Loader D) (file : Tarball)
      → lookup result.path l.received ≡ some file
      → (after : Loader D) × (auto_load D now result l ≡ some after)
        × (IsTaken file result l after ⊎ IsRefused file result l after)
  unfolding auto_load
  load_cases now result l file held =
      let (out, e) = load_and_tag_returns D (some file) result.image_name l.images in
      (after_load D now result out l, ground (arith, held, e), settled_lem now result l file out e)

  -- If an honest push succeeds, and the receiver reads the header and the bytes that it sent and
  -- hands the file over to the goroutine that loads it, then that file is a whole tarball that holds
  -- under every name what the sender's image held there, and the round ends in one of two ways. Either
  -- LoadAndTag succeeds on the file: the name of the image then refers to what the last name in
  -- Docker's answer to the load refers to, the transfer is reported as completed and the file is gone.
  -- Or LoadAndTag returns an error on it: the transfer is reported as failed and every file is kept.
  pub push_arrives :
      (s : Setting) (p : Push) (a : Arrival) (req : TransferRequest) (known : K.Store) (h : Text)
      (now : ℕ) (result : DownloadResult) (l : Loader D)
      → IsSound s
      → IsHonest s p a req
      → s.has ≡ has_layer K known
      → (offer p s.digests req).1 ≡ ok tt
      → wire none (offer p s.digests req).0 ≡ some (record { pruned_hash = h }, a.payload)
      → a.header ≡ ok (record { pruned_hash = h })
      → is_hex h ≡ true
      → lookup result.path l.received
        ≡ (handle_incoming_transfer K a req (s.cache, known)).delivered
      → (out : Tarball) × HoldsAll s.image out
        × (after : Loader D) × (auto_load D now result l ≡ some after)
        × (IsTaken out result l after ⊎ IsRefused out result l after)
  push_arrives s p a req known h now result l sound honest knows pushed read header hex handed =
      let (out, delivered, whole, same) =
        push_delivers K s p a req known h sound honest knows pushed read header hex in
      let (after, e, settled) = load_cases now result l out (handed ∙ delivered) in
      (out, (whole, same), after, e, settled)
