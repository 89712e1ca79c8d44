-- ===== src/Docker/Daemon.antt =====
-- What internal/docker relies on of the Docker daemon (github.com/docker/docker/client and docker
-- buildx): images under names, of which there are finitely many.
use baleen_engine.Base.{
  ◌≡◌, true, false, Option, some, List, Text, ◌==◌, if◌then◌else◌, elem, text_eq, Result, ok,
}
use baleen_engine.Transfer.Archive.{Tarball}

-- The parts of an inspected image that the program reads.
pub record Image : Type 0 where
  pub id : Text
  pub os : Text
  pub architecture : Text

-- One object of the answer to a load: its "stream" and its "error"; or the error of decoding it.
pub data Message : Type 0 where
  message : Text → Text → Message
  undecodable : Text → Message

pub record Daemon : Type 1 where
  pub State : Type 0
  pub names : State → List Text
  -- ImageInspect, ImageTag, ImageLoad, ImageSave and ImageRemove
  pub inspect : Text → State → Option Image
  pub tag : Text → Text → State → Result State
  pub load : Tarball → State → Result (State × List Message)
  pub save : Text → State → Result Tarball
  pub remove : Text → State → Result State
  -- docker buildx build --platform … -t … --load
  pub build : Text → Text → State → Result State
  -- the names that a tarball gives to its images
  pub brings : Tarball → List Text
  pub inspect-named :
      (j : Text) (s : State) (i : Image) → inspect j s ≡ some i → elem j (names s) ≡ true
  pub inspect-tag :
      (source target j : Text) (s s' : State)
      → tag source target s ≡ ok s'
      → inspect j s' ≡ (if target == j then inspect source s else inspect j s)
  pub inspect-load :
      (file : Tarball) (j : Text) (s s' : State) (messages : List Message)
      → load file s ≡ ok (s', messages)
      → elem j (brings file) ≡ false
      → inspect j s' ≡ inspect j s
  pub inspect-remove :
      (name j : Text) (s s' : State)
      → remove name s ≡ ok s'
      → (name == j) ≡ false
      → inspect j s' ≡ inspect j s
  pub inspect-build :
      (name platform j : Text) (s s' : State)
      → build name platform s ≡ ok s'
      → (name == j) ≡ false
      → inspect j s' ≡ inspect j s
