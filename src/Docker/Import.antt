-- ===== src/Docker/Import.antt =====
-- internal/docker/import.go: a received tarball becomes an image, and the image that had its name
-- is kept under another one.
pub mod Backup
pub mod Kept
pub mod Named
use baleen_engine.Base.{
  ℕ, zero, suc, ◌+◌, Bool, true, false, not, Option, none, some, List, [], ◌∷◌, ◌++◌, Text, text,
  ◌==◌, if◌then◌else◌, text_eq, nat_eq, elem, length, has_prefix, trim_prefix, trim_space, is_some,
  Result, ok, err,
}
use baleen_engine.Base.Decimal.{decimal}
use baleen_engine.Transfer.Archive.{Tarball}
use baleen_engine.Docker.Daemon.{Message, message, undecodable, Daemon}
use baleen_engine.Docker.Export.{temp_tag}

-- loadedImage behind one message.
unfoldable pub loaded_by : Text → Text → Text
loaded_by loaded stream =
    if has_prefix stream (text "Loaded image: ")
    then trim_space (trim_prefix stream (text "Loaded image: "))
    else if has_prefix stream (text "Loaded image ID: ")
    then trim_space (trim_prefix stream (text "Loaded image ID: "))
    else loaded

-- The loop of LoadImage.
unfoldable pub read_messages : Text → List Message → Result Text
unfolding loaded_by
read_messages loaded [] =
    if loaded == []
    then err (text "could not determine loaded image from docker load output")
    else ok loaded
read_messages loaded (undecodable e ∷ rest) = err e
read_messages loaded (message stream problem ∷ rest) =
    let later = read_messages (loaded_by loaded stream) rest in
    if not (problem == []) then err (text "docker load error: " ++ problem) else later

-- The parts before and behind the last colon.
unfoldable pub cut_last : Text → Option (Text × Text)
cut_last [] = none
cut_last (c ∷ s) = elim (cut_last s) [
  | some (before, after) ↦ some (c ∷ before, after)
  | none ↦ if c == b':' then some ([], s) else none
]

-- The name without its tag.
unfoldable pub repo_of : Text → Text
unfolding cut_last
repo_of image = elim (cut_last image) [
  | none ↦ image
  | some (before, after) ↦ if elem b'/' after then image else before
]

-- fmt.Sprintf("%s:v%d", repo, i)
unfoldable pub next_tag : Text → ℕ → Text
next_tag repo i = repo ++ (text ":v" ++ decimal i)

module _ (D : Daemon) where
  open D use {State, names, inspect, tag, load, remove}

  -- LoadImage; `none` is a file that os.Open refuses
  unfoldable pub load_image : Option Tarball → State → State × Result Text
  unfolding read_messages
  load_image none s = (s, err (text "no such file or directory"))
  load_image (some file) s = elim (load file s) [
    | err e ↦ (s, err e)
    | ok (s', messages) ↦ (s', read_messages [] messages)
  ]

  -- The loop over the tags v1, v2, …; `none` is out of fuel
  unfoldable pub find_free : ℕ → Text → ℕ → State → Option Text
  find_free zero repo i s = none
  find_free (suc fuel) repo i s =
      let later = find_free fuel repo (i + 1) s in
      if is_some (inspect (next_tag repo i) s) then later else some (next_tag repo i)

  -- The end of the loop: an error of ImageTag is only logged.
  unfoldable pub keep_as : Text → Text → State → State
  keep_as image next s = elim (tag image next s) [ ok s' ↦ s' | err e ↦ s ]

  -- The backup of the image that has the name; one round more than there are names is enough.
  unfoldable pub backup : Text → State → Option State
  unfolding find_free keep_as
  backup image s = elim (inspect image s) [
    | none ↦ some s
    | some i ↦ elim (find_free (suc (length (names s))) (repo_of image) 1 s) [
      | none ↦ none
      | some next ↦ some (keep_as image next s)
    ]
  ]

  -- The removal of the temporary name; an error is only logged.
  unfoldable pub drop_temporary : Text → Text → State → State
  drop_temporary id image s =
      if id == temp_tag image
      then elim (remove (temp_tag image) s) [ ok s' ↦ s' | err e ↦ s ]
      else s

  -- LoadAndTag behind LoadImage
  unfoldable pub retag : Text → Text → State → State × Result (Unit {0})
  unfolding drop_temporary
  retag id image s =
      if id == image then (drop_temporary id image s, ok tt) else elim (tag id image s) [
        | err e ↦ (
          s,
          err (
              text "failed to tag loaded image "
              ++ (id ++ (text " to " ++ (image ++ (text ": " ++ e))))),
        )
        | ok s' ↦ (drop_temporary id image s', ok tt)
      ]

  -- LoadAndTag behind the backup
  unfoldable pub load_then_tag : Option Tarball → Text → State → State × Result (Unit {0})
  unfolding load_image retag
  load_then_tag file image s =
      let (s', loaded) = load_image file s in
      elim loaded [ err e ↦ (s', err e) | ok id ↦ retag id image s' ]

  -- LoadAndTag
  unfoldable pub load_and_tag : Option Tarball → Text → State → Option (State × Result (Unit {0}))
  unfolding backup load_then_tag
  load_and_tag file image s = elim (backup image s) [
    | none ↦ none
    | some s' ↦ some (load_then_tag file image s')
  ]
