-- ===== src/Docker/Import/Kept.antt =====
-- internal/docker/import.go: the images after LoadAndTag.
use baleen_engine.Base.{
  ℕ, true, false, none, some, List, [], Text, text, ◌==◌, ==_iff, ==_self, text_eq, elem, length,
  length-append, Result, ok, ◌≡◌, arith, ap, ◌∙◌, Bool-cases, Option-cases, Result-cases, inl, inr,
  ◌⊎◌,
}
use baleen_engine.Transfer.Archive.{Tarball}
use baleen_engine.Docker.Daemon.{Image, Message, Daemon}
use baleen_engine.Docker.Export.{temp_tag}
use baleen_engine.Docker.Import.{
  load_image, read_messages, keep_as, backup, drop_temporary, retag, load_then_tag, load_and_tag,
  repo_of, next_tag,
}
use baleen_engine.Docker.Import.Backup.{IsFirstFree, temp_tag-apart, backup-cases}
use baleen_engine.Docker.Import.Named.{IsLastNamed, read_messages-IsLastNamed}

module _ (D : Daemon) where
  open D use {
    State, names, inspect, tag, load, remove, brings, inspect-named, inspect-tag, inspect-load,
    inspect-remove,
  }

  -- A tag that is not brought, not the temporary name and not the image's name is left alone.
  inspect-drop_temporary :
      (id image t : Text) (s : State)
      → (temp_tag image == t) ≡ false
      → inspect t (drop_temporary D id image s) ≡ inspect t s
  unfolding drop_temporary
  inspect-drop_temporary id image t s apart = elim (Result-cases (remove (temp_tag image) s)) [
    | inl (s', removed) ↦
        ground (arith, removed, inspect-remove (temp_tag image) t s s' removed apart)
    | inr (e, failed) ↦ ground (arith, failed)
  ]

  image_apart :
      (image t : Text) (s : State) (old : Image)
      → inspect image s ≡ some old
      → inspect t s ≡ none
      → (image == t) ≡ false
  image_apart image t s old present free = elim (Bool-cases (image == t)) [
    | inr apart ↦ apart
    | inl same ↦ cc (present, free, ap (λ n. inspect n s) ((==_iff image t).0 same))
  ]

  inspect-retag :
      (id image t : Text) (s : State)
      → (temp_tag image == t) ≡ false
      → (image == t) ≡ false
      → inspect t ((retag D id image s).0) ≡ inspect t s
  unfolding retag
  inspect-retag id image t s apart other = elim (Bool-cases (id == image)) [
    | inl same ↦ ground (arith, same, inspect-drop_temporary id image t s apart)
    | inr differs ↦ elim (Result-cases (tag id image s)) [
      | inr (e, failed) ↦ ground (arith, differs, failed)
      | inl (s', tagged) ↦ ground (
        arith,
        differs,
        tagged,
        inspect-drop_temporary id image t s' apart,
        inspect-tag id image t s s' tagged,
        other,
      )
    ]
  ]

  inspect-load_then_tag :
      (file : Tarball) (image t : Text) (s : State)
      → (temp_tag image == t) ≡ false
      → (image == t) ≡ false
      → elem t (brings file) ≡ false
      → inspect t ((load_then_tag D (some file) image s).0) ≡ inspect t s
  unfolding load_then_tag load_image
  inspect-load_then_tag file image t s apart other absent = elim (Result-cases (load file s)) [
    | inr (e, failed) ↦ ground (arith, failed)
    | inl ((s', messages), loaded) ↦ elim (Result-cases (read_messages [] messages)) [
      | inr (e, failed) ↦
          ground (arith, loaded, failed, inspect-load file t s s' messages loaded absent)
      | inl (id, read) ↦ ground (
        arith,
        loaded,
        read,
        inspect-load file t s s' messages loaded absent,
        inspect-retag id image t s' apart other,
      )
    ]
  ]

  inspect-keep_as :
      (image t : Text) (s : State)
      → ((next : Text) → (s' : State) × (tag image next s ≡ ok s'))
      → inspect t (keep_as D image t s) ≡ inspect image s
  unfolding keep_as
  inspect-keep_as image t s tags =
      let (s', tagged) = tags t in
      ground (arith, tagged, inspect-tag image t t s s' tagged, ==_self t)

  -- Where the daemon tags an image that is there, LoadAndTag, whether it succeeds or fails, leaves the
  -- image that had the name under another name: the name's repository with the first of the tags v1,
  -- v2, … that was free before. The one exception is a file that itself brings that name.
  pub old_image_kept :
      (file : Tarball) (image : Text) (s : State) (old : Image)
      → inspect image s ≡ some old
      → ((next : Text) → (s' : State) × (tag image next s ≡ ok s'))
      → (n : ℕ) × IsFirstFree D (repo_of image) 1 n s
        × (s' : State) × (r : Result (Unit {0})) × (load_and_tag D (some file) image s
            ≡ some (s', r))
        × ((elem (next_tag (repo_of image) n) (brings file) ≡ true)
            ⊎ (inspect (next_tag (repo_of image) n) s' ≡ some old))
  unfolding load_and_tag
  old_image_kept file image s old present tags = elim (backup-cases D image s) [
    | inl (absent, e) ↦ ground (arith, present, absent)
    | inr (n, first, e) ↦
        let t = next_tag (repo_of image) n in
        let s' = keep_as D image t s in
        (
          n,
          first,
          (load_then_tag D (some file) image s').0,
          (load_then_tag D (some file) image s').1,
          ground (arith, e),
          elim (Bool-cases (elem t (brings file))) [
            | inl brought ↦ inl brought
            | inr absent ↦ inr (
                inspect-load_then_tag file image t s' (temp_tag-apart image (repo_of image) n)
                  (image_apart image t s old present first.1) absent
                ∙ (inspect-keep_as image t s tags ∙ present))
          ],
        )
  ]

  temp_apart : (image : Text) → (temp_tag image == image) ≡ false
  unfolding temp_tag
  temp_apart image = elim (Bool-cases (temp_tag image == image)) [
    | inr apart ↦ apart
    | inl same ↦ absurd (
        omega (
          arith,
          ap length ((==_iff (temp_tag image) image).0 same),
          length-append image (text "-baleen-tmp"),
        ))
  ]

  retag-tags :
      (id image : Text) (s : State)
      → (retag D id image s).1 ≡ ok tt
      → inspect image (retag D id image s).0 ≡ inspect id s
  unfolding retag
  retag-tags id image s h = elim (Bool-cases (id == image)) [
    | inl same ↦ ground (
      arith,
      same,
      inspect-drop_temporary id image image s (temp_apart image),
      (==_iff id image).0 same,
    )
    | inr differs ↦ elim (Result-cases (tag id image s)) [
      | inr (e, failed) ↦ ground (arith, differs, failed, h)
      | inl (s', tagged) ↦ ground (
        arith,
        differs,
        tagged,
        inspect-drop_temporary id image image s' (temp_apart image),
        inspect-tag id image image s s' tagged,
        ==_self image,
      )
    ]
  ]

  load_then_tag-tags :
      (file : Tarball) (image : Text) (s : State)
      → (load_then_tag D (some file) image s).1 ≡ ok tt
      → (after : State) × (messages : List Message) × (id : Text) × (load file s
          ≡ ok (after, messages))
        × IsLastNamed messages id
        × (inspect image (load_then_tag D (some file) image s).0 ≡ inspect id after)
  unfolding load_then_tag load_image
  load_then_tag-tags file image s h = elim (Result-cases (load file s)) [
    | inr (e, failed) ↦ ground (arith, failed, h)
    | inl ((after, messages), loaded) ↦ elim (Result-cases (read_messages [] messages)) [
      | inr (e, unread) ↦ ground (arith, loaded, unread, h)
      | inl (id, read) ↦ (
        after,
        messages,
        id,
        loaded,
        read_messages-IsLastNamed id messages read,
        ground (arith, loaded, read, retag-tags id image after (ground (arith, loaded, read, h))),
      )
    ]
  ]

  -- What LoadAndTag has done where it succeeds: behind the backup the daemon loads the file, and the
  -- name refers to the image that the last name or identifier in the daemon's messages refers to.
  abbrev pub IsLoadedFrom : Tarball → Text → State → State → Type 0
  IsLoadedFrom file image s s' =
      (before after : State) × (messages : List Message) × (id : Text) × (backup D image s
        ≡ some before)
      × (load file before ≡ ok (after, messages))
      × IsLastNamed messages id
      × (inspect image s' ≡ inspect id after)

  -- Where LoadAndTag succeeds, the daemon has loaded the file behind the backup, and the name refers
  -- to the image that the daemon then had under `id`. That is the name or identifier, without blanks
  -- around it, that stands in the last message of the daemon's answer to the load that has one behind
  -- "Loaded image: " or "Loaded image ID: ".
  pub loaded_is_tagged :
      (file : Tarball) (image : Text) (s s' : State)
      → load_and_tag D (some file) image s ≡ some (s', ok tt)
      → IsLoadedFrom file image s s'
  unfolding load_and_tag
  loaded_is_tagged file image s s' h = elim (Option-cases (backup D image s)) [
    | inl endless ↦ ground (arith, endless, h)
    | inr (before, kept) ↦
        let (after, messages, id, loaded, named, tagged) =
          load_then_tag-tags file image before (ground (arith, kept, h)) in
        (before, after, messages, id, kept, loaded, named, ground (arith, kept, h, tagged))
  ]
