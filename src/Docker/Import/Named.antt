-- ===== src/Docker/Import/Named.antt =====
-- internal/docker/import.go: which of the daemon's messages names the image that LoadImage returns.
use baleen_engine.Base.{
  false, List, [], ◌∷◌, ◌++◌, Text, text, ==_iff, text_eq, has_prefix, has_prefix-append,
  trim_prefix, trim_space, ok, ◌≡◌, refl, arith, ap, Bool-cases, ◌⊎◌, inl, inr,
}
use baleen_engine.Docker.Daemon.{Message, message, undecodable}
use baleen_engine.Docker.Import.{loaded_by, read_messages}

abbrev pub image_prefix : Text
image_prefix = text "Loaded image: "

abbrev pub id_prefix : Text
id_prefix = text "Loaded image ID: "

-- The text of a message that names an image, with what stands behind the words.
abbrev pub IsNaming : Text → Text → Type 0
IsNaming stream rest = (stream ≡ image_prefix ++ rest) ⊎ (stream ≡ id_prefix ++ rest)

-- No message names an image.
abbrev pub AreSilent : List Message → Type 0
AreSilent [] = Unit
AreSilent (undecodable e ∷ rest) = AreSilent rest
AreSilent (message stream problem ∷ rest) =
    (has_prefix stream image_prefix ≡ false)
    × (has_prefix stream id_prefix ≡ false)
    × AreSilent rest

-- `id` is the name or the identifier, without blanks around it, in the last message that has one.
abbrev pub IsLastNamed : List Message → Text → Type 0
IsLastNamed messages id =
    (earlier later : List Message) × (stream problem rest : Text) × (messages
      ≡ earlier ++ message stream problem ∷ later)
    × IsNaming stream rest
    × (id ≡ trim_space rest)
    × AreSilent later

loaded_by-cases :
    (loaded stream : Text)
    → ((rest : Text) × IsNaming stream rest × (loaded_by loaded stream ≡ trim_space rest))
      ⊎ ((has_prefix stream image_prefix ≡ false)
          × (has_prefix stream id_prefix ≡ false)
          × (loaded_by loaded stream ≡ loaded))
unfolding loaded_by
loaded_by-cases loaded stream = elim (Bool-cases (has_prefix stream image_prefix)) [
  | inl named ↦ inl (
    trim_prefix stream image_prefix,
    inl (has_prefix-append stream image_prefix named),
    ground (arith, named),
  )
  | inr other ↦ elim (Bool-cases (has_prefix stream id_prefix)) [
    | inl named ↦ inl (
      trim_prefix stream id_prefix,
      inr (has_prefix-append stream id_prefix named),
      ground (arith, other, named),
    )
    | inr silent ↦ inr (other, silent, ground (arith, other, silent))
  ]
]

read_messages-nonempty :
    (loaded id : Text) (messages : List Message)
    → read_messages loaded messages ≡ ok id
    → (id ≡ [] → ⊥)
unfolding read_messages
read_messages-nonempty loaded id [] h e = ground (arith, h, e, ==_iff loaded [])
read_messages-nonempty loaded id (undecodable reason ∷ rest) h e = ground (arith, h)
read_messages-nonempty loaded id (message stream problem ∷ rest) h e =
    ground (arith, h, e, read_messages-nonempty (loaded_by loaded stream) id rest)

read_messages-rest :
    (loaded id stream problem : Text) (rest : List Message)
    → read_messages loaded (message stream problem ∷ rest) ≡ ok id
    → read_messages (loaded_by loaded stream) rest ≡ ok id
unfolding read_messages
read_messages-rest loaded id stream problem rest h = ground (arith, h)

read_messages-cases :
    (loaded id : Text) (messages : List Message)
    → read_messages loaded messages ≡ ok id
    → ((id ≡ loaded) × AreSilent messages) ⊎ IsLastNamed messages id
unfolding read_messages
read_messages-cases loaded id [] h = inl (ground (arith, h), tt)
read_messages-cases loaded id (undecodable reason ∷ rest) h = ground (arith, h)
read_messages-cases loaded id (message stream problem ∷ rest) h =
    elim (read_messages-cases (loaded_by loaded stream) id rest
      (read_messages-rest loaded id stream problem rest h)) [
        | inr (earlier, later, s, p, name, split, naming, trimmed, silent) ↦ inr (
          message stream problem ∷ earlier,
          later,
          s,
          p,
          name,
          ap (λ l. message stream problem ∷ l) split,
          naming,
          trimmed,
          silent,
        )
        | inl (same, silent) ↦ elim (loaded_by-cases loaded stream) [
          | inl (name, naming, found) ↦
              inr
                ([], rest, stream, problem, name, refl, naming, ground (arith, same, found), silent)
          | inr (other, quiet, unchanged) ↦
              inl (ground (arith, same, unchanged), (other, quiet, silent))
        ]
      ]

-- LoadImage returns what the last message with a name or an identifier gives.
pub read_messages-IsLastNamed :
    (id : Text) (messages : List Message)
    → read_messages [] messages ≡ ok id
    → IsLastNamed messages id
read_messages-IsLastNamed id messages h = elim (read_messages-cases [] id messages h) [
  | inr named ↦ named
  | inl (empty, silent) ↦ absurd (read_messages-nonempty [] id messages h empty)
]
