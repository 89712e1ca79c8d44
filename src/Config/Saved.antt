-- ===== src/Config/Saved.antt =====
-- internal/config/name.go: the spaces around the node's name.
use baleen_engine.Base.{
  ℕ, false, [], ◌∷◌, Text, trim_space, trim_left, trim_right, is_space, ◌≡◌, refl, arith,
  Bool-cases, inl, inr, ap, ◌⊎◌, ◌∙◌,
}

-- A text whose first byte is no space.
abbrev Starts : Text → Type 0
Starts [] = Unit
Starts (c ∷ s) = is_space c ≡ false

trim_left-Starts : (s : Text) → Starts (trim_left s)
unfolding trim_left
trim_left-Starts [] = tt
trim_left-Starts (c ∷ s) = elim (Bool-cases (is_space c)) [
  | inl space ↦ rw (space, trim_left) (trim_left-Starts s)
  | inr other ↦ rw (other, trim_left) other
]

trim_left_of_Starts : (s : Text) → Starts s → trim_left s ≡ s
unfolding trim_left
trim_left_of_Starts [] h = refl
trim_left_of_Starts (c ∷ s) h = rw h refl

Text-cases : (s : Text) → (s ≡ []) ⊎ ((c : ℕ) × ((t : Text) × (s ≡ c ∷ t)))
Text-cases [] = inl refl
Text-cases (c ∷ t) = inr (c, (t, refl))

trim_right-Starts : (s : Text) → Starts s → Starts (trim_right s)
unfolding trim_right
trim_right-Starts [] h = tt
trim_right-Starts (c ∷ s) h = elim (Text-cases (trim_right s)) [
  | inl empty ↦ rw (empty, trim_right) (rw h h)
  | inr (d, (t, more)) ↦ rw (more, trim_right) h
]

trim_right_idem : (s : Text) → trim_right (trim_right s) ≡ trim_right s
unfolding trim_right
trim_right_idem [] = refl
trim_right_idem (c ∷ s) = elim (Text-cases (trim_right s)) [
  | inl empty ↦ elim (Bool-cases (is_space c)) [
    | inl space ↦ ground (arith, empty, space)
    | inr other ↦ ground (arith, empty, other)
  ]
  | inr (d, (t, more)) ↦ ground (arith, more, trim_right_idem s)
]

pub trim_space_idem : (s : Text) → trim_space (trim_space s) ≡ trim_space s
unfolding trim_space
trim_space_idem s =
    ap trim_right (
      trim_left_of_Starts (trim_right (trim_left s))
        (trim_right-Starts (trim_left s) (trim_left-Starts s)))
    ∙ trim_right_idem (trim_left s)
