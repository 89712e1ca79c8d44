-- ===== src/Base/Sort.antt =====
-- sort.Slice, as an insertion sort by the given `less`.
use baleen_engine.Base.Tests.{if◌then◌else◌, Bool-cases}
use mathlib.Core.Logic.{inl, inr}
use mathlib.Core.Path.{◌≡◌}
use mathlib.Core.Bool.{Bool, true, false}
use baleen_engine.Base.Equality.{Eq, ◌==◌}
use baleen_engine.Base.Lists.{elem}
use mathlib.Core.List.{List, [], ◌∷◌, Perm}
use mathlib.Core.List.Perm
use native.Mathlib.Omega.{arith}

module _ {ℓ} {A : Type ℓ} (less : A → A → Bool) where
  unfoldable pub insert_sorted : A → List A → List A
  insert_sorted a [] = a ∷ []
  insert_sorted a (x ∷ xs) = if less x a then x ∷ insert_sorted a xs else a ∷ x ∷ xs

  unfoldable pub sort : List A → List A
  unfolding insert_sorted
  sort [] = []
  sort (x ∷ xs) = insert_sorted x (sort xs)

  -- No element is less than the one before it.
  abbrev pub Ordered : List A → Type 0
  Ordered [] = Unit
  Ordered (x ∷ []) = Unit
  Ordered (x ∷ (y ∷ ys)) = (less y x ≡ false) × Ordered (y ∷ ys)

  insert_sorted-perm : (a : A) (xs : List A) → Perm (insert_sorted a xs) (a ∷ xs)
  unfolding insert_sorted
  insert_sorted-perm a [] = Perm.refl (a ∷ [])
  insert_sorted-perm a (x ∷ xs) = elim (Bool-cases (less x a)) [
    | inl h ↦ rw h (Perm.trans (Perm.cons x (insert_sorted-perm a xs)) (Perm.swap a x xs))
    | inr h ↦ rw h (Perm.refl (a ∷ x ∷ xs))
  ]

  pub sort-perm : (xs : List A) → Perm (sort xs) xs
  unfolding sort
  sort-perm [] = Perm.refl []
  sort-perm (x ∷ xs) = Perm.trans (insert_sorted-perm x (sort xs)) (Perm.cons x (sort-perm xs))

  module _ (asym : (a b : A) → less a b ≡ true → less b a ≡ false) where
    insert_sorted-Ordered : (a : A) (xs : List A) → Ordered xs → Ordered (insert_sorted a xs)
    unfolding insert_sorted
    insert_sorted-Ordered a [] o = tt
    insert_sorted-Ordered a (x ∷ []) o = ground (arith, asym x a)
    insert_sorted-Ordered a (x ∷ (y ∷ ys)) o =
        ground (arith, asym x a, asym y a, insert_sorted-Ordered a (y ∷ ys) o.1)

    pub sort-Ordered : (xs : List A) → Ordered (sort xs)
    unfolding sort
    sort-Ordered [] = tt
    sort-Ordered (x ∷ xs) = insert_sorted-Ordered x (sort xs) (sort-Ordered xs)

module _ {ℓ} {A : Type ℓ} ⦃same : Eq A⦄ (less : A → A → Bool) where
  elem-insert_sorted : (t a : A) (xs : List A) → elem t (insert_sorted less a xs) ≡ elem t (a ∷ xs)
  unfolding insert_sorted elem
  elem-insert_sorted t a [] = ground arith
  elem-insert_sorted t a (x ∷ xs) = ground (
    arith,
    elem-insert_sorted t a xs,
    Bool-cases (x == t),
    Bool-cases (a == t),
    Bool-cases (elem t xs),
    Bool-cases (less x a),
  )

  pub elem-sort : (t : A) (xs : List A) → elem t (sort less xs) ≡ elem t xs
  unfolding sort elem
  elem-sort t [] = ground arith
  elem-sort t (x ∷ xs) = ground (arith, elem-insert_sorted t x (sort less xs), elem-sort t xs)
