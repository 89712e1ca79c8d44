-- ===== src/Base/Map.antt =====
-- Go's maps as association lists. The order of entries stands for the order of one iteration.
use baleen_engine.Base.Tests.{if◌then◌else◌}
use baleen_engine.Base.Equality.{Eq, ◌==◌, ==_iff}
use mathlib.Core.Path.{◌≡◌, refl}
use mathlib.Core.Option.{Option, none, some}
use mathlib.Core.List.{List, [], ◌∷◌}
use native.Mathlib.Omega.{arith}

abbrev pub Map {ℓ κ} : Type ℓ → Type κ → Type (ℓ ⊔ κ)
Map K V = List (K × V)

module _ {ℓ κ} {K : Type ℓ} {V : Type κ} ⦃e : Eq K⦄ where
  -- v, ok := m[key]
  unfoldable pub lookup : K → Map K V → Option V
  lookup key [] = none
  lookup key ((k, v) ∷ others) = if k == key then some v else lookup key others

  -- delete(m, key)
  unfoldable pub delete : K → Map K V → Map K V
  delete key [] = []
  delete key ((k, v) ∷ others) = if k == key then delete key others else (k, v) ∷ delete key others

  -- m[key] = value
  unfoldable pub insert : K → V → Map K V → Map K V
  insert key value [] = (key, value) ∷ []
  insert key value ((k, v) ∷ others) =
      if k == key then (key, value) ∷ others else (k, v) ∷ insert key value others

  pub lookup-cons :
      (key k : K) (v : V) (others : Map K V)
      → lookup key ((k, v) ∷ others) ≡ (if k == key then some v else lookup key others)
  unfolding lookup
  lookup-cons key k v others = refl

  pub lookup-delete :
      (key other : K) (m : Map K V)
      → lookup other (delete key m) ≡ (if key == other then none else lookup other m)
  unfolding lookup delete
  lookup-delete key other [] = ground arith
  lookup-delete key other ((k, v) ∷ m) =
      ground (arith, lookup-delete key other m, ==_iff k key, ==_iff k other, ==_iff key other)

  pub lookup-insert :
      (key other : K) (value : V) (m : Map K V)
      → lookup other (insert key value m) ≡ (if key == other then some value else lookup other m)
  unfolding lookup insert
  lookup-insert key other value [] = refl
  lookup-insert key other value ((k, v) ∷ m) =
      ground
        (arith, lookup-insert key other value m, ==_iff k key, ==_iff k other, ==_iff key other)

  -- No key stands twice.
  abbrev pub Distinct : Map K V → Type κ
  Distinct [] = Unit
  Distinct ((k, v) ∷ m) = (lookup k m ≡ none) × Distinct m

  pub delete-Distinct : (k : K) (m : Map K V) → Distinct m → Distinct (delete k m)
  unfolding delete
  delete-Distinct k [] d = tt
  delete-Distinct k ((j, v) ∷ m) d = ground (arith, lookup-delete k j m, delete-Distinct k m d.1)

  pub insert-Distinct : (k : K) (v : V) (m : Map K V) → Distinct m → Distinct (insert k v m)
  unfolding insert lookup
  insert-Distinct k v [] d = (refl, tt)
  insert-Distinct k v ((j, w) ∷ m) d =
      ground (arith, ==_iff j k, ==_iff k j, lookup-insert k j v m, insert-Distinct k v m d.1)
