-- ===== src/Base/Results.antt =====
-- Go's `(value, error)` results. An error is its message, since the program reads messages.
use mathlib.Core.Path.{◌≡◌, refl}
use mathlib.Core.Logic.{◌⊎◌, inl, inr}
use mathlib.Core.List.{◌++◌}
use baleen_engine.Base.Bytes.{Text, text}
use Prim.Native.String.{String}

pub data Result {ℓ} (A : Type ℓ) : Type ℓ where
  ok : A → Result A
  err : Text → Result A

module _ {κ} {B : Type κ} where
  infixl 5 ◌>>=◌ ◌>>◌
  -- if err != nil { return err }, and otherwise the code that follows
  abbrev pub ◌>>=◌ {ℓ} : {A : Type ℓ} → Result A → (A → Result B) → Result B
  err message >>= next = err message
  ok value >>= next = next value

  -- The same for a call that returns only an error.
  abbrev pub ◌>>◌ : Result (Unit {0}) → Result B → Result B
  err message >> next = err message
  ok _ >> next = next

-- fmt.Errorf("…: %w", err) on the error of a call
abbrev pub wrap {ℓ} : {A : Type ℓ} → String → Result A → Result A
wrap s (ok a) = ok a
wrap s (err e) = err (text s ++ e)

pub Result-cases {ℓ} :
    {A : Type ℓ} (r : Result A) → ((a : A) × (r ≡ ok a)) ⊎ ((e : Text) × (r ≡ err e))
Result-cases (ok a) = inl (a, refl)
Result-cases (err e) = inr (e, refl)
