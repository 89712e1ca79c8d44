-- ===== src/Base/Bytes.antt =====
-- Go strings that the program takes apart: their bytes. Whole texts that it only compares with
-- literals (statuses, actions, directions) are native `String`s.
use Prim.Native.Char.{code}
use Prim.Native.Nat.{ℕ}
use Prim.Native.String.{String}
use mathlib.Core.Path.{◌≡◌, refl}
use mathlib.Core.Logic.{◌↔◌}
use mathlib.Core.Bool.{Bool, true, false, ◌&&◌, ◌||◌}
use mathlib.Core.Option.{Option, none, some}
use mathlib.Core.List.{List, [], ◌∷◌, ◌++◌}
use native.Mathlib.Omega.{arith}
use baleen_engine.Base.Tests.{nat_beq, ltb, leb, if◌then◌else◌}
use baleen_engine.Base.Equality.{Eq}

abbrev pub Text : Type 0
Text = List ℕ

abbrev pub text : String → Text
text String.[] = []
text (String.◌∷◌ c s) = code c ∷ text s

unfoldable pub text_beq : Text → Text → Bool
text_beq [] [] = true
text_beq [] (y ∷ ys) = false
text_beq (x ∷ xs) [] = false
text_beq (x ∷ xs) (y ∷ ys) = nat_beq x y && text_beq xs ys

pub text_beq_iff : (a b : Text) → (text_beq a b ≡ true) ↔ (a ≡ b)
unfolding text_beq
text_beq_iff [] [] = ground arith
text_beq_iff [] (y ∷ ys) = ground arith
text_beq_iff (x ∷ xs) [] = ground arith
text_beq_iff (x ∷ xs) (y ∷ ys) = ground (arith, text_beq_iff xs ys)

instance abbrev pub text_eq : Eq Text
text_eq = record { test = text_beq; test_iff = text_beq_iff }

-- strings.HasPrefix(s, p)
unfoldable pub has_prefix : Text → Text → Bool
has_prefix s [] = true
has_prefix [] (p ∷ ps) = false
has_prefix (c ∷ s) (p ∷ ps) = nat_beq c p && has_prefix s ps

-- strings.TrimPrefix(s, p), once the prefix is known to be there
pub after_prefix : Text → Text → Text
after_prefix s [] = s
after_prefix [] (p ∷ ps) = []
after_prefix (c ∷ s) (p ∷ ps) = after_prefix s ps

unfoldable pub trim_prefix : Text → Text → Text
unfolding after_prefix has_prefix
trim_prefix s p = if has_prefix s p then after_prefix s p else s

pub has_prefix-append : (s p : Text) → has_prefix s p ≡ true → s ≡ p ++ trim_prefix s p
unfolding has_prefix trim_prefix after_prefix
has_prefix-append s [] h = ground arith
has_prefix-append [] (p ∷ ps) h = ground (arith, h)
has_prefix-append (c ∷ s) (p ∷ ps) h = ground (arith, h, has_prefix-append s ps)

-- strings.Contains(s, t)
unfoldable pub contains : Text → Text → Bool
unfolding has_prefix
contains [] t = has_prefix [] t
contains (c ∷ s) t = has_prefix (c ∷ s) t || contains s t

-- strings.HasSuffix(s, t)
unfoldable pub has_suffix : Text → Text → Bool
unfolding text_beq
has_suffix [] t = text_beq [] t
has_suffix (c ∷ s) t = text_beq (c ∷ s) t || has_suffix s t

-- strings.SplitN(s, sep, 2): the two sides of the first separator, if there is one.
unfoldable pub cut : ℕ → Text → Option (Text × Text)
cut sep [] = none
cut sep (c ∷ s) =
    if nat_beq c sep
    then some ([], s)
    else elim (cut sep s) [ none ↦ none | some (a, b) ↦ some (c ∷ a, b) ]

-- strings.ReplaceAll(s, from, to) of one byte by one byte
unfoldable pub replace_all : ℕ → ℕ → Text → Text
replace_all from to [] = []
replace_all from to (c ∷ s) = (if nat_beq c from then to else c) ∷ replace_all from to s

-- strings.Split(s, sep) of one byte: the first part and the others.
unfoldable pub split : ℕ → Text → Text × List Text
split sep [] = ([], [])
split sep (c ∷ s) =
    let (first, rest) = split sep s in
    if nat_beq c sep then ([], first ∷ rest) else (c ∷ first, rest)

-- The spaces that strings.TrimSpace removes, among ASCII.
unfoldable pub is_space : ℕ → Bool
is_space c = nat_beq c 32 || leb 9 c && leb c 13

unfoldable pub trim_left : Text → Text
unfolding is_space
trim_left [] = []
trim_left (c ∷ s) = if is_space c then trim_left s else c ∷ s

unfoldable pub trim_right : Text → Text
unfolding is_space
trim_right [] = []
trim_right (c ∷ s) = elim (trim_right s) [
  | [] ↦ if is_space c then [] else c ∷ []
  | d ∷ t ↦ c ∷ d ∷ t
]

-- strings.TrimSpace
unfoldable pub trim_space : Text → Text
unfolding trim_left trim_right
trim_space s = trim_right (trim_left s)

-- s < t, byte by byte
unfoldable pub text_lt : Text → Text → Bool
text_lt [] [] = false
text_lt [] (y ∷ ys) = true
text_lt (x ∷ xs) [] = false
text_lt (x ∷ xs) (y ∷ ys) = ltb x y || nat_beq x y && text_lt xs ys

pub text_lt-asymm : (a b : Text) → text_lt a b ≡ true → text_lt b a ≡ false
unfolding text_lt
text_lt-asymm [] [] h = refl
text_lt-asymm [] (y ∷ ys) h = refl
text_lt-asymm (x ∷ xs) [] h = cc
text_lt-asymm (x ∷ xs) (y ∷ ys) h = ground (arith, text_lt-asymm xs ys)
