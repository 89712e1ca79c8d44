-- ===== src/Base/Decimal.antt =====
-- Decimal numbers as Go reads and prints them: strconv.Atoi, fmt.Sscanf and fmt.Sprintf with "%d",
-- within the range of 64 bits.
use baleen_engine.Base.Tests.{if◌then◌else◌, ltb, leb, Bool-cases}
use baleen_engine.Base.Equality.{◌==◌, nat_eq, ==_iff}
use baleen_engine.Base.Bytes.{Text, text_eq, text_beq}
use baleen_engine.Base.Lists.{all}
use baleen_engine.Base.Int.{ℤ, pos, negsuc}
use Prim.Native.Nat.{ℕ, zero, suc, ◌+◌, ◌-◌, ◌*◌, ◌/◌, ◌%◌, ◌^◌, ◌<◌}
use mathlib.Core.Path.{◌≡◌, refl, sym, ap, ◌∙◌}
use mathlib.Core.Bool.{Bool, true, false, not, ◌&&◌, ◌||◌}
use mathlib.Core.Option.{Option, none, some}
use mathlib.Core.List.{[], ◌∷◌, ◌++◌}
use native.Mathlib.Omega.{arith}

-- The value of a text of digits only.
unfoldable all_digits : Text → Bool
all_digits s = not (s == []) && all (λ c. leb 48 c && leb c 57) s

unfoldable value : ℕ → Text → ℕ
value n [] = n
value n (c ∷ s) = value (10 * n + (c - 48)) s

unfoldable magnitude : ℕ → Text → Option ℕ
unfolding all_digits value
magnitude limit s = if all_digits s && ltb (value 0 s) limit then some (value 0 s) else none

unfoldable negated : Option ℕ → Option ℤ
negated none = none
negated (some zero) = some (pos 0)
negated (some (suc n)) = some (negsuc n)

unfoldable as_pos : Option ℕ → Option ℤ
as_pos none = none
as_pos (some n) = some (pos n)

-- strconv.Atoi; `none` is its error
unfoldable pub atoi : Text → Option ℤ
unfolding magnitude negated as_pos
atoi [] = none
atoi (c ∷ s) =
    if c == b'-'
    then negated (magnitude (2 ^ 63 + 1) s)
    else if c == b'+'
    then as_pos (magnitude (2 ^ 63) s)
    else as_pos (magnitude (2 ^ 63) (c ∷ s))

-- The value of the digits in front, once `n` has been read.
unfoldable digits : ℕ → Text → ℕ
digits n [] = n
digits n (c ∷ s) = if leb 48 c && leb c 57 then digits (10 * n + (c - 48)) s else n

-- The spaces that Sscanf passes over; a line break ends the scan.
unfoldable skip_blanks : Text → Text
skip_blanks [] = []
skip_blanks (c ∷ s) =
    if c == 32 || (leb 9 c && leb c 13 && not (c == 10)) then skip_blanks s else c ∷ s

unfoldable starts_with_digit : Text → Bool
starts_with_digit [] = false
starts_with_digit (c ∷ s) = leb 48 c && leb c 57

unfoldable unsigned : ℕ → Text → Option ℕ
unfolding digits starts_with_digit
unsigned limit s = if starts_with_digit s && ltb (digits 0 s) limit then some (digits 0 s) else none

-- What follows the blanks: an optional sign and digits, within 64 bits.
unfoldable signed : Text → Option ℤ
unfolding unsigned negated as_pos
signed [] = none
signed (c ∷ s) =
    if c == b'-'
    then negated (unsigned (2 ^ 63 + 1) s)
    else if c == b'+'
    then as_pos (unsigned (2 ^ 63) s)
    else as_pos (unsigned (2 ^ 63) (c ∷ s))

-- fmt.Sscanf(s, "%d", &n)
unfoldable pub scan_d : Text → Option ℤ
unfolding signed skip_blanks
scan_d s = signed (skip_blanks s)

-- The digits of `n` before `rest`; a number has fewer digits than its successor counts.
unfoldable digits_before : ℕ → ℕ → Text → Text
digits_before zero n rest = rest
digits_before (suc fuel) n rest =
    let more = digits_before fuel (n / 10) ((48 + n % 10) ∷ rest) in
    if ltb n 10 then (48 + n) ∷ rest else more

-- fmt.Sprintf("%d", n)
unfoldable pub decimal : ℕ → Text
unfolding digits_before
decimal n = digits_before (suc n) n []

value-digits_before :
    (fuel n : ℕ) (rest : Text) → n < fuel → value 0 (digits_before fuel n rest) ≡ value n rest
unfolding value digits_before
value-digits_before zero n rest h = ground arith
value-digits_before (suc fuel) n rest h =
    ground (arith, value-digits_before fuel (n / 10) ((48 + n % 10) ∷ rest))

all-digits_before :
    (fuel n : ℕ) (rest : Text)
    → n < fuel
    → all (λ c. leb 48 c && leb c 57) rest ≡ true
    → all (λ c. leb 48 c && leb c 57) (digits_before fuel n rest) ≡ true
unfolding all digits_before
all-digits_before zero n rest h ok = ground arith
all-digits_before (suc fuel) n rest h ok =
    ground (arith, ok, all-digits_before fuel (n / 10) ((48 + n % 10) ∷ rest))

digits-digits_before :
    (fuel n : ℕ) (rest : Text) → n < fuel → digits 0 (digits_before fuel n rest) ≡ digits n rest
unfolding digits digits_before
digits-digits_before zero n rest h = ground arith
digits-digits_before (suc fuel) n rest h =
    ground (arith, digits-digits_before fuel (n / 10) ((48 + n % 10) ∷ rest))

starts-digits_before :
    (fuel n : ℕ) (rest : Text) → n < fuel → starts_with_digit (digits_before fuel n rest) ≡ true
unfolding starts_with_digit digits_before
starts-digits_before zero n rest h = ground arith
starts-digits_before (suc fuel) n rest h =
    ground (arith, starts-digits_before fuel (n / 10) ((48 + n % 10) ∷ rest))

signed-digits :
    (s : Text) (n : ℕ)
    → starts_with_digit s ≡ true
    → digits 0 s ≡ n
    → n < 2 ^ 63
    → signed (skip_blanks s) ≡ some (pos n)
unfolding starts_with_digit signed skip_blanks unsigned as_pos
signed-digits [] n h e small = ground arith
signed-digits (c ∷ s) n h e small = ground (arith, h, e, small)

-- Sscanf reads back what Sprintf prints.
pub scan_d-decimal : (n : ℕ) → n < 2 ^ 63 → scan_d (decimal n) ≡ some (pos n)
unfolding scan_d decimal
scan_d-decimal n small =
    signed-digits (digits_before (suc n) n []) n (starts-digits_before (suc n) n [] (omega arith))
      (digits-digits_before (suc n) n [] (omega arith)) small

atoi-digits :
    (s : Text) (n : ℕ)
    → starts_with_digit s ≡ true
    → all (λ c. leb 48 c && leb c 57) s ≡ true
    → value 0 s ≡ n
    → n < 2 ^ 63
    → atoi s ≡ some (pos n)
unfolding starts_with_digit atoi magnitude as_pos all_digits text_beq
atoi-digits [] n h d e small = ground arith
atoi-digits (c ∷ s) n h d e small = ground (arith, h, d, e, small)

-- Atoi reads back what Sprintf prints.
pub atoi-decimal : (n : ℕ) → n < 2 ^ 63 → atoi (decimal n) ≡ some (pos n)
unfolding decimal all value
atoi-decimal n small =
    atoi-digits (digits_before (suc n) n []) n (starts-digits_before (suc n) n [] (omega arith))
      (all-digits_before (suc n) n [] (omega arith) refl)
      (value-digits_before (suc n) n [] (omega arith)) small

-- A printed number is not a word that starts with another character.
pub decimal-ne :
    (n c : ℕ) (s : Text) → (leb 48 c && leb c 57) ≡ false → (decimal n == c ∷ s) ≡ false
unfolding decimal starts_with_digit
decimal-ne n c s h = ground (
  arith,
  h,
  ==_iff (digits_before (suc n) n []) (c ∷ s),
  starts-digits_before (suc n) n [],
  Bool-cases (digits_before (suc n) n [] == c ∷ s),
)

value-decimal : (n : ℕ) → value 0 (decimal n) ≡ n
unfolding decimal value
value-decimal n = value-digits_before (suc n) n [] (omega arith)

-- Two numbers that print alike are the same.
pub decimal-injective : (m n : ℕ) → decimal m ≡ decimal n → m ≡ n
decimal-injective m n e = sym (value-decimal m) ∙ ap (value 0) e ∙ value-decimal n

-- The last byte of a text, or `d` for the empty one.
abbrev pub last : ℕ → Text → ℕ
last d [] = d
last d (c ∷ s) = last c s

pub last-append : (d : ℕ) (s t : Text) → last d (s ++ t) ≡ last (last d s) t
last-append d [] t = refl
last-append d (c ∷ s) t = last-append c s t

last-digits_before :
    (fuel n d : ℕ) (rest : Text)
    → n < fuel
    → last d (digits_before fuel n rest) ≡ last (48 + n % 10) rest
unfolding digits_before
last-digits_before zero n d rest h = ground arith
last-digits_before (suc fuel) n d rest h =
    ground (arith, last-digits_before fuel (n / 10) d ((48 + n % 10) ∷ rest))

-- A printed number ends in a digit.
pub last-decimal : (n d : ℕ) → last d (decimal n) ≡ 48 + n % 10
unfolding decimal
last-decimal n d = last-digits_before (suc n) n d [] (omega arith)
