-- ===== src/Docker/Lines.antt =====
-- The lineWriter of internal/docker/crossbuild.go, which logs the output of a build line by line.
use baleen_engine.Base.{
  ℕ, Bool, false, ◌||◌, List, [], ◌∷◌, ◌++◌, Text, ◌==◌, if◌then◌else◌, text_eq, nat_eq, ◌≡◌, refl,
  arith, Bool-cases, inl, inr,
}
use mathlib.Core.List.{append_assoc, append-nil}

unfoldable pub is_break : ℕ → Bool
is_break c = c == 13 || c == 10

-- A line that is not empty, before the others.
unfoldable pub log_line : Text → List Text → List Text
log_line line lines = if line == [] then lines else line ∷ lines

-- The loop of Write over the buffer: `line` is what stands in front of it. The lines that are logged,
-- and the buffer that is left.
unfoldable pub split_lines : Text → Text → List Text × Text
unfolding log_line is_break
split_lines line [] = ([], line)
split_lines line (c ∷ rest) =
    let (lines, left) = split_lines (if is_break c then [] else line ++ c ∷ []) rest in
    ((if is_break c then log_line line lines else lines), left)

-- Write: the lines that are logged, and the new buffer
unfoldable pub write : Text → Text → List Text × Text
unfolding split_lines
write buf p = split_lines [] (buf ++ p)

split_lines-append :
    (line s t : Text)
    → split_lines line (s ++ t)
      ≡ let (first, left) = split_lines line s in
        let (second, rest) = split_lines left t in (first ++ second, rest)
unfolding split_lines
split_lines-append line [] t = refl
split_lines-append line (c ∷ s) t =
    ground (arith, split_lines-append (if is_break c then [] else line ++ c ∷ []) s t)

-- A buffer without a line break.
abbrev pub Plain : Text → Type 0
Plain [] = Unit
Plain (c ∷ s) = (is_break c ≡ false) × Plain s

Plain-append : (s : Text) (c : ℕ) → Plain s → is_break c ≡ false → Plain (s ++ c ∷ [])
Plain-append [] c h k = (k, tt)
Plain-append (d ∷ s) c h k = (h.0, Plain-append s c h.1 k)

split_lines-Plain : (line s : Text) → Plain line → Plain (split_lines line s).1
unfolding split_lines
split_lines-Plain line [] h = h
split_lines-Plain line (c ∷ s) h = elim (Bool-cases (is_break c)) [
  | inl ends ↦ rw (ends, split_lines) (split_lines-Plain [] s tt)
  | inr goes ↦
      rw (goes, split_lines) (split_lines-Plain (line ++ c ∷ []) s (Plain-append line c h goes))
]

split_lines_of_Plain :
    (line s t : Text) → Plain s → split_lines line (s ++ t) ≡ split_lines (line ++ s) t
unfolding split_lines
split_lines_of_Plain line [] t h = rw (append-nil line) refl
split_lines_of_Plain line (c ∷ s) t h =
    ground (arith, h.0, split_lines_of_Plain (line ++ c ∷ []) s t h.1, append_assoc line (c ∷ []) s)

-- The lines that are logged, and what stays in the buffer, do not depend on how the output is cut
-- into writes.
pub write-append :
    (buf p q : Text)
    → Plain buf
    → write buf (p ++ q)
      ≡ let (first, left) = write buf p in
        let (second, rest) = write left q in (first ++ second, rest)
unfolding write
write-append buf p q h =
    let left = (split_lines [] (buf ++ p)).1 in
    let plain = split_lines-Plain [] (buf ++ p) tt in
    ground (
      arith,
      append_assoc buf p q,
      split_lines-append [] (buf ++ p) q,
      split_lines_of_Plain [] left q plain,
    )
