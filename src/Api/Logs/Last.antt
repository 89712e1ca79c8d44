-- ===== src/Api/Logs/Last.antt =====
-- internal/api/handlers/logs.go: which lines are shown, and what cleaning leaves.
use baleen_engine.Base.{
  ℕ, zero, suc, ◌+◌, ◌-◌, ◌≤◌, ◌<◌, Bool, true, false, some, List, [], ◌∷◌, ◌++◌, Text, ltb, length,
  length-append, drop, ◌≡◌, refl, arith, ap, Option-cases, inl, inr, Bool-cases, ◌∙◌, ◌⊎◌, sym,
}
use mathlib.Core.List.{append_assoc, append-nil}
use baleen_engine.Api.Logs.{
  LogFile, push_line, scan_loop, shown, logs, failed, truncate, clean_logs,
}

drop-append :
    (n : ℕ) (xs : List Text) (x : Text)
    → n ≤ length xs
    → drop n (xs ++ x ∷ []) ≡ drop n xs ++ x ∷ []
drop-append zero xs x h = refl
drop-append (suc n) [] x h = ground arith
drop-append (suc n) (y ∷ xs) x h = drop-append n xs x (omega arith)

drop_once : (n : ℕ) (xs : List Text) → drop 1 (drop n xs) ≡ drop (suc n) xs
drop_once zero xs = refl
drop_once (suc n) [] = refl
drop_once (suc n) (x ∷ xs) = drop_once n xs

length-drop : (n : ℕ) (xs : List Text) → length (drop n xs) ≡ length xs - n
length-drop zero xs = omega arith
length-drop (suc n) [] = omega arith
length-drop (suc n) (x ∷ xs) = omega (arith, length-drop n xs)

-- The last `limit` lines.
abbrev pub last_lines : ℕ → List Text → List Text
last_lines limit lines = drop (length lines - limit) lines

push_line-cases :
    (limit : ℕ) (lines : List Text) (line : Text)
    → ((limit < length (lines ++ line ∷ []))
        × (push_line limit lines line ≡ drop 1 (lines ++ line ∷ [])))
      ⊎ ((length (lines ++ line ∷ []) ≤ limit) × (push_line limit lines line ≡ lines ++ line ∷ []))
unfolding push_line
push_line-cases limit lines line = elim (Bool-cases (ltb limit (length (lines ++ line ∷ [])))) [
  | inl over ↦ inl (ground (arith, over), rw (over, push_line) refl)
  | inr fits ↦ inr (ground (arith, fits), rw (fits, push_line) refl)
]

push_line-last :
    (limit : ℕ) (old : List Text) (line : Text)
    → push_line limit (last_lines limit old) line ≡ last_lines limit (old ++ line ∷ [])
push_line-last limit old line =
    let n = length old - limit in
    let longer : length (last_lines limit old ++ line ∷ []) ≡ (length old - n) + 1 =
      omega (arith, length-append (drop n old) (line ∷ []), length-drop n old) in
    let whole = drop-append n old line (omega arith) in
    let total = length-append old (line ∷ []) in
    elim (push_line-cases limit (last_lines limit old) line) [
      | inl (over, e) ↦
          let same : suc n ≡ length (old ++ line ∷ []) - limit =
            omega (arith, over, longer, total) in
          e
          ∙ ap (drop 1) (sym whole)
          ∙ drop_once n (old ++ line ∷ [])
          ∙ ap (λ (k : ℕ). drop k (old ++ line ∷ [])) same
      | inr (fits, e) ↦
          let same : n ≡ length (old ++ line ∷ []) - limit = omega (arith, fits, longer, total) in
          e ∙ sym whole ∙ ap (λ (k : ℕ). drop k (old ++ line ∷ [])) same
    ]

scan_loop-last :
    (limit : ℕ) (old lines : List Text)
    → scan_loop limit (last_lines limit old) lines ≡ last_lines limit (old ++ lines)
unfolding scan_loop
scan_loop-last limit old [] = rw (append-nil old) refl
scan_loop-last limit old (line ∷ lines) = rw (push_line-last limit old line) (
    scan_loop-last limit (old ++ line ∷ []) lines
    ∙ ap (last_lines limit) (append_assoc old (line ∷ []) lines))

-- The log that is shown is the last 500 lines of the file.
pub logs_last :
    (f : LogFile) (lines : List Text)
    → f.lines ≡ some lines
    → f.opens ≡ true
    → f.scans ≡ true
    → logs f ≡ shown (last_lines 500 lines)
unfolding logs
logs_last f lines there opens scans =
    ground (arith, there, opens, scans, scan_loop-last 500 [] lines)

-- After a cleaning that does not fail the log that is shown is empty, whichever way it was cleaned,
-- and one that fails leaves the file.
pub clean_then_empty :
    (remove_cache : Bool) (f : LogFile)
    → f.opens ≡ true
    → f.scans ≡ true
    → let (after, response) = clean_logs remove_cache f in
      (logs after ≡ shown []) ⊎ ((response ≡ failed) × (after ≡ f))
unfolding logs clean_logs truncate scan_loop
clean_then_empty true f opens scans = elim (Option-cases f.lines) [
  | inl absent ↦ inl (ground (arith, absent))
  | inr (lines, there) ↦ elim (Bool-cases f.removes) [
    | inl removes ↦ inl (ground (arith, there, removes))
    | inr stays ↦ elim (Bool-cases f.truncates) [
      | inl truncates ↦ inl (ground (arith, there, stays, truncates, opens, scans))
      | inr locked ↦
          inr (ground (arith, there, stays, locked), ground (arith, there, stays, locked))
    ]
  ]
]
clean_then_empty false f opens scans = elim (Option-cases f.lines) [
  | inl absent ↦ inl (ground (arith, absent))
  | inr (lines, there) ↦ elim (Bool-cases f.truncates) [
    | inl truncates ↦ inl (ground (arith, there, truncates, opens, scans))
    | inr locked ↦ inr (ground (arith, there, locked), ground (arith, there, locked))
  ]
]
