-- ===== src/Docker/Import/Backup.antt =====
-- internal/docker/import.go: the search for a free tag, and the backup.
use baleen_engine.Base.{
  ℕ, zero, suc, ◌+◌, ◌≤◌, ◌<◌, true, false, Option, none, some, List, [], ◌∷◌, ◌++◌, Text, text,
  ◌==◌, ==_iff, if◌then◌else◌, text_eq, elem, length, is_some, Result, ◌≡◌, refl, arith, ap, subst,
  ltb, Bool-cases, Option-cases, inl, inr, ◌⊎◌,
}
use baleen_engine.Base.Decimal.{decimal, decimal-injective, last, last-append, last-decimal}
use baleen_engine.Docker.Export.{temp_tag}
use baleen_engine.Transfer.Archive.{Tarball}
use baleen_engine.Docker.Daemon.{Daemon}
use baleen_engine.Docker.Import.{
  next_tag, find_free, keep_as, backup, load_then_tag, load_and_tag, repo_of,
}

-- A list of names without the first that is `t`.
abbrev without : Text → List Text → List Text
without t [] = []
without t (x ∷ xs) = if x == t then xs else x ∷ without t xs

length-without :
    (t : Text) (xs : List Text) → elem t xs ≡ true → suc (length (without t xs)) ≡ length xs
unfolding elem
length-without t [] h = ground arith
length-without t (x ∷ xs) h = elim (Bool-cases (x == t)) [
  | inl same ↦ ground (arith, same)
  | inr other ↦ ground (arith, other, h, length-without t xs)
]

elem-without :
    (t u : Text) (xs : List Text) → (t ≡ u → ⊥) → elem u xs ≡ true → elem u (without t xs) ≡ true
unfolding elem
elem-without t u [] apart h = ground arith
elem-without t u (x ∷ xs) apart h = elim (Bool-cases (x == t)) [
  | inl same ↦ ground (arith, same, apart, h, ==_iff x t, ==_iff x u)
  | inr other ↦ ground (arith, other, h, apart, elem-without t u xs)
]

-- Distinct names f 0, …, f (m - 1) that all stand in a list are no more than its length.
pigeonhole :
    (f : ℕ → Text) (m : ℕ) (xs : List Text)
    → ((i j : ℕ) → f i ≡ f j → i ≡ j)
    → ((i : ℕ) → i < m → elem (f i) xs ≡ true)
    → m ≤ length xs
pigeonhole f zero xs injective all_in = omega arith
pigeonhole f (suc m) xs injective all_in =
    let last = all_in m (omega arith) in
    let rest = pigeonhole f m (without (f m) xs) injective (λ i below.
      elem-without (f m) (f i) xs (λ e. ground (arith, injective m i e, below))
        (all_in i (omega arith))) in
    omega (arith, rest, length-without (f m) xs last)

append-cancel : (s t u : Text) → s ++ t ≡ s ++ u → t ≡ u
append-cancel [] t u e = e
append-cancel (c ∷ s) t u e = append-cancel s t u (cc e)

next_tag-injective : (repo : Text) (i j : ℕ) → next_tag repo i ≡ next_tag repo j → i ≡ j
unfolding next_tag
next_tag-injective repo i j e = decimal-injective i j (
    append-cancel (text ":v") (decimal i) (decimal j)
      (append-cancel repo (text ":v" ++ decimal i) (text ":v" ++ decimal j) e))

-- A versioned tag ends in a digit, the temporary one in a letter.
pub temp_tag-apart : (image repo : Text) (n : ℕ) → (temp_tag image == next_tag repo n) ≡ false
unfolding temp_tag next_tag
temp_tag-apart image repo n = elim (Bool-cases (temp_tag image == next_tag repo n)) [
  | inr apart ↦ apart
  | inl same ↦ absurd (
      omega (
        arith,
        ap (last 0) ((==_iff (temp_tag image) (next_tag repo n)).0 same),
        last-append 0 image (text "-baleen-tmp"),
        last-append 0 repo (text ":v" ++ decimal n),
        last-append (last 0 repo) (text ":v") (decimal n),
        last-decimal n (last (last 0 repo) (text ":v")),
      ))
]

zero-or-suc : (j : ℕ) → (j ≡ 0) ⊎ ((k : ℕ) × (j ≡ suc k))
zero-or-suc zero = inl refl
zero-or-suc (suc k) = inr (k, refl)

at_start : (i j : ℕ) → j ≡ 0 → i ≡ i + j
at_start i j e = omega (arith, e)

at_next : (i j k : ℕ) → j ≡ suc k → i + 1 + k ≡ i + j
at_next i j k e = omega (arith, e)

module _ (D : Daemon) where
  open D use {
    State, names, inspect, tag, load, remove, brings, inspect-named, inspect-tag, inspect-load,
    inspect-remove,
  }

  -- The tag number `n` is the first from `i` on that no image has.
  abbrev pub IsFirstFree : Text → ℕ → ℕ → State → Type 0
  IsFirstFree repo i n s =
      (i ≤ n)
      × (inspect (next_tag repo n) s ≡ none)
      × ((k : ℕ) → i ≤ k → k < n → is_some (inspect (next_tag repo k) s) ≡ true)

  first_or_later :
      (repo : Text) (i k : ℕ) (s : State)
      → is_some (inspect (next_tag repo i) s) ≡ true
      → (i + 1 ≤ k → is_some (inspect (next_tag repo k) s) ≡ true)
      → i ≤ k
      → is_some (inspect (next_tag repo k) s) ≡ true
  first_or_later repo i k s first later from = elim (Bool-cases (ltb i k)) [
    | inl below ↦ later (ground (arith, below))
    | inr stop ↦
        subst (λ j. is_some (inspect (next_tag repo j) s) ≡ true) (ground (arith, stop, from)) first
  ]

  find_free-cases :
      (fuel : ℕ) (repo : Text) (i : ℕ) (s : State)
      → ((j : ℕ) → j < fuel → is_some (inspect (next_tag repo (i + j)) s) ≡ true)
        ⊎ ((n : ℕ) × (find_free D fuel repo i s ≡ some (next_tag repo n)) × IsFirstFree repo i n s)
  unfolding find_free
  find_free-cases zero repo i s = inl (λ j h. ground arith)
  find_free-cases (suc fuel) repo i s = elim (Option-cases (inspect (next_tag repo i) s)) [
    | inl free ↦ inr (
      i,
      ground (arith, free),
      (omega arith, free, (λ k from below. ground (arith, from, below))),
    )
    | inr (image, taken) ↦ elim (find_free-cases fuel repo (i + 1) s) [
      | inr (n, found, (from, free, smaller)) ↦ inr (
        n,
        ground (arith, taken, found),
        (
          omega (arith, from),
          free,
          (λ k from_i below.
              first_or_later repo i k s (ground (arith, taken)) (λ later. smaller k later below)
                from_i),
        ),
      )
      | inl all_taken ↦ inl (λ j below. elim (zero-or-suc j) [
        | inl e ↦
            subst (λ k. is_some (inspect (next_tag repo k) s) ≡ true) (at_start i j e)
              (ground (arith, taken))
        | inr (k, e) ↦
            subst (λ n. is_some (inspect (next_tag repo n) s) ≡ true) (at_next i j k e)
              (all_taken k (omega (arith, e, below)))
      ])
    ]
  ]

  taken-named : (t : Text) (s : State) → is_some (inspect t s) ≡ true → elem t (names s) ≡ true
  taken-named t s h = elim (Option-cases (inspect t s)) [
    | inl e ↦ ground (arith, e, h)
    | inr (i, e) ↦ inspect-named t s i e
  ]

  find_free_succeeds :
      (repo : Text) (i : ℕ) (s : State)
      → (n : ℕ) × (find_free D (suc (length (names s))) repo i s ≡ some (next_tag repo n))
        × IsFirstFree repo i n s
  find_free_succeeds repo i s = elim (find_free-cases (suc (length (names s))) repo i s) [
    | inr found ↦ found
    | inl all_taken ↦ absurd (
        omega (
          arith,
          pigeonhole (λ j. next_tag repo (i + j)) (suc (length (names s))) (names s)
              (λ j k e. omega (arith, next_tag-injective repo (i + j) (i + k) e))
              (λ j below. taken-named (next_tag repo (i + j)) s (all_taken j below)),
        ))
  ]

  -- `backup` tags the image under the first free name, or does nothing when there is none to keep.
  pub backup-cases :
      (image : Text) (s : State)
      → ((inspect image s ≡ none) × (backup D image s ≡ some s))
        ⊎ ((n : ℕ) × IsFirstFree (repo_of image) 1 n s
            × (backup D image s ≡ some (keep_as D image (next_tag (repo_of image) n) s)))
  unfolding backup
  backup-cases image s = elim (Option-cases (inspect image s)) [
    | inl absent ↦ inl (absent, ground (arith, absent))
    | inr (i, present) ↦
        let (n, found, first) = find_free_succeeds (repo_of image) 1 s in
        inr (n, first, ground (arith, present, found))
  ]

  -- Whatever images there are, the search for a free tag v1, v2, … ends, so LoadAndTag returns.
  pub load_and_tag_returns :
      (file : Option Tarball) (image : Text) (s : State)
      → (out : State × Result (Unit {0})) × (load_and_tag D file image s ≡ some out)
  unfolding load_and_tag
  load_and_tag_returns file image s = elim (backup-cases image s) [
    | inl (absent, e) ↦ (load_then_tag D file image s, ground (arith, e))
    | inr (n, first, e) ↦ (
      load_then_tag D file image (keep_as D image (next_tag (repo_of image) n) s),
      ground (arith, e),
    )
  ]
