-- ===== src/Updater/Newest.antt =====
-- internal/updater/updater.go: isNewerVersion orders versions, and the fetch returns a newest one.
use baleen_engine.Base.{
  Bool, true, false, not, ◌&&◌, some, List, [], ◌∷◌, Text, if◌then◌else◌, ok, text_eq, keep, all,
  elem, ◌≡◌, refl, arith, Bool-cases, Option-cases, inl, inr, ==_iff, sym, ◌∙◌, nat_eq,
}
use baleen_engine.Base.Int.{ℤ, ltb_ℤ}
use baleen_engine.Base.Sort.{sort, insert_sorted, Ordered, sort-Ordered, elem-sort}
use baleen_engine.Updater.{
  Semver, parse_semver, same, above, newer_of, is_newer_version, is_version, first_of,
  fetch_latest_from_docker_hub,
}

pub above-asymm : (a b : Semver) → above a b ≡ true → above b a ≡ false
unfolding above
above-asymm a b h = ground (arith, h)

-- One place of the comparison: what decides where the numbers differ, and the rest where they do not.
place : ℤ → ℤ → Bool → Bool
place c t rest = if not (same t c) then ltb_ℤ c t else rest

place-negated_trans :
    (a b c : ℤ) (p q r : Bool)
    → (p ≡ false → q ≡ false → r ≡ false)
    → place a b p ≡ false
    → place b c q ≡ false
    → place a c r ≡ false
unfolding place same
place-negated_trans a b c p q r later h k = ground (arith, h, k, Bool-cases p, Bool-cases q, later)

above-place :
    (a b : Semver)
    → above a b ≡ place a.major b.major (place a.minor b.minor (place a.patch b.patch false))
unfolding above place same
above-place a b = ground arith

-- What is not above stays not above along a chain.
above-negated_trans : (a b c : Semver) → above a b ≡ false → above b c ≡ false → above a c ≡ false
above-negated_trans a b c h k =
    above-place a c
    ∙ place-negated_trans a.major b.major c.major _ _ _
        (place-negated_trans a.minor b.minor c.minor _ _ _
          (place-negated_trans a.patch b.patch c.patch false false false (λ p q. refl)))
        (sym (above-place a b) ∙ h) (sym (above-place b c) ∙ k)

newer-asymm : (a b : Text) → is_newer_version a b ≡ true → is_newer_version b a ≡ false
unfolding is_newer_version newer_of
newer-asymm a b h = elim (Option-cases (parse_semver a)) [
  | inl absent ↦ ground (arith, absent)
  | inr (v, found) ↦ elim (Option-cases (parse_semver b)) [
    | inl absent ↦ ground (arith, absent)
    | inr (w, other) ↦ ground (arith, h, found, other, above-asymm v w)
  ]
]

abbrev Parsed : Text → Type 0
Parsed t = (v : Semver) × (parse_semver t ≡ some v)

newer-negated_trans :
    (a b c : Text)
    → Parsed b
    → is_newer_version a b ≡ false
    → is_newer_version b c ≡ false
    → is_newer_version a c ≡ false
unfolding is_newer_version newer_of
newer-negated_trans a b c (w, parsed) h k = elim (Option-cases (parse_semver a)) [
  | inl absent ↦ ground (arith, absent)
  | inr (v, found) ↦ elim (Option-cases (parse_semver c)) [
    | inl absent ↦ ground (arith, absent, found)
    | inr (u, other) ↦ ground (arith, h, k, found, other, parsed, above-negated_trans v w u)
  ]
]

newer-Parsed : (a b : Text) → is_newer_version a b ≡ true → Parsed b
unfolding is_newer_version newer_of
newer-Parsed a b h = elim (Option-cases (parse_semver b)) [
  | inr (w, found) ↦ (w, found)
  | inl absent ↦ elim (Option-cases (parse_semver a)) [
    | inl none_ ↦ ground (arith, h, absent, none_)
    | inr (v, found) ↦ ground (arith, h, absent, found)
  ]
]

newer_irrefl : (a : Text) → is_newer_version a a ≡ false
newer_irrefl a = ground (arith, newer-asymm a a, Bool-cases (is_newer_version a a))

-- isNewerVersion is a strict order: where b is newer than a and c than b, no version is newer than
-- itself, a is not newer than b, and c is newer than a.
pub newer_is_strict :
    (a b c : Text)
    → is_newer_version a b ≡ true
    → is_newer_version b c ≡ true
    → (is_newer_version a a ≡ false)
      × (is_newer_version b a ≡ false)
      × (is_newer_version a c ≡ true)
newer_is_strict a b c h k = (
  newer_irrefl a,
  newer-asymm a b h,
  ground (
    arith,
    h,
    newer-asymm b c k,
    newer-negated_trans a c b (newer-Parsed b c k),
    Bool-cases (is_newer_version a c),
  ),
)

is_version-Parsed : (t : Text) → is_version t ≡ true → Parsed t
unfolding is_version
is_version-Parsed t h = elim (Option-cases (parse_semver t)) [
  | inl absent ↦ ground (arith, h, absent)
  | inr (v, found) ↦ (v, found)
]

abbrev less : Text → Text → Bool
less a b = is_newer_version b a

-- No element of an ordered list is newer than its head.
head-newest :
    (x y : Text) (ys : List Text)
    → Ordered less (x ∷ ys)
    → all is_version ys ≡ true
    → elem y (x ∷ ys) ≡ true
    → is_newer_version x y ≡ false
unfolding elem all
head-newest x y [] o parsed h = ground (arith, h, ==_iff x y, newer_irrefl x)
head-newest x y (z ∷ ys) o parsed h = elim (Bool-cases (is_newer_version x y)) [
  | inr good ↦ good
  | inl bad ↦ ground (
    arith,
    h,
    o.0,
    parsed,
    ==_iff x y,
    newer_irrefl x,
    newer-negated_trans x z y (is_version-Parsed z (ground (arith, parsed))) o.0,
    head-newest z y ys o.1,
  )
]

elem-keep :
    (t : Text) (names : List Text) → elem t (keep is_version names) ≡ (elem t names && is_version t)
unfolding elem keep
elem-keep t [] = refl
elem-keep t (x ∷ names) =
    ground
      (arith, ==_iff x t, elem-keep t names, Bool-cases (is_version x), Bool-cases (is_version t))

all-keep : (names : List Text) → all is_version (keep is_version names) ≡ true
unfolding all keep
all-keep [] = refl
all-keep (x ∷ names) = ground (arith, all-keep names, Bool-cases (is_version x))

all-insert_sorted :
    (x : Text) (xs : List Text)
    → is_version x ≡ true
    → all is_version xs ≡ true
    → all is_version (insert_sorted less x xs) ≡ true
unfolding all insert_sorted
all-insert_sorted x [] h k = ground (arith, h)
all-insert_sorted x (y ∷ xs) h k = ground (arith, h, k, all-insert_sorted x xs h)

all-sort : (xs : List Text) → all is_version xs ≡ true → all is_version (sort less xs) ≡ true
unfolding all sort
all-sort [] h = refl
all-sort (x ∷ xs) h =
    all-insert_sorted x (sort less xs) (ground (arith, h)) (all-sort xs (ground (arith, h)))

first-newest :
    (sorted : List Text) (latest other : Text)
    → Ordered less sorted
    → all is_version sorted ≡ true
    → first_of sorted ≡ ok latest
    → elem other sorted ≡ true
    → (elem latest sorted ≡ true) × (is_newer_version latest other ≡ false)
unfolding first_of elem all
first-newest [] latest other o parsed h k = ground (arith, h)
first-newest (x ∷ xs) latest other o parsed h k = (
  ground (arith, h, ==_iff x latest),
  ground (arith, h, head-newest x other xs o (ground (arith, parsed)) k),
)

-- What fetchLatestFromDockerHub returns is one of the tags and a version, and no tag that is a
-- version is newer.
pub fetch_latest_is_newest :
    (names : List Text) (latest other : Text)
    → fetch_latest_from_docker_hub (ok names) ≡ ok latest
    → elem other names ≡ true
    → is_version other ≡ true
    → (elem latest names ≡ true)
      × (is_version latest ≡ true)
      × (is_newer_version latest other ≡ false)
unfolding fetch_latest_from_docker_hub
fetch_latest_is_newest names latest other h there version =
    let versions = keep is_version names in
    let found =
      first-newest (sort less versions) latest other
        (sort-Ordered less (λ a b. newer-asymm b a) versions) (all-sort versions (all-keep names)) h
        (elem-sort less other versions ∙ elem-keep other names ∙ ground (arith, there, version)) in
    let listed = sym (elem-sort less latest versions ∙ elem-keep latest names) ∙ found.0 in
    (
      ground (arith, listed, Bool-cases (elem latest names)),
      ground (arith, listed, Bool-cases (elem latest names), Bool-cases (is_version latest)),
      found.1,
    )
