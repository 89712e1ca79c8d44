-- ===== src/Updater.antt =====
-- internal/updater/updater.go: the versions on Docker Hub, and the check for a newer one. Requests,
-- files and the clock (in seconds) are arguments.
pub mod Newest
pub mod Cached
use baleen_engine.Base.{
  ℕ, zero, suc, ◌+◌, ◌-◌, ◌*◌, ◌^◌, Bool, true, false, not, ◌&&◌, ◌||◌, Option, none, some, List,
  [], ◌∷◌, Text, text, ◌==◌, if◌then◌else◌, Result, ok, err, ◌>>=◌, wrap, text_eq, nat_eq, ltb, leb,
  trim_prefix, split, is_some, keep, all,
}
use baleen_engine.Base.Int.{ℤ, pos, negsuc, ltb_ℤ}
use baleen_engine.Base.Sort.{sort}
use baleen_engine.Base.Decimal.{atoi}

-- The three numbers of parseSemver.
pub record Semver : Type 0 where
  pub major : ℤ
  pub minor : ℤ
  pub patch : ℤ

-- The loop of parseSemver on its three parts.
unfoldable pub three : Option ℤ → Option ℤ → Option ℤ → Option Semver
three (some a) (some b) (some c) = some (record { major = a; minor = b; patch = c })
three none b c = none
three (some a) none c = none
three (some a) (some b) none = none

unfoldable pub of_parts : Text → List Text → Option Semver
unfolding three
of_parts a (b ∷ (c ∷ [])) = three (atoi a) (atoi b) (atoi c)
of_parts a [] = none
of_parts a (b ∷ []) = none
of_parts a (b ∷ (c ∷ (d ∷ rest))) = none

-- parseSemver
unfoldable pub parse_semver : Text → Option Semver
unfolding of_parts
parse_semver v = let (first, rest) = split b'.' (trim_prefix v (text "v")) in of_parts first rest

unfoldable pub same : ℤ → ℤ → Bool
same a b = not (ltb_ℤ a b) && not (ltb_ℤ b a)

-- The comparison of isNewerVersion: whether `t` is above `c`.
unfoldable pub above : Semver → Semver → Bool
unfolding same
above c t =
    if not (same t.major c.major)
    then ltb_ℤ c.major t.major
    else if not (same t.minor c.minor)
    then ltb_ℤ c.minor t.minor
    else ltb_ℤ c.patch t.patch

unfoldable pub newer_of : Option Semver → Option Semver → Bool
newer_of none t = false
newer_of (some c) none = false
newer_of (some c) (some t) = above c t

-- isNewerVersion
unfoldable pub is_newer_version : Text → Text → Bool
unfolding newer_of
is_newer_version current target = newer_of (parse_semver current) (parse_semver target)

-- The tags that fetchLatestFromDockerHub takes for versions.
unfoldable pub is_version : Text → Bool
is_version name = not (name == text "latest") && is_some (parse_semver name)

unfoldable pub first_of : List Text → Result Text
first_of [] = err (text "no version tags found")
first_of (v ∷ rest) = ok v

-- fetchLatestFromDockerHub, by the tags that the request answers
unfoldable pub fetch_latest_from_docker_hub : Result (List Text) → Result Text
unfolding first_of
fetch_latest_from_docker_hub tags = do
  names ← tags
  first_of (sort (λ a b. is_newer_version b a) (keep is_version names))

-- updateCache
pub record UpdateCache : Type 0 where
  pub last_checked : ℕ
  pub latest_version : Text

-- UpdateCheckResult
pub record UpdateCheckResult : Type 0 where
  pub update_available : Bool
  pub latest_version : Text
  pub current_version : Text

-- The version in the cache file, if it reads as one; `none` is a file that does not.
unfoldable pub cached_version : Option UpdateCache → Text
cached_version none = []
cached_version (some cache) = cache.latest_version

-- The version that the cache answers at once: six hours count.
unfoldable pub fresh_version : Bool → ℕ → Option UpdateCache → Text
fresh_version force now none = []
fresh_version force now (some cache) =
    if not force && ltb (now - cache.last_checked) 21600 then cache.latest_version else []

unfoldable pub answer : Text → Text → Result UpdateCheckResult
answer current latest = ok (record {
  update_available = is_newer_version current latest;
  latest_version = latest;
  current_version = current;
})

-- CheckForUpdate with a cache miss: its result and the cache file behind it.
unfoldable pub ask_hub :
    Text
    → ℕ
    → Bool
    → Option UpdateCache
    → Result Text
    → Result UpdateCheckResult × Option UpdateCache
unfolding answer
ask_hub current now writes file fetched = elim fetched [
  | ok latest ↦ (
    answer current latest,
    if writes then some (record { last_checked = now; latest_version = latest }) else file,
  )
  | err e ↦ (
    if cached_version file == []
        then wrap "failed to check for updates: " (err e)
        else answer current (cached_version file),
    file,
  )
]

-- CheckForUpdate; `path` is getCachePath, `file` what the cache file decodes to, and `writes`
-- whether os.WriteFile succeeds
unfoldable pub check_for_update :
    Text
    → Bool
    → ℕ
    → Result (Unit {0})
    → Bool
    → Option UpdateCache
    → Result (List Text)
    → Result UpdateCheckResult × Option UpdateCache
unfolding ask_hub answer
check_for_update current force now path writes file tags = elim path [
  | err e ↦ (err e, file)
  | ok _ ↦
      if fresh_version force now file == []
      then ask_hub current now writes file (fetch_latest_from_docker_hub tags)
      else (answer current (fresh_version force now file), file)
]
