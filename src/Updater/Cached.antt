-- ===== src/Updater/Cached.antt =====
-- internal/updater/updater.go: what CheckForUpdate answers from its cache file, and when it fails.
use baleen_engine.Base.{
  ℕ, Bool, true, false, Option, none, some, List, [], Text, Result, ok, err, text_eq, ◌≡◌, refl,
  arith, inl, inr, ==_iff, Result-cases, ◌-◌, ◌<◌, nat_eq,
}
use baleen_engine.Updater.{
  fetch_latest_from_docker_hub, UpdateCache, check_for_update, ask_hub, answer, fresh_version,
  cached_version,
}

forced : (now : ℕ) (file : Option UpdateCache) → fresh_version true now file ≡ []
unfolding fresh_version
forced now none = refl
forced now (some cache) = ground arith

-- A forced check that reaches Docker Hub and writes its file answers by what it fetched. For six
-- hours after it, an unforced check answers by that version, whatever Docker Hub says by then.
pub cache_answers :
    (current other latest : Text) (now later : ℕ) (writes : Bool) (file : Option UpdateCache)
    (tags tags' : Result (List Text))
    → fetch_latest_from_docker_hub tags ≡ ok latest
    → (latest ≡ [] → ⊥)
    → later - now < 21600
    → let (result, kept) = check_for_update current true now (ok tt) true file tags in
      (result ≡ answer current latest)
      × (check_for_update other false later (ok tt) writes kept tags' ≡ (answer other latest, kept))
unfolding check_for_update ask_hub fresh_version
cache_answers current other latest now later writes file tags tags' fetched there soon = (
  ground (arith, fetched, forced now file, ==_iff {A = Text} [] []),
  ground (arith, fetched, forced now file, ==_iff {A = Text} [] [], there, soon, ==_iff latest []),
)

-- CheckForUpdate with a home directory fails only where nothing is fetched and no version is cached,
-- and then leaves the cache file as it was.
pub check_fails_only_without :
    (current : Text) (force : Bool) (now : ℕ) (writes : Bool) (file : Option UpdateCache)
    (tags : Result (List Text)) (e : Text)
    → (check_for_update current force now (ok tt) writes file tags).0 ≡ err e
    → ((reason : Text) × (fetch_latest_from_docker_hub tags ≡ err reason))
      × (cached_version file ≡ [])
      × ((check_for_update current force now (ok tt) writes file tags).1 ≡ file)
unfolding check_for_update ask_hub answer
check_fails_only_without current force now writes file tags e h =
    elim (Result-cases (fetch_latest_from_docker_hub tags)) [
      | inl (latest, fetched) ↦ ground (arith, h, fetched)
      | inr (reason, failed) ↦ (
        (reason, failed),
        ground (arith, h, failed, ==_iff (cached_version file) []),
        ground (arith, h, failed),
      )
    ]
