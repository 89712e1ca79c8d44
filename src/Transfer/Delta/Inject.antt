-- ===== src/Transfer/Delta/Inject.antt =====
-- What buildDigestToPathMap and injectCachedLayers give back.
use baleen_engine.Base.{
  ◌≡◌, refl, Bool, true, false, none, some, List, [], ◌∷◌, ◌++◌, arith, Text, ==_iff, ==_self,
  if◌then◌else◌, ok, text_eq, Bool-cases, inl, inr,
}
use baleen_engine.Base.Map.{Map, lookup, insert, lookup-insert}
use baleen_engine.Transfer.Archive.{Body, at_end}
use baleen_engine.Transfer.Partition.{partition_layers}
use baleen_engine.Transfer.Prune.{Disk}
use baleen_engine.Transfer.Stitch.{
  path_loop, path_of, open_cached, safe_digest, copy_all_loop, inject_cached_layers,
}
use baleen_engine.Transfer.Delta.Skip.{Works, held, write_entry-ok}

-- Every layer with digest `d` has the path `p`.
abbrev pub Agrees : Text → Text → List Text → List Text → Type 0
Agrees d p [] ds = Unit
Agrees d p (q ∷ ps) [] = Unit
Agrees d p (q ∷ ps) (e ∷ ds) = (e ≡ d → q ≡ p) × Agrees d p ps ds

-- Layers of one digest have one path, and there are as many paths as digests.
abbrev pub Consistent : List Text → List Text → Type 0
Consistent [] [] = Unit
Consistent [] (d ∷ ds) = ⊥
Consistent (p ∷ ps) [] = ⊥
Consistent (p ∷ ps) (d ∷ ds) = Agrees d p ps ds × Consistent ps ds

-- The map sends each digest to its path.
abbrev pub Placed : Map Text Text → List Text → List Text → Type 0
Placed paths [] ds = Unit
Placed paths (p ∷ ps) [] = Unit
Placed paths (p ∷ ps) (d ∷ ds) = (lookup d paths ≡ some p) × Placed paths ps ds

lookup-path_loop :
    (d p : Text) (ps ds : List Text) (paths : Map Text Text)
    → Agrees d p ps ds
    → lookup d paths ≡ some p
    → lookup d (path_loop ps ds paths) ≡ some p
unfolding path_loop
lookup-path_loop d p [] ds paths a h = h
lookup-path_loop d p (q ∷ ps) [] paths a h = h
lookup-path_loop d p (q ∷ ps) (e ∷ ds) paths a h =
    lookup-path_loop d p ps ds (insert e q paths) a.1
      (ground (arith, lookup-insert e d q paths, ==_iff e d, a.0))

pub path_loop-Placed :
    (ps ds : List Text) (paths : Map Text Text)
    → Consistent ps ds
    → Placed (path_loop ps ds paths) ps ds
unfolding path_loop
path_loop-Placed [] ds paths c = tt
path_loop-Placed (p ∷ ps) [] paths c = tt
path_loop-Placed (p ∷ ps) (d ∷ ds) paths c = (
  lookup-path_loop d p ps ds (insert d p paths) c.0
      (ground (arith, lookup-insert d d p paths, ==_self d)),
  path_loop-Placed ps ds (insert d p paths) c.1,
)

-- The cache holds, for each layer that passes the test, what the image has at its path.
abbrev pub Cached : (Text → Bool) → Map Text Body → Map Text Body → List Text → List Text → Type 0
Cached has cache image [] ds = Unit
Cached has cache image (p ∷ ps) [] = Unit
Cached has cache image (p ∷ ps) (d ∷ ds) =
    (has d ≡ true
      → (body : Body) × (lookup (safe_digest d) cache ≡ some body) × (lookup p image ≡ some body))
    × Cached has cache image ps ds

module _ (disk : Disk) (works : Works disk) where
  pub copy_all_loop-ok : (entries : Map Text Body) → copy_all_loop disk entries false ≡ ok entries
  unfolding copy_all_loop at_end
  copy_all_loop-ok [] = refl
  copy_all_loop-ok ((name, body) ∷ rest) =
      rw (copy_all_loop-ok rest) (write_entry-ok disk works name body rest)

  -- What is injected is, under the paths of the owned layers, what the image had there.
  pub inject_cached_layers-restores :
      (has : Text → Bool) (cache image : Map Text Body) (paths : Map Text Text) (ps ds : List Text)
      → Placed paths ps ds
      → Consistent ps ds
      → Cached has cache image ps ds
      → (out : Map Text Body) × (inject_cached_layers disk cache (partition_layers has ds).1 paths
          ≡ ok out)
        × ((n : Text) → lookup n out ≡ (if held has ps ds n then lookup n image else none))
  unfolding inject_cached_layers partition_layers held lookup open_cached path_of
  inject_cached_layers-restores has cache image paths [] [] pl c ca = ([], refl, λ n. refl)
  inject_cached_layers-restores has cache image paths [] (d ∷ ds) pl c ca = absurd c
  inject_cached_layers-restores has cache image paths (p ∷ ps) [] pl c ca = absurd c
  inject_cached_layers-restores has cache image paths (p ∷ ps) (d ∷ ds) pl c ca =
      let (out, e, look) =
        inject_cached_layers-restores has cache image paths ps ds pl.1 c.1 ca.1 in
      elim (Bool-cases (has d)) [
        | inl h ↦
            let (body, in_cache, in_image) = ca.0 h in
            (
              (p, body) ∷ out,
              ground (arith, e, in_cache, pl.0, write_entry-ok disk works p body out),
              λ n. ground (arith, look n, ==_iff p n, in_image),
            )
        | inr h ↦ (out, ground (arith, e), λ n. ground (arith, look n))
      ]

pub lookup-append {ℓ} :
    {V : Type ℓ} (n : Text) (a b : Map Text V)
    → lookup n (a ++ b) ≡ elim (lookup n a) [ none ↦ lookup n b | some v ↦ some v ]
unfolding lookup
lookup-append n [] b = refl
lookup-append n ((k, v) ∷ a) b = ground (arith, ==_iff k n, lookup-append n a b)
