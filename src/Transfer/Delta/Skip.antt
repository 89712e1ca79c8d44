-- ===== src/Transfer/Delta/Skip.antt =====
-- Which paths buildSkipSet marks, and what copyTarExcluding leaves.
use baleen_engine.Base.{
  ◌≡◌, refl, Bool, true, false, not, ◌&&◌, ◌||◌, none, List, [], ◌∷◌, arith, Text, ◌==◌, ==_iff,
  ==_self, if◌then◌else◌, ok, elem, text_eq,
}
use baleen_engine.Base.Map.{Map, lookup, insert, lookup-insert}
use baleen_engine.Transfer.Archive.{Body, manifest_name, find_manifest, at_end}
use baleen_engine.Transfer.Partition.{partition_layers, elem-missing}
use baleen_engine.Transfer.Prune.{
  Disk, flag, mark_all, skip_loop, build_skip_set, copy_loop, write_entry,
}

-- A disk that takes everything.
pub record Works (disk : Disk) : Type 0 where
  pub creates : disk.creates ≡ true
  pub writes : (name : Text) → disk.writes name ≡ true

flag-insert : (n p : Text) (m : Map Text Bool) → flag n (insert p true m) ≡ (p == n) || flag n m
unfolding flag
flag-insert n p m = ground (arith, lookup-insert p n true m)

flag-mark_all :
    (k : Text) (ds : List Text) (set : Map Text Bool)
    → flag k (mark_all ds set) ≡ elem k ds || flag k set
unfolding mark_all elem
flag-mark_all k [] set = ground arith
flag-mark_all k (d ∷ ds) set =
    ground (arith, flag-insert k d set, flag-mark_all k ds (insert d true set))

-- `n` is the path of a layer whose digest passes the test.
unfoldable pub held : (Text → Bool) → List Text → List Text → Text → Bool
held test [] ds n = false
held test (p ∷ ps) [] n = false
held test (p ∷ ps) (d ∷ ds) n = (p == n) && test d || held test ps ds n

flag-skip_loop :
    (missing : Map Text Bool) (ps ds : List Text) (skip : Map Text Bool) (n : Text)
    → flag n (skip_loop missing ps ds skip)
      ≡ held (λ d. not (flag d missing)) ps ds n || flag n skip
unfolding skip_loop held
flag-skip_loop missing [] ds skip n = ground arith
flag-skip_loop missing (p ∷ ps) [] skip n = ground arith
flag-skip_loop missing (p ∷ ps) (d ∷ ds) skip n = ground (
  arith,
  flag-insert n p skip,
  flag-skip_loop missing ps ds (if flag d missing then skip else insert p true skip) n,
)

held-congr :
    (f g : Text → Bool) (ps ds : List Text) (n : Text)
    → ((d : Text) → elem d ds ≡ true → f d ≡ g d)
    → held f ps ds n ≡ held g ps ds n
unfolding held elem
held-congr f g [] ds n h = refl
held-congr f g (p ∷ ps) [] n h = refl
held-congr f g (p ∷ ps) (d ∷ ds) n h =
    ground (arith, h d, ==_self d, held-congr f g ps ds n (λ k e. h k (ground arith)))

-- With the missing layers of `partitionLayers`, the set holds the paths of the owned layers.
pub flag-build_skip_set :
    (has : Text → Bool) (ps ds : List Text) (n : Text)
    → flag n (build_skip_set ps ds (partition_layers has ds).0) ≡ held has ps ds n
unfolding build_skip_set flag lookup
flag-build_skip_set has ps ds n =
    let missing = mark_all (partition_layers has ds).0 [] in
    ground (
      arith,
      flag-skip_loop missing ps ds [] n,
      held-congr (λ d. not (flag d missing)) has ps ds n
          (λ d e.
            ground (arith, flag-mark_all d (partition_layers has ds).0 [], elem-missing has d ds)),
    )

-- The entries that are not in the set.
unfoldable pub unskipped : Map Text Bool → Map Text Body → Map Text Body
unskipped skip [] = []
unskipped skip ((name, body) ∷ rest) =
    if flag name skip then unskipped skip rest else (name, body) ∷ unskipped skip rest

module _ (disk : Disk) (works : Works disk) where
  pub write_entry-ok :
      (name : Text) (body : Body) (rest : Map Text Body)
      → write_entry disk (name, body) (ok rest) ≡ ok ((name, body) ∷ rest)
  unfolding write_entry
  write_entry-ok name body rest = rw (works.writes name)

  pub copy_loop-ok :
      (skip : Map Text Bool) (entries : Map Text Body)
      → copy_loop disk skip entries false ≡ ok (unskipped skip entries)
  unfolding copy_loop unskipped at_end write_entry
  copy_loop-ok skip [] = refl
  copy_loop-ok skip ((name, body) ∷ rest) =
      ground (arith, works.writes name, copy_loop-ok skip rest)

pub lookup-unskipped :
    (skip : Map Text Bool) (entries : Map Text Body) (n : Text)
    → lookup n (unskipped skip entries) ≡ (if flag n skip then none else lookup n entries)
unfolding lookup unskipped
lookup-unskipped skip [] n = ground arith
lookup-unskipped skip ((name, body) ∷ rest) n =
    ground (arith, ==_iff name n, lookup-unskipped skip rest n)

-- A manifest that is not skipped is found as before.
pub find_manifest-unskipped :
    (skip : Map Text Bool) (entries : Map Text Body)
    → flag manifest_name skip ≡ false
    → find_manifest (unskipped skip entries) false ≡ find_manifest entries false
unfolding find_manifest unskipped
find_manifest-unskipped skip [] h = refl
find_manifest-unskipped skip ((name, body) ∷ rest) h =
    ground (arith, ==_iff name manifest_name, find_manifest-unskipped skip rest h)
