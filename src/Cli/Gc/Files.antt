-- ===== src/Cli/Gc/Files.antt =====
-- internal/cli/gc_cli.go: which files a collection deletes.
use baleen_engine.Base.{
  ℕ, ◌+◌, ◌/◌, Bool, true, ◌&&◌, Option, none, some, [], ◌∷◌, Text, text, ==_iff, if◌then◌else◌,
  text_eq, has_suffix, contains, ◌≡◌, refl, arith, Bool-cases,
}
use baleen_engine.Base.Map.{Map, lookup, Distinct}
use baleen_engine.Cli.Gc.{File, selected, delete_files, delete_physical_files}

-- A name that ends in a text contains each of the text's parts.
contains-suffix :
    (name suffix part : Text)
    → has_suffix name suffix ≡ true
    → contains suffix part ≡ true
    → contains name part ≡ true
unfolding has_suffix contains
contains-suffix [] suffix part h k = ground (arith, h, k, ==_iff [] suffix)
contains-suffix (c ∷ name) suffix part h k =
    ground (arith, h, k, ==_iff (c ∷ name) suffix, contains-suffix name suffix part)

-- A hash that is a part of ".tar", such as "a", filters nothing.
selected-short :
    (hash name : Text) (cutoff : Option ℕ) (f : File)
    → contains (text ".tar") hash ≡ true
    → selected hash cutoff name f ≡ selected [] cutoff name f
unfolding selected
selected-short hash name cutoff f h = ground (
  arith,
  h,
  ==_iff hash [],
  ==_iff {A = Text} [] [],
  contains-suffix name (text ".tar") hash,
  Bool-cases (has_suffix name (text ".tar")),
  Bool-cases (contains name hash),
)

delete_files-short :
    (hash : Text) (cutoff : Option ℕ) (dir : Map Text File) (freed : ℕ)
    → contains (text ".tar") hash ≡ true
    → delete_files hash cutoff dir freed ≡ delete_files [] cutoff dir freed
unfolding delete_files
delete_files-short hash cutoff [] freed h = refl
delete_files-short hash cutoff ((name, f) ∷ rest) freed h =
    rw (selected-short hash name cutoff f h) (
      rw
        (delete_files-short hash cutoff rest
          (if selected [] cutoff name f then freed + f.size else freed) h)
        refl)

-- With a hash that is a part of ".tar", such as "a", deletePhysicalFiles deletes the exported files
-- of every image, as it does with no hash at all.
pub short_hash_deletes_all :
    (hash : Text) (cutoff : Option ℕ) (dir : Map Text File)
    → contains (text ".tar") hash ≡ true
    → delete_physical_files hash cutoff dir ≡ delete_physical_files [] cutoff dir
unfolding delete_physical_files
short_hash_deletes_all hash cutoff dir h = rw (delete_files-short hash cutoff dir 0 h) refl

abbrev pub left : (Text → File → Bool) → Text → Option File → Option File
left goes name none = none
left goes name (some f) = if goes name f then none else some f

abbrev pub freed_by : (Text → File → Bool) → Map Text File → ℕ
freed_by goes [] = 0
freed_by goes ((name, f) ∷ rest) = (if goes name f then f.size else 0) + freed_by goes rest

lookup-delete_files :
    (hash name : Text) (cutoff : Option ℕ) (dir : Map Text File) (freed : ℕ)
    → Distinct dir
    → lookup name (delete_files hash cutoff dir freed).0
      ≡ left (λ n f. selected hash cutoff n f && f.removes) name (lookup name dir)
unfolding delete_files lookup
lookup-delete_files hash name cutoff [] freed d = refl
lookup-delete_files hash name cutoff ((n, f) ∷ rest) freed d = ground (
  arith,
  ==_iff n name,
  d.0,
  lookup-delete_files hash name cutoff rest
      (if selected hash cutoff n f then freed + f.size else freed) d.1,
  Bool-cases (selected hash cutoff n f),
)

freed-delete_files :
    (hash : Text) (cutoff : Option ℕ) (dir : Map Text File) (freed : ℕ)
    → (delete_files hash cutoff dir freed).1 ≡ freed + freed_by (selected hash cutoff) dir
unfolding delete_files
freed-delete_files hash cutoff [] freed = ground arith
freed-delete_files hash cutoff ((n, f) ∷ rest) freed = ground (
  arith,
  freed-delete_files hash cutoff rest (if selected hash cutoff n f then freed + f.size else freed),
  Bool-cases (selected hash cutoff n f),
)

-- The collection removes a file exactly if its name ends in ".tar" and contains the hash, its
-- information can be read, it is not newer than the cutoff, and its removal succeeds. Every other
-- file stays. The MB it reports are those of the files it tried to remove.
pub delete_physical_exact :
    (hash name : Text) (cutoff : Option ℕ) (dir : Map Text File)
    → Distinct dir
    → (lookup name (delete_physical_files hash cutoff dir).0
        ≡ left (λ n f. selected hash cutoff n f && f.removes) name (lookup name dir))
      × ((delete_physical_files hash cutoff dir).1
          ≡ freed_by (selected hash cutoff) dir / 1024 / 1024)
unfolding delete_physical_files
delete_physical_exact hash name cutoff dir d = (
  lookup-delete_files hash name cutoff dir 0 d,
  ground (arith, freed-delete_files hash cutoff dir 0),
)
