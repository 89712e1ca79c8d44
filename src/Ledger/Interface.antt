-- ===== src/Ledger/Interface.antt =====
-- What internal/ledger relies on of a bbolt bucket (go.etcd.io/bbolt): Put, Get and Delete by key,
-- and a cursor that visits each pair once, also while the loop deletes and rewrites pairs.
use baleen_engine.Base.{◌≡◌, refl, Option, none, some, [], Text, ◌==◌, if◌then◌else◌, text_eq}
use baleen_engine.Base.Map.{
  Map, lookup, insert, delete, lookup-insert, lookup-delete, Distinct, insert-Distinct,
  delete-Distinct,
}

pub record Bucket (V : Type 0) : Type 1 where
  pub Store : Type 0
  pub empty : Store
  pub put : Text → V → Store → Store
  pub get : Text → Store → Option V
  pub remove : Text → Store → Store
  -- the pairs from Cursor.First on, by Cursor.Next
  pub cursor : Store → Map Text V
  pub get-empty : (k : Text) → get k empty ≡ none
  pub get-put :
      (k j : Text) (v : V) (s : Store) → get j (put k v s) ≡ (if k == j then some v else get j s)
  pub get-remove :
      (k j : Text) (s : Store) → get j (remove k s) ≡ (if k == j then none else get j s)
  pub lookup-cursor : (k : Text) (s : Store) → lookup k (cursor s) ≡ get k s
  pub cursor-Distinct : (s : Store) → Distinct (cursor s)

pub lookup-nil : (V : Type 0) (k : Text) → lookup {V = V} k [] ≡ none
unfolding lookup
lookup-nil V k = refl

-- A bucket in memory meets the laws.
abbrev pub in_memory : (V : Type 0) → Bucket V
in_memory V = record {
  Store = (m : Map Text V) × Distinct m;
  empty = ([], tt);
  put = λ k v s. (insert k v s.0, insert-Distinct k v s.0 s.1);
  get = λ k s. lookup k s.0;
  remove = λ k s. (delete k s.0, delete-Distinct k s.0 s.1);
  cursor = λ s. s.0;
  get-empty = λ k. lookup-nil V k;
  get-put = λ k j v s. lookup-insert k j v s.0;
  get-remove = λ k j s. lookup-delete k j s.0;
  lookup-cursor = λ k s. refl;
  cursor-Distinct = λ s. s.1;
}
