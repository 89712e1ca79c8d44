-- ===== src/Ledger/History.antt =====
-- The history of transfers.
use baleen_engine.Base.{
  ℕ, suc, ◌+◌, ◌≡◌, refl, Bool, true, false, Option, none, some, List, [], ◌∷◌, arith, Text, ◌==◌,
  ==_iff, ==_self, if◌then◌else◌, text_eq, ok, err, has_prefix, Bool-cases, Option-cases,
  text_lt-asymm, ◌⊎◌, inl, inr, string_eq,
}
use baleen_engine.Base.Map.{Map, lookup, Distinct}
use baleen_engine.Base.Sort.{sort, Ordered, sort-perm, sort-Ordered}
use mathlib.Core.Option
use mathlib.Core.List.{Perm}
use baleen_engine.Ledger.{
  Commit, Stored, json, corrupt, commit_key, hash_part, decode_all, newer, demote, is_old,
  record_commit, get_history, delete_loop, delete_commit, prune_loop, prune_history_older_than,
  fail_loop, fail_pending_transfers,
}
use baleen_engine.Ledger.Interface.{Bucket}

-- How many values pass the test.
unfoldable pub count_if : (Stored → Bool) → Map Text Stored → ℕ
count_if p [] = 0
count_if p ((k, v) ∷ rest) = (if p v then 1 else 0) + count_if p rest

abbrev pub passes : (Stored → Bool) → Option Stored → Bool
passes p none = false
passes p (some v) = p v

module _ (B : Bucket Stored) where
  get-prune_loop :
      (parse : Text → Option ℕ) (cutoff : ℕ) (j : Text) (items : Map Text Stored) (s : B.Store)
      (n : ℕ)
      → Distinct items
      → (B.get j (prune_loop B parse cutoff items s n).0
          ≡ (if passes (is_old parse cutoff) (lookup j items) then none else B.get j s))
        × ((prune_loop B parse cutoff items s n).1 ≡ n + count_if (is_old parse cutoff) items)
  unfolding prune_loop lookup count_if
  get-prune_loop parse cutoff j [] s n d = ground arith
  get-prune_loop parse cutoff j ((k, v) ∷ rest) s n d = ground (
    arith,
    ==_iff k j,
    B.get-remove k j s,
    get-prune_loop parse cutoff j rest (if is_old parse cutoff v then B.remove k s else s)
        (if is_old parse cutoff v then suc n else n) d.1,
  )

  -- PruneHistoryOlderThan removes the commits whose timestamp parses to a time before the cutoff,
  -- keeps every other value, and returns how many it removed.
  pub prune_history_exact :
      (parse : Text → Option ℕ) (cutoff : ℕ) (s : B.Store)
      → ((k : Text)
          → B.get k (prune_history_older_than B parse cutoff s).0
            ≡ (if passes (is_old parse cutoff) (B.get k s) then none else B.get k s))
        × ((prune_history_older_than B parse cutoff s).1
            ≡ count_if (is_old parse cutoff) (B.cursor s))
  unfolding prune_history_older_than
  prune_history_exact parse cutoff s = (
    λ k. ground (
      arith,
      B.lookup-cursor k s,
      get-prune_loop parse cutoff k (B.cursor s) s 0 (B.cursor-Distinct s),
    ),
    ground (arith, get-prune_loop parse cutoff [] (B.cursor s) s 0 (B.cursor-Distinct s)),
  )

  abbrev rewritten : Option Stored → Option Stored → Option Stored
  rewritten none old = old
  rewritten (some v) old = some (demote v)

  get-fail_loop :
      (j : Text) (items : Map Text Stored) (s : B.Store)
      → Distinct items
      → ((v : Stored) → lookup j items ≡ some v → B.get j s ≡ some v)
      → B.get j (fail_loop B items s) ≡ rewritten (lookup j items) (B.get j s)
  unfolding fail_loop lookup demote
  get-fail_loop j [] s d same = refl
  get-fail_loop j ((k, corrupt) ∷ rest) s d same = ground (
    arith,
    ==_iff k j,
    same corrupt,
    get-fail_loop j rest s d.1 (λ v e. ground (arith, same v, ==_iff k j, d.0)),
  )
  get-fail_loop j ((k, json c) ∷ rest) s d same =
      let s' : B.Store = if c.status == "Pending" then B.put k (demote (json c)) s else s in
      ground (
        arith,
        ==_iff k j,
        same (json c),
        B.get-put k j (json (record c { status = "Failed" })) s,
        get-fail_loop j rest s' d.1 (λ v e. ground (
          arith,
          same v,
          ==_iff k j,
          d.0,
          B.get-put k j (json (record c { status = "Failed" })) s,
        )),
      )

  pub get-fail_pending_transfers :
      (s : B.Store) (k : Text)
      → B.get k (fail_pending_transfers B s) ≡ Option.map demote (B.get k s)
  unfolding fail_pending_transfers
  get-fail_pending_transfers s k = ground (
    arith,
    B.lookup-cursor k s,
    get-fail_loop k (B.cursor s) s (B.cursor-Distinct s)
        (λ v e. ground (arith, B.lookup-cursor k s)),
  )

  -- After FailPendingTransfers a key without a value has none, a value that does not decode is as it
  -- was, a commit whose status was Pending has the status Failed and its other fields, and any other
  -- commit is as it was.
  pub fail_pending_exact :
      (s : B.Store) (k : Text)
      → B.get k (fail_pending_transfers B s) ≡ elim (B.get k s) [
        | none ↦ none
        | some corrupt ↦ some corrupt
        | some (json c) ↦
            some (json (if c.status == "Pending" then record c { status = "Failed" } else c))
      ]
  unfolding demote
  fail_pending_exact s k = elim (Option-cases (B.get k s)) [
    | inl absent ↦ ground (arith, absent, get-fail_pending_transfers s k)
    | inr (corrupt, found) ↦ ground (arith, found, get-fail_pending_transfers s k)
    | inr (json c, found) ↦ ground (arith, found, get-fail_pending_transfers s k)
  ]

  delete_loop-cases :
      (prefix : Text) (items : Map Text Stored) (s : B.Store)
      → ((k : Text) × (v : Stored) × (lookup k items ≡ some v)
          × (has_prefix (hash_part k) prefix ≡ true)
          × (delete_loop B prefix items s ≡ ok (B.remove k s)))
        ⊎ (((k : Text) (v : Stored)
              → lookup k items ≡ some v
              → has_prefix (hash_part k) prefix ≡ false)
            × ((e : Text) × (delete_loop B prefix items s ≡ err e)))
  unfolding delete_loop lookup
  delete_loop-cases prefix [] s = inr ((λ k v e. cc), (_, refl))
  delete_loop-cases prefix ((k, v) ∷ rest) s = elim (Bool-cases (has_prefix (hash_part k) prefix)) [
    | inl h ↦ inl (k, v, ground (arith, ==_self k), h, ground arith)
    | inr h ↦ elim (delete_loop-cases prefix rest s) [
      | inl (j, w, at, hit, e) ↦ inl (j, w, ground (arith, ==_iff k j), hit, ground (arith, e))
      | inr (misses, (message, e)) ↦
          inr ((λ j w at. ground (arith, ==_iff k j, misses j w)), (message, ground (arith, e)))
    ]
  ]

  -- DeleteCommit removes one value and no other: one whose key names a hash with the prefix. It fails
  -- exactly where no key does, and then nothing is removed.
  pub delete_commit_one :
      (prefix : Text) (s : B.Store)
      → ((k : Text) × (v : Stored) × (s' : B.Store) × (delete_commit B prefix s ≡ ok s')
          × (B.get k s ≡ some v)
          × (has_prefix (hash_part k) prefix ≡ true)
          × ((j : Text) → B.get j s' ≡ (if k == j then none else B.get j s)))
        ⊎ (((k : Text) (v : Stored) → B.get k s ≡ some v → has_prefix (hash_part k) prefix ≡ false)
            × ((e : Text) × (delete_commit B prefix s ≡ err e)))
  unfolding delete_commit
  delete_commit_one prefix s = elim (delete_loop-cases prefix (B.cursor s) s) [
    | inl (k, v, at, hit, e) ↦
        inl
          (k, v, B.remove k s, e, ground (arith, B.lookup-cursor k s), hit, λ j. B.get-remove k j s)
    | inr (misses, failure) ↦
        inr ((λ k v at. misses k v (ground (arith, B.lookup-cursor k s))), failure)
  ]

-- The commits of the values that decode.
unfoldable pub commits : Map Text Stored → List Commit
commits [] = []
commits ((k, json c) ∷ rest) = c ∷ commits rest
commits ((k, corrupt) ∷ rest) = commits rest

unfoldable pub any_corrupt : Map Text Stored → Bool
any_corrupt [] = false
any_corrupt ((k, json c) ∷ rest) = any_corrupt rest
any_corrupt ((k, corrupt) ∷ rest) = true

decode_all_lem :
    (items : Map Text Stored) → any_corrupt items ≡ false → decode_all items ≡ ok (commits items)
unfolding decode_all commits any_corrupt
decode_all_lem [] h = refl
decode_all_lem ((k, json c) ∷ rest) h = ground (arith, decode_all_lem rest)
decode_all_lem ((k, corrupt) ∷ rest) h = cc

newer-asymm : (a b : Commit) → newer a b ≡ true → newer b a ≡ false
unfolding newer
newer-asymm a b h = text_lt-asymm b.timestamp a.timestamp h

module _ (B : Bucket Stored) where
  -- If every value decodes, GetHistory returns each commit once, the newest timestamp first.
  pub get_history_newest_first :
      (s : B.Store)
      → any_corrupt (B.cursor s) ≡ false
      → (history : List Commit) × (get_history B s ≡ ok history)
        × Perm history (commits (B.cursor s))
        × Ordered newer history
  unfolding get_history
  get_history_newest_first s h = (
    sort newer (commits (B.cursor s)),
    rw (decode_all_lem (B.cursor s) h) refl,
    sort-perm newer (commits (B.cursor s)),
    sort-Ordered newer newer-asymm (commits (B.cursor s)),
  )

  -- A commit that is recorded is what its key holds, and no other key changes. So a second commit of
  -- the same timestamp and hash replaces the first, and one of another timestamp stands beside it.
  pub record_commit_exact :
      (c : Commit) (k : Text) (s : B.Store)
      → B.get k (record_commit B c s) ≡ (if commit_key c == k then some (json c) else B.get k s)
  unfolding record_commit
  record_commit_exact c k s = B.get-put (commit_key c) k (json c) s
