-- ===== src/Transfer/Throttle/Copy.antt =====
-- internal/transfer/throttle.go: the rate of the limit, and a copy through it.
use baleen_engine.Base.{
  ℕ, zero, suc, ◌*◌, ◌%◌, ◌^◌, ◌≤◌, ◌<◌, false, Option, none, some, [], ◌∷◌, ◌++◌, Text, ◌==◌,
  text_eq, text_beq, length, take, drop, ok, ◌≡◌, refl, arith, ap,
}
use baleen_engine.Base.Int.{ℤ, pos, negsuc}
use baleen_engine.Transfer.Throttle.{
  Limiter, new_throttled_reader, signed_64, limiter_of, room, read, give, copy,
}

-- The burst lets at least one byte through.
abbrev pub Lets : Option Limiter → Type 0
Lets none = Unit
Lets (some l) = 0 < l.burst

new_throttled_reader-Lets : (rate : ℤ) → Lets (new_throttled_reader rate)
unfolding new_throttled_reader
new_throttled_reader-Lets (negsuc n) = tt
new_throttled_reader-Lets (pos zero) = tt
new_throttled_reader-Lets (pos (suc n)) = ground arith

limiter_of-Lets : (bandwidth : ℤ) → Lets (limiter_of bandwidth)
unfolding limiter_of
limiter_of-Lets (negsuc n) = tt
limiter_of-Lets (pos zero) = tt
limiter_of-Lets (pos (suc n)) = new_throttled_reader-Lets (signed_64 (suc n * 1024 * 1024 % 2 ^ 64))

new_throttled_reader-rate :
    (m : ℕ) → 0 < m → (l : Limiter) × (new_throttled_reader (pos m) ≡ some l) × (l.rate ≡ m)
unfolding new_throttled_reader
new_throttled_reader-rate zero h = ground arith
new_throttled_reader-rate (suc n) h = (_, refl, refl)

-- A setting of up to 2 ^ 43 - 1 MB per second gives that rate.
pub limiter_rate :
    (n : ℕ)
    → suc n < 2 ^ 43
    → (l : Limiter) × (limiter_of (pos (suc n)) ≡ some l) × (l.rate ≡ suc n * 1024 * 1024)
unfolding limiter_of signed_64
limiter_rate n small =
    let (l, made, rate) = new_throttled_reader-rate (suc n * 1024 * 1024) (omega arith) in
    (l, ground (arith, made), rate)

take-drop : (n : ℕ) (s : Text) → take n s ++ drop n s ≡ s
take-drop zero s = refl
take-drop (suc n) [] = refl
take-drop (suc n) (b ∷ s) = ap (λ (t : Text). b ∷ t) (take-drop n s)

length-take-le : (n : ℕ) (s : Text) → length (take n s) ≤ n
length-take-le zero s = omega arith
length-take-le (suc n) [] = omega arith
length-take-le (suc n) (b ∷ s) = omega (arith, length-take-le n s)

drop-length-take : (n : ℕ) (s : Text) → drop (length (take n s)) s ≡ drop n s
drop-length-take zero s = refl
drop-length-take (suc n) [] = refl
drop-length-take (suc n) (b ∷ s) = drop-length-take n s

length-drop : (n : ℕ) (b : ℕ) (s : Text) → 0 < n → length (drop n (b ∷ s)) ≤ length s
length-drop zero b s h = ground arith
length-drop (suc zero) b s h = omega arith
length-drop (suc (suc n)) b [] h = omega arith
length-drop (suc (suc n)) b (c ∷ s) h = omega (arith, length-drop (suc n) c s (omega arith))

take-full : (k b : ℕ) (s : Text) → 0 < k → (take k (b ∷ s) == []) ≡ false
unfolding text_beq
take-full zero b s h = ground arith
take-full (suc k) b s h = refl

-- One read of a stream that is not at its end: a chunk of it, without an error.
read_chunk :
    (pick : ℕ → ℕ) (wait_n : ℕ → ℕ → Option Text) (l : Option Limiter) (size b : ℕ) (s : Text)
    → 0 < size
    → Lets l
    → ((r : ℕ) → 0 < r → (0 < pick r) × (pick r ≤ r))
    → ((burst n : ℕ) → n ≤ burst → wait_n burst n ≡ none)
    → (k : ℕ) × (0 < k)
      × (k ≤ room l size)
      × (read (give pick (b ∷ s)) wait_n l size ≡ (take k (b ∷ s), none))
unfolding read give room
read_chunk pick wait_n none size b s big lets picks waits =
    (pick size, ground (arith, picks size), ground (arith, picks size), refl)
read_chunk pick wait_n (some l) size b s big lets picks waits =
    let r = room (some l) size in
    let some_ : 0 < r = ground (arith, big, lets) in
    let small : length (take (pick r) (b ∷ s)) ≤ l.burst =
      ground (arith, picks r some_, length-take-le (pick r) (b ∷ s)) in
    (
      pick r,
      ground (arith, picks r some_),
      ground (arith, picks r some_),
      ground (
        arith,
        picks r some_,
        take-full (pick r) b s,
        small,
        waits l.burst (length (take (pick r) (b ∷ s))) small,
      ),
    )

copy_complete :
    (l : Option Limiter) (pick : ℕ → ℕ) (wait_n : ℕ → ℕ → Option Text) (size fuel : ℕ)
    (stream : Text)
    → Lets l
    → 0 < size
    → ((r : ℕ) → 0 < r → (0 < pick r) × (pick r ≤ r))
    → ((burst n : ℕ) → n ≤ burst → wait_n burst n ≡ none)
    → length stream < fuel
    → copy fuel pick wait_n l size stream ≡ some (ok stream)
unfolding copy
copy_complete l pick wait_n size zero stream lets big picks waits enough = ground arith
copy_complete l pick wait_n size (suc fuel) [] lets big picks waits enough = refl
copy_complete l pick wait_n size (suc fuel) (b ∷ s) lets big picks waits enough =
    let (k, above, below, chunk) = read_chunk pick wait_n l size b s big lets picks waits in
    let shorter : length (drop k (b ∷ s)) < fuel = omega (arith, length-drop k b s above) in
    ground (
      arith,
      chunk,
      drop-length-take k (b ∷ s),
      take-drop k (b ∷ s),
      copy_complete l pick wait_n size fuel (drop k (b ∷ s)) lets big picks waits shorter,
    )

-- io.Copy of a stream through the limiter that any bandwidth setting makes ends within one round per
-- byte, without an error, and its output is the stream. It asks for a buffer of at least one byte, a
-- stream that gives at least one byte and at most as many as asked for, and a WaitN that fails only
-- for more than the burst.
pub throttled_copy_complete :
    (bandwidth : ℤ) (pick : ℕ → ℕ) (wait_n : ℕ → ℕ → Option Text) (size fuel : ℕ) (stream : Text)
    → 0 < size
    → ((r : ℕ) → 0 < r → (0 < pick r) × (pick r ≤ r))
    → ((burst n : ℕ) → n ≤ burst → wait_n burst n ≡ none)
    → length stream < fuel
    → copy fuel pick wait_n (limiter_of bandwidth) size stream ≡ some (ok stream)
throttled_copy_complete bandwidth pick wait_n size fuel stream =
    copy_complete (limiter_of bandwidth) pick wait_n size fuel stream (limiter_of-Lets bandwidth)
