-- ===== src/Transfer/Throttle.antt =====
-- internal/transfer/throttle.go, and the bandwidth setting that sender.go and receiver.go hand to it.
-- The inner reader and the limiter of golang.org/x/time/rate are arguments.
pub mod Copy
use baleen_engine.Base.{
  ℕ, zero, suc, ◌+◌, ◌-◌, ◌*◌, ◌%◌, ◌^◌, Bool, true, false, ◌&&◌, Option, none, some, List, [], ◌∷◌,
  ◌++◌, Text, ◌==◌, if◌then◌else◌, text_eq, ltb, leb, length, take, drop, Result, ok, err,
}
use baleen_engine.Base.Int.{ℤ, pos, negsuc}

-- The limiter, by its rate and its burst.
pub record Limiter : Type 0 where
  pub rate : ℕ
  pub burst : ℕ

-- NewThrottledReader; a reader without a limiter is `none`
unfoldable pub new_throttled_reader : ℤ → Option Limiter
new_throttled_reader (negsuc n) = none
new_throttled_reader (pos zero) = none
new_throttled_reader (pos (suc n)) =
    some (record { rate = suc n; burst = if ltb (suc n) 32768 then suc n else 32768 })

-- A number of 64 bits as a signed one.
unfoldable pub signed_64 : ℕ → ℤ
signed_64 n = if ltb n (2 ^ 63) then pos n else negsuc (2 ^ 64 - n - 1)

-- settings.MaxBandwidth > 0, and then NewThrottledReader of MaxBandwidth * 1024 * 1024
unfoldable pub limiter_of : ℤ → Option Limiter
unfolding new_throttled_reader signed_64
limiter_of (negsuc n) = none
limiter_of (pos zero) = none
limiter_of (pos (suc n)) = new_throttled_reader (signed_64 (suc n * 1024 * 1024 % 2 ^ 64))

-- p = p[:burst]
unfoldable pub room : Option Limiter → ℕ → ℕ
room none size = size
room (some l) size = if ltb l.burst size then l.burst else size

-- Read into a buffer of `size` bytes: the bytes and the error. `inner` reads that many bytes at most,
-- and `wait_n` is WaitN by the burst.
unfoldable pub read :
    (ℕ → Text × Option Text) → (ℕ → ℕ → Option Text) → Option Limiter → ℕ → Text × Option Text
unfolding room
read inner wait_n none size = inner size
read inner wait_n (some l) size =
    let (p, e) = inner (room (some l) size) in
    if p == []
    then (p, e)
    else elim (wait_n l.burst (length p)) [ some reason ↦ (p, some reason) | none ↦ (p, e) ]

-- A stream of bytes that gives between one byte and as many as asked for, then io.EOF.
unfoldable pub give : (ℕ → ℕ) → Text → ℕ → Text × Option Text
give pick [] size = ([], none)
give pick (b ∷ rest) size = (take (pick size) (b ∷ rest), none)

-- io.Copy with a buffer of `size` bytes, to its first error; `none` is out of fuel. An empty read of
-- an empty stream is io.EOF.
unfoldable pub copy :
    ℕ → (ℕ → ℕ) → (ℕ → ℕ → Option Text) → Option Limiter → ℕ → Text → Option (Result Text)
unfolding read give
copy zero pick wait_n l size stream = none
copy (suc fuel) pick wait_n l size [] = some (ok [])
copy (suc fuel) pick wait_n l size (b ∷ rest) =
    let (p, e) = read (give pick (b ∷ rest)) wait_n l size in
    elim e [
      | some reason ↦ some (err reason)
      | none ↦ elim (copy fuel pick wait_n l size (drop (length p) (b ∷ rest))) [
        | none ↦ none
        | some (err reason) ↦ some (err reason)
        | some (ok out) ↦ some (ok (p ++ out))
      ]
    ]
