-- ===== src/Core/Clock.antt =====
-- src/core/clock.hpp and src/core/clock.cpp: the monotonic clock and how its resolution is
-- measured. The clock is an argument: what each of its readings is, in nanoseconds and in their
-- order. A steady clock does not go back, so a difference of two readings is a native number.
pub mod Resolution
use dariyanaap.Prelude.{ℕ, zero, suc, ◌+◌, ◌-◌, ◌^◌, min, ◌==◌, if◌then◌else◌}
use dariyanaap.Prelude.Text.{Bytes, codes}
use dariyanaap.Core.Errors.{Error, error, Result, ok, err, ◌>>=◌}

abbrev pub between : ℕ → ℕ → ℕ
between start end = end - start

abbrev pub nanos_max : ℕ
nanos_max = 2 ^ 63 - 1

-- How often the loop reads before it gives up: for each number of spins up to 100'000'000.
abbrev pub spins : ℕ
spins = 100_000_001

abbrev pub did_not_advance : Error
did_not_advance = error (codes "steady_clock did not advance over 1e8 reads")

module _ (clock : ℕ → ℕ) where
  -- The inner loop: readings from number i on until one differs from `a`, with the number of the
  -- next reading. `left` is how many it may still take.
  unfoldable pub spin : ℕ → ℕ → ℕ → Result (ℕ × ℕ)
  spin a i zero = err did_not_advance
  spin a i (suc left) =
      let b = clock i in let again = spin a (i + 1) left in if b == a then again else ok (b, i + 1)

  -- The outer loop, with the attempts that are left.
  unfoldable pub attempts : ℕ → ℕ → ℕ → ℕ → Result ℕ
  attempts limit best i zero = ok best
  attempts limit best i (suc left) = do
    (b, j) ← spin (clock i) (i + 1) limit
    attempts limit (min best (between (clock i) b)) j left

  -- The first reading is discarded.
  unfoldable pub measured_resolution : Result ℕ
  measured_resolution = attempts spins nanos_max 1 5
