-- ===== src/Stats/Summary.antt =====
-- src/stats/summary.hpp and src/stats/summary.cpp: what is reported of one distribution.
-- `of` asserts that the duration is positive.
pub mod Ladder
use dariyanaap.Prelude.{ℕ, Option, none, some, Bool, ◌==◌, if◌then◌else◌}
use dariyanaap.Core.Double.{Double}
use dariyanaap.Core.Errors.{Error, bad_optional_access, Result, ok, err, ◌>>=◌}
use dariyanaap.Stats.Histogram.{Histogram, percentile}

pub record Summary : Type 0 where
  pub samples : ℕ
  pub overflow : ℕ
  pub duration : ℕ
  pub p50 : ℕ
  pub p90 : ℕ
  pub p99 : ℕ
  pub p999 : ℕ
  pub max : ℕ

unfoldable pub percentiles_bounded : Summary → Bool
percentiles_bounded s = s.overflow == 0

-- `std::optional::value`
abbrev pub value : Option ℕ → Result ℕ
value none = err bad_optional_access
value (some v) = ok v

module _ (double : Double) where
  open double use {Carrier, literal, of_u64, div}

  unfoldable pub of : Histogram → ℕ → Result (Option Summary)
  of h duration =
      let summary = do
        p50 ← value (percentile double h (literal 500 1))
        p90 ← value (percentile double h (literal 900 1))
        p99 ← value (percentile double h (literal 990 1))
        p999 ← value (percentile double h (literal 999 1))
        ok (
            some (record {
              samples = h.count;
              overflow = h.overflow;
              duration = duration;
              p50 = p50;
              p90 = p90;
              p99 = p99;
              p999 = p999;
              max = h.max;
            }))
      in if h.count == 0 then ok none else summary

  unfoldable pub per_second : Summary → Carrier
  per_second s = div (of_u64 s.samples) (div (of_u64 s.duration) (literal 1_000_000_000 0))
