-- ===== src/Stats/Summary/Ladder.antt =====
-- `Summary::of` of src/stats/summary.cpp: its fields.
use dariyanaap.Prelude.{ℕ, ◌≡◌, none, some, true, false, ◌==◌}
use dariyanaap.Core.Double.{Double}
use dariyanaap.Core.Errors.{ok}
use dariyanaap.Stats.Histogram.{Histogram, percentile, target_rank, found_or, walk}
use dariyanaap.Stats.Summary.{Summary, of}

module _ (double : Double) where
  open double use {Carrier, literal}

  -- The value of a percentile of a histogram that is not empty.
  abbrev pub at : Histogram → Carrier → ℕ
  at h p = found_or h.max (walk h.slots 0 0 (target_rank double p h.count))

  pub percentile-at :
      (h : Histogram) (p : Carrier) → (h.count == 0) ≡ false → percentile double h p ≡ some (at h p)
  unfolding percentile
  percentile-at h p e = simp e

  abbrev pub summary : Histogram → ℕ → Summary
  summary h duration = record {
    samples = h.count;
    overflow = h.overflow;
    duration = duration;
    p50 = at h (literal 500 1);
    p90 = at h (literal 900 1);
    p99 = at h (literal 990 1);
    p999 = at h (literal 999 1);
    max = h.max;
  }

  pub of-empty :
      (h : Histogram) (duration : ℕ) → (h.count == 0) ≡ true → of double h duration ≡ ok none
  unfolding of
  of-empty h duration e = simp e

  pub of-full :
      (h : Histogram) (duration : ℕ)
      → (h.count == 0) ≡ false
      → of double h duration ≡ ok (some (summary h duration))
  unfolding of
  of-full h duration e = simp (
    e,
    percentile-at h (literal 500 1) e,
    percentile-at h (literal 900 1) e,
    percentile-at h (literal 990 1) e,
    percentile-at h (literal 999 1) e,
  )
