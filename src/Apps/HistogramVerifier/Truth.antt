-- ===== src/Apps/HistogramVerifier/Truth.antt =====
-- The percentiles that apps/hist_verify.cpp compares: the histogram's against the sorted samples'.
use dariyanaap.Prelude.{
  ℕ, ◌+◌, ◌-◌, ◌*◌, ◌≤◌, ◌<◌, ◌≡◌, refl, sym, ap, ◌∙◌, List, [], ◌∷◌, some, u64_mod, length,
  get_elem?, arith, Bool, dec_lt,
}
use dariyanaap.Prelude.Counting.{count_if}
use dariyanaap.Core.Double.{Double}
use dariyanaap.Stats.Buckets.{max_value}
use dariyanaap.Stats.Histogram.{empty, percentile, target_rank}
use dariyanaap.Stats.Histogram.Tally.{record_all}
use dariyanaap.Stats.Histogram.Ranks.{rank}
use dariyanaap.Stats.Histogram.Percentile.{target, target-pos, target-le-rank, percentile-tight}
use dariyanaap.Apps.HistogramVerifier.{record_each, sort}
use dariyanaap.Apps.HistogramVerifier.Sorting.{
  sort-IsSorted, count_if-sort, rank-get_elem?, rank-below,
}

-- The history of the samples that the loop records, the newest first.
abbrev pub history : List ℕ → List ℕ → List ℕ
history [] ys = ys
history (x ∷ xs) ys = history xs (x ∷ ys)

pub record_each-history :
    (xs ys : List ℕ) → record_each xs (record_all ys) ≡ record_all (history xs ys)
unfolding record_each
record_each-history [] ys = refl
record_each-history (x ∷ xs) ys = record_each-history xs (x ∷ ys)

count_if-history :
    (p : ℕ → Bool) (xs ys : List ℕ) → count_if p (history xs ys) ≡ count_if p xs + count_if p ys
count_if-history p [] ys = omega arith
count_if-history p (x ∷ xs) ys = ground (arith, count_if-history p xs (x ∷ ys))

pub length-history : (xs ys : List ℕ) → length (history xs ys) ≡ length xs + length ys
length-history [] ys = omega arith
length-history (x ∷ xs) ys = omega (arith, length-history xs (x ∷ ys))

rank-history : (v : ℕ) (xs : List ℕ) → rank (history xs []) v ≡ rank xs v
rank-history v xs = omega (arith, count_if-history _ xs [])

module _ (double : Double) where
  open double use {Carrier}

  target-history :
      (p : Carrier) (xs : List ℕ) → target double p (history xs []) ≡ target double p xs
  target-history p xs =
      let e : length (history xs []) ≡ length xs = omega (arith, length-history xs []) in
      ap (target_rank double p) e

  module _ (p : Carrier) (xs : List ℕ) (t v : ℕ) (short : length xs < u64_mod) (pos : 0 < length xs)
      (truth : get_elem? (sort xs) (target double p xs - 1) ≡ some t)
      (got : percentile double (record_each xs empty) p ≡ some v) where
    recorded : percentile double (record_all (history xs [])) p ≡ some v
    recorded = ap (λ h. percentile double h p) (sym (record_each-history xs [])) ∙ got

    history-short : length (history xs []) < u64_mod
    history-short = omega (arith, length-history xs [])

    truth-le : t ≤ v
    truth-le = elim (dec_lt v t) [
      | yes below ↦
          let least =
            rank-below (sort xs) (target double p xs - 1) t v (sort-IsSorted xs) truth below in
          let over = target-le-rank double p (history xs []) v history-short recorded in
          absurd (
            omega (
              arith,
              least,
              over,
              count_if-sort _ xs,
              target-history p xs,
              rank-history v xs,
              target-pos double p xs pos,
            ))
      | no above ↦ omega arith
    ]

    pub truth-small : rank xs max_value ≡ length xs → t ≤ max_value
    truth-small small = elim (dec_lt max_value t) [
      | yes below ↦
          let least =
            rank-below (sort xs) (target double p xs - 1) t max_value (sort-IsSorted xs) truth
              below in
          absurd (omega (arith, least, count_if-sort _ xs, target-pos double p xs pos))
      | no above ↦ omega arith
    ]

    truth-rank : target double p (history xs []) ≤ rank (history xs []) t
    truth-rank =
        let least = rank-get_elem? (sort xs) (target double p xs - 1) t (sort-IsSorted xs) truth in
        omega (
          arith,
          least,
          count_if-sort _ xs,
          target-history p xs,
          rank-history t xs,
          target-pos double p xs pos,
        )

  -- Of fewer than 2 ^ 64 samples within 60 seconds, recorded one by one in any order: what the
  -- histogram reports for a percentile is not below the sample at its rank among the sorted samples,
  -- and not more than 1/128 above it.
  pub percentile-sort :
      (p : Carrier) (xs : List ℕ) (t v : ℕ)
      → length xs < u64_mod
      → 0 < length xs
      → rank xs max_value ≡ length xs
      → get_elem? (sort xs) (target double p xs - 1) ≡ some t
      → percentile double (record_each xs empty) p ≡ some v
      → (t ≤ v) × (v * 128 ≤ t * 129)
  percentile-sort p xs t v short pos small truth got = (
    truth-le p xs t v short pos truth got,
    percentile-tight double p (history xs []) v t (history-short p xs t v short pos truth got)
        (recorded p xs t v short pos truth got) (truth-rank p xs t v short pos truth got)
        (truth-small p xs t v short pos truth got small),
  )
