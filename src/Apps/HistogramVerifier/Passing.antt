-- ===== src/Apps/HistogramVerifier/Passing.antt =====
-- The verdict of apps/hist_verify.cpp, from the generator of the samples to its exit code.
use dariyanaap.Prelude.{
  ℕ, suc, ◌-◌, ◌*◌, ◌^◌, ◌≤◌, ◌<◌, ◌≡◌, refl, sym, ap, ◌∙◌, List, [], ◌∷◌, ◌++◌, Option, some,
  length, get_elem?, ltb, le→ltb, ◌==◌, if_both, if_false, arith, true, false, subst, dec_lt,
}
use dariyanaap.Prelude.Text.{Bytes}
use dariyanaap.Core.Double.{Double}
use dariyanaap.Core.Clock.{between}
use dariyanaap.Core.Errors.{Result, ok}
use dariyanaap.Stats.Buckets.{max_value}
use dariyanaap.Stats.Histogram.{Histogram, empty, percentile}
use dariyanaap.Stats.Histogram.Ranks.{rank}
use dariyanaap.Stats.Histogram.Percentile.{target, target-pos}
use dariyanaap.Stats.Summary.Ladder.{at, percentile-at}
use dariyanaap.Apps.Machine.{Machine, App, carry_on, carry_on-ok, print}
use dariyanaap.Apps.HistogramVerifier.{
  Generator, draw, record_each, sort, samples_asked, Checked, worst_of, returns, percentiles,
  max_double, rank_of, relative_error, row, compare_with, judged, check, bound, conclude, preamble,
  main,
}
use dariyanaap.Apps.HistogramVerifier.Sorting.{
  sort-IsSorted, count_if-sort, length-sort, get_elem?-lt, rank-get_elem?,
}
use dariyanaap.Apps.HistogramVerifier.Truth.{percentile-sort, truth-small}
use dariyanaap.Apps.HistogramVerifier.Drawing.{
  length-draw, draw-positive, draw-small, record_each-count,
}
use dariyanaap.Apps.HistogramVerifier.Ranking.{IsInRange, HaveRanks, Ranked, ranked}

module _ (double : Double) where
  open double use {Carrier, literal, of_u64, mul, div, lt, le, neg, is_finite, abs, ceil, to_u64}

  max_double-le :
      (a b : Carrier)
      → le a (bound double) ≡ true
      → le b (bound double) ≡ true
      → le (max_double double a b) (bound double) ≡ true
  max_double-le a b ha hb =
      if_both (λ x. le x (bound double) ≡ true) (lt a b) b a (λ _. hb) (λ _. ha)

  -- One turn of the loop, where the true value is there and not above what is reported.
  judged-some :
      (o : Option ℕ) (h : Histogram) (p worst : Carrier) (next : Carrier → App (Checked Carrier))
      (m : Machine) (t v : ℕ)
      → o ≡ some t
      → percentile double h p ≡ some v
      → t ≤ v
      → judged double o h p worst next m
        ≡ next
            (max_double double worst (abs (relative_error double v t)))
            (record m { out = m.out ++ row double p t v })
  unfolding compare_with
  judged-some o h p worst next m t v there reported above =
      let e : ltb v t ≡ false = le→ltb v t above in rw (there, reported, e) refl

  relative_error-above :
      (t v : ℕ) → t ≤ v → relative_error double v t ≡ div (of_u64 (v - t)) (of_u64 t)
  unfolding relative_error
  relative_error-above t v above =
      ap (λ d. div d (of_u64 t))
        (if_false (ltb v t) (neg (of_u64 (t - v))) (of_u64 (v - t)) (le→ltb v t above))

  -- The loop over the percentiles of samples that are from 1 to 60 seconds, each at its own rank.
  module _
      (quotients : (a b : ℕ)
        → 0 < b
        → b ≤ 2 ^ 53
        → a * 128 ≤ b
        → le (abs (div (of_u64 a) (of_u64 b))) (bound double) ≡ true)
      (xs : List ℕ) (some_samples : 0 < length xs) (short : length xs ≤ 2 ^ 53)
      (positive : rank xs 0 ≡ 0) (small : rank xs max_value ≡ length xs) where
    abbrev Passes : Result (Checked Carrier) → Type 0
    Passes r = (w : Carrier) × (r ≡ ok (worst_of w)) × (le w (bound double) ≡ true)

    not_empty : ((record_each xs empty).count == 0) ≡ false
    not_empty = ground (arith, record_each-count xs (omega arith))

    truth-pos : (i t : ℕ) → get_elem? (sort xs) i ≡ some t → 0 < t
    truth-pos i t there = elim (dec_lt 0 t) [
      | yes pos ↦ pos
      | no none_above ↦
          let least = rank-get_elem? (sort xs) i t (sort-IsSorted xs) there in
          let zero_t : t ≡ 0 = omega arith in
          absurd (
            omega (
              arith,
              subst (λ k. suc i ≤ rank (sort xs) k) zero_t least,
              count_if-sort _ xs,
              positive,
            ))
    ]

    -- The true value of a percentile, with what the loop goes on from.
    turn :
        (p : Carrier) (i : ℕ)
        → target double p xs ≡ suc i
        → (t : ℕ) × (get_elem? (sort xs) i ≡ some t)
          × (t ≤ at double (record_each xs empty) p)
          × (le (abs (relative_error double (at double (record_each xs empty) p) t)) (bound double)
              ≡ true)
    turn p i e =
        let v = at double (record_each xs empty) p in
        let range = target-pos double p xs some_samples in
        let (t, there) = get_elem?-lt (sort xs) i (omega (arith, length-sort xs, range)) in
        let truth =
          subst (λ k. get_elem? (sort xs) k ≡ some t)
            (let same : i ≡ target double p xs - 1 = omega (arith, e) in same) there in
        let reported = percentile-at double (record_each xs empty) p not_empty in
        let (above, tight) =
          percentile-sort double p xs t v (omega arith) some_samples small truth reported in
        let pos = truth-pos i t there in
        let limit = truth-small double p xs t v (omega arith) some_samples truth reported small in
        (
          t,
          there,
          above,
          subst (λ d. le (abs d) (bound double) ≡ true) (sym (relative_error-above t v above))
              (quotients (v - t) t pos (omega arith) (omega (arith, tight, above))),
        )

    check-Passes :
        (ps : List Carrier) (worst : Carrier) (m : Machine)
        → Ranked double (length xs) ps
        → le worst (bound double) ≡ true
        → Passes (check double (sort xs) (record_each xs empty) (length xs) ps worst m).0
    unfolding check
    check-Passes [] worst m agreed within = (worst, refl, within)
    check-Passes (p ∷ ps) worst m (same, agreed) within =
        let h = record_each xs empty in
        let v = at double h p in
        let i = rank_of double p (length xs) - 1 in
        let (t, there, above, near) =
          turn p i (omega (arith, same, target-pos double p xs some_samples)) in
        let e =
          judged-some (get_elem? (sort xs) i) h p worst (check double (sort xs) h (length xs) ps) m
            t v there (percentile-at double h p not_empty) above in
        subst Passes (ap (λ r. r.0) (sym e)) (
          check-Passes ps (max_double double worst (abs (relative_error double v t))) _ agreed
            (max_double-le worst (abs (relative_error double v t)) within near))

  module _ (one : (IsInRange double (literal 10 1)) × (to_u64 (literal 10 1) ≡ 1))
      (exact : (n : ℕ) → n ≤ 2 ^ 53 → IsInRange double (of_u64 n) × (to_u64 (of_u64 n) ≡ n))
      (up : (a b : Carrier)
        → IsInRange double a
        → IsInRange double b
        → lt a b ≡ true
        → to_u64 a ≤ to_u64 b)
      (down : (a b : Carrier)
        → IsInRange double a
        → IsInRange double b
        → lt a b ≡ false
        → to_u64 b ≤ to_u64 a) where
    conclude-passes :
        (r : Result (Checked Carrier) × Machine) (w : Carrier)
        → r.0 ≡ ok (worst_of w)
        → le w (bound double) ≡ true
        → (carry_on r (conclude double)).0 ≡ ok (returns 0)
    unfolding conclude
    conclude-passes r w e within = rw (carry_on-ok (worst_of w) r (conclude double) e, within) refl

    -- For 1 to 2 ^ 53 samples of any generator whose latencies are within 60 seconds, where `double`
    -- holds 1.0 and whole numbers up to 2 ^ 53 exactly, converts to 64 bits in order, divides whole numbers
    -- without going above 1/128 where they do not, and the five ranks fit into 64 bits: the verifier finds
    -- no percentile below its true value and no error above 1/128, and ends with the exit code 0.
    pub main-passes :
        (quotients : (a b : ℕ)
          → 0 < b
          → b ≤ 2 ^ 53
          → a * 128 ≤ b
          → le (abs (div (of_u64 a) (of_u64 b))) (bound double) ≡ true)
        (start : le (literal 0 1) (bound double) ≡ true) (generator : Generator) (started ended : ℕ)
        (arguments : List Bytes) (m : Machine)
        → ((state : generator.State) → (generator.body state).0 ≤ max_value)
        → 0 < samples_asked arguments
        → samples_asked arguments ≤ 2 ^ 53
        → HaveRanks double (samples_asked arguments) (percentiles double)
        → (main double generator started ended arguments m).0 ≡ ok (returns 0)
    unfolding main
    main-passes quotients start generator started ended arguments m small pos fits has =
        let n = samples_asked arguments in
        let xs = draw generator n (generator.seeded 20_260_902) in
        let all = length-draw generator n (generator.seeded 20_260_902) in
        let printed = print (preamble double n (between started ended) (record_each xs empty)) m in
        let (w, e, within) =
          check-Passes quotients xs (omega (arith, all)) (omega (arith, all))
            (draw-positive generator n _) (draw-small generator small n _ ∙ sym all)
            (percentiles double) (literal 0 1) printed.1
            (ranked double one exact up down (length xs) (percentiles double) (omega (arith, all))
              (omega (arith, all))
              (subst (λ k. HaveRanks double k (percentiles double)) (sym all) has))
            start in
        let run : ℕ → Result (Checked Carrier) × Machine = λ k.
          check double (sort xs) (record_each xs empty) k (percentiles double) (literal 0 1)
            printed.1 in
        conclude-passes (run n) w (subst (λ k. (run k).0 ≡ ok (worst_of w)) all e) within
