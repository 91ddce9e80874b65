-- ===== src/Stats/Histogram/Percentile.antt =====
-- `Histogram::percentile` of src/stats/histogram.cpp against the samples themselves.
use native.Mathlib.Nat.{le_refl, le_trans}
use dariyanaap.Prelude.{
  ℕ, suc, ◌*◌, ◌≤◌, ◌<◌, ◌≡◌, refl, List, [], ◌∷◌, Option, none, some, ◌==◌, u64_mod, length, arith,
  false, ◌↔◌, dec_lt,
}
use dariyanaap.Prelude.Counting.{count_if}
use dariyanaap.Core.Double.{Double}
use dariyanaap.Stats.Buckets
use dariyanaap.Stats.Buckets.{index_of, slot_low, slot_high, max_value}
use dariyanaap.Stats.Buckets.Slots.{slot_width}
use dariyanaap.Stats.Histogram.{walk, found_or, percentile, target_rank}
use dariyanaap.Stats.Histogram.Tally.{record_all, tally, record_all-tally, maximum}
use dariyanaap.Stats.Histogram.Ranks.{
  rank, before, before-zero, counts, walk-some, walk-none, before-rank, rank-before, before-max,
  rank-max, rank_mono, rank-maximum,
}

module _ (double : Double) where
  open double use {Carrier}

  -- The sample that is asked for: the target rank among all of them.
  abbrev pub target : Carrier → List ℕ → ℕ
  target p xs = target_rank double p (length xs)

  pub target-pos :
      (p : Carrier) (xs : List ℕ) → 0 < length xs → (0 < target p xs) × (target p xs ≤ length xs)
  unfolding target_rank
  target-pos p xs h = ground arith

  -- What `percentile` returns of the samples `xs`: the end of the first slot that reaches the
  -- target, or the largest sample if no slot does.
  data Reports (p : Carrier) (xs : List ℕ) (v : ℕ) : Type 0 where
    in_slot_k :
        (k : ℕ)
        → k < Buckets.count
        → v ≡ slot_high k
        → count_if (before k) xs < target p xs
        → target p xs ≤ count_if (before (suc k)) xs
        → Reports p xs v
    past_the_end :
        v ≡ maximum xs
        → count_if (before Buckets.count) xs < target p xs
        → target p xs ≤ length xs
        → Reports p xs v

  percentile-tally :
      (p : Carrier) (xs : List ℕ)
      → 0 < length xs
      → percentile double (tally xs) p
        ≡ some (
            found_or
              (maximum xs)
              (walk (counts xs 0 Buckets.count) 0 (count_if (before 0) xs) (target p xs)))
  unfolding percentile tally
  percentile-tally p xs h =
      let e : (length xs == 0) ≡ false = ground arith in rw (e, before-zero xs)

  percentile-nil : (p : Carrier) → percentile double (tally []) p ≡ none
  unfolding percentile tally
  percentile-nil p = refl

  reports :
      (p : Carrier) (xs : List ℕ) (v : ℕ)
      → length xs < u64_mod
      → 0 < length xs
      → (o : Option ℕ)
      → walk (counts xs 0 Buckets.count) 0 (count_if (before 0) xs) (target p xs) ≡ o
      → some (found_or (maximum xs) o) ≡ some v
      → Reports p xs v
  reports p xs v l pos none e h =
      past_the_end (cc)
        (walk-none xs 0 Buckets.count Buckets.count (target p xs) l (omega arith)
          (omega (arith, before-zero xs, target-pos p xs pos)) e)
        (target-pos p xs pos).1
  reports p xs v l pos (some w) e h =
      let (k, a, b, c, d) =
        walk-some xs 0 Buckets.count (target p xs) w l
          (omega (arith, before-zero xs, target-pos p xs pos)) e in
      in_slot_k k (omega arith) (cc) c d

  percentile-Reports :
      (p : Carrier) (xs : List ℕ) (v : ℕ)
      → length xs < u64_mod
      → percentile double (record_all xs) p ≡ some v
      → Reports p xs v
  percentile-Reports p [] v l h = absurd (cc (rw (record_all-tally [] l, percentile-nil p) at h))
  percentile-Reports p (x ∷ xs) v l h =
      reports p (x ∷ xs) v l (omega arith) _ refl
        (rw (record_all-tally (x ∷ xs) l, percentile-tally p (x ∷ xs) (omega arith)) at h)

  -- Where fewer than 2 ^ 64 samples were recorded, a reported percentile is never lower than the
  -- sample that was asked for: at least the target rank of the samples is at most the value.
  pub target-le-rank :
      (p : Carrier) (xs : List ℕ) (v : ℕ)
      → length xs < u64_mod
      → percentile double (record_all xs) p ≡ some v
      → target p xs ≤ rank xs v
  target-le-rank p xs v l h = go (percentile-Reports p xs v l h)
    where
      go : Reports p xs v → target p xs ≤ rank xs v
      go (in_slot_k k a e b c) = rw e (le_trans c (before-rank k xs))
      go (past_the_end e b c) = rw (e, rank-maximum (maximum xs) xs (le_refl _)) c

  -- Where fewer than 2 ^ 64 samples were recorded, a reported percentile is at most 1/128 above
  -- the sample that was asked for, if that is at most 60 seconds: any value within 60 seconds
  -- which the target rank of the samples do not exceed is at least 128/129 of what is reported.
  pub percentile-tight :
      (p : Carrier) (xs : List ℕ) (v w : ℕ)
      → length xs < u64_mod
      → percentile double (record_all xs) p ≡ some v
      → target p xs ≤ rank xs w
      → w ≤ max_value
      → v * 128 ≤ w * 129
  percentile-tight p xs v w l h t m = go (percentile-Reports p xs v l h)
    where
      go : Reports p xs v → v * 128 ≤ w * 129
      go (in_slot_k k a e b c) = elim (dec_lt w (slot_low k)) [
        | yes below ↦ absurd (omega (arith, rank-before k w xs a below))
        | no above ↦ rw e (omega (arith, slot_width k a))
      ]
      go (past_the_end e b c) = absurd (omega (arith, rank-max xs, rank_mono w max_value xs m))

  -- Where fewer than 2 ^ 64 samples were recorded, and fewer than the target rank of them are
  -- within 60 seconds, the percentile that is reported is the largest sample.
  pub percentile_past_end :
      (p : Carrier) (xs : List ℕ) (v : ℕ)
      → length xs < u64_mod
      → percentile double (record_all xs) p ≡ some v
      → rank xs max_value < target p xs
      → v ≡ maximum xs
  percentile_past_end p xs v l h b = go (percentile-Reports p xs v l h)
    where
      go : Reports p xs v → v ≡ maximum xs
      go (in_slot_k k a e c d) = absurd (omega (arith, before-max (suc k) xs))
      go (past_the_end e c d) = e

  -- Where fewer than 2 ^ 64 samples were recorded, there is a percentile exactly if there is a
  -- sample.
  pub percentile-none :
      (p : Carrier) (xs : List ℕ)
      → length xs < u64_mod
      → (percentile double (record_all xs) p ≡ none) ↔ (xs ≡ [])
  percentile-none p [] l = rw (record_all-tally [] l) (λ _. refl, λ _. percentile-nil p)
  percentile-none p (x ∷ xs) l =
      rw (record_all-tally (x ∷ xs) l, percentile-tally p (x ∷ xs) (omega arith)) (λ h. cc, λ h. cc)
