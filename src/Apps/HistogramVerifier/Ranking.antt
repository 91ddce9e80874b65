-- ===== src/Apps/HistogramVerifier/Ranking.antt =====
-- The rank of a percentile in apps/hist_verify.cpp, computed in `double`, and the histogram's.
use dariyanaap.Prelude.{
  ℕ, ◌^◌, ◌≤◌, ◌<◌, ◌≡◌, List, [], ◌∷◌, if◌then◌else◌, if_both, arith, true, false,
}
use dariyanaap.Core.Double.{Double}
use dariyanaap.Stats.Histogram.{target_rank}
use dariyanaap.Apps.HistogramVerifier.{rank_of}
use dariyanaap.Apps.HistogramVerifier.Sorting.{}
use dariyanaap.Apps.HistogramVerifier.Truth.{}

module _ (double : Double) where
  open double use {Carrier, literal, of_u64, mul, div, lt, le, neg, is_finite, abs, ceil, to_u64}

  -- A number that the conversion to 64 bits takes.
  abbrev pub IsInRange : Carrier → Type 0
  IsInRange x =
      (is_finite x ≡ true) × (le (literal 0 0) x ≡ true) × (lt x (literal (2 ^ 64) 0) ≡ true)

  abbrev pub HasRank : ℕ → Carrier → Type 0
  HasRank n p = IsInRange (ceil (mul (div p (literal 100 0)) (of_u64 n)))

  abbrev pub HaveRanks : ℕ → List Carrier → Type 0
  HaveRanks n [] = Unit {0}
  HaveRanks n (p ∷ ps) = HasRank n p × HaveRanks n ps

  -- The two computations of a rank agree.
  abbrev pub Ranked : ℕ → List Carrier → Type 0
  Ranked n [] = Unit {0}
  Ranked n (p ∷ ps) = (rank_of double p n ≡ target_rank double p n) × Ranked n ps

  module _ (one : (IsInRange (literal 10 1)) × (to_u64 (literal 10 1) ≡ 1))
      (exact : (n : ℕ) → n ≤ 2 ^ 53 → IsInRange (of_u64 n) × (to_u64 (of_u64 n) ≡ n))
      (up : (a b : Carrier) → IsInRange a → IsInRange b → lt a b ≡ true → to_u64 a ≤ to_u64 b)
      (down : (a b : Carrier)
        → IsInRange a
        → IsInRange b
        → lt a b ≡ false
        → to_u64 b ≤ to_u64 a) where
    -- The rank that the verifier computes in `double` is the one that the histogram clamps as an
    -- integer.
    pub rank_of-target_rank :
        (p : Carrier) (n : ℕ)
        → 0 < n
        → n ≤ 2 ^ 53
        → HasRank n p
        → rank_of double p n ≡ target_rank double p n
    unfolding rank_of target_rank
    rank_of-target_rank p n pos fits has =
        let c = ceil (mul (div p (literal 100 0)) (of_u64 n)) in
        let rank_in = exact n fits in
        if_both (λ x. to_u64 x ≡ target_rank double p n) (lt c (literal 10 1)) (literal 10 1)
          (if lt (of_u64 n) c then of_u64 n else c)
          (λ low. ground (arith, up c (literal 10 1) has one.0 low, one.1))
          λ high.
            if_both (λ x. to_u64 x ≡ target_rank double p n) (lt (of_u64 n) c) (of_u64 n) c
              (λ above. ground (arith, up (of_u64 n) c rank_in.0 has above, rank_in.1))
              λ inside. ground (
                arith,
                down c (literal 10 1) has one.0 high,
                one.1,
                down (of_u64 n) c rank_in.0 has inside,
                rank_in.1,
              )

    pub ranked : (n : ℕ) (ps : List Carrier) → 0 < n → n ≤ 2 ^ 53 → HaveRanks n ps → Ranked n ps
    ranked n [] pos fits has = tt
    ranked n (p ∷ ps) pos fits (h, hs) =
        (rank_of-target_rank p n pos fits h, ranked n ps pos fits hs)
