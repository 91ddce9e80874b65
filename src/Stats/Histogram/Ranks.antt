-- ===== src/Stats/Histogram/Ranks.antt =====
-- The loop of `Histogram::percentile` of src/stats/histogram.cpp, and the rank of a value among
-- samples.
use native.Mathlib.Nat.{le_trans}
use dariyanaap.Prelude.{
  ℕ, zero, suc, ◌+◌, ◌≤◌, ◌<◌, ◌≡◌, refl, List, [], ◌∷◌, none, some, ltb, leb, leb→le, le→leb,
  leb→lt, if◌then◌else◌, u64, u64_mod, length, arith, Bool, true, Bool-cases, inl, inr, ◌&&◌,
  dec_lt,
}
use dariyanaap.Prelude.Counting.{count_if, tabulate, count_if-le-length, count_if_mono}
use dariyanaap.Stats.Buckets
use dariyanaap.Stats.Buckets.{index_of, slot_low, slot_high, max_value}
use dariyanaap.Stats.Buckets.Slots.{
  slot_bounds, slots_ordered_le, slot_low_mono, slot_low-le-max, index_of-lt-count,
}
use dariyanaap.Stats.Histogram.{walk}
use dariyanaap.Stats.Histogram.Tally.{in_slot, maximum}

-- How many of the samples are at most `value`: the rank that `value` has among them.
abbrev pub rank : List ℕ → ℕ → ℕ
rank xs value = count_if (λ x. leb x value) xs

-- The samples that the slots before slot i hold.
abbrev pub before : ℕ → ℕ → Bool
before i x = leb x max_value && ltb (index_of x) i

pub before-parts : (i x : ℕ) → before i x ≡ true → (x ≤ max_value) × (index_of x < i)
before-parts i x h = ground arith

pub before-suc :
    (i : ℕ) (xs : List ℕ)
    → count_if (before (suc i)) xs ≡ count_if (before i) xs + count_if (in_slot i) xs
before-suc i [] = omega arith
before-suc i (x ∷ xs) = ground (arith, before-suc i xs)

pub before-zero : (xs : List ℕ) → count_if (before 0) xs ≡ 0
before-zero [] = refl
before-zero (x ∷ xs) = ground (arith, before-zero xs)

abbrev pub counts : List ℕ → ℕ → ℕ → List ℕ
counts xs = tabulate (λ k. count_if (in_slot k) xs)

-- One round of the loop: the running count is that of the samples up to the slot's end.
pub walk-step :
    (xs : List ℕ) (i n target : ℕ)
    → length xs < u64_mod
    → walk (counts xs i (suc n)) i (count_if (before i) xs) target ≡ (
        if leb target (count_if (before (suc i)) xs)
        then some (slot_high i)
        else walk (counts xs (suc i) n) (suc i) (count_if (before (suc i)) xs) target)
unfolding walk
walk-step xs i n target l =
    let e : u64 (count_if (before i) xs + count_if (in_slot i) xs) ≡ count_if (before (suc i)) xs =
      omega (arith, before-suc i xs, count_if-le-length (before (suc i)) xs) in
    rw e

-- The loop over the counts of `xs` from slot i on stops in the first slot at which the samples up
-- to its end reach the target.
pub walk-some :
    (xs : List ℕ) (i n target v : ℕ)
    → length xs < u64_mod
    → count_if (before i) xs < target
    → walk (counts xs i n) i (count_if (before i) xs) target ≡ some v
    → (k : ℕ) × (k < i + n)
      × (v ≡ slot_high k)
      × (count_if (before k) xs < target)
      × (target ≤ count_if (before (suc k)) xs)
walk-some xs i zero target v l b h = absurd (unfold walk in cc h)
walk-some xs i (suc n) target v l b h =
    elim (Bool-cases (leb target (count_if (before (suc i)) xs))) [
      | inl reached ↦
          (i, omega arith, ground (arith, walk-step xs i n target l), b, leb→le _ _ reached)
      | inr short ↦
          let (k, a, c, d, e) =
            walk-some xs (suc i) n target v l (leb→lt _ _ short)
              (rw (walk-step xs i n target l, short) at h) in
          (k, omega arith, c, d, e)
    ]

pub walk-none :
    (xs : List ℕ) (i n j target : ℕ)
    → length xs < u64_mod
    → i + n ≡ j
    → count_if (before i) xs < target
    → walk (counts xs i n) i (count_if (before i) xs) target ≡ none
    → count_if (before j) xs < target
walk-none xs i zero j target l e b h = let e' : i ≡ j = omega arith in rw (← e') b
walk-none xs i (suc n) j target l e b h =
    elim (Bool-cases (leb target (count_if (before (suc i)) xs))) [
      | inl reached ↦ absurd (cc (rw (walk-step xs i n target l, reached) at h))
      | inr short ↦
          walk-none xs (suc i) n j target l (omega arith) (leb→lt _ _ short)
            (rw (walk-step xs i n target l, short) at h)
    ]

pub before-rank : (k : ℕ) (xs : List ℕ) → count_if (before (suc k)) xs ≤ rank xs (slot_high k)
before-rank k = count_if_mono _ _ λ x h.
    let (l, i) = before-parts (suc k) x h in
    le→leb _ _ (le_trans (slot_bounds x (omega arith)).1 (slots_ordered_le _ k (omega arith)))

pub rank-before :
    (k w : ℕ) (xs : List ℕ)
    → k < Buckets.count
    → w < slot_low k
    → rank xs w ≤ count_if (before k) xs
rank-before k w xs f h = count_if_mono _ _ (λ x e. inside x (leb→le _ _ e)) xs
  where
    inside : (x : ℕ) → x ≤ w → before k x ≡ true
    inside x e =
        let l : x ≤ max_value = omega (arith, slot_low-le-max k f) in
        elim (dec_lt (index_of x) k) [
          | yes i ↦ ground arith
          | no i ↦ absurd (
              omega
                (arith, slot_low_mono k (index_of x) (omega arith), slot_bounds x (omega arith)))
        ]

pub before-max : (k : ℕ) (xs : List ℕ) → count_if (before k) xs ≤ rank xs max_value
before-max k = count_if_mono _ _ λ x h. le→leb _ _ (before-parts k x h).0

pub rank-max : (xs : List ℕ) → rank xs max_value ≤ count_if (before Buckets.count) xs
rank-max = count_if_mono _ _ λ x e. ground (arith, index_of-lt-count x)

pub rank_mono : (u v : ℕ) (xs : List ℕ) → u ≤ v → rank xs u ≤ rank xs v
rank_mono u v xs h = count_if_mono _ _ (λ x e. ground arith) xs

pub rank-maximum : (m : ℕ) (xs : List ℕ) → maximum xs ≤ m → rank xs m ≡ length xs
rank-maximum m [] h = refl
rank-maximum m (x ∷ xs) h = ground (arith, rank-maximum m xs)
