-- ===== src/Stats/Histogram/Tally.antt =====
-- What the histogram of src/stats/histogram.hpp stands for: how many samples fell into each slot,
-- how many were too large for one, how many there were, and the largest.
use mathlib.Core.List.{foldr}
use dariyanaap.Prelude.{
  ℕ, zero, suc, ◌+◌, ◌<◌, ◌≡◌, refl, sym, ap, ◌∙◌, List, [], ◌∷◌, max, ltb, leb, ltb→le, ap₂, ◌≢◌,
  ◌==◌, if◌then◌else◌, u64, u64_mod, length, Bool, true, false, ◌&&◌, arith, Bool-cases, inl, inr,
}
use dariyanaap.Prelude.Counting.{
  count_if, tabulate, tabulate_const, tabulate_ext, count_if-le-length,
}
use dariyanaap.Stats.Buckets
use dariyanaap.Stats.Buckets.{index_of, max_value}
use dariyanaap.Stats.Buckets.Slots.{index_of-lt-count}
use dariyanaap.Stats.Histogram.{Histogram, empty, bump, record_latency}

-- A history of samples, the newest first.
abbrev pub record_all : List ℕ → Histogram
record_all = foldr (λ x h. record_latency h x) empty

abbrev pub in_slot : ℕ → ℕ → Bool
in_slot i x = leb x max_value && (index_of x == i)

abbrev pub in_overflow : ℕ → Bool
in_overflow x = ltb max_value x

abbrev pub maximum : List ℕ → ℕ
maximum = foldr max 0

-- The histogram of a list of samples, counted directly.
unfoldable pub tally : List ℕ → Histogram
tally xs = record {
  slots = tabulate (λ i. count_if (in_slot i) xs) 0 Buckets.count;
  count = length xs;
  overflow = count_if in_overflow xs;
  max = maximum xs;
}

pub Histogram-eq :
    (g h : Histogram)
    → g.slots ≡ h.slots
    → g.count ≡ h.count
    → g.overflow ≡ h.overflow
    → g.max ≡ h.max
    → g ≡ h
Histogram-eq g h s c o m = λ i. record { slots = s i; count = c i; overflow = o i; max = m i }

-- One more sample in one slot of the counts from slot i on.
bump-tabulate :
    (f g : ℕ → ℕ) (i n j k : ℕ)
    → j < n
    → i + j ≡ k
    → g k ≡ u64 (f k + 1)
    → ((m : ℕ) → m ≢ k → f m ≡ g m)
    → bump (tabulate f i n) j ≡ tabulate g i n
unfolding bump
bump-tabulate f g i zero j k h e at others = elim h [ ]
bump-tabulate f g i (suc n) zero k h e at others =
    let e' : i ≡ k = omega arith in
    rw e' (ap₂ ◌∷◌ (sym at) (tabulate_ext f g (suc k) n (λ m l. others m (omega arith))))
bump-tabulate f g i (suc n) (suc j) k h e at others =
    ap₂ ◌∷◌ (others i (omega arith))
      (bump-tabulate f g (suc i) n j k (omega arith) (omega arith) at others)

max-if : (m x : ℕ) → (if ltb m x then x else m) ≡ max x m
max-if m x = ground arith

empty-tally : empty ≡ tally []
unfolding empty tally
empty-tally = rw (tabulate_const 0 Buckets.count 0)

in_slot-big :
    (i x : ℕ) (xs : List ℕ)
    → ltb max_value x ≡ true
    → count_if (in_slot i) xs ≡ count_if (in_slot i) (x ∷ xs)
in_slot-big i x xs big = ground arith

in_slot-other :
    (i x : ℕ) (xs : List ℕ)
    → i ≢ index_of x
    → count_if (in_slot i) xs ≡ count_if (in_slot i) (x ∷ xs)
in_slot-other i x xs ne = ground arith

in_slot-here :
    (x : ℕ) (xs : List ℕ)
    → ltb max_value x ≡ false
    → length xs + 1 < u64_mod
    → count_if (in_slot (index_of x)) (x ∷ xs) ≡ u64 (count_if (in_slot (index_of x)) xs + 1)
in_slot-here x xs small h = ground (arith, count_if-le-length (in_slot (index_of x)) xs)

record_latency-tally :
    (x : ℕ) (xs : List ℕ) → length xs + 1 < u64_mod → record_latency (tally xs) x ≡ tally (x ∷ xs)
unfolding record_latency tally
record_latency-tally x xs h = elim (Bool-cases (ltb max_value x)) [
  | inl big ↦ rw big (
      Histogram-eq _ _ (tabulate_ext _ _ 0 _ (λ i _. in_slot-big i x xs big)) (omega arith)
        (omega (arith, count_if-le-length in_overflow xs)) (max-if _ x))
  | inr small ↦ rw small (
      Histogram-eq _ _
        (bump-tabulate _ _ 0 _ (index_of x) (index_of x) (index_of-lt-count x (ltb→le _ _ small))
          (omega arith) (in_slot-here x xs small h) (λ i ne. in_slot-other i x xs ne))
        (omega arith) refl (max-if _ x))
]

-- Recording fewer than 2 ^ 64 samples one by one gives the histogram that counts them: each slot
-- has the number of the samples whose slot it is, beside the number of all samples and of those
-- above 60 seconds, and the largest.
pub record_all-tally : (xs : List ℕ) → length xs < u64_mod → record_all xs ≡ tally xs
record_all-tally [] h = empty-tally
record_all-tally (x ∷ xs) h =
    ap (λ s. record_latency s x) (record_all-tally xs (omega arith))
    ∙ record_latency-tally x xs (omega arith)
