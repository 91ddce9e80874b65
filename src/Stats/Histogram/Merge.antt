-- ===== src/Stats/Histogram/Merge.antt =====
-- `Histogram::merge` of src/stats/histogram.cpp, and the order in which samples are recorded.
use mathlib.Core.List.{Perm}
use dariyanaap.Prelude.{
  ℕ, zero, suc, ◌+◌, ◌<◌, ◌≡◌, refl, sym, ap, ap₂, ◌∙◌, List, [], ◌∷◌, ◌++◌, max, u64, u64_mod,
  length, length-append, arith,
}
use dariyanaap.Prelude.Counting.{tabulate, count_if-append, count_if-le-length, foldr-perm}
use dariyanaap.Stats.Buckets
use dariyanaap.Stats.Buckets.{index_of}
use dariyanaap.Stats.Histogram.{Histogram, empty, bump, record_latency, merge, merge_slots}
use dariyanaap.Stats.Histogram.Tally.{
  record_all, tally, record_all-tally, Histogram-eq, in_slot, in_overflow, maximum,
}

merge_slots-tabulate :
    (f g h : ℕ → ℕ) (i n : ℕ)
    → ((k : ℕ) → u64 (f k + g k) ≡ h k)
    → merge_slots (tabulate f i n) (tabulate g i n) ≡ tabulate h i n
unfolding merge_slots
merge_slots-tabulate f g h i zero e = refl
merge_slots-tabulate f g h i (suc n) e = ap₂ ◌∷◌ (e i) (merge_slots-tabulate f g h (suc i) n e)

maximum-append : (xs ys : List ℕ) → max (maximum xs) (maximum ys) ≡ maximum (xs ++ ys)
maximum-append [] ys = omega arith
maximum-append (x ∷ xs) ys = omega (arith, maximum-append xs ys)

merge-tally :
    (xs ys : List ℕ) → length (xs ++ ys) < u64_mod → merge (tally xs) (tally ys) ≡ tally (xs ++ ys)
unfolding merge tally
merge-tally xs ys h =
    Histogram-eq _ _
      (merge_slots-tabulate _ _ _ 0 Buckets.count λ k.
        omega (arith, count_if-append (in_slot k) xs ys, count_if-le-length (in_slot k) (xs ++ ys)))
      (omega (arith, length-append xs ys))
      (omega (arith, count_if-append in_overflow xs ys, count_if-le-length in_overflow (xs ++ ys)))
      (maximum-append xs ys)

-- Merging the histograms of two threads gives the histogram of all their samples together, as
-- long as there are fewer than 2 ^ 64 of them.
pub merge-record_all :
    (xs ys : List ℕ)
    → length xs + length ys < u64_mod
    → merge (record_all xs) (record_all ys) ≡ record_all (xs ++ ys)
merge-record_all xs ys h =
    let l : length (xs ++ ys) < u64_mod = omega (arith, length-append xs ys) in
    ap₂ merge (record_all-tally xs (omega arith)) (record_all-tally ys (omega arith))
    ∙ merge-tally xs ys l
    ∙ sym (record_all-tally (xs ++ ys) l)

bump_comm : (ns : List ℕ) (i j : ℕ) → bump (bump ns i) j ≡ bump (bump ns j) i
unfolding bump
bump_comm [] i j = refl
bump_comm (n ∷ ns) zero zero = refl
bump_comm (n ∷ ns) zero (suc j) = refl
bump_comm (n ∷ ns) (suc i) zero = refl
bump_comm (n ∷ ns) (suc i) (suc j) = ap (◌∷◌ n) (bump_comm ns i j)

record_latency_comm :
    (x y : ℕ) (h : Histogram)
    → record_latency (record_latency h y) x ≡ record_latency (record_latency h x) y
unfolding record_latency
record_latency_comm x y h = ground (arith, bump_comm h.slots (index_of y) (index_of x))

pub Histogram-set : IsSet Histogram
Histogram-set = hlevel

-- Samples recorded in any other order give the same histogram.
pub record_all-perm : (xs ys : List ℕ) → Perm xs ys → record_all xs ≡ record_all ys
record_all-perm = foldr-perm _ record_latency_comm Histogram-set empty
