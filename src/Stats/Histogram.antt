-- ===== src/Stats/Histogram.antt =====
-- src/stats/histogram.hpp and src/stats/histogram.cpp: the counters and what is done with them.
-- A latency is a count of nanoseconds; `record` asserts that it is not negative, so it is a
-- native number here. The counters are `uint64_t` and wrap.
pub mod Tally
pub mod Merge
pub mod Refinement
pub mod Ranks
pub mod Percentile
use dariyanaap.Prelude.{
  ℕ, zero, suc, ◌+◌, ◌<◌, ◌≡◌, List, [], ◌∷◌, Option, none, some, max, ltb, leb, ◌==◌,
  if◌then◌else◌, u64, replicate, get_or,
}
use dariyanaap.Core.Double.{Double}
use dariyanaap.Stats.Buckets
use dariyanaap.Stats.Buckets.{index_of, slot_high, max_value}

pub record Histogram : Type 0 where
  pub slots : List ℕ
  pub count : ℕ
  pub overflow : ℕ
  pub max : ℕ

unfoldable pub empty : Histogram
unfolding Buckets.count
empty = record { slots = replicate Buckets.count 0; count = 0; overflow = 0; max = 0 }

-- `++slots_[i]`; the array has no element past its end.
unfoldable pub bump : List ℕ → ℕ → List ℕ
bump [] i = []
bump (n ∷ ns) zero = u64 (n + 1) ∷ ns
bump (n ∷ ns) (suc i) = n ∷ bump ns i

unfoldable pub record_latency : Histogram → ℕ → Histogram
record_latency h ns =
    let seen = record h { count = u64 (h.count + 1); max = if ltb h.max ns then ns else h.max } in
    if ltb max_value ns
    then record seen { overflow = u64 (h.overflow + 1) }
    else record seen { slots = bump h.slots (index_of ns) }

pub slot : Histogram → ℕ → ℕ
slot h index = get_or h.slots index 0

unfoldable pub merge_slots : List ℕ → List ℕ → List ℕ
merge_slots [] others = []
merge_slots (n ∷ ns) [] = n ∷ ns
merge_slots (n ∷ ns) (m ∷ ms) = u64 (n + m) ∷ merge_slots ns ms

-- `other` is another object: merging a histogram into itself is refused by an assertion.
unfoldable pub merge : Histogram → Histogram → Histogram
merge h other = record {
  slots = merge_slots h.slots other.slots;
  count = u64 (h.count + other.count);
  overflow = u64 (h.overflow + other.overflow);
  max = max h.max other.max;
}

-- std::clamp
abbrev pub clamp : ℕ → ℕ → ℕ → ℕ
clamp value low high = if ltb value low then low else if ltb high value then high else value

-- The loop of `percentile` from slot `i` on.
unfoldable pub walk : List ℕ → ℕ → ℕ → ℕ → Option ℕ
walk [] i running target = none
walk (n ∷ ns) i running target =
    let running' = u64 (running + n) in
    let rest = walk ns (suc i) running' target in
    if leb target running' then some (slot_high i) else rest

-- What the loop found, or else the value behind it.
abbrev pub found_or : ℕ → Option ℕ → ℕ
found_or behind none = behind
found_or behind (some v) = v

module _ (double : Double) where
  open double use {Carrier, literal, of_u64, mul, div, ceil, to_u64}

  unfoldable pub target_rank : Carrier → ℕ → ℕ
  target_rank p count = clamp (to_u64 (ceil (mul (div p (literal 100 0)) (of_u64 count)))) 1 count

  unfoldable pub percentile : Histogram → Carrier → Option ℕ
  percentile h p =
      if h.count == 0
      then none
      else some (found_or h.max (walk h.slots 0 0 (target_rank p h.count)))
