-- ===== src/Fault/Knobs.antt =====
-- src/fault/knobs.hpp and src/fault/knobs.cpp: the state of the faults, and what changes and reads
-- it. The globals are one record, and each call is one step: Fault.Threads takes the setters apart
-- into their loads and stores. `std::set` is a list without repetition, of which only membership and
-- emptiness are asked. Random draws are arguments.
pub mod Gate
pub mod Partitions
use dariyanaap.Prelude.{
  ℕ, zero, suc, ◌+◌, ◌-◌, ◌*◌, List, [], ◌∷◌, ◌++◌, Bool, true, false, not, ◌&&◌, ◌||◌, ltb, leb,
  ◌==◌, if◌then◌else◌,
}
use dariyanaap.Prelude.Text.{Bytes, codes, bytes_eq, is_empty}
use dariyanaap.Core.Double.{Double}
use dariyanaap.Core.Errors.{Result, ok, err, usage_error, ◌>>=◌, ◌>>◌, throw_if}
use dariyanaap.Fault.Numbers.{ℤ, pos, negsuc}

-- `Cut` is the pair of the names of two nodes.
abbrev pub Cut : Type 0
Cut = Bytes × Bytes

pub record Knobs : Type 0 where
  pub any : Bool
  pub latency_ns : ℕ
  pub jitter_ns : ℕ
  pub drop_ppm : ℕ
  pub hanging : Bool
  pub identity : Bytes
  pub partitions : List Cut
  pub any_partition : Bool

abbrev pub all_off : Knobs
all_off = record {
  any = false;
  latency_ns = 0;
  jitter_ns = 0;
  drop_ppm = 0;
  hanging = false;
  identity = [];
  partitions = [];
  any_partition = false;
}

-- The condition that `refresh_gate` stores.
unfoldable pub gate : Knobs → Bool
gate k = not (k.latency_ns == 0) || (not (k.drop_ppm == 0) || (k.hanging || k.any_partition))

unfoldable pub refresh_gate : Knobs → Knobs
unfolding gate
refresh_gate k = record k { any = gate k }

-- `operator<` of `std::string`
abbrev pub text_lt : Bytes → Bytes → Bool
text_lt s [] = false
text_lt [] (d ∷ t) = true
text_lt (c ∷ s) (d ∷ t) = ltb c d || (c == d && text_lt s t)

unfoldable pub ordered : Bytes → Bytes → Cut
ordered a b = if text_lt b a then (b, a) else (a, b)

abbrev pub same_cut : Cut → Cut → Bool
same_cut (a, b) (c, d) = bytes_eq a c && bytes_eq b d

-- `set.count(cut) > 0`
abbrev pub member : Cut → List Cut → Bool
member cut [] = false
member cut (c ∷ cs) = same_cut cut c || member cut cs

unfoldable pub insert : Cut → List Cut → List Cut
insert cut cuts = if member cut cuts then cuts else cut ∷ cuts

unfoldable pub erase : Cut → List Cut → List Cut
erase cut [] = []
erase cut (c ∷ cs) = let rest = erase cut cs in if same_cut cut c then rest else c ∷ rest

abbrev pub is_nil : List Cut → Bool
is_nil [] = true
is_nil (c ∷ cs) = false

abbrev pub any_enabled : Knobs → Bool
any_enabled k = k.any

-- The delay of `before_response`, where `spread` is drawn from 0 to twice the jitter; zero means
-- that it does not sleep. The loop that waits while hanging has no effect on the state.
unfoldable pub delay : Knobs → ℕ → ℕ
delay k spread =
    if not k.any
    then 0
    else if k.latency_ns == 0
    then 0
    else if k.jitter_ns == 0
    then k.latency_ns
    else k.latency_ns + spread - k.jitter_ns

-- `draw` is drawn from 0 to 999'999.
unfoldable pub should_drop : Knobs → ℕ → Bool
should_drop k draw =
    if not k.any then false else if k.drop_ppm == 0 then false else ltb draw k.drop_ppm

unfoldable pub blocked : Knobs → Bytes → Bool
unfolding ordered
blocked k peer =
    if not k.any || not k.any_partition
    then false
    else if is_empty k.identity
    then false
    else member (ordered k.identity peer) k.partitions

abbrev is_negative : ℤ → Bool
is_negative (pos n) = false
is_negative (negsuc n) = true

abbrev magnitude : ℤ → ℕ
magnitude (pos n) = n
magnitude (negsuc n) = n + 1

-- Milliseconds to nanoseconds; a product of 2 ^ 63 or more is undefined in the code.
abbrev pub nanos : ℤ → ℕ
nanos ms = magnitude ms * 1_000_000

-- `jitter > mean`, where neither is negative.
abbrev exceeds : ℤ → ℤ → Bool
exceeds jitter mean = ltb (magnitude mean) (magnitude jitter)

unfoldable pub set_latency : ℤ → ℤ → Knobs → Result Knobs
unfolding refresh_gate
set_latency mean jitter k = do
  throw_if (is_negative mean || is_negative jitter)
      (usage_error (codes "injected latency and jitter must not be negative"))
  throw_if (exceeds jitter mean) (usage_error (codes "injected jitter must not exceed the mean"))
  ok (refresh_gate (record k { latency_ns = nanos mean; jitter_ns = nanos jitter }))

unfoldable pub set_drop_probability : (double : Double) → double.Carrier → Knobs → Result Knobs
unfolding refresh_gate
set_drop_probability double probability k = do
  throw_if
      (not
        (double.le (double.literal 0 0) probability && double.le probability (double.literal 1 0)))
      (usage_error (codes "drop probability must be between 0 and 1"))
  let ppm =
      double.to_i64
        (double.add (double.mul probability (double.literal 1_000_000 0)) (double.literal 5 1))
  ok (refresh_gate (record k { drop_ppm = ppm }))

unfoldable pub set_hang_forever : Bool → Knobs → Knobs
unfolding refresh_gate
set_hang_forever hanging k = refresh_gate (record k { hanging = hanging })

unfoldable pub set_identity : Bytes → Knobs → Knobs
set_identity name k = record k { identity = name }

unfoldable pub partition : Bytes → Bytes → Knobs → Result Knobs
unfolding refresh_gate insert ordered
partition a b k = do
  throw_if (is_empty a || is_empty b) (usage_error (codes "a partition needs two node names"))
  throw_if (bytes_eq a b) (usage_error (codes "cannot partition a node from itself"))
  ok (
      refresh_gate
        (record k { partitions = insert (ordered a b) k.partitions; any_partition = true }))

unfoldable pub heal : Bytes → Bytes → Knobs → Knobs
unfolding refresh_gate erase ordered
heal a b k =
    let left = erase (ordered a b) k.partitions in
    refresh_gate (record k { partitions = left; any_partition = not (is_nil left) })

unfoldable pub clear : Knobs → Knobs
unfolding refresh_gate
clear k = refresh_gate (record k {
  latency_ns = 0;
  jitter_ns = 0;
  drop_ppm = 0;
  hanging = false;
  partitions = [];
  any_partition = false;
})
