-- ===== src/Stats/Buckets/Slots.antt =====
-- The slots of src/stats/buckets.hpp: their bounds, their order and their width.
use native.Mathlib.Numerals.{add-one}
use native.Mathlib.Nat.{
  le_refl, mul-le-mul_right, le-div_iff_mul-le, div-lt_iff_lt-mul, eq-or-lt_of_le, le_of_suc-le-suc,
  mul-pos, pow-suc, div-eq_of_lt-le, div-mul-le_self, lt-div-mul-add,
}
use dariyanaap.Prelude.{
  ℕ, zero, suc, ◌+◌, ◌-◌, ◌*◌, ◌/◌, ◌%◌, ◌^◌, ◌≤◌, ◌<◌, ◌≡◌, refl, arith, dec_lt, lt→ltb, inl, inr,
}
use dariyanaap.Stats.Buckets.{index_of, slot_low, slot_high, count, count_lem, max_value}
use dariyanaap.Stats.Buckets.Layout.{
  pow_pos, octave, index_of_octave, slot_low_octave, slot_high_octave,
}

-- A slot below 128 holds one value.
index_of_small : (value : ℕ) → value < 128 → index_of value ≡ value
unfolding index_of
index_of_small value h = rw (lt→ltb value 128 h)

slot_low_small : (i : ℕ) → i < 128 → slot_low i ≡ i
unfolding slot_low
slot_low_small i h = rw (lt→ltb i 128 h)

slot_high_small : (i : ℕ) → i < 128 → slot_high i ≡ i
unfolding slot_high
slot_high_small i h = rw (lt→ltb i 128 h)

-- Any other slot is a mantissa in an octave.
abbrev InOctave : ℕ → Type 0
InOctave i = (k : ℕ) × (m : ℕ) × (m < 128) × (i ≡ (k + 1) * 128 + m)

in_octave : (i : ℕ) → 128 ≤ i → InOctave i
in_octave i h = (i / 128 - 1, i % 128, omega arith, omega arith)

low_at : (i k m : ℕ) → m < 128 → i ≡ (k + 1) * 128 + m → slot_low i ≡ (m + 128) * 2 ^ k
low_at i k m h e = rw e (slot_low_octave k m h)

high_at : (i k m : ℕ) → m < 128 → i ≡ (k + 1) * 128 + m → slot_high i ≡ (m + 129) * 2 ^ k - 1
high_at i k m h e = rw e (slot_high_octave k m h)

-- Inside an octave, then from one octave to the next.
low_next : (i k m : ℕ) → m < 128 → i ≡ (k + 1) * 128 + m → slot_low (i + 1) ≡ (m + 129) * 2 ^ k
low_next i k m h e = elim (dec_lt (m + 1) 128) [
  | yes p ↦ omega (arith, low_at (i + 1) k (m + 1) p (omega arith))
  | no p ↦
      let q : m ≡ 127 = omega arith in
      rw q (omega (arith, low_at (i + 1) (suc k) 0 (omega arith) (omega arith), pow-suc 2 k))
]

low_small_next : (i : ℕ) → i < 128 → slot_low (i + 1) ≡ i + 1
low_small_next i h = elim (dec_lt (i + 1) 128) [
  | yes p ↦ slot_low_small (i + 1) p
  | no p ↦ omega (arith, low_at (i + 1) 0 0 (omega arith) (omega arith))
]

mul_pos_high : (k m : ℕ) → 0 < (m + 129) * 2 ^ k
mul_pos_high k m = mul-pos (omega arith) (pow_pos k)

-- The next slot begins where this one ends: the layout has no gap and no overlap.
pub slot_low-suc : (i : ℕ) → slot_low (i + 1) ≡ slot_high i + 1
slot_low-suc i = elim (dec_lt i 128) [
  | yes small ↦ omega (arith, slot_high_small i small, low_small_next i small)
  | no big ↦
      let (k, m, h, e) = in_octave i (omega arith) in
      omega (arith, low_next i k m h e, high_at i k m h e, mul_pos_high k m)
]

pub slot_low-le-high : (i : ℕ) → slot_low i ≤ slot_high i
slot_low-le-high i = elim (dec_lt i 128) [
  | yes small ↦ omega (arith, slot_high_small i small, slot_low_small i small)
  | no big ↦
      let (k, m, h, e) = in_octave i (omega arith) in
      omega (arith, low_at i k m h e, high_at i k m h e, pow_pos k)
]

next_slot : (j : ℕ) → slot_low (suc j) ≡ slot_high j + 1
next_slot j = rw (← add-one j) (slot_low-suc j)

pub slots_ordered : (i j : ℕ) → i < j → slot_high i < slot_low j
slots_ordered i zero h = elim h [ ]
slots_ordered i (suc j) h = elim (eq-or-lt_of_le (le_of_suc-le-suc h)) [
  | inl e ↦ rw (← e) (omega (arith, next_slot i))
  | inr p ↦ omega (arith, slots_ordered i j p, slot_low-le-high j, next_slot j)
]

-- A value of octave k stands in the slot of its leading digits.
abbrev SlotOf : ℕ → Type 0
SlotOf value =
    (k : ℕ) × (q : ℕ) × (128 ≤ q)
    × (q < 256)
    × (k < 56)
    × (index_of value ≡ (k + 1) * 128 + (q - 128))
    × (q * 2 ^ k ≤ value)
    × (value < q * 2 ^ k + 2 ^ k)

slot_of : (value : ℕ) → 128 ≤ value → value < 2 ^ 63 → SlotOf value
slot_of value l h =
    let (k, a, b, c) = octave 56 value l h in
    let low : 128 ≤ value / 2 ^ k = (le-div_iff_mul-le (pow_pos k)).1 b in
    let high : value / 2 ^ k < 256 = (div-lt_iff_lt-mul (pow_pos k)).1 c in
    (
      k,
      value / 2 ^ k,
      low,
      high,
      a,
      index_of_octave k value (omega arith) b c,
      div-mul-le_self value (2 ^ k),
      lt-div-mul-add (pow_pos k),
    )

-- Every latency below 2 ^ 63 lies within the bounds of the slot of its index.
pub slot_bounds :
    (value : ℕ)
    → value < 2 ^ 63
    → (slot_low (index_of value) ≤ value) × (value ≤ slot_high (index_of value))
slot_bounds value h = elim (dec_lt value 128) [
  | yes small ↦
      rw (index_of_small value small)
        (omega (arith, slot_low_small value small), omega (arith, slot_high_small value small))
  | no big ↦
      let (k, q, a, b, c, e, l, u) = slot_of value (omega arith) h in
      let low = low_at (index_of value) k (q - 128) (omega arith) e in
      let high = high_at (index_of value) k (q - 128) (omega arith) e in
      let r : q - 128 + 128 ≡ q = omega arith in
      let r' : q - 128 + 129 ≡ q + 1 = omega arith in (rw (low, r) l, rw (high, r') (omega arith))
]

-- The end of a slot, which percentiles report, is above each latency in it, below 2 ^ 63, by at
-- most 1/128 of the latency.
pub slot_error : (value : ℕ) → value < 2 ^ 63 → (slot_high (index_of value) - value) * 128 ≤ value
slot_error value h = elim (dec_lt value 128) [
  | yes small ↦ rw (index_of_small value small) (omega (arith, slot_high_small value small))
  | no big ↦
      let (k, q, a, b, c, e, l, u) = slot_of value (omega arith) h in
      let high = high_at (index_of value) k (q - 128) (omega arith) e in
      let r' : q - 128 + 129 ≡ q + 1 = omega arith in
      let wide : 128 * 2 ^ k ≤ q * 2 ^ k = mul-le-mul_right (2 ^ k) a in rw (high, r') (omega arith)
]

index_of_between :
    (i value k m : ℕ)
    → m < 128
    → i ≡ (k + 1) * 128 + m
    → k ≤ 56
    → (m + 128) * 2 ^ k ≤ value
    → value ≤ (m + 129) * 2 ^ k - 1
    → index_of value ≡ i
index_of_between i value k m p e f l u =
    let top : (m + 129) * 2 ^ k ≤ 256 * 2 ^ k = mul-le-mul_right (2 ^ k) (omega arith) in
    let bottom : 128 * 2 ^ k ≤ (m + 128) * 2 ^ k = mul-le-mul_right (2 ^ k) (omega arith) in
    let d : value / 2 ^ k ≡ m + 128 = div-eq_of_lt-le (2 ^ k) l (omega (arith, mul_pos_high k m)) in
    rw (index_of_octave k value f (omega arith) (omega (arith, mul_pos_high k m)), d) (omega arith)

-- Each slot of the array counts exactly the latencies within its bounds: a latency within them
-- has this slot as its index.
pub index_of-slot :
    (i value : ℕ) → i < count → slot_low i ≤ value → value ≤ slot_high i → index_of value ≡ i
index_of-slot i value h l u = elim (dec_lt i 128) [
  | yes small ↦
      let e : value ≡ i = omega (arith, slot_low_small i small, slot_high_small i small) in
      rw (← e) (index_of_small value (omega arith))
  | no big ↦
      let (k, m, p, e) = in_octave i (omega arith) in
      index_of_between i value k m p e (omega (arith, count_lem)) (rw (low_at i k m p e) at l)
        (rw (high_at i k m p e) at u)
]

-- A larger latency below 2 ^ 63 never goes into an earlier slot.
pub index_of_mono : (u v : ℕ) → u ≤ v → v < 2 ^ 63 → index_of u ≤ index_of v
index_of_mono u v h f = elim (dec_lt (index_of v) (index_of u)) [
  | yes p ↦
      absurd (omega (arith, slots_ordered _ _ p, slot_bounds u (omega arith), slot_bounds v f))
  | no p ↦ omega arith
]

-- A latency of at most 60 seconds has a slot in the array.
pub index_of-lt-count : (value : ℕ) → value ≤ max_value → index_of value < count
unfolding count
index_of-lt-count value h = omega (arith, index_of_mono value max_value h (omega arith))

last_slot : slot_high 3807 ≡ 60_129_542_143
unfolding slot_high
last_slot = refl

pub slots_ordered_le : (i j : ℕ) → i ≤ j → slot_high i ≤ slot_high j
slots_ordered_le i j h = elim (eq-or-lt_of_le h) [
  | inl e ↦ rw e (le_refl _)
  | inr p ↦ omega (arith, slots_ordered i j p, slot_low-le-high j)
]

pub slot_high-lt : (i : ℕ) → i < count → slot_high i < 2 ^ 63
slot_high-lt i h = omega (arith, slots_ordered_le i 3807 (omega (arith, count_lem)), last_slot)

pub slot_low_mono : (i j : ℕ) → i ≤ j → slot_low i ≤ slot_low j
slot_low_mono i j h = elim (eq-or-lt_of_le h) [
  | inl e ↦ rw e (le_refl _)
  | inr p ↦ omega (arith, slots_ordered i j p, slot_low-le-high i)
]

first_of_last_slot : slot_low 3807 ≡ 59_861_106_688
unfolding slot_low
first_of_last_slot = refl

pub slot_low-le-max : (i : ℕ) → i < count → slot_low i ≤ max_value
slot_low-le-max i h =
    omega (arith, slot_low_mono i 3807 (omega (arith, count_lem)), first_of_last_slot)

-- A slot is at most 1/128 of its lowest value wide.
pub slot_width : (i : ℕ) → i < count → slot_high i * 128 ≤ slot_low i * 129
slot_width i h =
    let e : index_of (slot_low i) ≡ i =
      index_of-slot i (slot_low i) h (le_refl _) (slot_low-le-high i) in
    let w : (slot_high i - slot_low i) * 128 ≤ slot_low i =
      rw e at (slot_error (slot_low i) (omega (arith, slot_low-le-max i h))) in
    omega (arith, slot_low-le-high i)
