-- ===== src/Stats/Buckets/Layout.antt =====
-- The octaves of src/stats/buckets.hpp: octave k holds the values from 128 * 2 ^ k up to
-- 256 * 2 ^ k, in the 128 slots from (k + 1) * 128 on.
use native.Mathlib.Nat.{pow-suc}
use native.Mathlib.Numerals.{towards_suc}
use dariyanaap.Prelude.{
  ℕ, zero, suc, ◌+◌, ◌-◌, ◌*◌, ◌/◌, ◌%◌, ◌^◌, ◌≤◌, ◌<◌, ◌≡◌, refl, arith, dec_lt, le→ltb,
}
use dariyanaap.Stats.Buckets.{bit_width, index_of, slot_low, slot_high}

bit_width-zero : (fuel : ℕ) → bit_width fuel 0 ≡ 0
unfolding bit_width
bit_width-zero zero = refl
bit_width-zero (suc fuel) = refl

bit_width_one : (fuel n : ℕ) → n ≡ 0 → bit_width fuel n ≡ 0
bit_width_one fuel n e = rw e (bit_width-zero fuel)

pub pow_pos : (k : ℕ) → 0 < 2 ^ k
pow_pos zero = omega arith
pow_pos (suc k) = omega (arith, pow-suc 2 k, pow_pos k)

bit_width_lem : (fuel k n : ℕ) → k < fuel → 2 ^ k ≤ n → n < 2 ^ suc k → bit_width fuel n ≡ suc k
unfolding bit_width
bit_width_lem zero k n f l h = absurd (omega arith)
bit_width_lem (suc fuel) k zero f l h = absurd (omega (arith, pow_pos k))
bit_width_lem (suc fuel) zero (suc m) f l h =
    omega (arith, bit_width_one fuel (suc m / 2) (omega arith))
bit_width_lem (suc fuel) (suc k) (suc m) f l h = omega (
  arith,
  bit_width_lem fuel k (suc m / 2) (omega arith) (omega (arith, pow-suc 2 k))
      (omega (arith, pow-suc 2 k, pow-suc 2 (suc k))),
)

pow_seven : (k : ℕ) → 2 ^ (k + 7) ≡ 128 * 2 ^ k
pow_seven k = simp towards_suc (omega arith)

-- Every value from 128 on lies in one octave.
pub octave :
    (n value : ℕ)
    → 128 ≤ value
    → value < 128 * 2 ^ n
    → (k : ℕ) × (k < n) × (128 * 2 ^ k ≤ value) × (value < 256 * 2 ^ k)
octave zero value l h = absurd (omega arith)
octave (suc n) value l h = elim (dec_lt value (128 * 2 ^ n)) [
  | yes small ↦ let (k, a, b, c) = octave n value l small in (k, omega arith, b, c)
  | no big ↦ (n, omega arith, omega arith, omega (arith, pow-suc 2 n))
]

pub index_of_octave :
    (k value : ℕ)
    → k ≤ 56
    → 128 * 2 ^ k ≤ value
    → value < 256 * 2 ^ k
    → index_of value ≡ (k + 1) * 128 + (value / 2 ^ k - 128)
unfolding index_of
index_of_octave k value f l h =
    let w : bit_width 64 value ≡ suc (k + 7) =
      bit_width_lem 64 (k + 7) value (omega arith) (omega (arith, pow_seven k))
        (omega (arith, pow_seven k, pow-suc 2 (k + 7))) in
    let e : 63 - (64 - suc (k + 7)) - 7 ≡ k = omega arith in
    rw (le→ltb value 128 (omega (arith, pow_pos k)), w, e)

pub slot_low_octave : (k m : ℕ) → m < 128 → slot_low ((k + 1) * 128 + m) ≡ (m + 128) * 2 ^ k
unfolding slot_low
slot_low_octave k m h =
    let d : ((k + 1) * 128 + m) / 128 - 1 + 7 - 7 ≡ k = omega arith in
    let r : ((k + 1) * 128 + m) % 128 ≡ m = omega arith in
    rw (le→ltb ((k + 1) * 128 + m) 128 (omega arith), d, r)

pub slot_high_octave : (k m : ℕ) → m < 128 → slot_high ((k + 1) * 128 + m) ≡ (m + 129) * 2 ^ k - 1
unfolding slot_high
slot_high_octave k m h =
    let d : ((k + 1) * 128 + m) / 128 - 1 + 7 - 7 ≡ k = omega arith in
    let r : ((k + 1) * 128 + m) % 128 ≡ m = omega arith in
    let p : m + 128 + 1 ≡ m + 129 = omega arith in
    rw (le→ltb ((k + 1) * 128 + m) 128 (omega arith), d, r, p)
