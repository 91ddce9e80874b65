-- ===== src/Stats/Buckets.antt =====
-- src/stats/buckets.hpp: the log-linear layout of the histogram's slots.
-- A value is an `int64_t` that is not negative, so a native number below 2 ^ 63.
pub mod Layout
pub mod Slots
use dariyanaap.Prelude.{ℕ, zero, suc, ◌+◌, ◌-◌, ◌*◌, ◌/◌, ◌%◌, ◌^◌, ◌≡◌, refl, ltb, if◌then◌else◌}

abbrev pub sub_bucket_bits : ℕ
sub_bucket_bits = 7

abbrev pub sub_buckets : ℕ
sub_buckets = 2 ^ sub_bucket_bits

abbrev pub max_value : ℕ
max_value = 60_000_000_000

-- `std::countl_zero` of a 64-bit word: the digits are counted from below, at most 64 of them.
bit_width : ℕ → ℕ → ℕ
bit_width zero n = 0
bit_width (suc fuel) n = elim n [ zero ↦ 0 | suc m ↦ suc (bit_width fuel (suc m / 2)) ]

pub countl_zero : ℕ → ℕ
unfolding bit_width
countl_zero n = 64 - bit_width 64 n

unfoldable pub index_of : ℕ → ℕ
unfolding countl_zero
index_of value =
    let msb = 63 - countl_zero value in
    let shift = msb - sub_bucket_bits in
    let mantissa = value / 2 ^ shift - sub_buckets in
    if ltb value sub_buckets
    then value
    else (msb - sub_bucket_bits + 1) * 2 ^ sub_bucket_bits + mantissa

unfoldable pub count : ℕ
unfolding index_of
count = index_of max_value + 1

pub record Decoded : Type 0 where
  pub exponent : ℕ
  pub mantissa : ℕ

unfoldable pub decode : ℕ → Decoded
decode index = record {
  exponent = index / 2 ^ sub_bucket_bits - 1 + sub_bucket_bits;
  mantissa = index % sub_buckets + sub_buckets;
}

unfoldable pub slot_low : ℕ → ℕ
unfolding decode
slot_low index =
    let d = decode index in
    if ltb index sub_buckets then index else d.mantissa * 2 ^ (d.exponent - sub_bucket_bits)

unfoldable pub slot_high : ℕ → ℕ
unfolding decode
slot_high index =
    let d = decode index in
    if ltb index sub_buckets
    then index
    else (d.mantissa + 1) * 2 ^ (d.exponent - sub_bucket_bits) - 1

count_lem : count ≡ 3808
unfolding count
count_lem = refl
