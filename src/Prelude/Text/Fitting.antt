-- ===== src/Prelude/Text/Fitting.antt =====
-- The digits that write a number of 64 bits.
use Prim.Native.Nat.{ℕ, ◌+◌, ◌-◌, ◌*◌, ◌≤◌}
use mathlib.Core.Path.{◌≡◌, refl}
use mathlib.Core.Bool.{true, false, ◌&&◌}
use mathlib.Core.Option.{Option, none, some}
use mathlib.Core.List.{[], ◌∷◌}
use native.Mathlib.Omega.{arith}
use dariyanaap.Prelude.Tests.{ltb, if◌then◌else◌, u64_mod}
use dariyanaap.Prelude.Text.{Bytes, is_digit}
use dariyanaap.Prelude.Text.Digits.{all_digits, number_from, number_from-le}

abbrev pub fitting : Bytes → ℕ → Option ℕ
fitting s n = if all_digits s && ltb (number_from s n) u64_mod then some (number_from s n) else none

pub fitting-digit :
    (c : ℕ) (s : Bytes) (n : ℕ)
    → is_digit c ≡ true
    → fitting (c ∷ s) n ≡ fitting s (n * 10 + (c - b'0'))
fitting-digit c s n e = rw e refl

pub fitting-other : (c : ℕ) (s : Bytes) (n : ℕ) → is_digit c ≡ false → fitting (c ∷ s) n ≡ none
fitting-other c s n e = rw e refl

pub fitting-large : (s : Bytes) (n : ℕ) → u64_mod ≤ n → fitting s n ≡ none
fitting-large s n h = ground (arith, number_from-le s n)

pub digit_range : (c : ℕ) → is_digit c ≡ true → (b'0' ≤ c) × (c ≤ b'9')
digit_range c e = ground arith

-- What a number of 64 bits must be written as, and which number it is.
abbrev pub declared : Bytes → Option ℕ
declared [] = none
declared (c ∷ s) = fitting (c ∷ s) 0
