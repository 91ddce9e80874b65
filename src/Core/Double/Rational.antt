-- ===== src/Core/Double/Rational.antt =====
-- An instance of the parameter that stands for `double`: exact fractions that are not negative,
-- read from decimal digits and printed as nothing. What would be negative is taken as zero.
use dariyanaap.Prelude.{
  ℕ, ◌+◌, ◌-◌, ◌*◌, ◌/◌, ◌^◌, List, [], ◌∷◌, Option, none, some, ltb, leb, ◌==◌, if◌then◌else◌, not,
  ◌||◌,
}
use dariyanaap.Core.Double.{Double}

pub record Fraction : Type 0 where
  pub top : ℕ
  pub bottom : ℕ

abbrev digits : List ℕ → ℕ → Option ℕ
digits [] n = some n
digits (c ∷ cs) n = if ltb c b'0' || ltb b'9' c then none else digits cs (n * 10 + (c - b'0'))

abbrev scan_fraction : List ℕ → Option Fraction
scan_fraction [] = none
scan_fraction (c ∷ cs) = elim (digits (c ∷ cs) 0) [
  | none ↦ none
  | some n ↦ some (record { top = n; bottom = 1 })
]

abbrev pub rational : Double
rational = record {
  Carrier = Fraction;
  literal = λ digits places. record { top = digits; bottom = 10 ^ places };
  of_u64 = λ n. record { top = n; bottom = 1 };
  add = λ a b. record { top = a.top * b.bottom + b.top * a.bottom; bottom = a.bottom * b.bottom };
  sub = λ a b. record { top = a.top * b.bottom - b.top * a.bottom; bottom = a.bottom * b.bottom };
  mul = λ a b. record { top = a.top * b.top; bottom = a.bottom * b.bottom };
  div = λ a b. record { top = a.top * b.bottom; bottom = a.bottom * b.top };
  lt = λ a b. ltb (a.top * b.bottom) (b.top * a.bottom);
  le = λ a b. leb (a.top * b.bottom) (b.top * a.bottom);
  is_finite = λ a. not (a.bottom == 0);
  neg = λ a. record { top = 0; bottom = 1 };
  abs = λ a. a;
  ceil = λ a. record { top = (a.top + a.bottom - 1) / a.bottom; bottom = 1 };
  to_u64 = λ a. a.top / a.bottom;
  to_i64 = λ a. a.top / a.bottom;
  llround = λ a. (2 * a.top + a.bottom) / (2 * a.bottom);
  scan = scan_fraction;
  print = λ a. [];
  print_fixed = λ places a. [];
}
