-- ===== src/Core/Double.antt =====
-- `double` and the functions of <cmath> and <sstream> that the program calls on it. They are not
-- in the repository, so the model takes them as a parameter: a carrier and its operations.
pub mod Rational
use dariyanaap.Prelude.{ℕ, List, Option, Bool}

pub record Double : Type 1 where
  pub Carrier : Type 0
  -- a literal with that many digits behind the point: `literal 999 1` is 99.9
  pub literal : ℕ → ℕ → Carrier
  -- static_cast<double> of a uint64_t
  pub of_u64 : ℕ → Carrier
  pub add : Carrier → Carrier → Carrier
  pub sub : Carrier → Carrier → Carrier
  pub mul : Carrier → Carrier → Carrier
  pub div : Carrier → Carrier → Carrier
  pub lt : Carrier → Carrier → Bool
  pub le : Carrier → Carrier → Bool
  pub is_finite : Carrier → Bool
  pub neg : Carrier → Carrier
  pub abs : Carrier → Carrier
  pub ceil : Carrier → Carrier
  -- the static_cast to uint64_t and to int64_t, and llround(x), of an x that is not negative
  pub to_u64 : Carrier → ℕ
  pub to_i64 : Carrier → ℕ
  pub llround : Carrier → ℕ
  -- `in >> value` over the whole text; `none` for fail() or a rest
  pub scan : List ℕ → Option Carrier
  -- `out << value`, as the default format prints it, and with so many digits behind the point
  pub print : Carrier → List ℕ
  pub print_fixed : ℕ → Carrier → List ℕ
