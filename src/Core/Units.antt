-- ===== src/Core/Units.antt =====
-- src/core/units.hpp and src/core/units.cpp: a rate of requests, with its bounds. Only `per_second`
-- makes a `Rate`.
use dariyanaap.Prelude.{ℕ, ◌++◌, ◌||◌, not}
use dariyanaap.Prelude.Text.{Bytes, codes}
use dariyanaap.Core.Double.{Double}
use dariyanaap.Core.Errors.{Result, ok, usage_error, ◌>>◌, throw_if}

module _ (double : Double) where
  open double use {Carrier, literal, of_u64, mul, div, lt, is_finite, llround, print}

  pub record Rate : Type 0 where
    pub rps : Carrier

  abbrev pub min_rps : Carrier
  min_rps = literal 1 3

  abbrev pub max_rps : Carrier
  max_rps = literal 1_000_000_000 0

  unfoldable pub out_of_range : Carrier → Bytes
  out_of_range rps =
      codes "rate must be between "
      ++ (print min_rps ++ (codes " and " ++ (print max_rps ++ (codes " rps, got " ++ print rps))))

  unfoldable pub per_second : Carrier → Result Rate
  unfolding out_of_range
  per_second rps = do
    throw_if (not (is_finite rps))
        (usage_error (codes "rate must be a finite number of requests per second"))
    throw_if (lt rps min_rps || lt max_rps rps) (usage_error (out_of_range rps))
    ok (record { rps = rps })

  -- Nanoseconds.
  unfoldable pub interval : Rate → ℕ
  interval rate = llround (div (literal 1_000_000_000 0) rate.rps)

  unfoldable pub due_at : Rate → ℕ → ℕ
  due_at rate index = llround (div (mul (of_u64 index) (literal 1_000_000_000 0)) rate.rps)

  unfoldable pub str : Rate → Bytes
  str rate = print rate.rps ++ codes " rps"
