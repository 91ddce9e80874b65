-- ===== src/Apps/FaultCost/Tests.antt =====
-- The theorem on apps/fault_cost.cpp at inputs that meet its hypotheses.
use dariyanaap.Prelude.{ℕ, ◌+◌, ◌*◌, ◌≡◌, refl, [], ◌∷◌, none, false}
use dariyanaap.Prelude.Text.{codes}
use dariyanaap.Core.Double.Rational.{rational}
use dariyanaap.Core.Errors.{ok}
use dariyanaap.Apps.Machine.{Machine}
use dariyanaap.Apps.FaultCost.{iterations_asked, main}
use dariyanaap.Apps.FaultCost.Idle.{left, exit_code, main-idle}

abbrev machine : Machine
machine = record { files = λ path. none; refused = λ path. false; out = []; diagnostics = [] }

-- What round i draws, and a clock.
abbrev draws : ℕ → ℕ × ℕ
draws i = (i + 1, 3 * i)

abbrev clock : ℕ → ℕ
clock i = 100 * i

main-idle_example :
    (main draws rational clock (codes "20" ∷ []) machine).0
    ≡ ok (
      exit_code rational clock (iterations_asked (codes "20" ∷ [])),
      left (iterations_asked (codes "20" ∷ [])),
    )
main-idle_example = main-idle draws rational clock (codes "20" ∷ []) machine refl refl refl
