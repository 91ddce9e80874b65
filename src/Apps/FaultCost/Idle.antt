-- ===== src/Apps/FaultCost/Idle.antt =====
-- What apps/fault_cost.cpp measures.
use dariyanaap.Prelude.{
  ℕ, zero, suc, ◌+◌, ◌/◌, ◌%◌, ◌≡◌, refl, ap, ◌∙◌, List, [], ◌∷◌, ◌++◌, replicate, Bool, true,
  false, not, ◌==◌,
}
use dariyanaap.Prelude.Text.{Bytes}
use dariyanaap.Core.Double.{Double}
use dariyanaap.Core.Errors.{ok}
use dariyanaap.Fault.Knobs.{
  all_off, delay, should_drop, set_drop_probability, clear, gate, refresh_gate,
}
use dariyanaap.Apps.Machine.{Machine}
use dariyanaap.Apps.FaultCost.{
  Bench, rounds, iterations_asked, unset, zeroed, added_cost, verdict, per_call_ns, main,
}

-- What the loop without the calls writes from round `i` on, the newest first.
abbrev pub alternating : ℕ → ℕ → List Bool → List Bool
alternating i zero before = before
alternating i (suc left) before = alternating (i + 1) left (not (i % 2 == 0) ∷ before)

-- The state in which nothing is injected and nothing has slept.
abbrev pub idle : List Bool → Bench
idle sinks = record { knobs = all_off; sinks = sinks; slept = 0 }

replicate-snoc :
    (n : ℕ) (before : List Bool)
    → replicate n false ++ (false ∷ before) ≡ false ∷ (replicate n false ++ before)
replicate-snoc zero before = refl
replicate-snoc (suc n) before = ap (◌∷◌ false) (replicate-snoc n before)

-- What is left behind: the writes of the warm-up, of the loop without calls, and of the two loops with
-- calls.
abbrev pub left : ℕ → Bench
left n =
    idle
      (replicate n false ++ (replicate n false ++ alternating 0 n (replicate (n / 10) false ++ [])))

abbrev pub exit_code : (double : Double) → (ℕ → ℕ) → ℕ → ℕ
exit_code double clock n = verdict double (
    added_cost double (per_call_ns double (clock 2) (clock 3) n)
      (per_call_ns double (clock 4) (clock 5) n) (per_call_ns double (clock 6) (clock 7) n))

module _ (draws : ℕ → ℕ × ℕ) where
  rounds-idle :
      (i n : ℕ) (before : List Bool)
      → rounds draws true i n (idle before) ≡ idle (replicate n false ++ before)
  unfolding rounds should_drop delay
  rounds-idle i zero before = refl
  rounds-idle i (suc n) before =
      rounds-idle (i + 1) n (false ∷ before) ∙ ap idle (replicate-snoc n before)

  rounds-skipped :
      (i n : ℕ) (before : List Bool)
      → rounds draws false i n (idle before) ≡ idle (alternating i n before)
  unfolding rounds
  rounds-skipped i zero before = refl
  rounds-skipped i (suc n) before = rounds-skipped (i + 1) n (not (i % 2 == 0) ∷ before)

  -- Where `double` reads 0.0 as a probability of no parts per million: the calls that the benchmark
  -- times neither sleep nor drop, those after `set_drop_probability(0.0)` included, and leave every
  -- knob off.
  pub main-idle :
      (double : Double) (clock : ℕ → ℕ) (arguments : List Bytes) (m : Machine)
      → double.le (double.literal 0 0) (double.literal 0 1) ≡ true
      → double.le (double.literal 0 1) (double.literal 1 0) ≡ true
      → double.to_i64 (
          double.add
            (double.mul (double.literal 0 1) (double.literal 1_000_000 0))
            (double.literal 5 1))
        ≡ 0
      → (main draws double clock arguments m).0
        ≡ ok
            (exit_code double clock (iterations_asked arguments), left (iterations_asked arguments))
  unfolding main unset zeroed set_drop_probability clear refresh_gate gate
  main-idle double clock arguments m low high none_ppm =
      let n = iterations_asked arguments in
      rw
        (
          rounds-idle 0 (n / 10) [],
          rounds-skipped 0 n (replicate (n / 10) false ++ []),
          rounds-idle 0 n (alternating 0 n (replicate (n / 10) false ++ [])),
          low,
          high,
          none_ppm,
          rounds-idle 0 n (replicate n false ++ alternating 0 n (replicate (n / 10) false ++ [])),
        )
        refl
