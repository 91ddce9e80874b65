-- ===== src/Apps/FaultCost.antt =====
-- apps/fault_cost.cpp: what the checks of the fault library cost while nothing is injected. The
-- clock, `double`, and what is drawn in a call of a check are arguments. The writes to the volatile
-- `g_sink` are kept, the newest first.
pub mod Idle
mod Tests
use dariyanaap.Prelude.{
  ℕ, zero, suc, ◌+◌, ◌/◌, ◌%◌, List, [], ◌∷◌, Bool, true, false, not, ◌==◌, if◌then◌else◌,
}
use dariyanaap.Prelude.Text.{Bytes, codes, concat, to_string}
use dariyanaap.Core.Double.{Double}
use dariyanaap.Core.Clock.{between}
use dariyanaap.Fault.Knobs.{Knobs, all_off, delay, should_drop, set_drop_probability, clear}
use dariyanaap.Apps.Formats.{strtoul, pad}
use dariyanaap.Apps.Machine.{Machine, App, ◌>>=◌, ◌>>◌, pure, lift, print}

-- The knobs, what was written to the sink, and how long the calls have slept in all.
pub record Bench : Type 0 where
  pub knobs : Knobs
  pub sinks : List Bool
  pub slept : ℕ

abbrev pub fresh : Bench
fresh = record { knobs = all_off; sinks = []; slept = 0 }

abbrev pub iterations_asked : List Bytes → ℕ
iterations_asked [] = 50_000_000
iterations_asked (text ∷ rest) = strtoul text

module _ (double : Double) where
  open double use {Carrier, literal, of_u64, sub, div, lt, print_fixed}

  unfoldable pub per_call_ns : ℕ → ℕ → ℕ → Carrier
  per_call_ns started ended iterations = div (of_u64 (between started ended)) (of_u64 iterations)

  abbrev pub added_text : Carrier → Carrier → Bytes
  added_text cost baseline = concat (
      pad 6 (print_fixed 3 cost)
      ∷ codes " ns/op   (+"
      ∷ print_fixed 3 (sub cost baseline)
      ∷ codes " ns)\n"
      ∷ [])

  abbrev pub added_cost : Carrier → Carrier → Carrier → Carrier
  added_cost baseline off_cost zero_drop =
      sub (if lt zero_drop off_cost then off_cost else zero_drop) baseline

  unfoldable pub table : ℕ → Carrier → Carrier → Carrier → Bytes
  table iterations baseline off_cost zero_drop =
      let added = added_cost baseline off_cost zero_drop in
      concat (
        codes "iterations            "
        ∷ to_string iterations
        ∷ codes "\nno fault calls        "
        ∷ pad 6 (print_fixed 3 baseline)
        ∷ codes " ns/op\nfault linked, all off "
        ∷ added_text off_cost baseline
        ∷ codes "drop_probability(0.0) "
        ∷ added_text zero_drop baseline
        ∷ codes "\nadded cost "
        ∷ print_fixed 3 added
        ∷ codes " ns/op "
        ∷ (226 ∷ 128 ∷ 148 ∷ [])
        ∷ codes " "
        ∷ (if lt added (literal 50 1) then codes "PASS" else codes "FAIL")
        ∷ codes " (budget 5 ns)\n"
        ∷ [])

  -- The exit code, of what is added to a call.
  abbrev pub verdict : Carrier → ℕ
  verdict added = if lt added (literal 50 1) then 0 else 1

-- `draws i` is what the calls of round i draw: the spread of the delay, and whether to drop.
module _ (draws : ℕ → ℕ × ℕ) where
  abbrev pub called : ℕ → Bench → Bench
  called i s = record s {
    sinks = should_drop s.knobs (draws i).1 ∷ s.sinks;
    slept = s.slept + delay s.knobs (draws i).0;
  }

  abbrev pub skipped : ℕ → Bench → Bench
  skipped i s = record s { sinks = not (i % 2 == 0) ∷ s.sinks }

  -- The loop of `per_call_ns` from round `i` on.
  unfoldable pub rounds : Bool → ℕ → ℕ → Bench → Bench
  rounds call_fault i zero s = s
  rounds call_fault i (suc left) s =
      rounds call_fault (i + 1) left (if call_fault then called i s else skipped i s)

  -- What is done before the last of the measurements, and what it leaves behind.
  unfoldable pub unset : ℕ → Bench → Bench
  unset iterations s =
      let warm = rounds true 0 (iterations / 10) s in
      let cleared = record warm { knobs = clear warm.knobs } in
      rounds true 0 iterations (rounds false 0 iterations cleared)

  module _ (double : Double) where
    open double use {literal}

    unfoldable pub zeroed : ℕ → Bench → App Bench
    zeroed iterations s = lift (set_drop_probability double (literal 0 1) s.knobs) >>= λ knobs.
        pure (rounds true 0 iterations (record s { knobs = knobs }))

    -- The exit code, with what the loops leave behind. `clock i` is the reading number i: one before
    -- and one after each of the four loops.
    unfoldable pub main : (ℕ → ℕ) → List Bytes → App (ℕ × Bench)
    main clock arguments =
        let iterations = iterations_asked arguments in
        let baseline = per_call_ns double (clock 2) (clock 3) iterations in
        let off_cost = per_call_ns double (clock 4) (clock 5) iterations in
        let zero_drop = per_call_ns double (clock 6) (clock 7) iterations in
        let code = verdict double (added_cost double baseline off_cost zero_drop) in
        zeroed iterations (unset iterations fresh) >>= λ left_behind.
        print (table double iterations baseline off_cost zero_drop) >> pure (code, left_behind)
