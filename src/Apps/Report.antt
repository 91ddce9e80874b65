-- ===== src/Apps/Report.antt =====
-- `report` of apps/dariyanaap.cpp: the summary for people. A number is printed with its digits; a
-- double goes through the parameter that stands for printf.
use dariyanaap.Prelude.{ℕ, [], ◌∷◌, Option, none, some, Bool, true, false, ltb, if◌then◌else◌}
use dariyanaap.Prelude.Text.{Bytes, codes, to_string, concat}
use dariyanaap.Core.Double.{Double}
use dariyanaap.Core.Endpoint.{Endpoint, str}
use dariyanaap.Stats.Summary.{Summary, percentiles_bounded, per_second}
use dariyanaap.Load.RunResult.{ErrorCounts, RunResult, consistent, timed, untimed}

-- An em dash between blanks.
abbrev pub dash : Bytes
dash = 32 ∷ 226 ∷ 128 ∷ 148 ∷ 32 ∷ []

-- What both modes report of a run.
pub record Reported : Type 0 where
  pub result : RunResult
  pub target : Endpoint
  pub mode : Bytes
  pub requested : ℕ
  pub started : ℕ
  pub opened : ℕ
  pub resolution : ℕ

abbrev started_line : ℕ → ℕ → Bytes
started_line started requested = concat (
    codes "  WARNING: only "
    ∷ to_string started
    ∷ codes " of "
    ∷ to_string requested
    ∷ codes " connections started"
    ∷ dash
    ∷ codes "the RIG is the limit here\n"
    ∷ [])

abbrev errors_line : ℕ → ErrorCounts → Bytes
errors_line attempted errors = concat (
    codes "  attempted "
    ∷ to_string attempted
    ∷ codes "  errors: connect "
    ∷ to_string errors.connect
    ∷ codes " write "
    ∷ to_string errors.write
    ∷ codes " read "
    ∷ to_string errors.read
    ∷ codes " timeout "
    ∷ to_string errors.timeout
    ∷ codes " protocol "
    ∷ to_string errors.protocol
    ∷ codes " rejected "
    ∷ to_string errors.rejected
    ∷ codes "\n"
    ∷ [])

abbrev balance_line : RunResult → Bytes
balance_line result = concat (
    codes "  WARNING: accounting does not balance"
    ∷ dash
    ∷ to_string result.attempted
    ∷ codes " attempted, "
    ∷ to_string (timed result)
    ∷ codes " timed, "
    ∷ to_string (untimed result)
    ∷ codes " untimed\n"
    ∷ [])

module _ (double : Double) (version : Bytes) where
  open double use {Carrier, literal, of_u64, div, print_fixed}

  -- A duration as milliseconds, with three digits behind the point.
  unfoldable pub as_ms : ℕ → Bytes
  as_ms value = print_fixed 3 (div (of_u64 value) (literal 1_000_000 0))

  abbrev unbounded_note : Bool → Bytes
  unbounded_note true = []
  unbounded_note false = codes "   (percentiles UNBOUNDED: samples past 60s)"

  abbrev latency_lines : ℕ → Option Summary → Bytes
  latency_lines resolution none = codes "  no latency distribution: nothing produced a duration\n"
  latency_lines resolution (some s) = concat (
      codes "  "
      ∷ print_fixed 0 (per_second double s)
      ∷ codes " req/s   p50 "
      ∷ as_ms s.p50
      ∷ codes "ms  p90 "
      ∷ as_ms s.p90
      ∷ codes "ms  p99 "
      ∷ as_ms s.p99
      ∷ codes "ms  p999 "
      ∷ as_ms s.p999
      ∷ codes "ms  max "
      ∷ as_ms s.max
      ∷ codes "ms\n  rig floor: clock resolution "
      ∷ to_string resolution
      ∷ codes " ns"
      ∷ unbounded_note (percentiles_bounded s)
      ∷ codes "\n"
      ∷ [])

  unfoldable pub report : Reported → Bytes
  unfolding as_ms
  report r = concat (
      version
      ∷ codes "  "
      ∷ r.mode
      ∷ codes "  target "
      ∷ str r.target
      ∷ codes "  "
      ∷ to_string r.started
      ∷ codes "/"
      ∷ to_string r.requested
      ∷ codes " connections  "
      ∷ to_string r.opened
      ∷ codes " opens\n"
      ∷ (if ltb r.started r.requested then started_line r.started r.requested else [])
      ∷ errors_line r.result.attempted r.result.errors
      ∷ (if consistent r.result then [] else balance_line r.result)
      ∷ latency_lines r.resolution r.result.latency
      ∷ [])
