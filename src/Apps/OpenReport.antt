-- ===== src/Apps/OpenReport.antt =====
-- What `main` of apps/dariyanaap.cpp prints of an open-loop run, besides what both modes print.
use dariyanaap.Prelude.{[], ◌∷◌, ◌++◌, Option, none, some, if◌then◌else◌}
use dariyanaap.Prelude.Text.{Bytes, codes, to_string, concat}
use dariyanaap.Core.Double.{Double}
use dariyanaap.Core.Errors.{Result, ok, ◌>>=◌}
use dariyanaap.Stats.Histogram.{percentile}
use dariyanaap.Stats.Summary.{Summary, value, per_second}
use dariyanaap.Load.OpenLoop.Run.{OpenLoopRun, kept_up, connections_saturated}
use dariyanaap.Apps.Report.{dash, as_ms}

module _ (double : Double) (version : Bytes) where
  open double use {Carrier, literal, print_fixed}

  unfoldable pub schedule_lines : OpenLoopRun double → Bytes
  schedule_lines run = concat (
      codes "  schedule: "
      ∷ to_string run.slots_claimed
      ∷ codes " of "
      ∷ to_string run.slots_due
      ∷ codes " slots claimed"
      ∷ (if kept_up double run
          then codes "\n"
          else codes "  "
            ++ (dash ++ codes " WARNING: THE RIG COULD NOT KEEP UP; THIS RUN IS VOID\n"))
      ∷ [])

  -- The lateness of the slots, and what it is made of.
  unfoldable pub lag_line : OpenLoopRun double → Result Bytes
  lag_line run = do
    p50 ← value (percentile double run.schedule_lag (literal 500 1))
    p99 ← value (percentile double run.schedule_lag (literal 990 1))
    ok (
        concat (
          codes "  schedule lag: p50 "
          ∷ as_ms double version p50
          ∷ codes "ms  p99 "
          ∷ as_ms double version p99
          ∷ codes "ms  max "
          ∷ as_ms double version run.schedule_lag.max
          ∷ codes "ms\n"
          ∷ []))

  unfoldable pub split_line : OpenLoopRun double → Result Bytes
  split_line run = do
    wait ← value (percentile double run.connection_wait (literal 500 1))
    rig ← value (percentile double run.rig_lag (literal 500 1))
    ok (
        concat (
          codes "    of which:   waiting for a connection p50 "
          ∷ as_ms double version wait
          ∷ codes "ms   |   the rig itself p50 "
          ∷ as_ms double version rig
          ∷ codes "ms\n"
          ∷ []))

  abbrev rate_achieved : Option Summary → Bytes
  rate_achieved none = print_fixed 0 (literal 0 1)
  rate_achieved (some s) = print_fixed 0 (per_second double s)

  unfoldable pub saturation_lines : OpenLoopRun double → Bytes
  saturation_lines run =
      if connections_saturated double run
      then concat (
          codes "  "
          ∷ dash
          ∷ codes " NOTE: connections, not --rate, limited this run. "
          ∷ to_string run.connections_started
          ∷ codes " connections\n      against this target's service time could not offer "
          ∷ print_fixed 0 run.rate.rps
          ∷ codes " rps;\n      "
          ∷ rate_achieved run.result.latency
          ∷ codes " rps was achieved. Raise --connections to offer the rate.\n"
          ∷ [])
      else []
