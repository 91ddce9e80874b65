-- ===== src/Load/OpenLoop/Run.antt =====
-- `run_open_loop` and `OpenLoopRun` of src/load/open_loop.hpp and src/load/open_loop.cpp. What
-- `resolve`, the clock, the threads and the connections do is an argument.
use dariyanaap.Prelude.{
  ℕ, zero, suc, ◌+◌, ◌*◌, List, [], ◌∷◌, Option, none, some, Bool, true, false, leb, ltb, ◌==◌,
  if◌then◌else◌, u64, length,
}
use dariyanaap.Prelude.Text.{Bytes}
use dariyanaap.Core.Double.{Double}
use dariyanaap.Core.Errors.{Result, ok, ◌>>=◌, ◌>>◌}
use dariyanaap.Core.Units.{Rate, interval}
use dariyanaap.Stats.Histogram
use dariyanaap.Stats.Histogram.{Histogram, empty, percentile}
use dariyanaap.Stats.Summary
use dariyanaap.Load.Protocol.{Protocol}
use dariyanaap.Load.RunResult
use dariyanaap.Load.RunResult.{ErrorCounts, no_errors, RunResult}
use dariyanaap.Load.Schedule.{Schedule, claimed}
use dariyanaap.Load.Worker.{WorkerConfig}
use dariyanaap.Load.ClosedLoop.{nanos}
use dariyanaap.Load.OpenLoop.{OpenTurn, OpenLoopWorker, new_worker, interleave}

-- The world of one run: `resolve`, the clock at the start, which threads can be started, the turns
-- of all of them, and `measured_resolution`.
pub record OpenWorld : Type 0 where
  pub resolved : Result (Unit {0})
  pub started : ℕ
  pub thread_starts : ℕ → Bool
  pub turns : List (ℕ × OpenTurn)
  pub resolution : Result ℕ

-- The loop that starts the threads ends at the first that cannot be started.
unfoldable pub spawn : (ℕ → Bool) → ℕ → ℕ → List OpenLoopWorker
spawn starts i zero = []
spawn starts i (suc n) =
    let rest = spawn starts (i + 1) n in if starts i then new_worker ∷ rest else []

-- What the merging loop adds up.
pub record OpenTotals : Type 0 where
  pub histogram : Histogram
  pub schedule_lag : Histogram
  pub connection_wait : Histogram
  pub rig_lag : Histogram
  pub errors : ErrorCounts
  pub attempted : ℕ
  pub opened : ℕ

unfoldable pub no_open_totals : OpenTotals
no_open_totals = record {
  histogram = empty;
  schedule_lag = empty;
  connection_wait = empty;
  rig_lag = empty;
  errors = no_errors;
  attempted = 0;
  opened = 0;
}

unfoldable pub add_open_worker : OpenTotals → OpenLoopWorker → OpenTotals
add_open_worker t w = record {
  histogram = Histogram.merge t.histogram w.histogram;
  schedule_lag = Histogram.merge t.schedule_lag w.lag;
  connection_wait = Histogram.merge t.connection_wait w.connection_wait;
  rig_lag = Histogram.merge t.rig_lag w.rig_lag;
  errors = RunResult.merge t.errors w.errors;
  attempted = u64 (t.attempted + w.attempted);
  opened = u64 (t.opened + w.connections_opened);
}

unfoldable pub merge_open_workers : OpenTotals → List OpenLoopWorker → OpenTotals
merge_open_workers t [] = t
merge_open_workers t (w ∷ ws) = merge_open_workers (add_open_worker t w) ws

abbrev at_least : ℕ → Option ℕ → Bool
at_least bound none = false
at_least bound (some median) = leb bound median

abbrev below : ℕ → Option ℕ → Bool
below bound none = false
below bound (some median) = ltb median bound

module _ (double : Double) where
  open double use {Carrier, literal, of_u64, mul, div, to_i64}

  -- Durations are in milliseconds.
  pub record OpenLoopPlan : Type 0 where
    pub rate : Rate double
    pub connections : ℕ
    pub duration : ℕ
    pub warmup : ℕ
    pub worker : WorkerConfig

  pub record OpenLoopRun : Type 0 where
    pub result : RunResult
    pub histogram : Histogram
    pub connections_requested : ℕ
    pub connections_started : ℕ
    pub connections_opened : ℕ
    pub clock_resolution : ℕ
    pub schedule_lag : Histogram
    pub connection_wait : Histogram
    pub rig_lag : Histogram
    pub slots_claimed : ℕ
    pub slots_due : ℕ
    pub rate : Rate double

  unfoldable pub kept_up : OpenLoopRun → Bool
  kept_up run =
      let median = percentile double run.rig_lag (literal 500 1) in
      if run.rig_lag.count == 0 then true else below (interval double run.rate * 10) median

  unfoldable pub connections_saturated : OpenLoopRun → Bool
  connections_saturated run =
      let median = percentile double run.connection_wait (literal 500 1) in
      if run.connection_wait.count == 0
      then false
      else at_least (interval double run.rate * 10) median

  -- The end of the run, from what was merged.
  unfoldable pub report_open_run :
      OpenLoopPlan → ℕ → ℕ → Schedule double → OpenTotals → Result OpenLoopRun
  report_open_run plan started resolution s t = do
    latency ← Summary.of double t.histogram (nanos plan.duration)
    ok (record {
      result = record {
        attempted = t.attempted;
        errors = t.errors;
        latency = latency;
        duration = nanos plan.duration;
      };
      histogram = t.histogram;
      connections_requested = plan.connections;
      connections_started = started;
      connections_opened = t.opened;
      clock_resolution = resolution;
      schedule_lag = t.schedule_lag;
      connection_wait = t.connection_wait;
      rig_lag = t.rig_lag;
      slots_claimed = claimed double s;
      slots_due = to_i64 (div (mul plan.rate.rps (of_u64 plan.duration)) (literal 1000 0));
      rate = plan.rate;
    })

  module _ (strerror : ℕ → Bytes) (protocol : Protocol) (plan : OpenLoopPlan)
      (world : OpenWorld) where
    -- The threads run from the start of the process to their joins.
    unfoldable pub run_open_threads : Schedule double × List OpenLoopWorker
    run_open_threads =
        let record_from = world.started + nanos plan.warmup in
        let deadline = record_from + nanos plan.duration in
        interleave double strerror protocol plan.worker record_from deadline
          (record { rate = plan.rate; start = record_from; next = 0 })
          (spawn world.thread_starts 0 plan.connections) world.turns

    unfoldable pub run_open_loop : Result OpenLoopRun
    run_open_loop = do
      world.resolved
      resolution ← world.resolution
      let (s, workers) = run_open_threads
      report_open_run plan (length workers) resolution s (merge_open_workers no_open_totals workers)
