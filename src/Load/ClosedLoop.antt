-- ===== src/Load/ClosedLoop.antt =====
-- src/load/closed_loop.hpp and src/load/closed_loop.cpp: a run of several workers. What `resolve`,
-- the clock, the threads and the connections do is an argument. The workers share nothing but the
-- time series, which they pass on one after the other here; the lock of `absorb` makes each flush
-- one step.
pub mod Consistency
use dariyanaap.Prelude.{
  ℕ, zero, suc, ◌+◌, ◌*◌, List, [], ◌∷◌, Option, none, some, Bool, if◌then◌else◌, u64, length,
}
use dariyanaap.Prelude.Text.{Bytes}
use dariyanaap.Core.Double.{Double}
use dariyanaap.Core.Errors.{Result, ok, err, ◌>>=◌, ◌>>◌}
use dariyanaap.Stats.Histogram
use dariyanaap.Stats.Histogram.{Histogram, empty}
use dariyanaap.Stats.Summary
use dariyanaap.Stats.TimeSeries.{TimeSeries}
use dariyanaap.Load.Protocol.{Protocol}
use dariyanaap.Load.RunResult
use dariyanaap.Load.RunResult.{ErrorCounts, no_errors, RunResult}
use dariyanaap.Load.Worker.{WorkerConfig, Turn, ConnectionWorker, new_worker, run, finish}

-- Durations are in milliseconds.
pub record ClosedLoopPlan : Type 0 where
  pub connections : ℕ
  pub duration : ℕ
  pub warmup : ℕ
  pub worker : WorkerConfig
  pub timeseries : Bool

pub record ClosedLoopRun : Type 0 where
  pub result : RunResult
  pub histogram : Histogram
  pub connections_requested : ℕ
  pub connections_started : ℕ
  pub connections_opened : ℕ
  pub clock_resolution : ℕ
  pub per_second : List Histogram

-- The world of one run: `resolve`, the clock at the start, the turns of each worker's thread or
-- `none` where the thread cannot be started, and `measured_resolution`.
pub record World : Type 0 where
  pub resolved : Result (Unit {0})
  pub started : ℕ
  pub threads : ℕ → Option (List Turn)
  pub resolution : Result ℕ

-- Milliseconds to nanoseconds.
abbrev pub nanos : ℕ → ℕ
nanos ms = ms * 1_000_000

-- The loop that starts the threads: it ends at the first that cannot be started.
unfoldable pub spawn : (ℕ → Option (List Turn)) → ℕ → ℕ → List (List Turn)
spawn threads i zero = []
spawn threads i (suc n) = elim (threads i) [
  | none ↦ []
  | some turns ↦ turns ∷ spawn threads (i + 1) n
]

module _ (strerror : ℕ → Bytes) (protocol : Protocol) (plan : ClosedLoopPlan) where
  -- Each thread runs its worker.
  unfoldable pub drive : ℕ → ℕ → TimeSeries → List (List Turn) → TimeSeries × List ConnectionWorker
  drive record_from deadline s [] = (s, [])
  drive record_from deadline s (turns ∷ others) =
      let (s', w) =
        run strerror protocol plan.worker record_from deadline s (new_worker plan.timeseries)
          turns in
      let (s'', ws) = drive record_from deadline s' others in (s'', w ∷ ws)

-- What the merging loop adds up.
pub record Totals : Type 0 where
  pub histogram : Histogram
  pub errors : ErrorCounts
  pub attempted : ℕ
  pub opened : ℕ

abbrev pub no_totals : Totals
no_totals = record { histogram = empty; errors = no_errors; attempted = 0; opened = 0 }

unfoldable pub add_worker : Totals → ConnectionWorker → Totals
add_worker t w = record {
  histogram = Histogram.merge t.histogram w.histogram;
  errors = RunResult.merge t.errors w.errors;
  attempted = u64 (t.attempted + w.attempted);
  opened = u64 (t.opened + w.connections_opened);
}

-- The merging loop: the last partial second is flushed, and the counts are added.
unfoldable pub merge_workers : TimeSeries → Totals → List ConnectionWorker → TimeSeries × Totals
merge_workers s t [] = (s, t)
merge_workers s t (w ∷ ws) = let (s', w') = finish s w in merge_workers s' (add_worker t w') ws

-- The end of the run: the result, from what was merged.
unfoldable pub report_run :
    Double → ClosedLoopPlan → ℕ → ℕ → TimeSeries × Totals → Result ClosedLoopRun
report_run double plan started resolution (s, t) = do
  latency ← Summary.of double t.histogram (nanos plan.duration)
  ok (record {
    result = record {
      attempted = t.attempted;
      errors = t.errors;
      latency = latency;
      duration = nanos plan.duration;
    };
    histogram = t.histogram;
    connections_requested = plan.connections;
    connections_started = started;
    connections_opened = t.opened;
    clock_resolution = resolution;
    per_second = s.seconds;
  })

module _ (strerror : ℕ → Bytes) (double : Double) (protocol : Protocol) where
  -- The threads run from the start of the process to their joins.
  unfoldable pub run_threads : ClosedLoopPlan → World → TimeSeries × List ConnectionWorker
  run_threads plan world =
      let record_from = world.started + nanos plan.warmup in
      let deadline = record_from + nanos plan.duration in
      drive strerror protocol plan record_from deadline
        (record { start = record_from; seconds = [] }) (spawn world.threads 0 plan.connections)

  unfoldable pub run_closed_loop : ClosedLoopPlan → World → Result ClosedLoopRun
  run_closed_loop plan world = do
    world.resolved
    resolution ← world.resolution
    let (s, workers) = run_threads plan world
    report_run double plan (length workers) resolution (merge_workers s no_totals workers)
