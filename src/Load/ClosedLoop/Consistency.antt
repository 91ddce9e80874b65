-- ===== src/Load/ClosedLoop/Consistency.antt =====
-- The accounting of a closed-loop run of src/load/closed_loop.cpp.
use dariyanaap.Prelude.{
  ℕ, ◌≡◌, List, [], ◌∷◌, Option, none, some, true, ◌==◌, arith, Bool-cases, inl, inr,
}
use dariyanaap.Prelude.Text.{Bytes}
use dariyanaap.Core.Double.{Double}
use dariyanaap.Core.Errors.{Result, ok, err}
use dariyanaap.Stats.Histogram
use dariyanaap.Stats.Histogram.{Histogram, empty}
use dariyanaap.Stats.Summary
use dariyanaap.Stats.Summary.{Summary}
use dariyanaap.Stats.Summary.Ladder.{of-empty, of-full, summary}
use dariyanaap.Stats.TimeSeries.{TimeSeries}
use dariyanaap.Load.Protocol.{Protocol}
use dariyanaap.Load.RunResult
use dariyanaap.Load.RunResult.{ErrorCounts, RunResult, samples_of, consistent}
use dariyanaap.Load.Worker.{Turn, ConnectionWorker, new_worker, run, finish}
use dariyanaap.Load.Worker.Accounting.{
  Accounts, IsBalanced, new_worker-IsBalanced, run-IsBalanced, finish-IsBalanced,
}
use dariyanaap.Load.ClosedLoop.{
  ClosedLoopPlan, ClosedLoopRun, World, nanos, spawn, drive, Totals, no_totals, add_worker,
  merge_workers, report_run, run_threads, run_closed_loop,
}

abbrev AllBalanced : List ConnectionWorker → Type 0
AllBalanced [] = Unit
AllBalanced (w ∷ ws) = IsBalanced w × AllBalanced ws

abbrev TotalsBalanced : Totals → Type 0
TotalsBalanced t = Accounts t.attempted t.histogram t.errors

drive-AllBalanced :
    (strerror : ℕ → Bytes) (protocol : Protocol) (plan : ClosedLoopPlan) (record_from deadline : ℕ)
    (s : TimeSeries) (threads : List (List Turn))
    → AllBalanced (drive strerror protocol plan record_from deadline s threads).1
unfolding drive
drive-AllBalanced strerror protocol plan record_from deadline s [] = tt
drive-AllBalanced strerror protocol plan record_from deadline s (turns ∷ others) = (
  run-IsBalanced strerror protocol plan.worker record_from deadline s (new_worker plan.timeseries)
      turns (new_worker-IsBalanced plan.timeseries),
  drive-AllBalanced strerror protocol plan record_from deadline
      (run strerror protocol plan.worker record_from deadline s (new_worker plan.timeseries)
        turns).0
      others,
)

add_worker-TotalsBalanced :
    (t : Totals) (w : ConnectionWorker)
    → TotalsBalanced t
    → IsBalanced w
    → TotalsBalanced (add_worker t w)
unfolding add_worker Histogram.merge RunResult.merge
add_worker-TotalsBalanced t w ht hw = omega arith

merge_workers-TotalsBalanced :
    (s : TimeSeries) (t : Totals) (ws : List ConnectionWorker)
    → TotalsBalanced t
    → AllBalanced ws
    → TotalsBalanced (merge_workers s t ws).1
unfolding merge_workers
merge_workers-TotalsBalanced s t [] ht hs = ht
merge_workers-TotalsBalanced s t (w ∷ ws) ht (hw, hs) =
    merge_workers-TotalsBalanced (finish s w).0 (add_worker t (finish s w).1) ws
      (add_worker-TotalsBalanced t (finish s w).1 ht (finish-IsBalanced s w hw)) hs

no_totals-TotalsBalanced : TotalsBalanced no_totals
unfolding empty
no_totals-TotalsBalanced = omega arith

-- A result over a histogram whose counts account for the attempts.
abbrev result_of : ℕ → ErrorCounts → Option Summary → ℕ → RunResult
result_of attempted errors latency duration = record {
  attempted = attempted;
  errors = errors;
  latency = latency;
  duration = duration;
}

pub of-samples :
    (double : Double) (h : Histogram) (duration : ℕ) (latency : Option Summary)
    → Summary.of double h duration ≡ ok latency
    → samples_of latency ≡ h.count
of-samples double h duration latency e = elim (Bool-cases (h.count == 0)) [
  | inl z ↦ let q : latency ≡ none = cc (of-empty double h duration z) in rw q (ground arith)
  | inr z ↦
      let q : latency ≡ some (summary double h duration) = cc (of-full double h duration z) in rw q
]

pub Accounts-consistent :
    (double : Double) (h : Histogram) (errors : ErrorCounts) (attempted duration : ℕ)
    (latency : Option Summary)
    → Accounts attempted h errors
    → Summary.of double h duration ≡ ok latency
    → consistent (result_of attempted errors latency duration) ≡ true
unfolding consistent
Accounts-consistent double h errors attempted duration latency b e =
    ground (arith, of-samples double h duration latency e)

-- A result to which the counts of its run add up.
abbrev pub IsConsistentRun : Result ClosedLoopRun → Type 0
IsConsistentRun (ok r) = consistent r.result ≡ true
IsConsistentRun (err e) = ⊥

report_run-IsConsistentRun :
    (double : Double) (plan : ClosedLoopPlan) (started resolution : ℕ) (s : TimeSeries) (t : Totals)
    → TotalsBalanced t
    → IsConsistentRun (report_run double plan started resolution (s, t))
unfolding report_run
report_run-IsConsistentRun double plan started resolution s t b =
    elim (Bool-cases (t.histogram.count == 0)) [
      | inl z ↦ rw (of-empty double t.histogram (nanos plan.duration) z) (
          Accounts-consistent double t.histogram t.errors t.attempted _ none b
            (of-empty double t.histogram (nanos plan.duration) z))
      | inr z ↦ rw (of-full double t.histogram (nanos plan.duration) z) (
          Accounts-consistent double t.histogram t.errors t.attempted _ _ b
            (of-full double t.histogram (nanos plan.duration) z))
    ]

-- A closed-loop run whose target resolves and whose clock ticks returns, and whatever the
-- target, the network and the threads do, its result is consistent: the attempts are as many as
-- the timed ones and the errors without a time.
pub run_closed_loop-IsConsistentRun :
    (strerror : ℕ → Bytes) (double : Double) (protocol : Protocol) (plan : ClosedLoopPlan)
    (world : World) (resolution : ℕ)
    → world.resolved ≡ ok tt
    → world.resolution ≡ ok resolution
    → IsConsistentRun (run_closed_loop strerror double protocol plan world)
unfolding run_closed_loop run_threads
run_closed_loop-IsConsistentRun strerror double protocol plan world resolution hr hc =
    rw (hr, hc)
      (report_run-IsConsistentRun double plan _ resolution _ _ (
        merge_workers-TotalsBalanced _ no_totals _ no_totals-TotalsBalanced (
          drive-AllBalanced strerror protocol plan _ _ _ (spawn world.threads 0 plan.connections))))
