-- ===== src/Load/OpenLoop/Balance.antt =====
-- The accounting of an open-loop run of src/load/open_loop.cpp.
use dariyanaap.Prelude.{
  ℕ, zero, suc, ◌+◌, ◌-◌, ◌≡◌, refl, List, [], ◌∷◌, none, Bool, true, false, leb, ◌==◌,
  if◌then◌else◌, u64, arith, Bool-cases, inl, inr, if_both,
}
use dariyanaap.Prelude.Text.{Bytes}
use dariyanaap.Core.Double.{Double}
use dariyanaap.Core.Errors.{Result, ok, err}
use dariyanaap.Stats.Histogram
use dariyanaap.Stats.Histogram.{Histogram, empty, record_latency}
use dariyanaap.Stats.Summary.Ladder.{of-empty, of-full}
use dariyanaap.Load.Protocol.{Protocol}
use dariyanaap.Load.Exchange.{
  Outcome, succeeded, rejected, protocol_error, read_failed, write_failed, Exchange,
  perform_request,
}
use dariyanaap.Load.RunResult
use dariyanaap.Load.RunResult.{ErrorCounts, consistent}
use dariyanaap.Load.Schedule.{Schedule, claim}
use dariyanaap.Load.Worker.{WorkerConfig, counted}
use dariyanaap.Load.Worker.Accounting.{Accounts, count-record_latency, counted-Accounts}
use dariyanaap.Load.ClosedLoop.{nanos}
use dariyanaap.Load.ClosedLoop.Consistency.{Accounts-consistent}
use dariyanaap.Load.OpenLoop.{
  OpenTurn, OpenLoopWorker, new_worker, connecting, open_socket, connect_failed, measure,
  drop_socket, request_turn, claim_turn, after_opening, run_turn, turn_of, interleave,
}
use dariyanaap.Load.OpenLoop.Run.{
  OpenWorld, spawn, OpenTotals, no_open_totals, add_open_worker, merge_open_workers, OpenLoopPlan,
  OpenLoopRun, report_open_run, run_open_threads, run_open_loop,
}

-- The attempts are accounted for twice: by what came of them, and by their lateness, which is in
-- each of the three histograms unless there was no connection.
abbrev pub Tallies : ℕ → Histogram → Histogram → Histogram → Histogram → ErrorCounts → Type 0
Tallies attempted h lag wait rig e =
    Accounts attempted h e
    × (attempted ≡ u64 (lag.count + e.connect))
    × (wait.count ≡ lag.count)
    × (rig.count ≡ lag.count)

abbrev IsBalanced : OpenLoopWorker → Type 0
IsBalanced w = Tallies w.attempted w.histogram w.lag w.connection_wait w.rig_lag w.errors

counted-connect :
    (o : Outcome) (elapsed : ℕ) (h : Histogram) (e : ErrorCounts)
    → (counted o elapsed (h, e)).1.connect ≡ e.connect
counted-connect succeeded elapsed h e = refl
counted-connect rejected elapsed h e = refl
counted-connect Outcome.timed_out elapsed h e = refl
counted-connect protocol_error elapsed h e = refl
counted-connect read_failed elapsed h e = refl
counted-connect write_failed elapsed h e = refl

measure-IsBalanced :
    (w : OpenLoopWorker) (due : ℕ) (turn : OpenTurn) (x : Exchange)
    → IsBalanced w
    → IsBalanced (measure w due turn x)
unfolding measure
measure-IsBalanced w due turn x (a, l, c, r) =
    let from_due = turn.sending + x.elapsed - due in
    let late = turn.sending - due in
    let waited = turn.free_at - due in
    let one = count-record_latency w.lag late in
    (
      counted-Accounts w.attempted x.outcome from_due w.histogram w.errors a,
      omega (arith, one, counted-connect x.outcome from_due w.histogram w.errors),
      omega (arith, one, count-record_latency w.connection_wait waited),
      omega (arith, one, count-record_latency w.rig_lag (late - waited)),
    )

connect_failed-IsBalanced :
    (measuring : Bool) (w : OpenLoopWorker) → IsBalanced w → IsBalanced (connect_failed measuring w)
unfolding connect_failed
connect_failed-IsBalanced false w b = b
connect_failed-IsBalanced true w (a, l, c, r) = (omega arith, omega arith, c, r)

drop_socket-IsBalanced :
    (usable : Bool) (w : OpenLoopWorker) → IsBalanced w → IsBalanced (drop_socket usable w)
drop_socket-IsBalanced true w b = b
drop_socket-IsBalanced false w b = b

connecting-IsBalanced :
    (w : OpenLoopWorker) (r timeouts : Result (Unit {0}))
    → IsBalanced w
    → IsBalanced (connecting w r timeouts).1
connecting-IsBalanced w (ok a) (ok c) b = b
connecting-IsBalanced w (ok a) (err e) b = b
connecting-IsBalanced w (err e) timeouts b = b

abbrev AllBalanced : List OpenLoopWorker → Type 0
AllBalanced [] = Unit
AllBalanced (w ∷ ws) = IsBalanced w × AllBalanced ws

module _ (double : Double) (strerror : ℕ → Bytes) (protocol : Protocol)
    (record_from deadline : ℕ) where
  open_socket-IsBalanced :
      (config : WorkerConfig) (w : OpenLoopWorker) (turn : OpenTurn)
      → IsBalanced w
      → IsBalanced (open_socket strerror config w turn).1
  unfolding open_socket
  open_socket-IsBalanced config w turn b =
      if_both (λ (r : Bool × OpenLoopWorker). IsBalanced r.1) w.has_socket _ _ (λ _. b)
        (λ _. connecting-IsBalanced w _ _ b)

  request_turn-IsBalanced :
      (due : ℕ) (w : OpenLoopWorker) (turn : OpenTurn)
      → IsBalanced w
      → IsBalanced (request_turn strerror protocol record_from due w turn)
  unfolding request_turn
  request_turn-IsBalanced due w turn b =
      let x = perform_request strerror protocol turn.sent turn.ended turn.sends turn.recvs in
      drop_socket-IsBalanced x.connection_usable
        (if leb record_from due then measure w due turn x else w)
        (if_both IsBalanced (leb record_from due) _ _ (λ _. measure-IsBalanced w due turn x b)
          (λ _. b))

  claim_turn-IsBalanced :
      (s : Schedule double) (w : OpenLoopWorker) (turn : OpenTurn)
      → IsBalanced w
      → IsBalanced (claim_turn double strerror protocol record_from deadline s w turn).1
  unfolding claim_turn
  claim_turn-IsBalanced s w turn b =
      let slot = (claim double s).0 in
      if_both (λ (r : Schedule double × OpenLoopWorker). IsBalanced r.1) (leb deadline slot.due) _ _
        (λ _. b) (λ _. request_turn-IsBalanced slot.due w turn b)

  after_opening-IsBalanced :
      (s : Schedule double) (turn : OpenTurn) (r : Bool × OpenLoopWorker)
      → IsBalanced r.1
      → IsBalanced (after_opening double strerror protocol record_from deadline s turn r).1
  after_opening-IsBalanced s turn (false, w) b = connect_failed-IsBalanced _ w b
  after_opening-IsBalanced s turn (true, w) b = claim_turn-IsBalanced s w turn b

  run_turn-IsBalanced :
      (config : WorkerConfig) (s : Schedule double) (w : OpenLoopWorker) (turn : OpenTurn)
      → IsBalanced w
      → IsBalanced (run_turn double strerror protocol config record_from deadline s w turn).1
  unfolding run_turn
  run_turn-IsBalanced config s w turn b =
      if_both (λ (r : Schedule double × OpenLoopWorker). IsBalanced r.1) (leb deadline turn.now) _ _
        (λ _. b) (λ _. after_opening-IsBalanced s turn _ (open_socket-IsBalanced config w turn b))

  turn_of-AllBalanced :
      (config : WorkerConfig) (s : Schedule double) (ws : List OpenLoopWorker) (i : ℕ)
      (turn : OpenTurn)
      → AllBalanced ws
      → AllBalanced (turn_of double strerror protocol config record_from deadline s ws i turn).1
  unfolding turn_of
  turn_of-AllBalanced config s [] i turn b = tt
  turn_of-AllBalanced config s (w ∷ ws) (suc i) turn (b, bs) =
      (b, turn_of-AllBalanced config s ws i turn bs)
  turn_of-AllBalanced config s (w ∷ ws) zero turn (b, bs) =
      if_both (λ (r : Schedule double × List OpenLoopWorker). AllBalanced r.1) w.running _ _
        (λ _. (run_turn-IsBalanced config s w turn b, bs)) (λ _. (b, bs))

  interleave-AllBalanced :
      (config : WorkerConfig) (s : Schedule double) (ws : List OpenLoopWorker)
      (turns : List (ℕ × OpenTurn))
      → AllBalanced ws
      → AllBalanced (interleave double strerror protocol config record_from deadline s ws turns).1
  unfolding interleave
  interleave-AllBalanced config s ws [] b = b
  interleave-AllBalanced config s ws ((i, turn) ∷ turns) b =
      let r = turn_of double strerror protocol config record_from deadline s ws i turn in
      interleave-AllBalanced config r.0 r.1 turns (turn_of-AllBalanced config s ws i turn b)

spawn-AllBalanced : (starts : ℕ → Bool) (i n : ℕ) → AllBalanced (spawn starts i n)
unfolding spawn new_worker empty
spawn-AllBalanced starts i zero = tt
spawn-AllBalanced starts i (suc n) =
    if_both AllBalanced (starts i) _ _
      (λ _. ((omega arith, omega arith, refl, refl), spawn-AllBalanced starts (i + 1) n)) (λ _. tt)

abbrev TotalsBalanced : OpenTotals → Type 0
TotalsBalanced t =
    Tallies t.attempted t.histogram t.schedule_lag t.connection_wait t.rig_lag t.errors

merge_open_workers-TotalsBalanced :
    (t : OpenTotals) (ws : List OpenLoopWorker)
    → TotalsBalanced t
    → AllBalanced ws
    → TotalsBalanced (merge_open_workers t ws)
unfolding merge_open_workers add_open_worker Histogram.merge RunResult.merge
merge_open_workers-TotalsBalanced t [] ht hs = ht
merge_open_workers-TotalsBalanced t (w ∷ ws) (a, l, c, r) ((a', l', c', r'), hs) =
    merge_open_workers-TotalsBalanced (add_open_worker t w) ws
      (omega arith, omega arith, omega arith, omega arith) hs

-- A result to which the counts of its run add up.
abbrev pub IsConsistentOpenRun : {double : Double} → Result (OpenLoopRun double) → Type 0
IsConsistentOpenRun (ok r) =
    (consistent r.result ≡ true)
    × (r.result.attempted ≡ u64 (r.schedule_lag.count + r.result.errors.connect))
    × (r.connection_wait.count ≡ r.schedule_lag.count)
    × (r.rig_lag.count ≡ r.schedule_lag.count)
IsConsistentOpenRun (err e) = ⊥

module _ (double : Double) where
  report_open_run-IsConsistentOpenRun :
      (plan : OpenLoopPlan double) (started resolution : ℕ) (s : Schedule double) (t : OpenTotals)
      → TotalsBalanced t
      → IsConsistentOpenRun (report_open_run double plan started resolution s t)
  unfolding report_open_run
  report_open_run-IsConsistentOpenRun plan started resolution s t (a, l, c, r) =
      elim (Bool-cases (t.histogram.count == 0)) [
        | inl z ↦
            let e = of-empty double t.histogram (nanos plan.duration) z in
            rw e (Accounts-consistent double t.histogram t.errors t.attempted _ none a e, l, c, r)
        | inr z ↦
            let e = of-full double t.histogram (nanos plan.duration) z in
            rw e (Accounts-consistent double t.histogram t.errors t.attempted _ _ a e, l, c, r)
      ]

  -- An open-loop run whose target resolves and whose clock ticks returns, and in whatever order
  -- the workers claim their slots, its result is consistent, and the attempts other than the
  -- failed connections are in each of the three histograms of the lateness, up to the width of
  -- the counters.
  pub run_open_loop-IsConsistentOpenRun :
      (strerror : ℕ → Bytes) (protocol : Protocol) (plan : OpenLoopPlan double) (world : OpenWorld)
      (resolution : ℕ)
      → world.resolved ≡ ok tt
      → world.resolution ≡ ok resolution
      → IsConsistentOpenRun (run_open_loop double strerror protocol plan world)
  unfolding run_open_loop run_open_threads no_open_totals empty
  run_open_loop-IsConsistentOpenRun strerror protocol plan world resolution hr hc =
      rw (hr, hc)
        (report_open_run-IsConsistentOpenRun plan _ resolution _ _ (
          merge_open_workers-TotalsBalanced no_open_totals _ (omega arith, omega arith, refl, refl)
            (interleave-AllBalanced double strerror protocol _ _ plan.worker _ _ world.turns
              (spawn-AllBalanced world.thread_starts 0 plan.connections))))
