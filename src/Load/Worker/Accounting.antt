-- ===== src/Load/Worker/Accounting.antt =====
-- The counters of the worker in src/load/worker.cpp: attempts, latencies and errors.
use dariyanaap.Prelude.{
  ℕ, ◌+◌, ◌≡◌, List, [], ◌∷◌, Bool, true, false, leb, if◌then◌else◌, u64, arith, if_both, inl, inr,
  Option-cases,
}
use dariyanaap.Prelude.Text.{Bytes}
use dariyanaap.Core.Errors.{Result, ok, err}
use dariyanaap.Stats.Histogram.{Histogram, empty, record_latency}
use dariyanaap.Stats.TimeSeries.{TimeSeries}
use dariyanaap.Load.Protocol.{Protocol}
use dariyanaap.Load.Exchange.{
  Outcome, succeeded, rejected, protocol_error, read_failed, write_failed, Exchange,
  perform_request,
}
use dariyanaap.Load.RunResult.{ErrorCounts}
use dariyanaap.Load.Worker.{
  WorkerConfig, Turn, ConnectionWorker, new_worker, connecting, open_socket, counted, measure,
  connect_failed, drop_socket, request_turn, after_opening, run_turn, run, finish,
}

-- An attempt has a latency or one of the four errors that have none. The counters wrap.
abbrev pub Accounts : ℕ → Histogram → ErrorCounts → Type 0
Accounts attempted h e = attempted ≡ u64 (h.count + (e.connect + e.write + e.read + e.protocol))

abbrev pub IsBalanced : ConnectionWorker → Type 0
IsBalanced w = Accounts w.attempted w.histogram w.errors

pub count-record_latency :
    (h : Histogram) (ns : ℕ) → (record_latency h ns).count ≡ u64 (h.count + 1)
unfolding record_latency
count-record_latency h ns = ground arith

pub counted-Accounts :
    (attempted : ℕ) (o : Outcome) (elapsed : ℕ) (h : Histogram) (e : ErrorCounts)
    → Accounts attempted h e
    → Accounts (u64 (attempted + 1)) (counted o elapsed (h, e)).0 (counted o elapsed (h, e)).1
counted-Accounts attempted succeeded elapsed h e b = omega (arith, count-record_latency h elapsed)
counted-Accounts attempted rejected elapsed h e b = omega (arith, count-record_latency h elapsed)
counted-Accounts attempted Outcome.timed_out elapsed h e b =
    omega (arith, count-record_latency h elapsed)
counted-Accounts attempted protocol_error elapsed h e b = omega arith
counted-Accounts attempted read_failed elapsed h e b = omega arith
counted-Accounts attempted write_failed elapsed h e b = omega arith

measure-IsBalanced :
    (s : TimeSeries) (w : ConnectionWorker) (x : Exchange) (recorded : ℕ)
    → IsBalanced w
    → IsBalanced (measure s w x recorded).1
unfolding measure
measure-IsBalanced s w x recorded b =
    counted-Accounts w.attempted x.outcome x.elapsed w.histogram w.errors b

connect_failed-IsBalanced :
    (measuring : Bool) (w : ConnectionWorker)
    → IsBalanced w
    → IsBalanced (connect_failed measuring w)
unfolding connect_failed
connect_failed-IsBalanced false w b = b
connect_failed-IsBalanced true w b = omega arith

drop_socket-IsBalanced :
    (usable : Bool) (s : TimeSeries) (w : ConnectionWorker)
    → IsBalanced w
    → IsBalanced (drop_socket usable (s, w)).1
drop_socket-IsBalanced true s w b = b
drop_socket-IsBalanced false s w b = b

connecting-IsBalanced :
    (w : ConnectionWorker) (r timeouts : Result (Unit {0}))
    → IsBalanced w
    → IsBalanced (connecting w r timeouts).1
connecting-IsBalanced w (ok a) (ok c) b = b
connecting-IsBalanced w (ok a) (err e) b = b
connecting-IsBalanced w (err e) timeouts b = b

module _ (strerror : ℕ → Bytes) (protocol : Protocol) (config : WorkerConfig) where
  open_socket-IsBalanced :
      (w : ConnectionWorker) (turn : Turn)
      → IsBalanced w
      → IsBalanced (open_socket strerror config w turn).1
  unfolding open_socket
  open_socket-IsBalanced w turn b =
      if_both (λ (r : Bool × ConnectionWorker). IsBalanced r.1) w.has_socket _ _ (λ _. b)
        (λ _. connecting-IsBalanced w _ _ b)

  request_turn-IsBalanced :
      (measuring : Bool) (s : TimeSeries) (w : ConnectionWorker) (turn : Turn)
      → IsBalanced w
      → IsBalanced (request_turn strerror protocol measuring s w turn).1
  unfolding request_turn
  request_turn-IsBalanced measuring s w turn b =
      let x = perform_request strerror protocol turn.sent turn.ended turn.sends turn.recvs in
      let r = if measuring then measure s w x turn.recorded else (s, w) in
      drop_socket-IsBalanced x.connection_usable r.0 r.1 (
        if_both (λ (q : TimeSeries × ConnectionWorker). IsBalanced q.1) measuring _ _
          (λ _. measure-IsBalanced s w x turn.recorded b) (λ _. b))

  after_opening-IsBalanced :
      (measuring : Bool) (s : TimeSeries) (turn : Turn) (r : Bool × ConnectionWorker)
      → IsBalanced r.1
      → IsBalanced (after_opening strerror protocol measuring s turn r).1
  after_opening-IsBalanced measuring s turn (false, w) b = connect_failed-IsBalanced measuring w b
  after_opening-IsBalanced measuring s turn (true, w) b =
      request_turn-IsBalanced measuring s w turn b

  run_turn-IsBalanced :
      (record_from : ℕ) (s : TimeSeries) (w : ConnectionWorker) (turn : Turn)
      → IsBalanced w
      → IsBalanced (run_turn strerror protocol config record_from s w turn).1
  unfolding run_turn
  run_turn-IsBalanced record_from s w turn b =
      after_opening-IsBalanced _ s turn _ (open_socket-IsBalanced w turn b)

  -- However the target and the system behave, and however long the run: if each attempt that a
  -- worker has counted is a latency in its histogram or exactly one error without a latency,
  -- that is so after the run too, up to the width of the counters.
  pub run-IsBalanced :
      (record_from deadline : ℕ) (s : TimeSeries) (w : ConnectionWorker) (turns : List Turn)
      → IsBalanced w
      → IsBalanced (run strerror protocol config record_from deadline s w turns).1
  unfolding run
  run-IsBalanced record_from deadline s w [] b = b
  run-IsBalanced record_from deadline s w (turn ∷ turns) b =
      let r = run_turn strerror protocol config record_from s w turn in
      if_both (λ (q : TimeSeries × ConnectionWorker). IsBalanced q.1) (leb deadline turn.now) _ _
        (λ _. b)
        (λ _.
          run-IsBalanced record_from deadline r.0 r.1 turns
            (run_turn-IsBalanced record_from s w turn b))

pub new_worker-IsBalanced : (with_series : Bool) → IsBalanced (new_worker with_series)
unfolding new_worker empty
new_worker-IsBalanced with_series = omega arith

pub finish-IsBalanced :
    (s : TimeSeries) (w : ConnectionWorker) → IsBalanced w → IsBalanced (finish s w).1
unfolding finish
finish-IsBalanced s w b = elim (Option-cases w.series) [
  | inl e ↦ ground arith
  | inr (writer, e) ↦ ground arith
]
