-- ===== src/Load/OpenLoop.antt =====
-- src/load/open_loop.hpp and src/load/open_loop.cpp: a run of workers that share one schedule.
-- A worker does one turn of its loop at a time, and the only step that others see in it is the
-- claim of a slot: so the run of the threads is a list of turns, each with the number of the worker
-- that has it, in the order of their claims. An instant is a number of nanoseconds; a difference
-- that the code clamps at zero is the subtraction of native numbers.
mod Tests
pub mod Run
pub mod Split
pub mod Slots
pub mod Balance
use dariyanaap.Prelude.{
  ℕ, zero, suc, ◌+◌, ◌-◌, ◌*◌, List, [], ◌∷◌, Option, none, some, Bool, true, false, not, leb, ltb,
  ◌==◌, if◌then◌else◌, u64, length,
}
use dariyanaap.Prelude.Text.{Bytes}
use dariyanaap.Core.Double.{Double}
use dariyanaap.Core.Errors.{Result, ok, err, ◌>>=◌, ◌>>◌}
use dariyanaap.Core.Units.{Rate, interval}
use dariyanaap.Core.Socket.{Attempt, Sys, Send, Recv, connect_any, set_timeouts}
use dariyanaap.Stats.Histogram
use dariyanaap.Stats.Histogram.{Histogram, empty, record_latency, percentile}
use dariyanaap.Stats.Summary
use dariyanaap.Load.Protocol.{Protocol}
use dariyanaap.Load.Exchange.{
  Outcome, succeeded, rejected, protocol_error, read_failed, write_failed, Exchange,
  perform_request,
}
use dariyanaap.Load.RunResult
use dariyanaap.Load.RunResult.{ErrorCounts, no_errors, RunResult}
use dariyanaap.Load.Schedule.{Schedule, Slot, claim, claimed}
use dariyanaap.Load.Worker.{WorkerConfig, counted}

-- What the system does in one turn: the clock at its start, the attempts to connect with the clock
-- behind them, the clock when the worker is free, and when it sends; the request's own readings.
pub record OpenTurn : Type 0 where
  pub now : ℕ
  pub attempts : List Attempt
  pub receive_option : Sys
  pub send_option : Sys
  pub failed_at : ℕ
  pub free_at : ℕ
  pub sending : ℕ
  pub sent : ℕ
  pub sends : List Send
  pub recvs : List Recv
  pub ended : ℕ

-- `running` is false once `run` has returned.
pub record OpenLoopWorker : Type 0 where
  pub histogram : Histogram
  pub lag : Histogram
  pub connection_wait : Histogram
  pub rig_lag : Histogram
  pub errors : ErrorCounts
  pub attempted : ℕ
  pub connections_opened : ℕ
  pub has_socket : Bool
  pub running : Bool

unfoldable pub new_worker : OpenLoopWorker
new_worker = record {
  histogram = empty;
  lag = empty;
  connection_wait = empty;
  rig_lag = empty;
  errors = no_errors;
  attempted = 0;
  connections_opened = 0;
  has_socket = false;
  running = true;
}

abbrev pub stop : OpenLoopWorker → OpenLoopWorker
stop w = record w { running = false }

-- Behind `connect_any` the socket is kept, also where setting its timeouts then throws.
abbrev pub with_timeouts : OpenLoopWorker → Result (Unit {0}) → Bool × OpenLoopWorker
with_timeouts w (ok _) =
    (true, record w { has_socket = true; connections_opened = u64 (w.connections_opened + 1) })
with_timeouts w (err e) = (false, record w { has_socket = true })

abbrev pub connecting :
    OpenLoopWorker → Result (Unit {0}) → Result (Unit {0}) → Bool × OpenLoopWorker
connecting w (ok _) timeouts = with_timeouts w timeouts
connecting w (err e) timeouts = (false, w)

-- The `try` block that opens a connection, where there is none: whether the turn goes on.
unfoldable pub open_socket :
    (ℕ → Bytes) → WorkerConfig → OpenLoopWorker → OpenTurn → Bool × OpenLoopWorker
open_socket strerror config w turn =
    if w.has_socket
    then (true, w)
    else connecting w (connect_any strerror config.connect_timeout turn.attempts)
        (set_timeouts strerror turn.receive_option turn.send_option)

-- The handler.
unfoldable pub connect_failed : Bool → OpenLoopWorker → OpenLoopWorker
connect_failed false w = w
connect_failed true w = record w {
  attempted = u64 (w.attempted + 1);
  errors = record (w.errors) { connect = u64 (w.errors.connect + 1) };
}

-- A request of a slot that was due at `due`: its lateness, split by cause, and its latency, which
-- starts at `due`.
unfoldable pub measure : OpenLoopWorker → ℕ → OpenTurn → Exchange → OpenLoopWorker
measure w due turn x =
    let late = turn.sending - due in
    let waited = turn.free_at - due in
    let from_due = turn.sending + x.elapsed - due in
    let (h, e) = counted x.outcome from_due (w.histogram, w.errors) in
    record w {
      attempted = u64 (w.attempted + 1);
      lag = record_latency w.lag late;
      connection_wait = record_latency w.connection_wait waited;
      rig_lag = record_latency w.rig_lag (late - waited);
      histogram = h;
      errors = e;
    }

abbrev pub drop_socket : Bool → OpenLoopWorker → OpenLoopWorker
drop_socket true w = w
drop_socket false w = record w { has_socket = false }

module _ (strerror : ℕ → Bytes) (protocol : Protocol) where
  -- The turn from the request on.
  unfoldable pub request_turn : ℕ → ℕ → OpenLoopWorker → OpenTurn → OpenLoopWorker
  unfolding measure
  request_turn record_from due w turn =
      let x = perform_request strerror protocol turn.sent turn.ended turn.sends turn.recvs in
      drop_socket x.connection_usable (if leb record_from due then measure w due turn x else w)

module _ (double : Double) (strerror : ℕ → Bytes) (protocol : Protocol) where
  -- The turn from the claim on.
  unfoldable pub claim_turn :
      ℕ → ℕ → Schedule double → OpenLoopWorker → OpenTurn → Schedule double × OpenLoopWorker
  claim_turn record_from deadline s w turn =
      let (slot, s') = claim double s in
      if leb deadline slot.due
      then (s', stop w)
      else (s', request_turn strerror protocol record_from slot.due w turn)

  abbrev pub after_opening :
      ℕ → ℕ → Schedule double → OpenTurn → Bool × OpenLoopWorker → Schedule double × OpenLoopWorker
  after_opening record_from deadline s turn (false, w) =
      (s, connect_failed (leb record_from turn.failed_at) w)
  after_opening record_from deadline s turn (true, w) = claim_turn record_from deadline s w turn

  -- One turn of the loop of `run`.
  unfoldable pub run_turn :
      WorkerConfig
      → ℕ
      → ℕ
      → Schedule double
      → OpenLoopWorker
      → OpenTurn
      → Schedule double × OpenLoopWorker
  run_turn config record_from deadline s w turn =
      let rest = after_opening record_from deadline s turn (open_socket strerror config w turn) in
      if leb deadline turn.now then (s, stop w) else rest

  -- The turn of worker number `i`; a worker that has returned does nothing.
  unfoldable pub turn_of :
      WorkerConfig
      → ℕ
      → ℕ
      → Schedule double
      → List OpenLoopWorker
      → ℕ
      → OpenTurn
      → Schedule double × List OpenLoopWorker
  turn_of config record_from deadline s [] i turn = (s, [])
  turn_of config record_from deadline s (w ∷ ws) (suc i) turn =
      let (s', ws') = turn_of config record_from deadline s ws i turn in (s', w ∷ ws')
  turn_of config record_from deadline s (w ∷ ws) zero turn =
      let (s', w') = run_turn config record_from deadline s w turn in
      if w.running then (s', w' ∷ ws) else (s, w ∷ ws)

  -- All the threads, in the order of the turns.
  unfoldable pub interleave :
      WorkerConfig
      → ℕ
      → ℕ
      → Schedule double
      → List OpenLoopWorker
      → List (ℕ × OpenTurn)
      → Schedule double × List OpenLoopWorker
  interleave config record_from deadline s ws [] = (s, ws)
  interleave config record_from deadline s ws ((i, turn) ∷ turns) =
      let (s', ws') = turn_of config record_from deadline s ws i turn in
      interleave config record_from deadline s' ws' turns
