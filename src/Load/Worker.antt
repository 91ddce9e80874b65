-- ===== src/Load/Worker.antt =====
-- src/load/worker.hpp and src/load/worker.cpp: one connection driven closed-loop, with the shared
-- time series passed along. What the system does in one turn of the loop is an argument, and the
-- run is observed for as many turns as the list has. Sleeping has no effect on the counts.
pub mod Accounting
use dariyanaap.Prelude.{
  ℕ, ◌+◌, List, [], ◌∷◌, Option, none, some, Bool, true, false, leb, if◌then◌else◌, u64,
}
use dariyanaap.Prelude.Text.{Bytes}
use dariyanaap.Core.Errors.{Result, ok, err}
use dariyanaap.Core.Socket.{Attempt, Sys, Send, Recv, connect_any, set_timeouts}
use dariyanaap.Stats.Histogram.{Histogram, empty, record_latency}
use dariyanaap.Stats.TimeSeries
use dariyanaap.Stats.TimeSeries.{TimeSeries, Writer}
use dariyanaap.Load.Protocol.{Protocol}
use dariyanaap.Load.Exchange.{
  Outcome, succeeded, rejected, protocol_error, read_failed, write_failed, Exchange,
  perform_request,
}
use dariyanaap.Load.RunResult.{ErrorCounts, no_errors}

pub record WorkerConfig : Type 0 where
  pub connect_timeout : ℕ
  pub read_timeout : ℕ
  pub write_timeout : ℕ
  pub reconnect_delay : ℕ
  pub read_buffer_bytes : ℕ

-- What the system does in one turn: the clock at its start, the attempts to connect, the two
-- socket options, the request with the clock before and after it, and the clock for the series.
pub record Turn : Type 0 where
  pub now : ℕ
  pub attempts : List Attempt
  pub receive_option : Sys
  pub send_option : Sys
  pub sent : ℕ
  pub sends : List Send
  pub recvs : List Recv
  pub ended : ℕ
  pub recorded : ℕ

-- `has_socket` is the local `optional<Socket>` of `run`.
pub record ConnectionWorker : Type 0 where
  pub histogram : Histogram
  pub series : Option Writer
  pub errors : ErrorCounts
  pub attempted : ℕ
  pub connections_opened : ℕ
  pub has_socket : Bool

unfoldable pub new_worker : Bool → ConnectionWorker
new_worker with_series = record {
  histogram = empty;
  series = if with_series then some TimeSeries.writer else none;
  errors = no_errors;
  attempted = 0;
  connections_opened = 0;
  has_socket = false;
}

-- Behind `connect_any` the socket is kept, also where setting its timeouts then throws.
abbrev pub with_timeouts : ConnectionWorker → Result (Unit {0}) → Bool × ConnectionWorker
with_timeouts w (ok _) =
    (true, record w { has_socket = true; connections_opened = u64 (w.connections_opened + 1) })
with_timeouts w (err e) = (false, record w { has_socket = true })

abbrev pub connecting :
    ConnectionWorker → Result (Unit {0}) → Result (Unit {0}) → Bool × ConnectionWorker
connecting w (ok _) timeouts = with_timeouts w timeouts
connecting w (err e) timeouts = (false, w)

-- The `try` block that opens a connection, where there is none: whether the request follows.
unfoldable pub open_socket :
    (ℕ → Bytes) → WorkerConfig → ConnectionWorker → Turn → Bool × ConnectionWorker
open_socket strerror config w turn =
    if w.has_socket
    then (true, w)
    else connecting w (connect_any strerror config.connect_timeout turn.attempts)
        (set_timeouts strerror turn.receive_option turn.send_option)

abbrev pub is_timed : Outcome → Bool
is_timed succeeded = true
is_timed rejected = true
is_timed Outcome.timed_out = true
is_timed protocol_error = false
is_timed read_failed = false
is_timed write_failed = false

-- The `switch` over the outcome: the histogram and the counters.
abbrev pub counted : Outcome → ℕ → Histogram × ErrorCounts → Histogram × ErrorCounts
counted succeeded elapsed (h, e) = (record_latency h elapsed, e)
counted rejected elapsed (h, e) =
    (record_latency h elapsed, record e { rejected = u64 (e.rejected + 1) })
counted Outcome.timed_out elapsed (h, e) =
    (record_latency h elapsed, record e { timeout = u64 (e.timeout + 1) })
counted protocol_error elapsed (h, e) = (h, record e { protocol = u64 (e.protocol + 1) })
counted read_failed elapsed (h, e) = (h, record e { read = u64 (e.read + 1) })
counted write_failed elapsed (h, e) = (h, record e { write = u64 (e.write + 1) })

-- `if (series_ && …) series_->record(now, elapsed)`
abbrev pub in_series : Bool → ℕ → ℕ → TimeSeries → Option Writer → TimeSeries × Option Writer
in_series wanted now elapsed s none = (s, none)
in_series false now elapsed s (some w) = (s, some w)
in_series true now elapsed s (some w) =
    let (s', w') = TimeSeries.record_at s w now elapsed in (s', some w')

-- A request that is measured.
unfoldable pub measure :
    TimeSeries → ConnectionWorker → Exchange → ℕ → TimeSeries × ConnectionWorker
measure s w x recorded =
    let (s', series) = in_series (is_timed x.outcome) recorded x.elapsed s w.series in
    let (h, e) = counted x.outcome x.elapsed (w.histogram, w.errors) in
    (s', record w { histogram = h; series = series; errors = e; attempted = u64 (w.attempted + 1) })

-- A connection that could not be opened.
unfoldable pub connect_failed : Bool → ConnectionWorker → ConnectionWorker
connect_failed false w = w
connect_failed true w = record w {
  attempted = u64 (w.attempted + 1);
  errors = record (w.errors) { connect = u64 (w.errors.connect + 1) };
}

-- `if (!result.connection_usable) socket.reset()`
abbrev pub drop_socket : Bool → TimeSeries × ConnectionWorker → TimeSeries × ConnectionWorker
drop_socket true (s, w) = (s, w)
drop_socket false (s, w) = (s, record w { has_socket = false })

-- The request of one turn.
unfoldable pub request_turn :
    (ℕ → Bytes)
    → Protocol
    → Bool
    → TimeSeries
    → ConnectionWorker
    → Turn
    → TimeSeries × ConnectionWorker
unfolding measure
request_turn strerror protocol measuring s w turn =
    let x = perform_request strerror protocol turn.sent turn.ended turn.sends turn.recvs in
    drop_socket x.connection_usable (if measuring then measure s w x turn.recorded else (s, w))

abbrev after_opening :
    (ℕ → Bytes)
    → Protocol
    → Bool
    → TimeSeries
    → Turn
    → Bool × ConnectionWorker
    → TimeSeries × ConnectionWorker
after_opening strerror protocol measuring s turn (false, w) = (s, connect_failed measuring w)
after_opening strerror protocol measuring s turn (true, w) =
    request_turn strerror protocol measuring s w turn

-- One turn of the loop of `run` that begins before the deadline.
unfoldable pub run_turn :
    (ℕ → Bytes)
    → Protocol
    → WorkerConfig
    → ℕ
    → TimeSeries
    → ConnectionWorker
    → Turn
    → TimeSeries × ConnectionWorker
run_turn strerror protocol config record_from s w turn =
    after_opening strerror protocol (leb record_from turn.now) s turn
      (open_socket strerror config w turn)

unfoldable pub run :
    (ℕ → Bytes)
    → Protocol
    → WorkerConfig
    → ℕ
    → ℕ
    → TimeSeries
    → ConnectionWorker
    → List Turn
    → TimeSeries × ConnectionWorker
run strerror protocol config record_from deadline s w [] = (s, w)
run strerror protocol config record_from deadline s w (turn ∷ turns) =
    let (s', w') = run_turn strerror protocol config record_from s w turn in
    let rest = run strerror protocol config record_from deadline s' w' turns in
    if leb deadline turn.now then (s, w) else rest

unfoldable pub finish : TimeSeries → ConnectionWorker → TimeSeries × ConnectionWorker
finish s w = elim w.series [
  | none ↦ (s, w)
  | some writer ↦
      let (s', writer') = TimeSeries.flush s writer in (s', record w { series = some writer' })
]
