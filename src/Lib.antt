-- ===== src/Lib.antt =====
-- dariyanaap, a load-testing rig: a verification library for its C++ sources.
--
-- The program opens connections to a target, drives them with requests, counts what comes back by
-- outcome, and keeps the latencies in a histogram of fixed size, from which it prints percentiles.
-- The lowest part (src/core) has the errors, the rates and the socket; src/stats has the histogram,
-- its slots, the summary and the series by second; src/load has the protocols, one request and its
-- reply, the worker of one connection, and the runs of several of them: closed-loop, each as fast as
-- the replies come, and open-loop, on one schedule that they share. src/fault is linked into the
-- targets: knobs that delay, drop, hang or cut traffic, set from the environment or over a socket.
--
--   Prelude      names of the libraries, tests on numbers, lists, counting, and byte texts
--   Core         src/core: Errors, Units (Rate), Endpoint, Flags, Clock, Address, Socket
--                (connect, connect_any, read_some, write_all), Descriptors (the class Socket as the
--                owner of a descriptor), Listener; Double is the parameter that stands for C++'s double
--   Stats        src/stats: Buckets (index_of, slot_low, slot_high), Histogram (record is called
--                record_latency here, merge, percentile), Summary (of), TimeSeries (record is
--                record_at), Csv
--   Load         src/load: Protocol, RawEcho, Http, Http11Get, Exchange (perform_request), RunResult,
--                Worker (ConnectionWorker::run), ClosedLoop (run_closed_loop), Schedule, OpenLoop
--                (OpenLoopWorker::run), OpenLoop.Run (run_open_loop)
--   Fault        src/fault: Numbers (reading a long long), Knobs (the state and its setters and
--                checks), Commands (apply_command, load_from_env), Control (serve), Acceptor (the
--                thread of ControlServer), Threads (the setters on several threads)
--   Apps         apps/dariyanaap.cpp: Settings (the command line), LoadGenerator (main), Report and
--                OpenReport (what it prints), Results (write_csv), Machine (files and stdout as a
--                state); apps/dariyanaap_null.cpp: NullTarget (serve), NullTarget.Process (main);
--                apps/hist_verify.cpp: HistogramVerifier (main); apps/fault_cost.cpp: FaultCost
--                (per_call_ns, main); Formats (strtoul and field widths, which both use)
--
-- A component's module holds its state and its operations; the modules below it hold what is proved
-- of them. State is passed along explicitly. An exception is a value of Core.Errors.Error, and code
-- that throws returns a Result. A counter of 64 bits is a native number, with its wrap-around written
-- out as u64. A duration or an instant is a number of nanoseconds.
--
-- What the system does is an argument. A call of recv, send, poll or connect takes its result from a
-- script, and a worker is given one Turn of such results for each turn of its loop; its run is
-- followed for as many turns as there are. Workers share only the time series, whose lock makes each
-- flush one step, so that one order of the workers stands for their threads. strerror, version(),
-- and the arithmetic of double are parameters.
--
-- The workers of an open-loop run meet at the claim of a slot, one atomic addition. Their run is a
-- list of turns, each with its worker, in the order of the claims: every interleaving is such a list.
--
-- Some loops of the code are bounded by fuel. The loop of perform_request has fuel for one round more
-- than its script is long, which Load.Exchange.Outcomes shows to be enough, and so has the outer loop
-- of serve; its inner loop and the loop over header lines have fuel for as many rounds as there are
-- bytes, and each round takes a byte or more.
--
-- In Fault.Knobs a call of a knob is one step; Fault.Threads takes the setters apart into the loads and
-- stores that interleave between threads.
--
-- The load generator's main is followed up to durations whose nanoseconds 64 bits hold; behind them
-- the code's conversions overflow. A file is a text under its path, and a path that cannot be opened
-- for writing is one that refuses; a write to an open file succeeds.
--
-- Not modelled: what getaddrinfo, getnameinfo and the system calls do, the readings of the clock and
-- the draws of random numbers, all of which are arguments; the stall thread of the null target and
-- the joining of threads, which only delay; the usage text of the null target; the scripts and the tests.
mod Prelude
pub mod Core
pub mod Stats
pub mod Load
pub mod Fault
pub mod Apps
