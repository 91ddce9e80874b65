-- ===== src/Apps/LoadGenerator.antt =====
-- `main` of apps/dariyanaap.cpp, from the command line to the exit code. What the two runs meet is
-- an argument. Behind the checks of the command line a duration of 2 ^ 63 nanoseconds or more, which
-- 64 bits do not hold, is not followed: the conversion overflows there, or the number of milliseconds
-- was already taken for a negative one.
pub mod Refusals
pub mod Exits
use dariyanaap.Prelude.{
  ℕ, zero, suc, ◌*◌, ◌^◌, List, [], ◌∷◌, ◌++◌, Option, none, some, Bool, true, false, not, ◌&&◌,
  ◌||◌, ltb, leb, ◌==◌, if◌then◌else◌,
}
use dariyanaap.Prelude.Text.{Bytes, codes, to_string, concat, bytes_eq}
use dariyanaap.Core.Double.{Double}
use dariyanaap.Core.Endpoint
use dariyanaap.Core.Endpoint.{Endpoint}
use dariyanaap.Core.Errors.{
  Error, error, usage_error, invalid_endpoint, io_error, timed_out, bad_optional_access, what,
  Result, ok, err, throw_if,
}
use dariyanaap.Core.Flags.{Values, wants_help, parse, has, text, number, real}
use dariyanaap.Core.Units
use dariyanaap.Core.Units.{Rate}
use dariyanaap.Stats.Histogram.{Histogram, percentile}
use dariyanaap.Stats.Summary.{Summary, value, per_second}
use dariyanaap.Load.Protocol.{Protocol}
use dariyanaap.Load.RawEcho.{raw_echo}
use dariyanaap.Load.Http11Get.{http11_get}
use dariyanaap.Load.RunResult.{RunResult, consistent}
use dariyanaap.Load.Worker.{WorkerConfig}
use dariyanaap.Load.ClosedLoop.{ClosedLoopPlan, ClosedLoopRun, World, run_closed_loop}
use dariyanaap.Load.OpenLoop.Run.{
  OpenLoopPlan, OpenLoopRun, OpenWorld, run_open_loop, kept_up, connections_saturated,
}
use dariyanaap.Apps.Machine.{Machine, App, ◌>>=◌, ◌>>◌, pure, lift, print, complain}
use dariyanaap.Apps.Report.{Reported, dash, as_ms, report}
use dariyanaap.Apps.Results.{write_csv}
use dariyanaap.Apps.OpenReport.{schedule_lines, lag_line, split_line, saturation_lines}
use dariyanaap.Apps.Settings.{
  Settings, usage, known_flags, read_numbers, choose_protocol, closed_plan, open_plan, is_followed,
}

-- How the process ends: with a code, by an exception that no handler takes, or where the model
-- stops.
pub data Exit : Type 0 where
  exits : ℕ → Exit
  terminates : Exit
  not_followed : Exit

abbrev closed_loop : Bytes
closed_loop = codes "closed-loop"

abbrev open_loop : Bytes
open_loop = codes "open-loop"

abbrev pub code_of : Bool → Exit
code_of true = exits 0
code_of false = exits 1

-- `if (flags.has("csv-dir")) write_csv(...)`
abbrev pub save : Double → Values → Reported → Histogram → List Histogram → App (Unit {0})
save double flags r histogram per_second =
    if has flags (codes "csv-dir")
    then write_csv double (text flags (codes "csv-dir") (codes "."))
        (text flags (codes "protocol") (codes "raw")) r histogram per_second
    else pure tt

abbrev closed_report : Settings → ClosedLoopRun → Reported
closed_report s run = record {
  result = run.result;
  target = s.target;
  mode = closed_loop;
  requested = run.connections_requested;
  started = run.connections_started;
  opened = run.connections_opened;
  resolution = run.clock_resolution;
}

module _ (double : Double) (version : Bytes) where
  open double use {Carrier, literal, print_fixed}

  abbrev open_report : Settings → OpenLoopRun double → Reported
  open_report s run = record {
    result = run.result;
    target = s.target;
    mode = open_loop;
    requested = run.connections_requested;
    started = run.connections_started;
    opened = run.connections_opened;
    resolution = run.clock_resolution;
  }

  -- Behind a closed-loop run.
  unfoldable pub finish_closed : Values → Settings → ClosedLoopRun → App Exit
  finish_closed flags s run = do
    print (report double version (closed_report s run))
    save double flags (closed_report s run) run.histogram run.per_second
    pure (code_of (consistent run.result))

  abbrev print_lag : OpenLoopRun double → App (Unit {0})
  print_lag run =
      if ltb 0 run.schedule_lag.count
      then (do
        lag ← lift (lag_line double version run)
        print lag
        split ← lift (split_line double version run)
        print split)
      else pure tt

  unfoldable pub finish_open : Values → Settings → OpenLoopRun double → App Exit
  finish_open flags s run = do
    print (report double version (open_report s run))
    print (schedule_lines double version run)
    print_lag run
    print (saturation_lines double version run)
    save double flags (open_report s run) run.histogram []
    pure (code_of (consistent run.result && kept_up double run))

  module _ (strerror : ℕ → Bytes) (world : World) (open_world : OpenWorld) where
    abbrev run_closed : Values → Settings → Protocol → App Exit
    run_closed flags s protocol = do
      run ← lift (run_closed_loop strerror double protocol (closed_plan s) world)
      finish_closed flags s run

    abbrev run_open : Values → Settings → Protocol → Rate double → App Exit
    run_open flags s protocol rate =
        if is_followed s
        then (do
          run ← lift (run_open_loop double strerror protocol (open_plan double s rate) open_world)
          finish_open flags s run)
        else pure not_followed

    abbrev run_mode : Values → Settings → Protocol → App Exit
    run_mode flags s protocol =
        if not (has flags (codes "rate"))
        then (if is_followed s then run_closed flags s protocol else pure not_followed)
        else (do
          rps ← lift (real double flags (codes "rate") (literal 1000 0))
          rate ← lift (Units.per_second double rps)
          run_open flags s protocol rate)

    -- The part of `main` behind the checks for --help and --target.
    unfoldable pub run_target : Values → App Exit
    run_target flags = do
      target ← lift (Endpoint.parse (text flags (codes "target") []))
      s ← lift (read_numbers flags target)
      protocol ← lift (choose_protocol version flags target)
      run_mode flags s protocol

    abbrev demand_target : Bool → App (Unit {0})
    demand_target true = pure tt
    demand_target false = complain usage >> lift (err (usage_error (codes "--target is required")))

    -- The `try` block.
    unfoldable pub run_main : List Bytes → App Exit
    run_main arguments = if wants_help arguments then print usage >> pure (exits 0) else (do
      flags ← lift (parse arguments known_flags)
      demand_target (has flags (codes "target"))
      run_target flags)

    -- The two handlers.
    abbrev failed_with : ℕ → Bytes → Machine → Exit × Machine
    failed_with code message m =
        (exits code, (complain (concat (codes "dariyanaap: " ∷ message ∷ codes "\n" ∷ [])) m).1)

    abbrev handled : Error → Machine → Exit × Machine
    handled (usage_error message) m = failed_with 2 message m
    handled (invalid_endpoint message) m = failed_with 2 message m
    handled (error message) m = failed_with 1 message m
    handled (io_error message) m = failed_with 1 message m
    handled (timed_out message) m = failed_with 1 message m
    handled bad_optional_access m = (terminates, m)

    abbrev handle : Result Exit × Machine → Exit × Machine
    handle (ok exit, m) = (exit, m)
    handle (err e, m) = handled e m

    unfoldable pub main : List Bytes → Machine → Exit × Machine
    main arguments m = handle (run_main arguments m)
