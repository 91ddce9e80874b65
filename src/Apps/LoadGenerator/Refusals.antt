-- ===== src/Apps/LoadGenerator/Refusals.antt =====
-- What `main` of apps/dariyanaap.cpp leaves behind where it refuses its command line.
use dariyanaap.Prelude.{
  ℕ, ◌<◌, ◌≡◌, refl, List, [], ◌++◌, Bool, true, false, not, ◌&&◌, ltb, arith, if_both,
}
use dariyanaap.Prelude.Text.{Bytes, codes}
use dariyanaap.Core.Double.{Double}
use dariyanaap.Core.Endpoint
use dariyanaap.Core.Errors.{
  error, usage_error, invalid_endpoint, io_error, timed_out, bad_optional_access, is_usage_error,
  Result, ok, err,
}
use dariyanaap.Core.Flags.{Values, wants_help, parse, has, text, real}
use dariyanaap.Core.Units
use dariyanaap.Core.Units.{Rate}
use dariyanaap.Stats.Histogram.{Histogram, percentile}
use dariyanaap.Stats.Summary.{value}
use dariyanaap.Load.Protocol.{Protocol}
use dariyanaap.Load.RunResult.{consistent}
use dariyanaap.Load.ClosedLoop.{ClosedLoopRun, World, run_closed_loop}
use dariyanaap.Load.OpenLoop.Run.{OpenLoopRun, OpenWorld, run_open_loop, kept_up}
use dariyanaap.Apps.Machine.{Machine, App, carry_on, ◌>>=◌, ◌>>◌, pure, lift, print}
use dariyanaap.Apps.Results.Accepting.{
  Accepts, Accepting, then-Accepting, bind-Accepts, value-Accepts, write_csv-Accepting,
}
use dariyanaap.Apps.Report.{Reported}
use dariyanaap.Apps.OpenReport.{lag_line, split_line}
use dariyanaap.Apps.Results.{write_csv}
use dariyanaap.Apps.Settings.{
  Settings, known_flags, read_numbers, choose_protocol, closed_plan, open_plan, is_followed,
}
use dariyanaap.Apps.LoadGenerator.{
  Exit, exits, terminates, not_followed, code_of, save, finish_closed, print_lag, finish_open,
  run_closed, run_open, run_mode, demand_target, run_target, run_main, handle, main, closed_report,
  open_report,
}

-- Files and stdout are as they were.
abbrev pub Silent : Machine → Machine → Type 0
Silent m m' = (m'.files ≡ m.files) × (m'.out ≡ m.out)

-- What may come of the `try` block: a usage error only where nothing was written, and no code above 1.
abbrev Careful : Machine → Result Exit × Machine → Type 0
Careful m (ok (exits code), m') = code < 2
Careful m (ok terminates, m') = Unit {0}
Careful m (ok not_followed, m') = Unit {0}
Careful m (err e, m') = is_usage_error e ≡ true → Silent m m'

-- A computation in front of an action writes nothing.
lift-Careful {ℓ} :
    {A : Type ℓ} (r : Result A) (next : A → App Exit) (m : Machine)
    → ((a : A) → Careful m (next a m))
    → Careful m ((lift r >>= next) m)
lift-Careful (ok a) next m k = k a
lift-Careful (err e) next m k = λ h. (refl, refl)

Accepts-Careful :
    (m : Machine) (r : Result Exit × Machine)
    → Accepts r.0
    → ((exit : Exit) → r.0 ≡ ok exit → Careful m (ok exit, r.1))
    → Careful m r
Accepts-Careful m (ok exit, m') h k = k exit refl
Accepts-Careful m (err e, m') h k = λ u. absurd (cc)

code_of-Careful : (b : Bool) (m m' : Machine) → Careful m (ok (code_of b), m')
code_of-Careful true m m' = omega arith
code_of-Careful false m m' = omega arith

-- After a run nothing is a usage error, and the code is 0 or 1.
carry_on-code {ℓ} :
    {A : Type ℓ} (r : Result A × Machine) (next : A → App Exit) (m : Machine)
    → Accepts r.0
    → ((a : A) (n : Machine) → Careful m (next a n))
    → Careful m (carry_on r next)
carry_on-code (ok a, n) next m h k = k a n
carry_on-code (err e, n) next m h k = λ u. absurd (cc)

module _ (double : Double) (version : Bytes) where
  save-Accepting :
      (flags : Values) (r : Reported) (histogram : Histogram) (seconds : List Histogram)
      → Accepting (save double flags r histogram seconds)
  save-Accepting flags r histogram seconds m =
      if_both (λ (a : App (Unit {0})). Accepts (a m).0) (has flags (codes "csv-dir"))
        (write_csv double (text flags (codes "csv-dir") (codes "."))
          (text flags (codes "protocol") (codes "raw")) r histogram seconds)
        (pure tt)
        (λ _.
          write_csv-Accepting double (text flags (codes "csv-dir") (codes "."))
            (text flags (codes "protocol") (codes "raw")) r histogram seconds m)
        (λ _. tt)

  finish_closed-Careful :
      (flags : Values) (s : Settings) (run : ClosedLoopRun) (before m : Machine)
      → Careful before (finish_closed double version flags s run m)
  unfolding finish_closed
  finish_closed-Careful flags s run before m =
      carry_on-code (save double flags (closed_report s run) run.histogram run.per_second _) _
        before (save-Accepting flags (closed_report s run) run.histogram run.per_second _)
        (λ u n. code_of-Careful (consistent run.result) before n)

  line-Accepting :
      (r : Result Bytes) (next : App (Unit {0}))
      → Accepts r
      → Accepting next
      → Accepting (lift r >>= (λ text. print text >> next))
  line-Accepting (ok text) next h k m = k (record m { out = m.out ++ text })
  line-Accepting (err e) next h k m = h

  lag_line-Accepts : (run : OpenLoopRun double) → Accepts (lag_line double version run)
  unfolding lag_line
  lag_line-Accepts run =
      bind-Accepts (value (percentile double run.schedule_lag (double.literal 500 1))) _
        (value-Accepts (percentile double run.schedule_lag (double.literal 500 1)))
        λ a.
          bind-Accepts (value (percentile double run.schedule_lag (double.literal 990 1))) _
            (value-Accepts (percentile double run.schedule_lag (double.literal 990 1))) λ b. tt

  split_line-Accepts : (run : OpenLoopRun double) → Accepts (split_line double version run)
  unfolding split_line
  split_line-Accepts run =
      bind-Accepts (value (percentile double run.connection_wait (double.literal 500 1))) _
        (value-Accepts (percentile double run.connection_wait (double.literal 500 1)))
        λ a.
          bind-Accepts (value (percentile double run.rig_lag (double.literal 500 1))) _
            (value-Accepts (percentile double run.rig_lag (double.literal 500 1))) λ b. tt

  print_lag-Accepting : (run : OpenLoopRun double) → Accepting (print_lag double version run)
  print_lag-Accepting run m =
      if_both (λ (a : App (Unit {0})). Accepts (a m).0) (ltb 0 run.schedule_lag.count) _ (pure tt)
        (λ _.
          line-Accepting (lag_line double version run)
            (lift (split_line double version run) >>= print) (lag_line-Accepts run)
            (λ n.
              then-Accepting (lift (split_line double version run)) print
                (λ k. split_line-Accepts run) (λ text k. tt) n)
            m)
        (λ _. tt)

  finish_open-Careful :
      (flags : Values) (s : Settings) (run : OpenLoopRun double) (before m : Machine)
      → Careful before (finish_open double version flags s run m)
  unfolding finish_open
  finish_open-Careful flags s run before m =
      carry_on-code (print_lag double version run _) _ before (print_lag-Accepting run _) λ u n.
        carry_on-code (save double flags (open_report double version s run) run.histogram [] _) _
          before (save-Accepting flags (open_report double version s run) run.histogram [] _)
          (λ v k. code_of-Careful (consistent run.result && kept_up double run) before k)

  module _ (strerror : ℕ → Bytes) (world : World) (open_world : OpenWorld) where
    run_closed-Careful :
        (flags : Values) (s : Settings) (protocol : Protocol) (m : Machine)
        → Careful m (run_closed double version strerror world open_world flags s protocol m)
    run_closed-Careful flags s protocol m =
        lift-Careful (run_closed_loop strerror double protocol (closed_plan s) world)
          (finish_closed double version flags s) m (λ run. finish_closed-Careful flags s run m m)

    run_open-Careful :
        (flags : Values) (s : Settings) (protocol : Protocol) (rate : Rate double) (m : Machine)
        → Careful m (run_open double version strerror world open_world flags s protocol rate m)
    run_open-Careful flags s protocol rate m =
        if_both (λ (a : App Exit). Careful m (a m)) (is_followed s) _ (pure not_followed)
          (λ _.
            lift-Careful
              (run_open_loop double strerror protocol (open_plan double s rate) open_world)
              (finish_open double version flags s) m (λ run. finish_open-Careful flags s run m m))
          (λ _. tt)

    run_mode-Careful :
        (flags : Values) (s : Settings) (protocol : Protocol) (m : Machine)
        → Careful m (run_mode double version strerror world open_world flags s protocol m)
    run_mode-Careful flags s protocol m =
        if_both (λ (a : App Exit). Careful m (a m)) (not (has flags (codes "rate"))) _ _
          (λ _.
            if_both (λ (a : App Exit). Careful m (a m)) (is_followed s) _ (pure not_followed)
              (λ _. run_closed-Careful flags s protocol m) (λ _. tt))
          (λ _. lift-Careful (real double flags (codes "rate") (double.literal 1000 0)) _ m λ rps.
            lift-Careful (Units.per_second double rps) _ m
              λ rate. run_open-Careful flags s protocol rate m)

    run_target-Careful :
        (flags : Values) (m : Machine)
        → Careful m (run_target double version strerror world open_world flags m)
    unfolding run_target
    run_target-Careful flags m =
        lift-Careful (Endpoint.parse (text flags (codes "target") [])) _ m λ target.
          lift-Careful (read_numbers flags target) _ m λ s.
            lift-Careful (choose_protocol version flags target) _ m
              λ protocol. run_mode-Careful flags s protocol m

    demand_target-Careful :
        (b : Bool) (next : App Exit) (m : Machine)
        → Careful m (next m)
        → Careful m ((demand_target double version strerror world open_world b >> next) m)
    demand_target-Careful true next m h = h
    demand_target-Careful false next m h = λ u. (refl, refl)

    run_main-Careful :
        (arguments : List Bytes) (m : Machine)
        → Careful m (run_main double version strerror world open_world arguments m)
    unfolding run_main
    run_main-Careful arguments m =
        if_both (λ (a : App Exit). Careful m (a m)) (wants_help arguments) _ _ (λ _. omega arith)
          (λ _. lift-Careful (parse arguments known_flags) _ m λ flags.
            demand_target-Careful (has flags (codes "target"))
              (run_target double version strerror world open_world flags) m
              (run_target-Careful flags m))

    handle-Careful :
        (m : Machine) (r : Result Exit × Machine)
        → Careful m r
        → (handle double version strerror world open_world r).0 ≡ exits 2
        → Silent m (handle double version strerror world open_world r).1
    handle-Careful m (ok (exits code), m') h e = absurd (ground arith)
    handle-Careful m (ok terminates, m') h e = absurd (cc)
    handle-Careful m (ok not_followed, m') h e = absurd (cc)
    handle-Careful m (err (usage_error message), m') h e = h refl
    handle-Careful m (err (invalid_endpoint message), m') h e = h refl
    handle-Careful m (err (error message), m') h e = absurd (ground arith)
    handle-Careful m (err (io_error message), m') h e = absurd (ground arith)
    handle-Careful m (err (timed_out message), m') h e = absurd (ground arith)
    handle-Careful m (err bad_optional_access, m') h e = absurd (cc)

    -- Where the load generator exits with 2, it has left every file as it was and has printed nothing to
    -- stdout: no usage error is found after a run has been reported.
    pub main-Silent :
        (arguments : List Bytes) (m : Machine)
        → (main double version strerror world open_world arguments m).0 ≡ exits 2
        → Silent m (main double version strerror world open_world arguments m).1
    unfolding main
    main-Silent arguments m =
        handle-Careful m (run_main double version strerror world open_world arguments m)
          (run_main-Careful arguments m)
