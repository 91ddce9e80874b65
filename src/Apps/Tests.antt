-- ===== src/Apps/Tests.antt =====
-- The theorems on apps at inputs that meet their hypotheses.
use dariyanaap.Prelude.{◌≡◌, refl, List, [], ◌∷◌, none, true, false}
use dariyanaap.Prelude.Text.{Bytes, codes}
use dariyanaap.Core.Double.Rational.{rational}
use dariyanaap.Core.Endpoint
use dariyanaap.Core.Endpoint.{
  Endpoint, endpoint, reject, port_digits, parse_port, find_byte, rfind_byte,
}
use dariyanaap.Core.Flags.{
  Values, wants_help, parse, parse_from, flag_name, assign, lookup, has, text, digits, number,
}
use dariyanaap.Core.Units
use dariyanaap.Core.Units.{Rate}
use dariyanaap.Stats.Histogram.{empty}
use dariyanaap.Load.Protocol.{Protocol}
use dariyanaap.Load.RawEcho
use dariyanaap.Load.RawEcho.{payload}
use dariyanaap.Load.RunResult.{no_errors}
use dariyanaap.Load.Examples.{no_message, world, open_world}
use dariyanaap.Apps.Machine.{Machine}
use dariyanaap.Apps.Report.{Reported}
use dariyanaap.Apps.Results.{summary_path}
use dariyanaap.Apps.Results.Sweep.{sweep, rows, with_rows, sweep-with_rows}
use dariyanaap.Apps.Settings.{Settings, read_numbers}
use dariyanaap.Apps.LoadGenerator.{exits, main, run_main, run_target}
use dariyanaap.Apps.LoadGenerator.Refusals.{Silent, main-Silent}

abbrev machine : Machine
machine = record { files = λ path. none; refused = λ path. false; out = []; diagnostics = [] }

abbrev target : Endpoint
target = record { host = codes "h"; port = 80 }

abbrev closed_flags : Values
closed_flags = (codes "target", codes "h:80") ∷ (codes "payload", codes "3") ∷ []

abbrev open_flags : Values
open_flags =
    (codes "target", codes "h:80") ∷ (codes "payload", codes "3") ∷ (codes "rate", codes "5") ∷ []

abbrev closed_arguments : List Bytes
closed_arguments = codes "--target" ∷ codes "h:80" ∷ codes "--payload" ∷ codes "3" ∷ []

abbrev settings : Settings
settings = record {
  target = target;
  connections = 1;
  duration = 10_000;
  warmup = 0;
  read_timeout = 1000;
  connect_timeout = 1000;
  timeseries = false;
}

abbrev echo : Protocol
echo = record {
  request = payload 3;
  consume = RawEcho.consume (payload 3);
  succeeded = λ response. true;
}

abbrev rate : Rate rational
rate = record { rps = record { top = 5; bottom = 1 } }

-- No connection at all.
abbrev no_connection : List Bytes
no_connection = codes "--target" ∷ codes "h:80" ∷ codes "--connections" ∷ codes "0" ∷ []

no_connection_refused :
    (main rational [] no_message world open_world no_connection machine).0 ≡ exits 2
unfolding main run_main run_target wants_help parse parse_from flag_name assign has text lookup
    Endpoint.parse endpoint port_digits parse_port find_byte rfind_byte Endpoint.split_text
    Endpoint.check_host read_numbers number digits
no_connection_refused = refl

main-Silent_example :
    Silent machine (main rational [] no_message world open_world no_connection machine).1
main-Silent_example =
    main-Silent rational [] no_message world open_world no_connection machine no_connection_refused

abbrev reported : Reported
reported = record {
  result = record { attempted = 0; errors = no_errors; latency = none; duration = 10 };
  target = target;
  mode = codes "closed-loop";
  requested = 1;
  started = 1;
  opened = 0;
  resolution = 41;
}

sweep-with_rows_example :
    (sweep rational
        (codes "out")
        (codes "raw")
        ((reported, empty, []) ∷ (reported, empty, []) ∷ [])
        machine).files
      (summary_path (codes "out"))
    ≡ with_rows none (
        rows rational
          (codes "out")
          (codes "raw")
          ((reported, empty, []) ∷ (reported, empty, []) ∷ []))
sweep-with_rows_example =
    sweep-with_rows rational (codes "out") (codes "raw")
      ((reported, empty, []) ∷ (reported, empty, []) ∷ []) machine refl
