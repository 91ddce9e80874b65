-- ===== src/Apps/Settings.antt =====
-- The command line of apps/dariyanaap.cpp: what the flags say of a run.
use dariyanaap.Prelude.{
  ℕ, ◌*◌, ◌^◌, List, [], ◌∷◌, Bool, not, ◌&&◌, ◌||◌, ltb, leb, ◌==◌, if◌then◌else◌,
}
use dariyanaap.Prelude.Text.{Bytes, codes, concat, bytes_eq}
use dariyanaap.Core.Double.{Double}
use dariyanaap.Core.Endpoint.{Endpoint}
use dariyanaap.Core.Errors.{usage_error, Result, ok, err, throw_if, ◌>>=◌, ◌>>◌}
use dariyanaap.Core.Flags.{Values, text, number}
use dariyanaap.Core.Units.{Rate}
use dariyanaap.Load.Protocol.{Protocol}
use dariyanaap.Load.RawEcho.{raw_echo}
use dariyanaap.Load.Http11Get.{http11_get}
use dariyanaap.Load.Worker.{WorkerConfig}
use dariyanaap.Load.ClosedLoop.{ClosedLoopPlan}
use dariyanaap.Load.OpenLoop.Run.{OpenLoopPlan}

abbrev pub usage : Bytes
usage = concat (
    codes "usage: dariyanaap --target HOST:PORT [options]\n"
    ∷ codes "  --rate RPS          open-loop at this offered rate; omit for closed-loop\n"
    ∷ codes "  --connections N     connections held open (default 1)\n"
    ∷ codes "  --duration MS       measured window in ms (default 10000)\n"
    ∷ codes "  --warmup MS         discarded window before it (default 0)\n"
    ∷ codes "  --protocol NAME     raw | http (default raw)\n"
    ∷ codes "  --payload N         raw echo bytes each way (default 64)\n"
    ∷ codes "  --path P            http path (default /)\n"
    ∷ codes "  --read-timeout MS   (default 1000)\n"
    ∷ codes "  --connect-timeout MS (default 1000)\n"
    ∷ codes "  --csv-dir DIR       write summary.csv, histogram.csv and timeseries.csv here\n"
    ∷ codes "  --timeseries 1      bucket latency by wall-clock second as well\n"
    ∷ [])

abbrev pub known_flags : List Bytes
known_flags =
    codes "target"
    ∷ codes "connections"
    ∷ codes "duration"
    ∷ codes "warmup"
    ∷ codes "protocol"
    ∷ codes "payload"
    ∷ codes "path"
    ∷ codes "read-timeout"
    ∷ codes "connect-timeout"
    ∷ codes "csv-dir"
    ∷ codes "rate"
    ∷ codes "timeseries"
    ∷ []

-- What the flags say of a run; the durations are the numbers of milliseconds that were given.
pub record Settings : Type 0 where
  pub target : Endpoint
  pub connections : ℕ
  pub duration : ℕ
  pub warmup : ℕ
  pub read_timeout : ℕ
  pub connect_timeout : ℕ
  pub timeseries : Bool

-- `static_cast<int64_t>(n) <= 0`
abbrev not_positive : ℕ → Bool
not_positive n = n == 0 || leb (2 ^ 63) n

-- The numbers of the flags, in the order in which they are read.
unfoldable pub read_numbers : Values → Endpoint → Result Settings
read_numbers flags target = do
  connections ← number flags (codes "connections") 1
  duration ← number flags (codes "duration") 10_000
  warmup ← number flags (codes "warmup") 0
  read_timeout ← number flags (codes "read-timeout") 1000
  connect_timeout ← number flags (codes "connect-timeout") 1000
  timeseries ← number flags (codes "timeseries") 0
  throw_if (connections == 0) (usage_error (codes "--connections must be at least 1"))
  throw_if (not_positive duration) (usage_error (codes "--duration must be at least 1ms"))
  ok (record {
    target = target;
    connections = connections;
    duration = duration;
    warmup = warmup;
    read_timeout = read_timeout;
    connect_timeout = connect_timeout;
    timeseries = not (timeseries == 0);
  })

-- `make_unique<RawEcho>`, `make_unique<Http11Get>`, or the exception for another name.
unfoldable pub choose_protocol : Bytes → Values → Endpoint → Result Protocol
choose_protocol version flags target =
    let name = text flags (codes "protocol") (codes "raw") in
    let raw = do payload ← number flags (codes "payload") 64; raw_echo payload
    in if bytes_eq name (codes "raw")
      then raw
      else if bytes_eq name (codes "http")
      then http11_get version target.host (text flags (codes "path") (codes "/"))
      else err (
          usage_error
            (concat (codes "--protocol must be raw or http, got \"" ∷ name ∷ codes "\"" ∷ [])))

abbrev pub worker_config : Settings → WorkerConfig
worker_config s = record {
  connect_timeout = s.connect_timeout;
  read_timeout = s.read_timeout;
  write_timeout = s.read_timeout;
  reconnect_delay = 100;
  read_buffer_bytes = 16 * 1024;
}

unfoldable pub closed_plan : Settings → ClosedLoopPlan
closed_plan s = record {
  connections = s.connections;
  duration = s.duration;
  warmup = s.warmup;
  worker = worker_config s;
  timeseries = s.timeseries;
}

unfoldable pub open_plan : (double : Double) → Settings → Rate double → OpenLoopPlan double
open_plan double s rate = record {
  rate = rate;
  connections = s.connections;
  duration = s.duration;
  warmup = s.warmup;
  worker = worker_config s;
}

-- A number of milliseconds whose nanoseconds a signed number of 64 bits holds.
abbrev fits : ℕ → Bool
fits ms = ltb (ms * 1_000_000) (2 ^ 63)

unfoldable pub is_followed : Settings → Bool
is_followed s =
    fits s.duration && (fits s.warmup && (fits s.read_timeout && fits s.connect_timeout))
