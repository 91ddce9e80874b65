-- ===== src/Apps/LoadGenerator/Exits.antt =====
-- The exit code of apps/dariyanaap.cpp, from the command line through the run to its report.
use dariyanaap.Prelude.{◌≡◌, if◌then◌else◌}
use dariyanaap.Prelude.Text.{Bytes}
use dariyanaap.Core.Double.{Double}
use dariyanaap.Core.Endpoint
use dariyanaap.Core.Endpoint.{Endpoint}
use dariyanaap.Core.Errors.{Result, ok, err}
use dariyanaap.Core.Flags.{text}
use dariyanaap.Core.Units
use dariyanaap.Load.Protocol.{Protocol}
use dariyanaap.Load.OpenLoop.Run.{OpenLoopRun, kept_up}
use dariyanaap.Apps.Machine.{Machine}
use dariyanaap.Apps.Settings.{Settings}
use dariyanaap.Apps.LoadGenerator.{Exit, exits}

abbrev IsRead : Result Bytes → Type 0
IsRead (ok text) = Unit {0}
IsRead (err e) = ⊥

-- The exit code of an open-loop run: the rig's own verdict on it. No run is without a result.
abbrev pub Verdict : (double : Double) → Result (OpenLoopRun double) → Exit → Type 0
Verdict double (ok run) exit = exit ≡ (if kept_up double run then exits 0 else exits 1)
Verdict double (err e) exit = ⊥
