-- ===== src/Load/OpenLoop/Tests.antt =====
-- The theorems on src/load/open_loop.cpp at inputs that meet their hypotheses.
use dariyanaap.Prelude.{refl, List, [], ◌∷◌, true, arith}
use dariyanaap.Prelude.Text.{codes}
use dariyanaap.Core.Double.Rational.{rational}
use dariyanaap.Load.Protocol.{Protocol, complete}
use dariyanaap.Load.Schedule.{Schedule}
use dariyanaap.Load.OpenLoop.{OpenLoopWorker, new_worker, interleave}
use dariyanaap.Load.OpenLoop.Run.{OpenLoopPlan, run_open_loop}
use dariyanaap.Load.Examples.{no_message, config, turns, open_world}
use dariyanaap.Load.OpenLoop.Balance.{IsConsistentOpenRun, run_open_loop-IsConsistentOpenRun}
use dariyanaap.Load.OpenLoop.Split.{AllSplit, requests_of, interleave-AllSplit, new_worker-IsSplit}
use dariyanaap.Load.OpenLoop.Slots.{Deals, claims, claims-Deals}

abbrev ping : Protocol
ping = record { request = codes "a"; consume = λ response. complete; succeeded = λ response. true }

abbrev plan : OpenLoopPlan rational
plan = record {
  rate = record { rps = record { top = 1_000_000; bottom = 1 } };
  connections = 2;
  duration = 10;
  warmup = 0;
  worker = config;
}

run_open_loop-IsConsistentOpenRun_example :
    IsConsistentOpenRun (run_open_loop rational no_message ping plan open_world)
run_open_loop-IsConsistentOpenRun_example =
    run_open_loop-IsConsistentOpenRun rational no_message ping plan open_world 41 refl refl

abbrev schedule : Schedule rational
schedule = record { rate = plan.rate; start = 100; next = 0 }

abbrev workers : List OpenLoopWorker
workers = new_worker ∷ new_worker ∷ []

interleave-AllSplit_example :
    AllSplit
      (interleave rational no_message ping config 100 10_000 schedule workers turns).1
      (requests_of rational no_message ping config 100 10_000 schedule workers ([] ∷ [] ∷ []) turns)
interleave-AllSplit_example =
    interleave-AllSplit rational no_message ping config 100 10_000 schedule workers ([] ∷ [] ∷ [])
      turns (omega arith, (omega arith, (omega arith, tt)))
      (new_worker-IsSplit, (new_worker-IsSplit, tt))

claims-Deals_example :
    Deals rational schedule
      (claims rational no_message config 10_000 ping 100 schedule workers turns)
      (interleave rational no_message ping config 100 10_000 schedule workers turns).0
claims-Deals_example =
    claims-Deals rational no_message config 10_000 ping 100 schedule workers turns (omega arith)
