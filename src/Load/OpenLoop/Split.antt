-- ===== src/Load/OpenLoop/Split.antt =====
-- The three histograms of lateness of a worker of src/load/open_loop.cpp.
use dariyanaap.Prelude.{
  ℕ, zero, suc, ◌-◌, ◌≤◌, ◌≡◌, refl, ap, ap₂, List, [], ◌∷◌, ◌++◌, map, max, Bool, true, false, leb,
  if◌then◌else◌, arith, if_both, Bool-cases, inl, inr,
}
use dariyanaap.Prelude.Text.{Bytes}
use dariyanaap.Core.Double.{Double}
use dariyanaap.Core.Errors.{Result, ok, err}
use dariyanaap.Stats.Histogram.{record_latency}
use dariyanaap.Stats.Histogram.Tally.{record_all}
use dariyanaap.Load.Protocol.{Protocol}
use dariyanaap.Load.Exchange.{Exchange, perform_request}
use dariyanaap.Load.Schedule.{Schedule, Slot, claim}
use dariyanaap.Load.OpenLoop.Slots.{claims_opened, claims_turn, claims_of}
use dariyanaap.Load.Worker.{WorkerConfig}
use dariyanaap.Load.OpenLoop.{
  OpenTurn, OpenLoopWorker, new_worker, connecting, open_socket, connect_failed, measure,
  drop_socket, request_turn, claim_turn, after_opening, run_turn, turn_of, interleave,
}

-- The three instants that a request which is measured is told by: when its slot was due, when its worker
-- was free for it, and when it was sent.
pub record Late : Type 0 where
  pub due : ℕ
  pub free_at : ℕ
  pub sending : ℕ

-- From the slot to the worker with its connection; from there, or from the slot where that is later, to
-- the sending; and from the slot to the sending.
abbrev pub wait : Late → ℕ
wait r = r.free_at - r.due

abbrev pub rig : Late → ℕ
rig r = r.sending - max r.due r.free_at

abbrev pub whole : Late → ℕ
whole r = r.sending - r.due

-- The three histograms of a worker are those of these requests, the newest first.
abbrev pub IsSplit : OpenLoopWorker → List Late → Type 0
IsSplit w requests =
    (w.connection_wait ≡ record_all (map wait requests))
    × (w.rig_lag ≡ record_all (map rig requests))
    × (w.lag ≡ record_all (map whole requests))

abbrev pub AllSplit : List OpenLoopWorker → List (List Late) → Type 0
AllSplit [] logs = Unit
AllSplit (w ∷ ws) [] = ⊥
AllSplit (w ∷ ws) (log ∷ logs) = IsSplit w log × AllSplit ws logs

-- A turn that reads a clock which does not go back.
abbrev pub IsSteady : OpenTurn → Type 0
IsSteady turn = turn.free_at ≤ turn.sending

abbrev pub AllSteady : List (ℕ × OpenTurn) → Type 0
AllSteady [] = Unit
AllSteady ((i, turn) ∷ turns) = IsSteady turn × AllSteady turns

measure-IsSplit :
    (w : OpenLoopWorker) (due : ℕ) (turn : OpenTurn) (x : Exchange) (log : List Late)
    → IsSteady turn
    → IsSplit w log
    → IsSplit
        (measure w due turn x)
        (record { due = due; free_at = turn.free_at; sending = turn.sending } ∷ log)
unfolding measure
measure-IsSplit w due turn x log steady (a, b, c) =
    let added : turn.sending - due - (turn.free_at - due) ≡ turn.sending - max due turn.free_at =
      omega arith in
    (
      ap (λ h. record_latency h (turn.free_at - due)) a,
      ap₂ record_latency b added,
      ap (λ h. record_latency h (turn.sending - due)) c,
    )

connect_failed-IsSplit :
    (measuring : Bool) (w : OpenLoopWorker) (log : List Late)
    → IsSplit w log
    → IsSplit (connect_failed measuring w) log
unfolding connect_failed
connect_failed-IsSplit false w log b = b
connect_failed-IsSplit true w log b = b

drop_socket-IsSplit :
    (usable : Bool) (w : OpenLoopWorker) (log : List Late)
    → IsSplit w log
    → IsSplit (drop_socket usable w) log
drop_socket-IsSplit true w log b = b
drop_socket-IsSplit false w log b = b

connecting-IsSplit :
    (w : OpenLoopWorker) (r timeouts : Result (Unit {0})) (log : List Late)
    → IsSplit w log
    → IsSplit (connecting w r timeouts).1 log
connecting-IsSplit w (ok a) (ok c) log b = b
connecting-IsSplit w (ok a) (err e) log b = b
connecting-IsSplit w (err e) timeouts log b = b

open_socket-IsSplit :
    (strerror : ℕ → Bytes) (config : WorkerConfig) (w : OpenLoopWorker) (turn : OpenTurn)
    (log : List Late)
    → IsSplit w log
    → IsSplit (open_socket strerror config w turn).1 log
unfolding open_socket
open_socket-IsSplit strerror config w turn log b =
    if_both (λ (r : Bool × OpenLoopWorker). IsSplit r.1 log) w.has_socket _ _ (λ _. b)
      (λ _. connecting-IsSplit w _ _ log b)

-- One worker's requests are put before what was there.
abbrev pub add_log : List (List Late) → ℕ → List Late → List (List Late)
add_log [] i requests = []
add_log (log ∷ logs) zero requests = (requests ++ log) ∷ logs
add_log (log ∷ logs) (suc i) requests = log ∷ add_log logs i requests

module _ (double : Double) (strerror : ℕ → Bytes) (protocol : Protocol) (config : WorkerConfig)
    (record_from deadline : ℕ) where
  -- The request for a slot that was claimed, if it is measured: where the slot lies in the part of the
  -- run that is recorded.
  abbrev pub late_from : ℕ → OpenTurn → List Late
  late_from due turn =
      if leb record_from due
      then record { due = due; free_at = turn.free_at; sending = turn.sending } ∷ []
      else []

  abbrev pub late_for : ℕ → OpenTurn → List Late
  late_for due turn = if leb deadline due then [] else late_from due turn

  abbrev pub late_in : List (Slot double) → OpenTurn → List Late
  late_in [] turn = []
  late_in (slot ∷ slots) turn = late_for slot.due turn ++ late_in slots turn

  -- The requests of each worker, of the slots that it claims and the instants of its turns.
  unfoldable pub requests_of :
      Schedule double
      → List OpenLoopWorker
      → List (List Late)
      → List (ℕ × OpenTurn)
      → List (List Late)
  requests_of s ws logs [] = logs
  requests_of s ws logs ((i, turn) ∷ turns) =
      let (s', ws') = turn_of double strerror protocol config record_from deadline s ws i turn in
      let requests = late_in (claims_of double strerror config deadline s ws i turn) turn in
      requests_of s' ws' (add_log logs i requests) turns

  request_turn-IsSplit :
      (due : ℕ) (w : OpenLoopWorker) (turn : OpenTurn) (log : List Late)
      → IsSteady turn
      → IsSplit w log
      → IsSplit
          (request_turn strerror protocol record_from due w turn)
          ((late_from due turn ++ []) ++ log)
  unfolding request_turn
  request_turn-IsSplit due w turn log steady b =
      let x = perform_request strerror protocol turn.sent turn.ended turn.sends turn.recvs in
      elim (Bool-cases (leb record_from due)) [
        | inl measured ↦ rw measured (
            drop_socket-IsSplit x.connection_usable (measure w due turn x)
              (record { due = due; free_at = turn.free_at; sending = turn.sending } ∷ log)
              (measure-IsSplit w due turn x log steady b))
        | inr early ↦ rw early (drop_socket-IsSplit x.connection_usable w log b)
      ]

  claim_turn-IsSplit :
      (s : Schedule double) (w : OpenLoopWorker) (turn : OpenTurn) (log : List Late)
      → IsSteady turn
      → IsSplit w log
      → IsSplit
          (claim_turn double strerror protocol record_from deadline s w turn).1
          (late_in ((claim double s).0 ∷ []) turn ++ log)
  unfolding claim_turn
  claim_turn-IsSplit s w turn log steady b =
      elim (Bool-cases (leb deadline (claim double s).0.due)) [
        | inl over ↦ rw over b
        | inr within ↦ rw within (request_turn-IsSplit (claim double s).0.due w turn log steady b)
      ]

  after_opening-IsSplit :
      (s : Schedule double) (turn : OpenTurn) (r : Bool × OpenLoopWorker) (log : List Late)
      → IsSteady turn
      → IsSplit r.1 log
      → IsSplit
          (after_opening double strerror protocol record_from deadline s turn r).1
          (late_in (claims_opened double strerror config deadline s r.0) turn ++ log)
  after_opening-IsSplit s turn (false, w) log steady b = connect_failed-IsSplit _ w log b
  after_opening-IsSplit s turn (true, w) log steady b = claim_turn-IsSplit s w turn log steady b

  run_turn-IsSplit :
      (s : Schedule double) (w : OpenLoopWorker) (turn : OpenTurn) (log : List Late)
      → IsSteady turn
      → IsSplit w log
      → IsSplit
          (run_turn double strerror protocol config record_from deadline s w turn).1
          (late_in (claims_turn double strerror config deadline s w turn) turn ++ log)
  unfolding run_turn claims_turn
  run_turn-IsSplit s w turn log steady b = elim (Bool-cases (leb deadline turn.now)) [
    | inl e ↦ rw e b
    | inr e ↦ rw e (
        after_opening-IsSplit s turn (open_socket strerror config w turn) log steady
          (open_socket-IsSplit strerror config w turn log b))
  ]

  turn_of-AllSplit :
      (s : Schedule double) (ws : List OpenLoopWorker) (logs : List (List Late)) (i : ℕ)
      (turn : OpenTurn)
      → IsSteady turn
      → AllSplit ws logs
      → AllSplit
          (turn_of double strerror protocol config record_from deadline s ws i turn).1
          (add_log logs i (late_in (claims_of double strerror config deadline s ws i turn) turn))
  unfolding turn_of claims_of
  turn_of-AllSplit s [] logs i turn steady b = tt
  turn_of-AllSplit s (w ∷ ws) [] i turn steady b = elim b [ ]
  turn_of-AllSplit s (w ∷ ws) (log ∷ logs) (suc i) turn steady (b, bs) =
      (b, turn_of-AllSplit s ws logs i turn steady bs)
  turn_of-AllSplit s (w ∷ ws) (log ∷ logs) zero turn steady (b, bs) = running w.running
    where
      r : Schedule double × OpenLoopWorker
      r = run_turn double strerror protocol config record_from deadline s w turn

      chosen : Bool → Schedule double × List OpenLoopWorker
      chosen b = if b then (r.0, r.1 ∷ ws) else (s, w ∷ ws)

      running :
          (on : Bool)
          → AllSplit (chosen on).1 (
              (late_in
                  (if on then claims_turn double strerror config deadline s w turn else [])
                  turn
                ++ log)
              ∷ logs)
      running true = (run_turn-IsSplit s w turn log steady b, bs)
      running false = (b, bs)

  -- However the workers' turns are interleaved, as long as the clock does not go back within a turn, and
  -- where the three histograms of the lateness are those of the requests so far, as they are of none in
  -- a new worker: afterwards they are those of these and of the requests made in the turns whose slots
  -- are due within the recorded part of the run, worker for worker and request for request: from the
  -- slot until the worker is free with a connection, from there on until it sends, and both together.
  pub interleave-AllSplit :
      (s : Schedule double) (ws : List OpenLoopWorker) (logs : List (List Late))
      (turns : List (ℕ × OpenTurn))
      → AllSteady turns
      → AllSplit ws logs
      → AllSplit
          (interleave double strerror protocol config record_from deadline s ws turns).1
          (requests_of s ws logs turns)
  unfolding interleave requests_of
  interleave-AllSplit s ws logs [] steady b = b
  interleave-AllSplit s ws logs ((i, turn) ∷ turns) (steady, others) b =
      let r = turn_of double strerror protocol config record_from deadline s ws i turn in
      interleave-AllSplit r.0 r.1 _ turns others (turn_of-AllSplit s ws logs i turn steady b)

pub new_worker-IsSplit : IsSplit new_worker []
unfolding new_worker
new_worker-IsSplit = (refl, refl, refl)
