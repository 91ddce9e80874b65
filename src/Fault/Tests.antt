-- ===== src/Fault/Tests.antt =====
-- Runs of src/fault at small inputs, and its theorems at inputs that meet their hypotheses.
use dariyanaap.Prelude.{
  ℕ, ◌≡◌, refl, [], ◌∷◌, Option, none, some, true, false, arith, if◌then◌else◌,
}
use dariyanaap.Prelude.Text.{Bytes, codes, bytes_eq}
use dariyanaap.Core.Double.Rational.{rational}
use dariyanaap.Core.Errors.{ok}
use dariyanaap.Core.Socket
use dariyanaap.Core.Socket.{sent, received}
use dariyanaap.Core.Address.{inet}
use dariyanaap.Core.Listener.{accepted}
use dariyanaap.Fault.Acceptor.{Visit, run_acceptor}
use dariyanaap.Fault.Acceptor.Gated.{run_acceptor-IsGated}
use dariyanaap.Fault.Control.{Session, drain, serve}
use dariyanaap.Fault.Control.Lines.{drain_enough}
use dariyanaap.Fault.Control.Chunks.{reads, serve_split}
use dariyanaap.Fault.Numbers.{scan, skip_space, scan_unspaced, all_digits}
use dariyanaap.Fault.Knobs.{Knobs, all_off, gate, set_latency, refresh_gate}
use dariyanaap.Fault.Knobs.Gate.{IsGated, all_off-IsGated}
use dariyanaap.Fault.Commands.{
  apply_command, split_on, split_from, expect, apply_words, as_millis, load_from_env,
}
use dariyanaap.Fault.Commands.Reachable.{load_from_env-IsGated}

-- A node that is slow, drops, and is cut from another.
abbrev faulty : Knobs
faulty = record {
  any = true;
  latency_ns = 5_000_000;
  jitter_ns = 2_000_000;
  drop_ppm = 250_000;
  hanging = false;
  identity = codes "b";
  partitions = (codes "a", codes "b") ∷ [];
  any_partition = true;
}

faulty-IsGated : IsGated faulty
unfolding gate
faulty-IsGated = (refl, refl, omega arith)

abbrev slow : Knobs
slow = record all_off { any = true; latency_ns = 5_000_000; jitter_ns = 2_000_000 }

slow_command : apply_command rational (codes "latency 5 2") all_off ≡ ok (codes "ok", slow)
unfolding apply_command split_on split_from apply_words expect as_millis set_latency refresh_gate
    gate scan skip_space scan_unspaced all_digits
slow_command = refl

-- An environment in which the latency is set and the partition is not a pair.
abbrev environment : Bytes → Option Bytes
environment name =
    if bytes_eq name (codes "DARIYANAAP_FAULT_LATENCY_MS")
    then some (codes "5")
    else if bytes_eq name (codes "DARIYANAAP_FAULT_PARTITION")
    then some (codes "a")
    else none

load_from_env-IsGated_example : IsGated (load_from_env rational environment all_off).0
load_from_env-IsGated_example = load_from_env-IsGated rational environment all_off all_off-IsGated

abbrev no_message : ℕ → Bytes
no_message code = []

-- `status`, sent byte by byte in part, and at once.
serve_split_example :
    serve rational no_message faulty
      ((sent 14 ∷ []) ∷ [])
      (reads rational no_message ((115, codes "tat") ∷ (117, codes "s\n") ∷ []))
    ≡ serve rational no_message faulty
        ((sent 14 ∷ []) ∷ [])
        (reads rational no_message ((115, codes "tatus\n") ∷ []))
serve_split_example =
    serve_split rational no_message faulty ((sent 14 ∷ []) ∷ [])
      ((115, codes "tat") ∷ (117, codes "s\n") ∷ []) ((115, codes "tatus\n") ∷ []) refl

abbrev session : Session
session = record {
  knobs = faulty;
  pending = codes "status\nclear\nhea";
  writes = (sent 14 ∷ []) ∷ (sent 3 ∷ []) ∷ [];
  replies = [];
  is_open = true;
}

drain_enough_example : drain rational no_message 17 session ≡ drain rational no_message 40 session
drain_enough_example = drain_enough rational no_message 17 40 session (omega arith) (omega arith)

-- A client of the control port that sets a delay in two pieces of a line, and is answered.
abbrev visit : Visit
visit = record {
  accepting = accepted Socket.succeeded;
  stopping = false;
  receive = Socket.succeeded;
  send = Socket.succeeded;
  reads = received (codes "laten") ∷ received (codes "cy 5 2\n") ∷ [];
  writes = (sent 3 ∷ []) ∷ [];
}

run_acceptor-IsGated_example :
    IsGated
      (run_acceptor rational
        (λ code. [])
        (λ address. [])
        (inet [] 80)
        faulty
        (visit ∷ visit ∷ [])).1
run_acceptor-IsGated_example =
    run_acceptor-IsGated rational (λ code. []) (λ address. []) (inet [] 80) faulty
      (visit ∷ visit ∷ []) faulty-IsGated
