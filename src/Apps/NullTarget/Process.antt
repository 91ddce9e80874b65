-- ===== src/Apps/NullTarget/Process.antt =====
-- `main` of apps/dariyanaap_null.cpp: the target that echoes, from its command line to its loop over
-- the clients. What the system does is an argument. The threads that serve the clients, and the one that
-- stalls them, are counted and not followed here.
pub mod Handles
use dariyanaap.Prelude.{
  ℕ, zero, suc, ◌+◌, List, [], ◌∷◌, ◌++◌, Option, none, some, Bool, true, false, not, ltb, leb,
  ◌==◌, if◌then◌else◌,
}
use dariyanaap.Prelude.Text.{Bytes, codes, concat, to_string}
use dariyanaap.Core.Double.{Double}
use dariyanaap.Core.Endpoint.{Endpoint, endpoint}
use dariyanaap.Core.Errors.{
  Error, error, usage_error, invalid_endpoint, io_error, timed_out, bad_optional_access, Result, ok,
  err, throw_if, ◌>>=◌, ◌>>◌,
}
use dariyanaap.Core.Flags.{Values, wants_help, parse, text, number}
use dariyanaap.Core.Address.{SocketAddress, AddrInfo}
use dariyanaap.Core.Socket.{Sys, set_timeouts}
use dariyanaap.Core.Listener
use dariyanaap.Core.Listener.{Listener, Accept, accept, bind, bind_ephemeral, default_backlog}
use dariyanaap.Fault.Knobs.{Knobs, all_off}
use dariyanaap.Fault.Commands.{load_from_env}

abbrev pub known_flags : List Bytes
known_flags =
    codes "host"
    ∷ codes "port"
    ∷ codes "payload"
    ∷ codes "backlog"
    ∷ codes "stall-every"
    ∷ codes "stall-for"
    ∷ []

pub record Settings : Type 0 where
  pub host : Bytes
  pub port : ℕ
  pub payload : ℕ
  pub backlog : ℕ

unfoldable pub read_settings : Values → Result Settings
read_settings flags = do
  port ← number flags (codes "port") 0
  payload ← number flags (codes "payload") 64
  backlog ← number flags (codes "backlog") default_backlog
  throw_if (ltb 65535 port) (usage_error (codes "--port must be at most 65535"))
  throw_if (payload == 0) (usage_error (codes "--payload must be at least 1 byte"))
  ok (record {
    host = text flags (codes "host") (codes "127.0.0.1");
    port = port;
    payload = payload;
    backlog = backlog;
  })

-- Whether a stall is wanted: how often, and for how long.
pub record Stall : Type 0 where
  pub every : ℕ
  pub lasting : ℕ

unfoldable pub read_stall : Values → Result Stall
read_stall flags = do
  every ← number flags (codes "stall-every") 0
  lasting ← number flags (codes "stall-for") 0
  throw_if (if every == 0 then not (lasting == 0) else lasting == 0)
      (usage_error (codes "--stall-every and --stall-for must be given together"))
  ok (record { every = every; lasting = lasting })

-- A client that comes: the call of `accept`, and the two options that `set_timeouts` sets.
pub record Arrival : Type 0 where
  pub accepting : Accept
  pub receive : Sys
  pub send : Sys

-- How the loop over the clients ends: it still waits for one, or an exception leaves it. The number
-- beside it is how many threads are joinable then.
pub data Loop : Type 0 where
  waits : Loop
  throws : Error → Loop

-- How the process ends. An exception that leaves the block while a thread is joinable ends it by
-- `std::terminate`, when the vector of the threads is destroyed, and before any handler.
pub data Ending : Type 0 where
  exits : ℕ → Ending
  terminates : Ending
  serves : Ending

-- The system: getenv, getaddrinfo, and the calls for the listener and for each client.
pub record System : Type 0 where
  pub getenv : Bytes → Option Bytes
  pub getaddrinfo : Endpoint → AddrInfo
  pub attempts : ℕ → Listener.Attempt
  pub arrivals : List Arrival

-- `if (connections.size() >= 4096)` after one more thread.
unfoldable pub one_more : ℕ → ℕ
one_more threads = if leb 4096 (threads + 1) then 0 else threads + 1

module _ (strerror gai_strerror : ℕ → Bytes) (str : SocketAddress → Bytes) where
  -- `listener.accept()` and `client.set_timeouts(...)`; none where a signal came and it waits on.
  unfoldable pub client : SocketAddress → Arrival → Option (Result (Unit {0}))
  client address a = elim (accept strerror str address (a.accepting ∷ [])) [
    | none ↦ none
    | some (adopted, later) ↦ some (adopted >> set_timeouts strerror a.receive a.send)
  ]

  abbrev pub admitted : Option (Result (Unit {0})) → ℕ → (ℕ → Loop × ℕ) → Loop × ℕ
  admitted none threads next = next threads
  admitted (some (ok u)) threads next = next (one_more threads)
  admitted (some (err e)) threads next = (throws e, threads)

  unfoldable pub accept_loop : SocketAddress → ℕ → List Arrival → Loop × ℕ
  accept_loop address threads [] = (waits, threads)
  accept_loop address threads (a ∷ arrivals) =
      admitted (client address a) threads (λ n. accept_loop address n arrivals)

  abbrev pub handled : Error → Ending
  handled (usage_error message) = exits 2
  handled (invalid_endpoint message) = exits 2
  handled (error message) = exits 1
  handled (io_error message) = exits 1
  handled (timed_out message) = exits 1
  handled bad_optional_access = terminates

  unfoldable pub ending : Loop × ℕ → Ending
  ending (waits, threads) = serves
  ending (throws e, zero) = handled e
  ending (throws e, suc threads) = terminates

  unfoldable pub listen : System → Settings → Result Listener
  listen system s =
      let ephemeral =
        bind_ephemeral strerror gai_strerror str system.getaddrinfo system.attempts s.host in
      let fixed = do
        to ← endpoint s.host s.port
        bind strerror gai_strerror str system.getaddrinfo system.attempts to
      in if s.port == 0 then ephemeral else fixed

  -- Everything up to the line that is printed.
  pub record Ready : Type 0 where
    pub listener : Listener
    pub settings : Settings
    pub stall : Stall

  unfoldable pub listening_line : Ready → Bytes
  listening_line r = concat (
      codes "listening "
      ∷ str r.listener.address
      ∷ codes " payload "
      ∷ to_string r.settings.payload
      ∷ codes " backlog "
      ∷ to_string r.settings.backlog
      ∷ codes " stall "
      ∷ to_string r.stall.lasting
      ∷ codes "/"
      ∷ to_string r.stall.every
      ∷ codes " ms\n"
      ∷ [])

  unfoldable pub prepare : Double → System → List Bytes → Result Ready
  prepare double system arguments = do
    (load_from_env double system.getenv all_off).1
    flags ← parse arguments known_flags
    s ← read_settings flags
    listener ← listen system s
    stall ← read_stall flags
    ok (record { listener = listener; settings = s; stall = stall })

  -- What it prints, and how it ends.
  abbrev pub run_prepared : System → Result Ready → Bytes × Ending
  run_prepared system (err e) = ([], handled e)
  run_prepared system (ok r) =
      (listening_line r, ending (accept_loop r.listener.address 0 system.arrivals))

  -- The text that --help prints is left out.
  unfoldable pub main : Double → System → List Bytes → Bytes × Ending
  main double system arguments =
      if wants_help arguments
      then ([], exits 0)
      else run_prepared system (prepare double system arguments)
