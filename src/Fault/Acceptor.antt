-- ===== src/Fault/Acceptor.antt =====
-- `ControlServer` of src/fault/control.cpp: its listener, and the thread that serves one client after
-- the other. What the system does for each client is an argument. That thread has no handler, so that an
-- exception in it ends the process.
pub mod Gated
pub mod Stopping
use dariyanaap.Prelude.{
  ℕ, List, [], ◌∷◌, Option, none, some, Bool, true, false, ◌==◌, if◌then◌else◌, map,
}
use dariyanaap.Prelude.Text.{Bytes}
use dariyanaap.Core.Double.{Double}
use dariyanaap.Core.Endpoint.{Endpoint, endpoint}
use dariyanaap.Core.Errors.{Result, ok, err, is_io_error, ◌>>=◌}
use dariyanaap.Core.Address.{SocketAddress, AddrInfo}
use dariyanaap.Core.Socket.{Sys, Send, Recv, set_timeouts}
use dariyanaap.Core.Listener
use dariyanaap.Core.Listener.{Listener, Accept, accept, bind, bind_ephemeral}
use dariyanaap.Fault.Knobs.{Knobs}
use dariyanaap.Fault.Control.{serve}

-- A client that comes: the call of `accept`, whether `stopping` is set then, the two options, and what its
-- reads and writes do.
pub record Visit : Type 0 where
  pub accepting : Accept
  pub stopping : Bool
  pub receive : Sys
  pub send : Sys
  pub reads : List Recv
  pub writes : List (List Send)

-- The thread still waits for a client, has returned, or has ended the process.
pub data Acceptor : Type 0 where
  waits stopped terminated : Acceptor

module _ (strerror gai_strerror : ℕ → Bytes) (str : SocketAddress → Bytes)
    (getaddrinfo : Endpoint → AddrInfo) (attempts : ℕ → Listener.Attempt) where
  -- The listener of the constructor.
  unfoldable pub open_listener : Bytes → ℕ → Result Listener
  open_listener host port =
      let ephemeral = bind_ephemeral strerror gai_strerror str getaddrinfo attempts host in
      let fixed = do to ← endpoint host port; bind strerror gai_strerror str getaddrinfo attempts to
      in if port == 0 then ephemeral else fixed

module _ (double : Double) (strerror : ℕ → Bytes) (str : SocketAddress → Bytes)
    (address : SocketAddress) where
  abbrev pub visited :
      Result (Unit {0}) → Visit → Knobs → (Knobs → Acceptor × Knobs) → Acceptor × Knobs
  visited (err e) v k next = (terminated, k)
  visited (ok u) v k next = next (serve double strerror k v.writes v.reads).knobs

  abbrev pub admitted :
      Option (Result (Unit {0}) × List Accept)
      → Visit
      → Knobs
      → (Knobs → Acceptor × Knobs)
      → Acceptor × Knobs
  admitted none v k next = next k
  admitted (some (err e, later)) v k next = (terminated, k)
  admitted (some (ok u, later)) v k next =
      if v.stopping then (stopped, k) else visited (set_timeouts strerror v.receive v.send) v k next

  -- The loop of the thread. A call of `accept` that a signal interrupts is made again.
  unfoldable pub run_acceptor : Knobs → List Visit → Acceptor × Knobs
  run_acceptor k [] = (waits, k)
  run_acceptor k (v ∷ visits) =
      admitted (accept strerror str address (v.accepting ∷ [])) v k (λ k'. run_acceptor k' visits)

  abbrev pub told : Visit → Visit
  told v = record v { stopping = true }

  -- The destructor, while the thread waits for a client: `poke` is what connecting to the own port comes
  -- to, and `visits` are the clients from then on, all of whom find `stopping` set. Any other exception
  -- than an `IoError` ends the process, as a destructor must not throw.
  unfoldable pub destroy : Result (Unit {0}) → Knobs → List Visit → Acceptor × Knobs
  destroy (ok u) k visits = run_acceptor k (map told visits)
  destroy (err e) k visits =
      let caught = run_acceptor k (map told visits) in
      if is_io_error e then caught else (terminated, k)
