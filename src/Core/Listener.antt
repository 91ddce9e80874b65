-- ===== src/Core/Listener.antt =====
-- src/core/listener.hpp and src/core/listener.cpp: a socket that is bound and listens. What the
-- system calls return is an argument, for each address that is tried.
pub mod Binding
use dariyanaap.Prelude.{ℕ, zero, suc, ◌+◌, List, [], ◌∷◌, ◌++◌, Option, none, some}
use dariyanaap.Prelude.Text.{Bytes, codes, is_empty}
use dariyanaap.Core.Errors.{
  Error, error, usage_error, invalid_endpoint, timed_out, io_error, bad_optional_access, Result, ok,
  err, ◌>>=◌, ◌>>◌,
}
use dariyanaap.Core.Endpoint.{Endpoint, endpoint}
use dariyanaap.Core.Address.{SocketAddress, inet, inet6, other, with_port, resolve, AddrInfo}
use dariyanaap.Core.Socket.{Sys, succeeded, failed, checked, noted}

-- What the system answers while one address is bound: `name` is what getsockname gives.
pub record Attempt : Type 0 where
  pub creating : Sys
  pub no_sigpipe : Sys
  pub reuse : Sys
  pub binding : Sys
  pub listening : Sys
  pub naming : Sys
  pub name : SocketAddress

pub record Listener : Type 0 where
  pub address : SocketAddress
  pub port : ℕ

abbrev pub default_backlog : ℕ
default_backlog = 128

-- One call of `accept`, with what adopting its descriptor does.
pub data Accept : Type 0 where
  accepted : Sys → Accept
  accept_interrupted : Accept
  accept_failed : ℕ → Accept

abbrev pub port_of : SocketAddress → Result ℕ
port_of (inet host port) = ok port
port_of (inet6 host port) = ok port
port_of (other family) = err (io_error (codes "bound an address family with no port"))

module _ (strerror : ℕ → Bytes) (str : SocketAddress → Bytes) where
  abbrev pub checked_for : Sys → Bytes → SocketAddress → Result (Unit {0})
  checked_for succeeded doing address = ok tt
  checked_for (failed code) doing address =
      err (io_error (doing ++ (str address ++ (codes ": " ++ strerror code))))

  -- `bind_one`; `Socket::adopt` sets SO_NOSIGPIPE.
  unfoldable pub bind_one : SocketAddress → Attempt → Result (Unit {0})
  bind_one address a = do
    checked_for a.creating (codes "cannot create a socket for ") address
    checked strerror a.no_sigpipe (codes "setsockopt(SO_NOSIGPIPE): ")
    checked strerror a.reuse (codes "setsockopt(SO_REUSEADDR): ")
    checked_for a.binding (codes "cannot bind ") address
    checked_for a.listening (codes "cannot listen on ") address

  unfoldable pub bound_port : Attempt → Result ℕ
  bound_port a = do checked strerror a.naming (codes "getsockname: "); port_of a.name

  -- The body of the `try`.
  unfoldable pub try_bind : SocketAddress → Attempt → Result Listener
  unfolding bind_one bound_port
  try_bind address a = do
    bind_one address a
    port ← bound_port a
    named ← with_port address port
    ok (record { address = named; port = port })

  -- The handler takes an `IoError`, which a `TimedOut` is too.
  abbrev pub caught : Error → Bytes → (Bytes → Result Listener) → Result Listener
  caught (io_error message) failures next = next (noted strerror failures message)
  caught (timed_out message) failures next = next (noted strerror failures message)
  caught (error message) failures next = err (error message)
  caught (usage_error message) failures next = err (usage_error message)
  caught (invalid_endpoint message) failures next = err (invalid_endpoint message)
  caught bad_optional_access failures next = err bad_optional_access

  abbrev pub tried : Result Listener → Bytes → (Bytes → Result Listener) → Result Listener
  tried (ok listener) failures next = ok listener
  tried (err e) failures next = caught e failures next

  -- The loop over the addresses, from number i on, with what the system does at each.
  unfoldable pub bind_from : (ℕ → Attempt) → ℕ → List SocketAddress → Bytes → Result Listener
  bind_from system i [] failures = err (io_error failures)
  bind_from system i (address ∷ rest) failures =
      tried (try_bind address (system i)) failures (bind_from system (i + 1) rest)

  unfoldable pub bind_first_that_works : (ℕ → Attempt) → List SocketAddress → Result Listener
  bind_first_that_works system addresses = bind_from system 0 addresses []

  -- The loop of `accept` over its calls; with no call left it blocks, which is `none`.
  unfoldable pub accept : SocketAddress → List Accept → Option (Result (Unit {0}) × List Accept)
  accept address [] = none
  accept address (accepted adopting ∷ script) =
      some (checked strerror adopting (codes "setsockopt(SO_NOSIGPIPE): "), script)
  accept address (accept_interrupted ∷ script) = accept address script
  accept address (accept_failed code ∷ script) = some (
    err (io_error (codes "accept on " ++ (str address ++ (codes ": " ++ strerror code)))),
    script,
  )

-- `address = address.with_port(0)` for each address.
unfoldable pub without_ports : List SocketAddress → Result (List SocketAddress)
without_ports [] = ok []
without_ports (address ∷ rest) = do
  first ← with_port address 0
  others ← without_ports rest
  ok (first ∷ others)

module _ (strerror gai_strerror : ℕ → Bytes) (str : SocketAddress → Bytes)
    (getaddrinfo : Endpoint → AddrInfo) (system : ℕ → Attempt) where
  unfoldable pub bind : Endpoint → Result Listener
  bind to = do
    addresses ← resolve gai_strerror getaddrinfo to
    bind_first_that_works strerror str system addresses

  unfoldable pub bind_ephemeral : Bytes → Result Listener
  bind_ephemeral host = do
    placeholder ← endpoint host 1
    addresses ← resolve gai_strerror getaddrinfo placeholder
    unbound ← without_ports addresses
    bind_first_that_works strerror str system unbound
