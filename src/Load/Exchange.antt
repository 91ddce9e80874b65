-- ===== src/Load/Exchange.antt =====
-- src/load/exchange.hpp and src/load/exchange.cpp: one request and its reply on one connection.
-- The results of the system calls are scripts, as in Core.Socket; the two readings of the clock
-- are numbers of nanoseconds, the second one later.
pub mod Outcomes
use dariyanaap.Prelude.{
  ℕ, zero, suc, ◌-◌, List, [], ◌∷◌, ◌++◌, Bool, true, false, if◌then◌else◌, length,
}
use dariyanaap.Prelude.Text.{Bytes, is_empty}
use dariyanaap.Core.Errors.{
  Error, error, usage_error, invalid_endpoint, io_error, bad_optional_access, Result, ok, err,
}
use dariyanaap.Core.Socket.{Recv, Send, read_some, write_all}
use dariyanaap.Load.Protocol.{Protocol, ResponseState, need_more, complete, malformed}

pub data Outcome : Type 0 where
  succeeded rejected timed_out protocol_error read_failed write_failed : Outcome

pub record Exchange : Type 0 where
  pub outcome : Outcome
  pub elapsed : ℕ
  pub connection_usable : Bool

-- An exchange that fails: the connection is finished. Only a timeout has taken a time.
abbrev pub failure : Outcome → ℕ → Exchange
failure outcome elapsed = record { outcome = outcome; elapsed = elapsed; connection_usable = false }

-- The two handlers around a call of the socket: a timeout, and any other `IoError`, which counts
-- as `broken`. Nothing else is thrown there (Core.Socket.Transfer).
abbrev pub failed_by : Error → Outcome → ℕ → Exchange
failed_by (Error.timed_out message) broken elapsed = failure Outcome.timed_out elapsed
failed_by (io_error message) broken elapsed = failure broken 0
failed_by (error message) broken elapsed = failure broken 0
failed_by (usage_error message) broken elapsed = failure broken 0
failed_by (invalid_endpoint message) broken elapsed = failure broken 0
failed_by bad_optional_access broken elapsed = failure broken 0

abbrev pub outcome_of : Bool → Outcome
outcome_of true = succeeded
outcome_of false = rejected

module _ (strerror : ℕ → Bytes) (protocol : Protocol) (elapsed : ℕ) where
  -- What follows a `consume`: read again, or end.
  abbrev pub judged : ResponseState → Bytes → Exchange → Exchange
  judged need_more received again = again
  judged malformed received again = failure protocol_error 0
  judged complete received again = record {
    outcome = outcome_of (protocol.succeeded received);
    elapsed = elapsed;
    connection_usable = true;
  }

  -- One round of the loop, from what `read_some` gave; `again` is the loop over a longer buffer.
  abbrev pub round : Result Bytes → Bytes → (Bytes → Exchange) → Exchange
  round (err e) received again = failed_by e read_failed elapsed
  round (ok []) received again = failure read_failed 0
  round (ok (b ∷ bytes)) received again =
      let longer = received ++ (b ∷ bytes) in judged (protocol.consume longer) longer (again longer)

  -- `for (;;)`, as many rounds as the fuel says. A script gives fewer rounds than it is long, so
  -- with more fuel than that the result does not depend on it (Load.Exchange.Outcomes).
  unfoldable pub receive : ℕ → List Recv → Bytes → Exchange
  receive zero script received = failure read_failed 0
  receive (suc fuel) script received =
      let (got, rest) = read_some strerror script in round got received (receive fuel rest)

  abbrev pub after_write : Result (Unit {0}) → List Recv → Exchange
  after_write (err e) script = failed_by e write_failed elapsed
  after_write (ok _) script = receive (suc (length script)) script []

  unfoldable pub perform_with : List Send → List Recv → Exchange
  perform_with sends recvs = after_write (write_all strerror protocol.request sends).0 recvs

-- `perform_request`, with the reading of the clock before the write and the one at the end.
unfoldable pub perform_request : (ℕ → Bytes) → Protocol → ℕ → ℕ → List Send → List Recv → Exchange
unfolding perform_with
perform_request strerror protocol sent now = perform_with strerror protocol (now - sent)
