-- ===== src/Core/Socket.antt =====
-- src/core/socket.cpp: connecting, and reading and writing with bounded waits.
-- The system calls are not in the repository. What they return is an argument: a script of
-- results, taken one for each call. `strerror` is a parameter, and an address is what its `str`
-- prints. A script that has run out stands for a peer that is gone: `recv` returns 0, `send` fails
-- with EPIPE, and a wait for a connection runs to its deadline.
pub mod Transfer
pub mod Connects
use dariyanaap.Prelude.{
  ℕ, zero, suc, ◌+◌, ◌-◌, List, [], ◌∷◌, ◌++◌, Bool, true, false, ◌&&◌, if◌then◌else◌, ltb, leb,
  length, take, drop,
}
use dariyanaap.Prelude.Text.{Bytes, codes, to_string, is_empty}
use dariyanaap.Core.Errors.{
  Error, error, usage_error, invalid_endpoint, timed_out, io_error, bad_optional_access, Result, ok,
  err, ◌>>=◌, ◌>>◌, throw_if,
}

-- One `recv`: the bytes that it put into the buffer, none of them if the peer has closed.
pub data Recv : Type 0 where
  received : Bytes → Recv
  recv_interrupted : Recv
  recv_would_block : Recv
  recv_failed : ℕ → Recv

-- One `send`: how many of the bytes offered it took.
pub data Send : Type 0 where
  sent : ℕ → Send
  send_interrupted : Send
  send_would_block : Send
  send_failed : ℕ → Send

-- A call that returns 0 or sets errno.
pub data Sys : Type 0 where
  succeeded : Sys
  failed : ℕ → Sys

-- One round of the wait in `await_writable`: the nanoseconds left to the deadline, and `poll`.
pub data Ready : Type 0 where
  ready expired interrupted : Ready
  poll_failed : ℕ → Ready

pub record Poll : Type 0 where
  pub left : ℕ
  pub answer : Ready

-- `::connect` on a descriptor that does not block.
pub data Connecting : Type 0 where
  at_once in_progress : Connecting
  refused : ℕ → Connecting

-- What the system answers while `connect` works on one address.
pub record Attempt : Type 0 where
  pub address : Bytes
  pub creating : Sys
  pub no_sigpipe : Sys
  pub get_flags : Sys
  pub set_nonblocking : Sys
  pub connecting : Connecting
  pub polls : List Poll
  pub get_error : Sys
  pub so_error : ℕ
  pub get_flags_again : Sys
  pub set_blocking : Sys

abbrev pub epipe : ℕ
epipe = 32

module _ (strerror : ℕ → Bytes) where
  unfoldable pub read_some : List Recv → Result Bytes × List Recv
  read_some [] = (ok [], [])
  read_some (received bytes ∷ script) = (ok bytes, script)
  read_some (recv_interrupted ∷ script) = read_some script
  read_some (recv_would_block ∷ script) = (err (timed_out (codes "read timed out")), script)
  read_some (recv_failed code ∷ script) = (err (io_error (codes "read: " ++ strerror code)), script)

  -- `write_all` from the first `so_far` of `total` bytes on; what is left to send is `rest`. Beside
  -- the result stand the bytes that the system took in this and the later rounds.
  unfoldable pub write_from : ℕ → ℕ → Bytes → List Send → Result (Unit {0}) × Bytes
  write_from total so_far [] script = (ok tt, [])
  write_from total so_far (b ∷ rest) [] = (err (io_error (codes "write: " ++ strerror epipe)), [])
  write_from total so_far (b ∷ rest) (sent zero ∷ script) =
      (err (io_error (codes "write made no progress")), [])
  write_from total so_far (b ∷ rest) (sent (suc n) ∷ script) =
      let (result, taken) = write_from total (so_far + suc n) (drop n rest) script in
      (result, b ∷ (take n rest ++ taken))
  write_from total so_far (b ∷ rest) (send_interrupted ∷ script) =
      write_from total so_far (b ∷ rest) script
  write_from total so_far (b ∷ rest) (send_would_block ∷ script) = (
    err (
        timed_out (
          codes "write timed out after "
          ++ (to_string so_far ++ (codes " of " ++ (to_string total ++ codes " bytes"))))),
    [],
  )
  write_from total so_far (b ∷ rest) (send_failed code ∷ script) =
      (err (io_error (codes "write: " ++ strerror code)), [])

  unfoldable pub write_all : Bytes → List Send → Result (Unit {0}) × Bytes
  write_all bytes script = write_from (length bytes) 0 bytes script

  unfoldable pub describe : Bytes → Bytes → ℕ → Bytes
  describe doing address code = doing ++ (codes " " ++ (address ++ (codes ": " ++ strerror code)))

  abbrev pub checked : Sys → Bytes → Result (Unit {0})
  checked succeeded message = ok tt
  checked (failed code) message = err (io_error (message ++ strerror code))

  abbrev checked_at : Sys → Bytes → Bytes → Result (Unit {0})
  checked_at succeeded doing address = ok tt
  checked_at (failed code) doing address = err (io_error (describe doing address code))

  unfoldable pub connect_timed_out : Bytes → ℕ → Error
  connect_timed_out address timeout = timed_out (
      codes "connect to "
      ++ (address ++ (codes " timed out after " ++ (to_string timeout ++ codes "ms"))))

  -- What `poll` said, and what the next round of the loop gives.
  abbrev answered : Bytes → ℕ → Ready → Result (Unit {0}) → Result (Unit {0})
  answered address timeout ready again = ok tt
  answered address timeout expired again = err (connect_timed_out address timeout)
  answered address timeout interrupted again = again
  answered address timeout (poll_failed code) again =
      err (io_error (describe (codes "poll while connecting to") address code))

  unfoldable pub await_writable : Bytes → ℕ → List Poll → Result (Unit {0})
  await_writable address timeout [] = err (connect_timed_out address timeout)
  await_writable address timeout (poll ∷ polls) =
      let again = answered address timeout poll.answer (await_writable address timeout polls) in
      if leb poll.left 0 then err (connect_timed_out address timeout) else again

  -- SO_ERROR after the wait: zero if the connection stands.
  abbrev connected : Bytes → ℕ → Result (Unit {0})
  connected address zero = ok tt
  connected address (suc code) = err (io_error (describe (codes "connect to") address (suc code)))

  abbrev established : ℕ → Attempt → Connecting → Result (Unit {0})
  established timeout a at_once = ok tt
  established timeout a (refused code) =
      err (io_error (describe (codes "connect to") a.address code))
  established timeout a in_progress = do
    await_writable a.address timeout a.polls
    checked_at a.get_error (codes "getsockopt(SO_ERROR) for") a.address
    connected a.address a.so_error

  -- `connect`; the descriptor itself is not modelled, only whether there is one in the end.
  unfoldable pub connect : ℕ → Attempt → Result (Unit {0})
  unfolding connect_timed_out await_writable
  connect timeout a = do
    checked_at a.creating (codes "cannot create a socket for") a.address
    checked a.no_sigpipe (codes "setsockopt(SO_NOSIGPIPE): ")
    checked a.get_flags (codes "fcntl F_GETFL: ")
    checked a.set_nonblocking (codes "fcntl F_SETFL: ")
    established timeout a a.connecting
    checked a.get_flags_again (codes "fcntl F_GETFL: ")
    checked a.set_blocking (codes "fcntl F_SETFL: ")

  -- `if (!failures.empty()) failures += "; "; failures += what`
  abbrev pub noted : Bytes → Bytes → Bytes
  noted failures message = (if is_empty failures then [] else failures ++ codes "; ") ++ message

  -- The two handlers of the loop; any other exception leaves it.
  abbrev caught : Error → Bytes → Bool → (Bytes → Bool → Result (Unit {0})) → Result (Unit {0})
  caught (timed_out message) failures all next = next (noted failures message) all
  caught (io_error message) failures all next = next (noted failures message) false
  caught (error message) failures all next = err (error message)
  caught (usage_error message) failures all next = err (usage_error message)
  caught (invalid_endpoint message) failures all next = err (invalid_endpoint message)
  caught bad_optional_access failures all next = err bad_optional_access

  abbrev tried :
      Result (Unit {0}) → Bytes → Bool → (Bytes → Bool → Result (Unit {0})) → Result (Unit {0})
  tried (ok _) failures all next = ok tt
  tried (err e) failures all next = caught e failures all next

  -- The loop of `connect_any` over the addresses that are left.
  unfoldable pub connect_from : ℕ → List Attempt → Bytes → Bool → Result (Unit {0})
  connect_from timeout [] failures every_attempt_timed_out =
      if every_attempt_timed_out then err (timed_out failures) else err (io_error failures)
  connect_from timeout (a ∷ rest) failures every_attempt_timed_out =
      tried (connect timeout a) failures every_attempt_timed_out (connect_from timeout rest)

  unfoldable pub connect_any : ℕ → List Attempt → Result (Unit {0})
  connect_any timeout attempts = connect_from timeout attempts [] true

  -- `set_timeouts` sets two options in turn.
  unfoldable pub set_timeouts : Sys → Sys → Result (Unit {0})
  set_timeouts receive send = do
    checked receive (codes "setsockopt(SO_RCVTIMEO): ")
    checked send (codes "setsockopt(SO_SNDTIMEO): ")
