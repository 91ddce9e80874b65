-- ===== src/Apps/NullTarget.antt =====
-- `serve` of apps/dariyanaap_null.cpp: one connection to the target that echoes. What its reads
-- bring, what the faults are when a request has come, and what its writes do are arguments. Waiting,
-- for the end of a stall or for an injected delay, has no effect on what is sent.
mod Tests
pub mod Echo
pub mod Process
use dariyanaap.Prelude.{ℕ, List, [], ◌∷◌, ◌++◌, Bool, true, false, ltb, length, take, if◌then◌else◌}
use dariyanaap.Prelude.Text.{Bytes}
use dariyanaap.Core.Errors.{Result, ok, err}
use dariyanaap.Core.Socket.{
  Recv, received, recv_interrupted, recv_would_block, recv_failed, Send, write_all,
}
use dariyanaap.Fault.Knobs.{Knobs, should_drop}

-- What one request meets: the knobs and the draw of `should_drop`, and the calls of `send`.
pub record Answer : Type 0 where
  pub knobs : Knobs
  pub draw : ℕ
  pub sends : List Send

module _ (strerror : ℕ → Bytes) (payload : ℕ) where
  -- After a write: the bytes that went out, and the next requests if it did not throw.
  abbrev pub answered : Result (Unit {0}) × Bytes → List Bytes → List Bytes
  answered (ok _, taken) later = taken ∷ later
  answered (err e, taken) later = taken ∷ []

  -- A whole request: dropped, or written back. The model follows as many requests as there are answers.
  abbrev pub reply : List Answer → Bytes → (List Answer → List Bytes) → List Bytes
  reply [] request next = []
  reply (a ∷ later) request next =
      if should_drop a.knobs a.draw
      then next later
      else answered (write_all strerror request a.sends) (next later)

  -- The loop, with the bytes of the current request so far. The result is what each reply put on the
  -- wire. An `IoError` ends the connection.
  unfoldable pub serve_from : List Answer → Bytes → List Recv → List Bytes
  serve_from answers have [] = []
  serve_from answers have (received [] ∷ reads) = []
  serve_from answers have (received (b ∷ bytes) ∷ reads) =
      let held = have ++ (b ∷ bytes) in
      let more = serve_from answers held reads in
      let whole = reply answers (take payload held) (λ later. serve_from later [] reads) in
      if ltb (length held) payload then more else whole
  serve_from answers have (recv_interrupted ∷ reads) = serve_from answers have reads
  serve_from answers have (recv_would_block ∷ reads) = []
  serve_from answers have (recv_failed code ∷ reads) = []

  unfoldable pub serve : List Answer → List Recv → List Bytes
  serve answers reads = serve_from answers [] reads
