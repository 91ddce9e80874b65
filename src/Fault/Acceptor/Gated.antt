-- ===== src/Fault/Acceptor/Gated.antt =====
-- The gates of the faults under everything that reaches the control port of src/fault/control.cpp.
use dariyanaap.Prelude.{
  ℕ, zero, suc, ◌≡◌, refl, List, [], ◌∷◌, ◌++◌, Option, none, some, if_both, length, take, subst,
  sym,
}
use dariyanaap.Prelude.Text.{Bytes, find}
use dariyanaap.Core.Double.{Double}
use dariyanaap.Core.Errors.{Result, ok, err}
use dariyanaap.Core.Address.{SocketAddress}
use dariyanaap.Core.Socket.{Recv, read_some, Send, set_timeouts}
use dariyanaap.Core.Listener.{Accept, accept}
use dariyanaap.Fault.Knobs.{Knobs}
use dariyanaap.Fault.Knobs.Gate.{IsGated}
use dariyanaap.Fault.Commands.{apply_command}
use dariyanaap.Fault.Commands.Reachable.{IsGatedReply, accepted, apply_command-IsGated}
use dariyanaap.Fault.Control.{
  Session, newline, chomp, answer_of, written, take_line, drain, feed, received, serve_reads, serve,
}
use dariyanaap.Fault.Control.Lines.{drain-none, drain-some}
use dariyanaap.Fault.Acceptor.{Visit, Acceptor, visited, admitted, run_acceptor}

answer_of-IsGated :
    (k : Knobs) (r : Result (Bytes × Knobs))
    → IsGated k
    → IsGatedReply r
    → IsGated (answer_of k r).1
answer_of-IsGated k (ok (reply, k')) g (accepted _ _ h) = h
answer_of-IsGated k (err e) g r = g

written-IsGated :
    (s : Session) (rest : Bytes) (k : Knobs) (reply : Bytes) (r : Result (Unit {0}))
    → IsGated k
    → IsGated (written s rest k reply r).knobs
written-IsGated s rest k reply (ok u) g = g
written-IsGated s rest k reply (err e) g = g

module _ (double : Double) (strerror : ℕ → Bytes) where
  take_line-IsGated :
      (s : Session) (i : ℕ) → IsGated s.knobs → IsGated (take_line double strerror s i).knobs
  unfolding take_line
  take_line-IsGated s i g = written-IsGated s _ _ _ _ (
      answer_of-IsGated s.knobs (apply_command double (chomp (take i s.pending)) s.knobs) g
        (apply_command-IsGated double (chomp (take i s.pending)) s.knobs g))

  drain_step-IsGated :
      (f : ℕ) (s : Session) (o : Option ℕ)
      → find newline s.pending ≡ o
      → IsGated s.knobs
      → ((t : Session) → IsGated t.knobs → IsGated (drain double strerror f t).knobs)
      → IsGated (drain double strerror (suc f) s).knobs
  drain_step-IsGated f s none e g next =
      subst (λ (t : Session). IsGated t.knobs) (sym (drain-none double strerror f s e)) g
  drain_step-IsGated f s (some i) e g next =
      subst (λ (t : Session). IsGated t.knobs) (sym (drain-some double strerror f s i e))
        (if_both (λ (t : Session). IsGated t.knobs) (take_line double strerror s i).is_open _ _
          (λ _. next (take_line double strerror s i) (take_line-IsGated s i g))
          (λ _. take_line-IsGated s i g))

  drain-IsGated :
      (f : ℕ) (s : Session) → IsGated s.knobs → IsGated (drain double strerror f s).knobs
  drain-IsGated zero s g = unfold drain in g
  drain-IsGated (suc f) s g =
      drain_step-IsGated f s (find newline s.pending) refl g (drain-IsGated f)

  feed-IsGated :
      (s : Session) (bytes : Bytes) → IsGated s.knobs → IsGated (feed double strerror s bytes).knobs
  unfolding feed
  feed-IsGated s bytes g =
      if_both (λ (t : Session). IsGated t.knobs) s.is_open _ s
        (λ _. drain-IsGated (suc (length (s.pending ++ bytes))) _ g) (λ _. g)

  received-IsGated :
      (s : Session) (r : Result Bytes) (again : Session → Session)
      → IsGated s.knobs
      → ((t : Session) → IsGated t.knobs → IsGated (again t).knobs)
      → IsGated (received double strerror s r again).knobs
  received-IsGated s (err e) again g next = g
  received-IsGated s (ok []) again g next = g
  received-IsGated s (ok (b ∷ bytes)) again g next =
      next (feed double strerror s (b ∷ bytes)) (feed-IsGated s (b ∷ bytes) g)

  serve_reads-IsGated :
      (fuel : ℕ) (script : List Recv) (s : Session)
      → IsGated s.knobs
      → IsGated (serve_reads double strerror fuel script s).knobs
  unfolding serve_reads
  serve_reads-IsGated zero script s g = g
  serve_reads-IsGated (suc fuel) script s g =
      if_both (λ (t : Session). IsGated t.knobs) s.is_open _ s
        (λ _.
          received-IsGated s (read_some strerror script).0 _ g
            (serve_reads-IsGated fuel (read_some strerror script).1))
        (λ _. g)

  serve-IsGated :
      (k : Knobs) (writes : List (List Send)) (script : List Recv)
      → IsGated k
      → IsGated (serve double strerror k writes script).knobs
  unfolding serve
  serve-IsGated k writes script g = serve_reads-IsGated (suc (length script)) script _ g

  module _ (str : SocketAddress → Bytes) (address : SocketAddress) where
    visited-IsGated :
        (r : Result (Unit {0})) (v : Visit) (k : Knobs) (next : Knobs → Acceptor × Knobs)
        → IsGated k
        → ((k' : Knobs) → IsGated k' → IsGated (next k').1)
        → IsGated (visited double strerror str address r v k next).1
    visited-IsGated (ok u) v k next g later =
        later (serve double strerror k v.writes v.reads).knobs (serve-IsGated k v.writes v.reads g)
    visited-IsGated (err e) v k next g later = g

    admitted-IsGated :
        (o : Option (Result (Unit {0}) × List Accept)) (v : Visit) (k : Knobs)
        (next : Knobs → Acceptor × Knobs)
        → IsGated k
        → ((k' : Knobs) → IsGated k' → IsGated (next k').1)
        → IsGated (admitted double strerror str address o v k next).1
    admitted-IsGated none v k next g later = later k g
    admitted-IsGated (some (err e, rest)) v k next g later = g
    admitted-IsGated (some (ok u, rest)) v k next g later =
        if_both (λ (r : Acceptor × Knobs). IsGated r.1) v.stopping _ _ (λ _. g)
          (λ _. visited-IsGated (set_timeouts strerror v.receive v.send) v k next g later)

    -- If the gates tell the truth about the faults, they do so after any number of clients of the control
    -- port, whatever bytes they send in whatever pieces, and however each connection or the server ends.
    pub run_acceptor-IsGated :
        (k : Knobs) (visits : List Visit)
        → IsGated k
        → IsGated (run_acceptor double strerror str address k visits).1
    unfolding run_acceptor
    run_acceptor-IsGated k [] g = g
    run_acceptor-IsGated k (v ∷ visits) g =
        admitted-IsGated (accept strerror str address (v.accepting ∷ [])) v k
          (λ k'. run_acceptor double strerror str address k' visits) g
          (λ k' g'. run_acceptor-IsGated k' visits g')
