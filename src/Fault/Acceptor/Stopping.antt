-- ===== src/Fault/Acceptor/Stopping.antt =====
-- The destructor of `ControlServer` in src/fault/control.cpp.
use dariyanaap.Prelude.{ℕ, ◌≡◌, refl, List, [], ◌∷◌, Option, none, some, map, if_both}
use dariyanaap.Prelude.Text.{Bytes}
use dariyanaap.Core.Double.{Double}
use dariyanaap.Core.Errors.{Result, ok, err, is_io_error}
use dariyanaap.Core.Address.{SocketAddress}
use dariyanaap.Core.Listener.{Accept, accept}
use dariyanaap.Fault.Knobs.{Knobs}
use dariyanaap.Fault.Acceptor.{Visit, Acceptor, told, admitted, run_acceptor, destroy}

module _ (double : Double) (strerror : ℕ → Bytes) (str : SocketAddress → Bytes)
    (address : SocketAddress) where
  admitted-told :
      (o : Option (Result (Unit {0}) × List Accept)) (v : Visit) (k : Knobs)
      (next : Knobs → Acceptor × Knobs)
      → (next k).1 ≡ k
      → (admitted double strerror str address o (told double strerror str address v) k next).1 ≡ k
  admitted-told none v k next h = h
  admitted-told (some (ok u, later)) v k next h = refl
  admitted-told (some (err e, later)) v k next h = refl

  run_acceptor-told :
      (k : Knobs) (visits : List Visit)
      → (run_acceptor double strerror str address k
          (map (told double strerror str address) visits)).1
        ≡ k
  unfolding run_acceptor
  run_acceptor-told k [] = refl
  run_acceptor-told k (v ∷ visits) =
      admitted-told (accept strerror str address (v.accepting ∷ [])) v k _
        (run_acceptor-told k visits)

  -- Once the destructor has told the waiting thread to stop, no client changes a knob, however
  -- connecting to the own port ends.
  pub destroy-keeps :
      (poke : Result (Unit {0})) (k : Knobs) (visits : List Visit)
      → (destroy double strerror str address poke k visits).1 ≡ k
  unfolding destroy
  destroy-keeps (ok u) k visits = run_acceptor-told k visits
  destroy-keeps (err e) k visits =
      if_both (λ (r : Acceptor × Knobs). r.1 ≡ k) (is_io_error e) _ _
        (λ _. run_acceptor-told k visits) (λ _. refl)
