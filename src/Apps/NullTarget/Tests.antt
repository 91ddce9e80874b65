-- ===== src/Apps/NullTarget/Tests.antt =====
-- The theorems on apps/dariyanaap_null.cpp at inputs that meet their hypotheses.
use dariyanaap.Prelude.{ℕ, ◌≡◌, refl, List, [], ◌∷◌, ◌++◌, some, true, arith}
use dariyanaap.Prelude.Text.{Bytes, codes}
use dariyanaap.Core.Errors.{Error, io_error, err}
use dariyanaap.Core.Address.{inet}
use dariyanaap.Core.Listener.{accepted, accept_failed, accept}
use dariyanaap.Core.Socket.{succeeded, sent, send_interrupted, set_timeouts}
use dariyanaap.Fault.Knobs.{all_off}
use dariyanaap.Apps.NullTarget.{Answer}
use dariyanaap.Apps.NullTarget.Process.{Arrival, client, terminates, ending, accept_loop}
use dariyanaap.Apps.NullTarget.Process.Handles.{AllAdmitted, ending-terminates}

abbrev no_message : ℕ → Bytes
no_message code = []

-- A request of three bytes in two pieces, and one that is dropped.
abbrev requests : List (List Bytes × Answer)
requests =
    (
      codes "a" ∷ codes "bc" ∷ [],
      record { knobs = all_off; draw = 0; sends = sent 2 ∷ send_interrupted ∷ sent 1 ∷ [] },
    )
    ∷ (
      codes "def" ∷ [],
      record {
        knobs = record all_off { any = true; drop_ppm = 500_000 };
        draw = 3;
        sends = sent 3 ∷ [];
      },
    )
    ∷ []

-- A client, and a failure of the next `accept`.
abbrev arrival : Arrival
arrival = record { accepting = accepted succeeded; receive = succeeded; send = succeeded }

abbrev failure : Arrival
failure = record { accepting = accept_failed 24; receive = succeeded; send = succeeded }

admitted : AllAdmitted no_message no_message (λ address. []) (inet [] 80) (arrival ∷ [])
unfolding client accept set_timeouts
admitted = (refl, tt)

accept_error : Error
accept_error = io_error (codes "accept on : ")

fails : client no_message no_message (λ address. []) (inet [] 80) failure ≡ some (err accept_error)
unfolding client accept set_timeouts accept_error
fails = refl

ending-terminates_example :
    ending no_message no_message
      (λ address. [])
      (accept_loop no_message no_message
        (λ address. [])
        (inet [] 80)
        0
        ((arrival ∷ []) ++ failure ∷ []))
    ≡ terminates
ending-terminates_example =
    ending-terminates no_message no_message (λ address. []) (inet [] 80) (arrival ∷ []) failure []
      accept_error admitted (omega arith) (omega arith) fails
