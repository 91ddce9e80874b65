-- ===== src/Apps/NullTarget/Process/Handles.antt =====
-- How many threads the target of apps/dariyanaap_null.cpp keeps joinable, and what that does where an
-- exception leaves its loop.
use dariyanaap.Prelude.{
  ℕ, suc, ◌+◌, ◌<◌, ◌≡◌, ap, ◌∙◌, List, [], ◌∷◌, ◌++◌, Option, none, some, length, leb,
  if◌then◌else◌, arith,
}
use dariyanaap.Prelude.Text.{Bytes}
use dariyanaap.Core.Errors.{Error, Result, ok, err}
use dariyanaap.Core.Address.{SocketAddress}
use dariyanaap.Apps.NullTarget.Process.{
  Arrival, Loop, throws, terminates, one_more, client, admitted, accept_loop, ending,
}

module _ (strerror gai_strerror : ℕ → Bytes) (str : SocketAddress → Bytes)
    (address : SocketAddress) where
  -- All of these clients are taken.
  abbrev pub AllAdmitted : List Arrival → Type 0
  AllAdmitted [] = Unit
  AllAdmitted (a ∷ arrivals) =
      (client strerror gai_strerror str address a ≡ some (ok tt)) × AllAdmitted arrivals

  one_more-bound : (threads : ℕ) → threads < 4096 → one_more threads < 4096
  unfolding one_more
  one_more-bound threads h = ground arith

  admitted-bound :
      (c : Option (Result (Unit {0}))) (threads : ℕ) (next : ℕ → Loop × ℕ)
      → threads < 4096
      → ((n : ℕ) → n < 4096 → (next n).1 < 4096)
      → (admitted strerror gai_strerror str c threads next).1 < 4096
  admitted-bound none threads next h k = k threads h
  admitted-bound (some (ok u)) threads next h k = k (one_more threads) (one_more-bound threads h)
  admitted-bound (some (err e)) threads next h k = h

  -- However many clients come, and in whatever way the loop ends: fewer than 4096 threads are joinable.
  pub accept_loop_bound :
      (threads : ℕ) (arrivals : List Arrival)
      → threads < 4096
      → (accept_loop strerror gai_strerror str address threads arrivals).1 < 4096
  unfolding accept_loop
  accept_loop_bound threads [] h = h
  accept_loop_bound threads (a ∷ arrivals) h =
      admitted-bound (client strerror gai_strerror str address a) threads
        (λ n. accept_loop strerror gai_strerror str address n arrivals) h
        (λ n k. accept_loop_bound n arrivals k)

  accept_loop-throws :
      (threads : ℕ) (arrivals : List Arrival) (a : Arrival) (later : List Arrival) (e : Error)
      → AllAdmitted arrivals
      → threads + length arrivals < 4096
      → client strerror gai_strerror str address a ≡ some (err e)
      → accept_loop strerror gai_strerror str address threads (arrivals ++ a ∷ later)
        ≡ (throws e, threads + length arrivals)
  unfolding accept_loop one_more
  accept_loop-throws threads [] a later e all few fails =
      rw fails (ap (λ n. (throws e, n)) (let same : threads ≡ threads + 0 = omega arith in same))
  accept_loop-throws threads (b ∷ arrivals) a later e (taken, all) few fails = rw taken (
      ap (λ n. accept_loop strerror gai_strerror str address n (arrivals ++ a ∷ later)) more
      ∙ accept_loop-throws (threads + 1) arrivals a later e all (omega arith) fails
      ∙ ap (λ n. (throws e, n))
          (let same : threads + 1 + length arrivals ≡ threads + suc (length arrivals) =
              omega arith in
            same))
    where
      more : (if leb 4096 (threads + 1) then 0 else threads + 1) ≡ threads + 1
      more = ground (arith, few)

  -- Where some clients were taken, fewer than 4096 of them, and the next cannot be, whether `accept`
  -- fails or setting its timeouts: the process is ended by `std::terminate`, and no handler runs.
  pub ending-terminates :
      (arrivals : List Arrival) (a : Arrival) (later : List Arrival) (e : Error)
      → AllAdmitted arrivals
      → 0 < length arrivals
      → length arrivals < 4096
      → client strerror gai_strerror str address a ≡ some (err e)
      → ending strerror gai_strerror str
          (accept_loop strerror gai_strerror str address 0 (arrivals ++ a ∷ later))
        ≡ terminates
  unfolding ending
  ending-terminates [] a later e all some_taken few fails = absurd (omega arith)
  ending-terminates (b ∷ arrivals) a later e all some_taken few fails =
      ap (ending strerror gai_strerror str) (
        accept_loop-throws 0 (b ∷ arrivals) a later e all (omega arith) fails
        ∙ ap (λ n. (throws e, n))
            (let same : 0 + suc (length arrivals) ≡ suc (length arrivals) = omega arith in same))
