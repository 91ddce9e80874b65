-- ===== src/Core/Socket/Connects.antt =====
-- `Socket::connect_any` of src/core/socket.cpp: which exception it ends in, and when it connects.
use dariyanaap.Prelude.{
  ℕ, zero, suc, ◌≡◌, refl, List, [], ◌∷◌, Bool, true, false, ◌&&◌, ◌||◌, leb, Bool-cases, inl, inr,
}
use dariyanaap.Prelude.Text.{Bytes}
use dariyanaap.Core.Errors.{
  Error, error, usage_error, invalid_endpoint, io_error, timed_out, bad_optional_access,
  is_io_error, Result, ok, err, IoOnly, IoOnly-then,
}
use dariyanaap.Core.Socket.{
  Sys, succeeded, failed, Poll, ready, expired, interrupted, poll_failed, Connecting, at_once,
  in_progress, refused, Attempt, checked, checked_at, connected, established, answered, tried,
  Ready, await_writable, connect, connect_timed_out, connect_from, connect_any,
}

abbrev pub is_ok : Result (Unit {0}) → Bool
is_ok (ok a) = true
is_ok (err e) = false

abbrev pub is_timed_out : Error → Bool
is_timed_out (timed_out message) = true
is_timed_out (error message) = false
is_timed_out (usage_error message) = false
is_timed_out (invalid_endpoint message) = false
is_timed_out (io_error message) = false
is_timed_out bad_optional_access = false

abbrev pub timed_out_at : Result (Unit {0}) → Bool
timed_out_at (ok a) = false
timed_out_at (err e) = is_timed_out e

module _ (strerror : ℕ → Bytes) (timeout : ℕ) where
  checked-IoOnly : (s : Sys) (message : Bytes) → IoOnly (checked strerror s message)
  checked-IoOnly succeeded message = tt
  checked-IoOnly (failed code) message = refl

  checked_at-IoOnly :
      (s : Sys) (doing address : Bytes) → IoOnly (checked_at strerror s doing address)
  checked_at-IoOnly succeeded doing address = tt
  checked_at-IoOnly (failed code) doing address = refl

  answered-IoOnly :
      (address : Bytes) (r : Ready) (again : Result (Unit {0}))
      → IoOnly again
      → IoOnly (answered strerror address timeout r again)
  unfolding connect_timed_out
  answered-IoOnly address ready again h = tt
  answered-IoOnly address expired again h = refl
  answered-IoOnly address interrupted again h = h
  answered-IoOnly address (poll_failed code) again h = refl

  await_writable-IoOnly :
      (address : Bytes) (polls : List Poll) → IoOnly (await_writable strerror address timeout polls)
  unfolding await_writable connect_timed_out
  await_writable-IoOnly address [] = refl
  await_writable-IoOnly address (poll ∷ polls) = elim (Bool-cases (leb poll.left 0)) [
    | inl late ↦ rw late refl
    | inr early ↦
        rw early (answered-IoOnly address poll.answer _ (await_writable-IoOnly address polls))
  ]

  connected-IoOnly : (address : Bytes) (code : ℕ) → IoOnly (connected strerror address code)
  connected-IoOnly address zero = tt
  connected-IoOnly address (suc code) = refl

  established-IoOnly : (a : Attempt) (c : Connecting) → IoOnly (established strerror timeout a c)
  established-IoOnly a at_once = tt
  established-IoOnly a (refused code) = refl
  established-IoOnly a in_progress =
      IoOnly-then _ _ (await_writable-IoOnly a.address a.polls) (
        IoOnly-then _ _ (checked_at-IoOnly a.get_error _ _) (connected-IoOnly a.address a.so_error))

  connect-IoOnly : (a : Attempt) → IoOnly (connect strerror timeout a)
  unfolding connect
  connect-IoOnly a = IoOnly-then _ _ (checked_at-IoOnly a.creating _ _) (
      IoOnly-then _ _ (checked-IoOnly a.no_sigpipe _) (
        IoOnly-then _ _ (checked-IoOnly a.get_flags _) (
          IoOnly-then _ _ (checked-IoOnly a.set_nonblocking _) (
            IoOnly-then _ _ (established-IoOnly a a.connecting) (
              IoOnly-then _ _ (checked-IoOnly a.get_flags_again _)
                (checked-IoOnly a.set_blocking _))))))

  -- Whether one of the addresses answers, and whether every one of them times out.
  abbrev pub some_connects : List Attempt → Bool
  some_connects [] = false
  some_connects (a ∷ rest) = is_ok (connect strerror timeout a) || some_connects rest

  abbrev pub all_time_out : List Attempt → Bool
  all_time_out [] = true
  all_time_out (a ∷ rest) = timed_out_at (connect strerror timeout a) && all_time_out rest

  -- How the loop ends, where `some` tells whether an address answers and `timed` whether all that
  -- were tried timed out.
  abbrev pub Ends : Bool → Bool → Result (Unit {0}) → Type 0
  Ends some timed (ok _) = some ≡ true
  Ends some timed (err e) = (some ≡ false) × (is_io_error e ≡ true) × (is_timed_out e ≡ timed)

  tried-Ends :
      (some timed all : Bool) (r : Result (Unit {0})) (failures : Bytes)
      (next : Bytes → Bool → Result (Unit {0}))
      → IoOnly r
      → ((f : Bytes) (b : Bool) → Ends some (b && timed) (next f b))
      → Ends
          (is_ok r || some)
          (all && (timed_out_at r && timed))
          (tried strerror r failures all next)
  tried-Ends some timed all (ok _) failures next io h = refl
  tried-Ends some timed all (err (timed_out m)) failures next io h = h _ all
  tried-Ends some timed true (err (io_error m)) failures next io h = h _ false
  tried-Ends some timed false (err (io_error m)) failures next io h = h _ false
  tried-Ends some timed all (err (error m)) failures next io h = cc
  tried-Ends some timed all (err (usage_error m)) failures next io h = cc
  tried-Ends some timed all (err (invalid_endpoint m)) failures next io h = cc
  tried-Ends some timed all (err bad_optional_access) failures next io h = cc

  connect_from-Ends :
      (attempts : List Attempt) (failures : Bytes) (all : Bool)
      → Ends
          (some_connects attempts)
          (all && all_time_out attempts)
          (connect_from strerror timeout attempts failures all)
  unfolding connect_from
  connect_from-Ends [] failures true = (refl, refl, refl)
  connect_from-Ends [] failures false = (refl, refl, refl)
  connect_from-Ends (a ∷ rest) failures all =
      tried-Ends (some_connects rest) (all_time_out rest) all (connect strerror timeout a) failures
        _ (connect-IoOnly a) (connect_from-Ends rest)

  -- `connect_any` connects if and only if one of the addresses does. Otherwise it throws a
  -- `TimedOut` if every attempt timed out and a plain `IoError` if any failed in another way; it
  -- throws nothing else.
  pub connect_any-Ends :
      (attempts : List Attempt)
      → Ends
          (some_connects attempts)
          (all_time_out attempts)
          (connect_any strerror timeout attempts)
  unfolding connect_any
  connect_any-Ends attempts = connect_from-Ends attempts [] true
