-- ===== src/Core/Socket/Transfer.antt =====
-- `Socket::write_all` and `Socket::read_some` of src/core/socket.cpp: what was transferred.
use mathlib.Core.List.{append_assoc, cons-ne-nil}
use native.Mathlib.Nat.{add-zero}
use dariyanaap.Prelude.{
  ℕ, zero, suc, ◌+◌, ◌≡◌, ◌≢◌, ◌<◌, subst, refl, ap, ◌∙◌, List, [], ◌∷◌, ◌++◌, length,
  length-append, take, drop, take-append-drop, arith, length-drop, length-take, replicate,
}
use dariyanaap.Prelude.Text.{Bytes, codes, to_string}
use dariyanaap.Core.Errors.{
  Error, error, usage_error, invalid_endpoint, io_error, timed_out, bad_optional_access, Result, ok,
  err,
}
use dariyanaap.Core.Socket.{
  Recv, recv_interrupted, Send, sent, send_interrupted, send_would_block, send_failed, read_some,
  write_from, write_all,
}

-- A timeout names how many bytes had gone out; no other exception than an `IoError` is thrown.
abbrev pub Counted : ℕ → ℕ → Error → Type 0
Counted total n (timed_out message) =
    message
    ≡ codes "write timed out after "
      ++ (to_string n ++ (codes " of " ++ (to_string total ++ codes " bytes")))
Counted total n (io_error message) = Unit {0}
Counted total n (error message) = ⊥
Counted total n (usage_error message) = ⊥
Counted total n (invalid_endpoint message) = ⊥
Counted total n bad_optional_access = ⊥

-- What `write_all` promises of the bytes that the system took: all of them, in order, if it
-- returns; a part from the front, with something missing, if it throws.
abbrev pub Wrote : ℕ → ℕ → Bytes → Result (Unit {0}) × Bytes → Type 0
Wrote total so_far bytes (ok _, taken) = taken ≡ bytes
Wrote total so_far bytes (err e, taken) =
    (rest : Bytes) × (taken ++ rest ≡ bytes) × (rest ≢ []) × Counted total (so_far + length taken) e

length-pos : (xs : Bytes) → xs ≢ [] → 0 < length xs
length-pos [] h = absurd (h refl)
length-pos (x ∷ xs) h = omega arith

one_more :
    (total so_far n b : ℕ) (rest : Bytes) (r : Result (Unit {0})) (taken : Bytes)
    → Wrote total (so_far + suc n) (drop n rest) (r, taken)
    → Wrote total so_far (b ∷ rest) (r, b ∷ (take n rest ++ taken))
one_more total so_far n b rest (ok _) taken w = rw w (ap (◌∷◌ b) (take-append-drop n rest))
one_more total so_far n b rest (err e) taken (left, split, more, counted) =
    (left, whole, more, subst (λ k. Counted total k e) count counted)
  where
    whole : (b ∷ (take n rest ++ taken)) ++ left ≡ b ∷ rest
    whole = ap (◌∷◌ b) (
        append_assoc (take n rest) taken left
        ∙ ap (◌++◌ (take n rest)) split
        ∙ take-append-drop n rest)

    count : so_far + suc n + length taken ≡ so_far + length (b ∷ (take n rest ++ taken))
    count = omega (
      arith,
      ap length split,
      length-append taken left,
      length-pos left more,
      length-drop n rest,
      length-take n rest,
      length-append (take n rest) taken,
    )

module _ (strerror : ℕ → Bytes) where
  write_from-Wrote :
      (total so_far : ℕ) (bytes : Bytes) (script : List Send)
      → Wrote total so_far bytes (write_from strerror total so_far bytes script)
  unfolding write_from
  write_from-Wrote total so_far [] script = refl
  write_from-Wrote total so_far (b ∷ rest) [] = (b ∷ rest, refl, cons-ne-nil b rest, tt)
  write_from-Wrote total so_far (b ∷ rest) (sent zero ∷ script) =
      (b ∷ rest, refl, cons-ne-nil b rest, tt)
  write_from-Wrote total so_far (b ∷ rest) (sent (suc n) ∷ script) =
      one_more total so_far n b rest _ _
        (write_from-Wrote total (so_far + suc n) (drop n rest) script)
  write_from-Wrote total so_far (b ∷ rest) (send_interrupted ∷ script) =
      write_from-Wrote total so_far (b ∷ rest) script
  write_from-Wrote total so_far (b ∷ rest) (send_would_block ∷ script) =
      (b ∷ rest, refl, cons-ne-nil b rest, rw add-zero)
  write_from-Wrote total so_far (b ∷ rest) (send_failed code ∷ script) =
      (b ∷ rest, refl, cons-ne-nil b rest, tt)

  -- Whatever the system does, `write_all` returns only after every byte has gone out in order, and
  -- else throws an `IoError` after a proper part from the front has; a timeout's message names the
  -- size of that part and of the whole.
  pub write_all-Wrote :
      (bytes : Bytes) (script : List Send)
      → Wrote (length bytes) 0 bytes (write_all strerror bytes script)
  unfolding write_all
  write_all-Wrote bytes script = write_from-Wrote (length bytes) 0 bytes script

  -- Signals do not show: a read that was interrupted any number of times returns, or throws, what
  -- it would have otherwise.
  pub read_some-interrupted :
      (n : ℕ) (script : List Recv)
      → read_some strerror (replicate n recv_interrupted ++ script) ≡ read_some strerror script
  unfolding read_some
  read_some-interrupted zero script = refl
  read_some-interrupted (suc n) script = read_some-interrupted n script
