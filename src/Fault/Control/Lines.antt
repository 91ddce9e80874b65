-- ===== src/Fault/Control/Lines.antt =====
-- The loop over lines of `serve` of src/fault/control.cpp.
use mathlib.Core.List.{append_assoc}
use dariyanaap.Prelude.{
  ℕ, zero, suc, ◌+◌, ◌<◌, ◌≤◌, ◌≡◌, refl, sym, ap, ◌∙◌, ◌++◌, none, some, true, false,
  if◌then◌else◌, arith, length, length-append, take, drop, Bool-cases, Option-cases, inl, inr,
  if_true, if_false, length-drop,
}
use dariyanaap.Prelude.Text.{Bytes, find}
use dariyanaap.Prelude.Text.Searching.{find-bound, find-append, take_of_append, drop_of_append}
use dariyanaap.Core.Double.{Double}
use dariyanaap.Core.Errors.{Result, ok, err}
use dariyanaap.Core.Socket.{write_all}
use dariyanaap.Fault.Knobs.{Knobs}
use dariyanaap.Fault.Commands.{apply_command}
use dariyanaap.Fault.Control.{
  Session, newline, chomp, answer_of, next_write, written, take_line, drain, feed,
}

-- More bytes behind those that wait.
abbrev plus : Session → Bytes → Session
plus s more = record s { pending = s.pending ++ more }

abbrev extend : Session → Bytes → Session
extend s more = if s.is_open then plus s more else s

written-extend :
    (s : Session) (rest more : Bytes) (k : Knobs) (reply : Bytes) (r : Result (Unit {0}))
    → s.is_open ≡ true
    → written (plus s more) (rest ++ more) k reply r ≡ extend (written s rest k reply r) more
written-extend s rest more k reply (ok a) o = sym (if_true s.is_open _ _ o)
written-extend s rest more k reply (err e) o = refl

written-length :
    (s : Session) (rest : Bytes) (k : Knobs) (reply : Bytes) (r : Result (Unit {0}))
    → length (written s rest k reply r).pending ≤ length rest
written-length s rest k reply (ok a) = omega arith
written-length s rest k reply (err e) = omega arith

module _ (double : Double) (strerror : ℕ → Bytes) where
  take_line-extend :
      (s : Session) (more : Bytes) (i : ℕ)
      → s.is_open ≡ true
      → i + 1 ≤ length s.pending
      → take_line double strerror (plus s more) i ≡ extend (take_line double strerror s i) more
  unfolding take_line
  take_line-extend s more i o h =
      rw (take_of_append i s.pending more (omega arith), drop_of_append (i + 1) s.pending more h)
        (let a = answer_of s.knobs (apply_command double (chomp (take i s.pending)) s.knobs) in
          written-extend s (drop (i + 1) s.pending) more a.1 (a.0 ++ newline)
            (write_all strerror (a.0 ++ newline) (next_write s.writes)).0 o)

  take_line-length :
      (s : Session) (i : ℕ)
      → i + 1 ≤ length s.pending
      → length (take_line double strerror s i).pending < length s.pending
  unfolding take_line
  take_line-length s i h =
      let a = answer_of s.knobs (apply_command double (chomp (take i s.pending)) s.knobs) in
      omega (
        arith,
        written-length s (drop (i + 1) s.pending) a.1 (a.0 ++ newline)
            (write_all strerror (a.0 ++ newline) (next_write s.writes)).0,
        length-drop (i + 1) s.pending,
      )

  pub drain-none :
      (f : ℕ) (s : Session) → find newline s.pending ≡ none → drain double strerror (suc f) s ≡ s
  unfolding drain
  drain-none f s e = rw (e, drain)

  pub drain-some :
      (f : ℕ) (s : Session) (i : ℕ)
      → find newline s.pending ≡ some i
      → drain double strerror (suc f) s ≡ (
          if (take_line double strerror s i).is_open
          then drain double strerror f (take_line double strerror s i)
          else take_line double strerror s i)
  unfolding drain
  drain-some f s i e = rw (e, drain)

  -- The inner loop ends: with any two amounts of fuel above the number of bytes that wait, the
  -- result is the same.
  pub drain_enough :
      (f g : ℕ) (s : Session)
      → length s.pending < f
      → length s.pending < g
      → drain double strerror f s ≡ drain double strerror g s
  drain_enough zero g s hf hg = absurd (omega arith)
  drain_enough (suc f) zero s hf hg = absurd (omega arith)
  drain_enough (suc f) (suc g) s hf hg = elim (Option-cases (find newline s.pending)) [
    | inl e ↦ drain-none f s e ∙ sym (drain-none g s e)
    | inr (i, e) ↦
        let t = take_line double strerror s i in
        let shorter = take_line-length s i (find-bound newline s.pending i e) in
        drain-some f s i e
        ∙ (ap (λ r. if t.is_open then r else t) (drain_enough f g t (omega arith) (omega arith))
            ∙ sym (drain-some g s i e))
  ]

  feed_open :
      (f : ℕ) (s : Session) (more : Bytes)
      → s.is_open ≡ true
      → length (s.pending ++ more) < f
      → feed double strerror s more ≡ drain double strerror f (plus s more)
  unfolding feed
  feed_open f s more o h = if_true s.is_open _ s o ∙ drain_enough _ f (plus s more) (omega arith) h

  pub feed_closed :
      (s : Session) (more : Bytes) → s.is_open ≡ false → feed double strerror s more ≡ s
  unfolding feed
  feed_closed s more o = if_false s.is_open _ s o

  -- One line, where the lines behind it are as they should be.
  line_step :
      (g f : ℕ) (s : Session) (more : Bytes) (i : ℕ)
      → s.is_open ≡ true
      → length s.pending < suc g
      → length (s.pending ++ more) < suc f
      → find newline s.pending ≡ some i
      → ((t : Session)
          → t.is_open ≡ true
          → length t.pending < g
          → length (t.pending ++ more) < f
          → drain double strerror f (plus t more)
            ≡ feed double strerror (drain double strerror g t) more)
      → drain double strerror (suc f) (plus s more)
        ≡ feed double strerror (drain double strerror (suc g) s) more
  line_step g f s more i o hg hf e again =
      drain-some f (plus s more) i (find-append newline s.pending more i e)
      ∙ (ap (λ r. if r.is_open then drain double strerror f r else r)
            (take_line-extend s more i o bound)
          ∙ elim (Bool-cases t.is_open) [
            | inl p ↦
                ap (λ r. if r.is_open then drain double strerror f r else r)
                  (if_true t.is_open (plus t more) t p)
                ∙ (if_true t.is_open _ _ p
                    ∙ (again t p (omega (arith, shorter)) (
                          omega (
                            arith,
                            shorter,
                            length-append t.pending more,
                            length-append s.pending more,
                          ))
                        ∙ ap (λ r. feed double strerror r more)
                            (sym (drain-some g s i e ∙ if_true t.is_open _ t p))))
            | inr p ↦
                ap (λ r. if r.is_open then drain double strerror f r else r)
                  (if_false t.is_open (plus t more) t p)
                ∙ (if_false t.is_open _ t p
                    ∙ (sym (feed_closed t more p)
                        ∙ ap (λ r. feed double strerror r more)
                            (sym (drain-some g s i e ∙ if_false t.is_open _ t p))))
          ])
    where
      bound : i + 1 ≤ length s.pending
      bound = find-bound newline s.pending i e

      t : Session
      t = take_line double strerror s i

      shorter : length t.pending < length s.pending
      shorter = take_line-length s i bound

  -- Draining what waits first changes nothing for what comes behind it.
  drain-plus :
      (g f : ℕ) (s : Session) (more : Bytes)
      → s.is_open ≡ true
      → length s.pending < g
      → length (s.pending ++ more) < f
      → drain double strerror f (plus s more)
        ≡ feed double strerror (drain double strerror g s) more
  drain-plus zero f s more o hg hf = absurd (omega arith)
  drain-plus (suc g) zero s more o hg hf = absurd (omega arith)
  drain-plus (suc g) (suc f) s more o hg hf = elim (Option-cases (find newline s.pending)) [
    | inl e ↦
        sym (feed_open (suc f) s more o hf)
        ∙ ap (λ t. feed double strerror t more) (sym (drain-none g s e))
    | inr (i, e) ↦ line_step g f s more i o hg hf e (λ t p hg' hf'. drain-plus g f t more p hg' hf')
  ]

  -- Two reads do what one read of all their bytes does.
  pub feed_twice :
      (s : Session) (a b : Bytes)
      → feed double strerror (feed double strerror s a) b ≡ feed double strerror s (a ++ b)
  feed_twice s a b = elim (Bool-cases s.is_open) [
    | inr o ↦
        ap (λ t. feed double strerror t b) (feed_closed s a o)
        ∙ (feed_closed s b o ∙ sym (feed_closed s (a ++ b) o))
    | inl o ↦ together o
  ]
    where
      n : ℕ
      n = suc (length ((s.pending ++ a) ++ b))

      together :
          s.is_open ≡ true
          → feed double strerror (feed double strerror s a) b ≡ feed double strerror s (a ++ b)
      together o =
          let short : length (s.pending ++ a) < suc (length (s.pending ++ a)) = omega arith in
          ap (λ t. feed double strerror t b) (feed_open (suc (length (s.pending ++ a))) s a o short)
          ∙ (sym (drain-plus (suc (length (s.pending ++ a))) n (plus s a) b o short (omega arith))
              ∙ (ap (λ p. drain double strerror n (record s { pending = p }))
                    (append_assoc s.pending a b)
                  ∙ sym (
                      feed_open n s (a ++ b) o
                        (omega (arith, ap length (append_assoc s.pending a b))))))
