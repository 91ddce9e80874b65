-- ===== src/Load/Exchange/Outcomes.antt =====
-- `perform_request` of src/load/exchange.cpp: what each outcome says of the connection, of the time
-- and of the bytes that came.
use mathlib.Core.List.{append_assoc}
use dariyanaap.Prelude.{
  ℕ, zero, suc, ◌-◌, ◌<◌, ◌≡◌, refl, sym, ap, ◌∙◌, List, [], ◌∷◌, ◌++◌, Bool, true, false, length,
  arith,
}
use dariyanaap.Prelude.Text.{Bytes}
use dariyanaap.Core.Errors.{
  Error, error, usage_error, invalid_endpoint, io_error, bad_optional_access, Result, ok, err,
}
use dariyanaap.Core.Socket.{
  Recv, received, recv_interrupted, recv_would_block, recv_failed, Send, read_some, write_all,
}
use dariyanaap.Load.Protocol.{Protocol, ResponseState, need_more, complete, malformed}
use dariyanaap.Load.Exchange.{
  Outcome, succeeded, rejected, protocol_error, read_failed, write_failed, Exchange, failed_by,
  outcome_of, judged, round, receive, after_write, perform_request,
}

-- What an outcome fixes: a reply leaves the connection usable, nothing else does; a reply and a
-- timeout have taken the time that passed, and the others none.
abbrev pub Fits : ℕ → Outcome → ℕ → Bool → Type 0
Fits elapsed succeeded time usable = (time ≡ elapsed) × (usable ≡ true)
Fits elapsed rejected time usable = (time ≡ elapsed) × (usable ≡ true)
Fits elapsed Outcome.timed_out time usable = (time ≡ elapsed) × (usable ≡ false)
Fits elapsed protocol_error time usable = (time ≡ 0) × (usable ≡ false)
Fits elapsed read_failed time usable = (time ≡ 0) × (usable ≡ false)
Fits elapsed write_failed time usable = (time ≡ 0) × (usable ≡ false)

abbrev pub FitsExchange : ℕ → Exchange → Type 0
FitsExchange elapsed x = Fits elapsed x.outcome x.elapsed x.connection_usable

-- All the bytes that a script brings.
abbrev pub spoken : List Recv → Bytes
spoken [] = []
spoken (received bytes ∷ script) = bytes ++ spoken script
spoken (recv_interrupted ∷ script) = spoken script
spoken (recv_would_block ∷ script) = spoken script
spoken (recv_failed code ∷ script) = spoken script

module _ (strerror : ℕ → Bytes) (protocol : Protocol) (elapsed : ℕ) where
  -- A read with something in it takes the script's next chunk.
  read_some-split :
      (script : List Recv) (b : ℕ) (bytes : Bytes)
      → (read_some strerror script).0 ≡ ok (b ∷ bytes)
      → (spoken script ≡ (b ∷ bytes) ++ spoken (read_some strerror script).1)
        × (length (read_some strerror script).1 < length script)
  unfolding read_some
  read_some-split [] b bytes h = cc
  read_some-split (received x ∷ script) b bytes h =
      let e : x ≡ b ∷ bytes = cc in (ap (λ y. y ++ spoken script) e, omega arith)
  read_some-split (recv_interrupted ∷ script) b bytes h =
      let (e, l) = read_some-split script b bytes h in (e, omega arith)
  read_some-split (recv_would_block ∷ script) b bytes h = cc
  read_some-split (recv_failed code ∷ script) b bytes h = cc

  -- The loop's rounds agree where the rounds behind them do.
  round-cong :
      (r : Result Bytes) (buffer : Bytes) (next next' : Bytes → Exchange)
      → ((b : ℕ) (bytes : Bytes)
          → r ≡ ok (b ∷ bytes)
          → next (buffer ++ (b ∷ bytes)) ≡ next' (buffer ++ (b ∷ bytes)))
      → round strerror protocol elapsed r buffer next
        ≡ round strerror protocol elapsed r buffer next'
  round-cong (err e) buffer next next' h = refl
  round-cong (ok []) buffer next next' h = refl
  round-cong (ok (b ∷ bytes)) buffer next next' h =
      ap (judged strerror protocol elapsed _ _) (h b bytes refl)

  -- The loop ends: with any two amounts of fuel above the length of the script, the result is
  -- the same.
  pub receive_enough :
      (f g : ℕ) (script : List Recv) (buffer : Bytes)
      → length script < f
      → length script < g
      → receive strerror protocol elapsed f script buffer
        ≡ receive strerror protocol elapsed g script buffer
  unfolding receive
  receive_enough zero g script buffer hf hg = elim hf [ ]
  receive_enough (suc f) zero script buffer hf hg = elim hg [ ]
  receive_enough (suc f) (suc g) script buffer hf hg =
      round-cong (read_some strerror script).0 buffer _ _ λ b bytes e.
        let l = (read_some-split script b bytes e).1 in
        receive_enough f g (read_some strerror script).1 _ (omega arith) (omega arith)

  failed_by-Fits : (e : Error) → FitsExchange elapsed (failed_by e read_failed elapsed)
  failed_by-Fits (error m) = (refl, refl)
  failed_by-Fits (usage_error m) = (refl, refl)
  failed_by-Fits (invalid_endpoint m) = (refl, refl)
  failed_by-Fits (io_error m) = (refl, refl)
  failed_by-Fits (Error.timed_out m) = (refl, refl)
  failed_by-Fits bad_optional_access = (refl, refl)

  failed_write-Fits : (e : Error) → FitsExchange elapsed (failed_by e write_failed elapsed)
  failed_write-Fits (error m) = (refl, refl)
  failed_write-Fits (usage_error m) = (refl, refl)
  failed_write-Fits (invalid_endpoint m) = (refl, refl)
  failed_write-Fits (io_error m) = (refl, refl)
  failed_write-Fits (Error.timed_out m) = (refl, refl)
  failed_write-Fits bad_optional_access = (refl, refl)

  replied-Fits : (b : Bool) → Fits elapsed (outcome_of b) elapsed true
  replied-Fits true = (refl, refl)
  replied-Fits false = (refl, refl)

  judged-Fits :
      (s : ResponseState) (got : Bytes) (again : Exchange)
      → FitsExchange elapsed again
      → FitsExchange elapsed (judged strerror protocol elapsed s got again)
  judged-Fits need_more got again h = h
  judged-Fits malformed got again h = (refl, refl)
  judged-Fits complete got again h = replied-Fits (protocol.succeeded got)

  round-Fits :
      (r : Result Bytes) (buffer : Bytes) (next : Bytes → Exchange)
      → ((longer : Bytes) → FitsExchange elapsed (next longer))
      → FitsExchange elapsed (round strerror protocol elapsed r buffer next)
  round-Fits (err e) buffer next h = failed_by-Fits e
  round-Fits (ok []) buffer next h = (refl, refl)
  round-Fits (ok (b ∷ bytes)) buffer next h = judged-Fits _ _ _ (h _)

  receive-Fits :
      (f : ℕ) (script : List Recv) (buffer : Bytes)
      → FitsExchange elapsed (receive strerror protocol elapsed f script buffer)
  unfolding receive
  receive-Fits zero script buffer = (refl, refl)
  receive-Fits (suc f) script buffer =
      round-Fits (read_some strerror script).0 buffer _
        (receive-Fits f (read_some strerror script).1)

  after_write-Fits :
      (r : Result (Unit {0})) (recvs : List Recv)
      → FitsExchange elapsed (after_write strerror protocol elapsed r recvs)
  after_write-Fits (ok a) recvs = receive-Fits (suc (length recvs)) recvs []
  after_write-Fits (err e) recvs = failed_write-Fits e

  -- The bytes on which an exchange ended as a reply: the protocol calls them complete, the outcome
  -- is its verdict on them, and they are the first that the socket brought behind `buffer`.
  abbrev pub Replied : Bytes → List Recv → Outcome → Type 0
  Replied buffer script outcome =
      (reply : Bytes) × (rest : Bytes) × (reply ++ rest ≡ buffer ++ spoken script)
      × (protocol.consume reply ≡ complete)
      × (outcome ≡ outcome_of (protocol.succeeded reply))

  judged-Replied :
      (s : ResponseState) (longer buffer : Bytes) (script rest : List Recv) (again : Exchange)
      → protocol.consume longer ≡ s
      → longer ++ spoken rest ≡ buffer ++ spoken script
      → (again.connection_usable ≡ true → Replied longer rest again.outcome)
      → (judged strerror protocol elapsed s longer again).connection_usable ≡ true
      → Replied buffer script (judged strerror protocol elapsed s longer again).outcome
  judged-Replied need_more longer buffer script rest again e glue next h =
      let (reply, left, split, whole, verdict) = next h in
      (reply, left, split ∙ glue, whole, verdict)
  judged-Replied malformed longer buffer script rest again e glue next h = absurd (cc)
  judged-Replied complete longer buffer script rest again e glue next h =
      (longer, spoken rest, glue, e, refl)

  failed_by-unusable : (e : Error) (o : Outcome) → (failed_by e o elapsed).connection_usable ≡ false
  failed_by-unusable (error m) o = refl
  failed_by-unusable (usage_error m) o = refl
  failed_by-unusable (invalid_endpoint m) o = refl
  failed_by-unusable (io_error m) o = refl
  failed_by-unusable (Error.timed_out m) o = refl
  failed_by-unusable bad_optional_access o = refl

  round-Replied :
      (r : Result Bytes) (buffer : Bytes) (script rest : List Recv) (next : Bytes → Exchange)
      → ((b : ℕ) (bytes : Bytes) → r ≡ ok (b ∷ bytes) → spoken script ≡ (b ∷ bytes) ++ spoken rest)
      → ((longer : Bytes)
          → (next longer).connection_usable ≡ true
          → Replied longer rest (next longer).outcome)
      → (round strerror protocol elapsed r buffer next).connection_usable ≡ true
      → Replied buffer script (round strerror protocol elapsed r buffer next).outcome
  round-Replied (err e) buffer script rest next split h usable =
      absurd (cc (failed_by-unusable e read_failed))
  round-Replied (ok []) buffer script rest next split h usable = absurd (cc)
  round-Replied (ok (b ∷ bytes)) buffer script rest next split h usable =
      let longer = buffer ++ (b ∷ bytes) in
      judged-Replied (protocol.consume longer) longer buffer script rest (next longer) refl
        (append_assoc buffer (b ∷ bytes) (spoken rest)
          ∙ ap (λ t. buffer ++ t) (sym (split b bytes refl)))
        (h longer) usable

  receive-Replied :
      (f : ℕ) (script : List Recv) (buffer : Bytes)
      → (receive strerror protocol elapsed f script buffer).connection_usable ≡ true
      → Replied buffer script (receive strerror protocol elapsed f script buffer).outcome
  unfolding receive
  receive-Replied zero script buffer h = absurd (cc)
  receive-Replied (suc f) script buffer h =
      round-Replied (read_some strerror script).0 buffer script (read_some strerror script).1 _
        (λ b bytes e. (read_some-split script b bytes e).0)
        (receive-Replied f (read_some strerror script).1) h

  after_write-Replied :
      (r : Result (Unit {0})) (recvs : List Recv)
      → (after_write strerror protocol elapsed r recvs).connection_usable ≡ true
      → (r ≡ ok tt) × Replied [] recvs (after_write strerror protocol elapsed r recvs).outcome
  after_write-Replied (ok a) recvs h = (refl, receive-Replied (suc (length recvs)) recvs [] h)
  after_write-Replied (err e) recvs h = absurd (cc (failed_by-unusable e write_failed))

-- On every path, a reply leaves the connection usable and nothing else does; a reply and a
-- timeout take the time from the reading of the clock before the write to the one at the end,
-- and the other failures take none.
pub perform_request-Fits :
    (strerror : ℕ → Bytes) (protocol : Protocol) (sent now : ℕ) (sends : List Send)
    (recvs : List Recv)
    → FitsExchange (now - sent) (perform_request strerror protocol sent now sends recvs)
unfolding perform_request
perform_request-Fits strerror protocol sent now sends recvs =
    after_write-Fits strerror protocol (now - sent) (write_all strerror protocol.request sends).0
      recvs

-- Where the connection is left usable, the whole request was written, and the outcome is the
-- protocol's verdict on bytes that it calls a complete response: the first that the socket brought.
pub perform_request-Replied :
    (strerror : ℕ → Bytes) (protocol : Protocol) (sent now : ℕ) (sends : List Send)
    (recvs : List Recv)
    → (perform_request strerror protocol sent now sends recvs).connection_usable ≡ true
    → ((write_all strerror protocol.request sends).0 ≡ ok tt)
      × Replied strerror protocol
          (now - sent)
          []
          recvs
          (perform_request strerror protocol sent now sends recvs).outcome
unfolding perform_request
perform_request-Replied strerror protocol sent now sends recvs h =
    after_write-Replied strerror protocol (now - sent) (write_all strerror protocol.request sends).0
      recvs h
