-- ===== src/Load/OpenLoop/Slots.antt =====
-- The slots of one schedule that the workers of src/load/open_loop.cpp claim.
use dariyanaap.Prelude.{
  ℕ, zero, suc, ◌+◌, ◌<◌, ◌≤◌, ◌≡◌, refl, sym, subst, ap, ap₂, ◌∙◌, List, [], ◌∷◌, ◌++◌, Bool, true,
  false, leb, if◌then◌else◌, u64, u64_mod, arith, if_both, length, length-append, Bool-cases, inl,
  inr,
}
use dariyanaap.Prelude.Counting.{tabulate, tabulate_append}
use dariyanaap.Prelude.Text.{Bytes}
use dariyanaap.Core.Double.{Double}
use dariyanaap.Core.Units.{due_at}
use dariyanaap.Load.Protocol.{Protocol}
use dariyanaap.Load.Schedule.{Schedule, Slot, claim}
use dariyanaap.Load.Worker.{WorkerConfig}
use dariyanaap.Load.OpenLoop.{
  OpenTurn, OpenLoopWorker, open_socket, claim_turn, after_opening, run_turn, turn_of, interleave,
}

module _ (double : Double) where
  -- Slot number i of a schedule.
  abbrev pub slot_at : Schedule double → ℕ → Slot double
  slot_at s i = record { index = i; due = s.start + due_at double s.rate i }

  -- The schedule has given out these slots, in this order, and has become `s'`.
  abbrev pub Deals : Schedule double → List (Slot double) → Schedule double → Type 0
  Deals s slots s' =
      (slots ≡ tabulate (slot_at s) s.next (length slots))
      × (s' ≡ record s { next = s.next + length slots })

  Deals-nil : (s : Schedule double) → Deals s [] s
  Deals-nil s = (refl, λ i. record s { next = plus_zero s.next i })
    where
      plus_zero : (n : ℕ) → n ≡ n + 0
      plus_zero n = omega arith

  claim-Deals :
      (s : Schedule double)
      → s.next + 1 < u64_mod
      → Deals s ((claim double s).0 ∷ []) (claim double s).1
  unfolding claim
  claim-Deals s h = (refl, λ i. record s { next = one i })
    where
      one : u64 (s.next + 1) ≡ s.next + 1
      one = omega arith

  Deals-append :
      (s s' s'' : Schedule double) (xs ys : List (Slot double))
      → Deals s xs s'
      → Deals s' ys s''
      → Deals s (xs ++ ys) s''
  Deals-append s s' s'' xs ys (a, b) (c, d) =
      let l : length (xs ++ ys) ≡ length xs + length ys = length-append xs ys in
      let c' = subst (λ t. ys ≡ tabulate (slot_at t) t.next (length ys)) b c in
      let d' = subst (λ t. s'' ≡ record t { next = t.next + length ys }) b d in
      (
        ap₂ ◌++◌ a c'
            ∙ (tabulate_append (slot_at s) s.next (length xs) (length ys)
                ∙ ap (tabulate (slot_at s) s.next) (sym l)),
        d' ∙ ap (λ n. record s { next = n }) (omega (arith, l)),
      )

module _ (double : Double) (strerror : ℕ → Bytes) (config : WorkerConfig) (deadline : ℕ) where
  -- The slots that a turn claims: one where the worker has a connection, and none else.
  abbrev pub claims_opened : Schedule double → Bool → List (Slot double)
  claims_opened s false = []
  claims_opened s true = (claim double s).0 ∷ []

  unfoldable pub claims_turn : Schedule double → OpenLoopWorker → OpenTurn → List (Slot double)
  claims_turn s w turn =
      if leb deadline turn.now then [] else claims_opened s (open_socket strerror config w turn).0

  unfoldable pub claims_of :
      Schedule double → List OpenLoopWorker → ℕ → OpenTurn → List (Slot double)
  claims_of s [] i turn = []
  claims_of s (w ∷ ws) (suc i) turn = claims_of s ws i turn
  claims_of s (w ∷ ws) zero turn = if w.running then claims_turn s w turn else []

  module _ (protocol : Protocol) (record_from : ℕ) where
    -- The slots that the workers claim, in the order of their claims.
    unfoldable pub claims :
        Schedule double → List OpenLoopWorker → List (ℕ × OpenTurn) → List (Slot double)
    claims s ws [] = []
    claims s ws ((i, turn) ∷ turns) =
        let (s', ws') = turn_of double strerror protocol config record_from deadline s ws i turn in
        claims_of s ws i turn ++ claims s' ws' turns

    claim_turn-Deals :
        (s : Schedule double) (w : OpenLoopWorker) (turn : OpenTurn)
        → s.next + 1 < u64_mod
        → Deals double s
            ((claim double s).0 ∷ [])
            (claim_turn double strerror protocol record_from deadline s w turn).0
    unfolding claim_turn
    claim_turn-Deals s w turn h =
        if_both
          (λ (r : Schedule double × OpenLoopWorker). Deals double s ((claim double s).0 ∷ []) r.0)
          (leb deadline (claim double s).0.due) _ _ (λ _. claim-Deals double s h)
          (λ _. claim-Deals double s h)

    after_opening-Deals :
        (s : Schedule double) (turn : OpenTurn) (r : Bool × OpenLoopWorker)
        → s.next + 1 < u64_mod
        → Deals double s
            (claims_opened s r.0)
            (after_opening double strerror protocol record_from deadline s turn r).0
    after_opening-Deals s turn (false, w) h = Deals-nil double s
    after_opening-Deals s turn (true, w) h = claim_turn-Deals s w turn h

    run_turn-Deals :
        (s : Schedule double) (w : OpenLoopWorker) (turn : OpenTurn)
        → s.next + 1 < u64_mod
        → Deals double s
            (claims_turn s w turn)
            (run_turn double strerror protocol config record_from deadline s w turn).0
    unfolding run_turn claims_turn
    run_turn-Deals s w turn h = elim (Bool-cases (leb deadline turn.now)) [
      | inl e ↦ rw e (Deals-nil double s)
      | inr e ↦ rw e (after_opening-Deals s turn (open_socket strerror config w turn) h)
    ]

    turn_of-Deals :
        (s : Schedule double) (ws : List OpenLoopWorker) (i : ℕ) (turn : OpenTurn)
        → s.next + 1 < u64_mod
        → Deals double s
            (claims_of s ws i turn)
            (turn_of double strerror protocol config record_from deadline s ws i turn).0
    unfolding turn_of claims_of
    turn_of-Deals s [] i turn h = Deals-nil double s
    turn_of-Deals s (w ∷ ws) (suc i) turn h = turn_of-Deals s ws i turn h
    turn_of-Deals s (w ∷ ws) zero turn h = running w.running
      where
        r : Schedule double × OpenLoopWorker
        r = run_turn double strerror protocol config record_from deadline s w turn

        chosen : Bool → Schedule double × List OpenLoopWorker
        chosen b = if b then (r.0, r.1 ∷ ws) else (s, w ∷ ws)

        running : (b : Bool) → Deals double s (if b then claims_turn s w turn else []) (chosen b).0
        running true = run_turn-Deals s w turn h
        running false = Deals-nil double s

    claims_of-at_most_one :
        (s : Schedule double) (ws : List OpenLoopWorker) (i : ℕ) (turn : OpenTurn)
        → length (claims_of s ws i turn) ≤ 1
    unfolding claims_of claims_turn
    claims_of-at_most_one s [] i turn = omega arith
    claims_of-at_most_one s (w ∷ ws) (suc i) turn = claims_of-at_most_one s ws i turn
    claims_of-at_most_one s (w ∷ ws) zero turn =
        if_both (λ slots. length slots ≤ 1) w.running (claims_turn s w turn) []
          (λ _.
            if_both (λ slots. length slots ≤ 1) (leb deadline turn.now) []
              (claims_opened s (open_socket strerror config w turn).0) (λ _. omega arith)
              (λ _. opened (open_socket strerror config w turn).0))
          (λ _. omega arith)
      where
        opened : (b : Bool) → length (claims_opened s b) ≤ 1
        opened true = omega arith
        opened false = omega arith

    -- Whichever workers claim, and in whatever order, as long as the counter does not wrap:
    -- together they are given slots that follow one another, starting with the schedule's next,
    -- each once and with the time at which it is due, and the counter tells how many they were.
    pub claims-Deals :
        (s : Schedule double) (ws : List OpenLoopWorker) (turns : List (ℕ × OpenTurn))
        → s.next + length turns < u64_mod
        → Deals double s
            (claims s ws turns)
            (interleave double strerror protocol config record_from deadline s ws turns).0
    unfolding claims interleave
    claims-Deals s ws [] h = Deals-nil double s
    claims-Deals s ws ((i, turn) ∷ turns) h =
        let r = turn_of double strerror protocol config record_from deadline s ws i turn in
        let one = turn_of-Deals s ws i turn (omega arith) in
        let more = claims_of-at_most_one s ws i turn in
        let l : r.0.next ≡ s.next + length (claims_of s ws i turn) = ap (λ t. t.next) one.1 in
        Deals-append double s r.0 _ _ _ one (claims-Deals r.0 r.1 turns (omega (arith, l, more)))
