-- ===== src/Core/Clock/Resolution.antt =====
-- What `measured_resolution` of src/core/clock.cpp gives.
use dariyanaap.Prelude.{
  ℕ, zero, suc, ◌+◌, ◌≤◌, ◌<◌, ◌≡◌, refl, sym, ap, ◌∙◌, min, false, ◌==◌, arith, Bool-cases, inl,
  inr, if_true, if_false, subst, dec_lt,
}
use dariyanaap.Core.Errors.{Result, ok, err, ◌>>=◌}
use dariyanaap.Core.Clock.{
  between, nanos_max, spins, did_not_advance, spin, attempts, measured_resolution,
}

-- What passed between two readings in a row, and is more than nothing.
abbrev pub Observed : (ℕ → ℕ) → ℕ → Type 0
Observed clock r = (i : ℕ) × (clock i + r ≡ clock (i + 1)) × (0 < r)

-- A measurement: what the clock was observed to advance, or else the report that it stood still
-- from one reading on for as many as were allowed.
abbrev pub Measures : (ℕ → ℕ) → ℕ → Result ℕ → Type 0
Measures clock limit (ok r) = Observed clock r
Measures clock limit (err e) =
    (e ≡ did_not_advance) × ((i : ℕ) × ((k : ℕ) → k < limit → clock (i + 1 + k) ≡ clock i))

-- What a spin gives: the first reading that differs, with the one before it still the same.
abbrev Spun : (ℕ → ℕ) → ℕ → ℕ → ℕ → Result (ℕ × ℕ) → Type 0
Spun clock a i limit (ok (b, j)) =
    (k : ℕ) × (j ≡ k + 2) × (clock (k + 1) ≡ b) × (clock k ≡ a) × ((b == a) ≡ false)
Spun clock a i limit (err e) = (e ≡ did_not_advance) × ((k : ℕ) → k < limit → clock (i + k) ≡ a)

Spun-suc :
    (clock : ℕ → ℕ) (a i left : ℕ) (r : Result (ℕ × ℕ))
    → clock i ≡ a
    → Spun clock a (i + 1) left r
    → Spun clock a i (suc left) r
Spun-suc clock a i left (ok (b, j)) h s = s
Spun-suc clock a i left (err e) h (s, still) = (s, all)
  where
    all : (k : ℕ) → k < suc left → clock (i + k) ≡ a
    all zero p = let same : i + 0 ≡ i = omega arith in ap clock same ∙ h
    all (suc k) p =
        let same : i + suc k ≡ i + 1 + k = omega arith in ap clock same ∙ still k (omega arith)

spin-Spun :
    (clock : ℕ → ℕ) (a before i left : ℕ)
    → i ≡ before + 1
    → clock before ≡ a
    → Spun clock a i left (spin clock a i left)
unfolding spin
spin-Spun clock a before i zero e h = (refl, λ k p. absurd (omega arith))
spin-Spun clock a before i (suc left) e h = elim (Bool-cases (clock i == a)) [
  | inl same ↦
      let still : clock i ≡ a = ground arith in
      subst (Spun clock a i (suc left)) (sym (if_true (clock i == a) _ _ same)) (
        Spun-suc clock a i left (spin clock a (i + 1) left) still
          (spin-Spun clock a i (i + 1) left refl still))
  | inr new ↦
      subst (Spun clock a i (suc left)) (sym (if_false (clock i == a) _ _ new))
        (before, omega arith, ap clock (sym e), h, new)
]

module _ (clock : ℕ → ℕ) (forward : (i : ℕ) → clock i ≤ clock (i + 1))
    (range : (i : ℕ) → clock i ≤ nanos_max) where
  observed :
      (i a b : ℕ)
      → clock (i + 1) ≡ b
      → clock i ≡ a
      → (b == a) ≡ false
      → Observed clock (between a b)
  observed i a b p q new = (i, ground (arith, forward i), ground (arith, forward i))

  Observed-min : (x y : ℕ) → Observed clock x → Observed clock y → Observed clock (min x y)
  Observed-min x y hx hy = elim (dec_lt x y) [
    | yes p ↦ subst (Observed clock) (let e : x ≡ min x y = omega arith in e) hx
    | no p ↦ subst (Observed clock) (let e : y ≡ min x y = omega arith in e) hy
  ]

  -- One attempt, and what follows it.
  attempt-Measures :
      (limit best i left : ℕ) (r : Result (ℕ × ℕ))
      → Spun clock (clock i) (i + 1) limit r
      → ((b j : ℕ)
          → Observed clock (between (clock i) b)
          → Measures clock limit (attempts clock limit (min best (between (clock i) b)) j left))
      → Measures clock limit
          (r >>= (λ (b, j). attempts clock limit (min best (between (clock i) b)) j left))
  attempt-Measures limit best i left (ok (b, j)) (k, e, p, q, new) next =
      next b j (observed k (clock i) b p q new)
  attempt-Measures limit best i left (err e) (s, still) next = (s, (i, still))

  attempts-Measures :
      (limit best i left : ℕ)
      → Observed clock best
      → Measures clock limit (attempts clock limit best i left)
  unfolding attempts
  attempts-Measures limit best i zero o = o
  attempts-Measures limit best i (suc left) o =
      attempt-Measures limit best i left (spin clock (clock i) (i + 1) limit)
        (spin-Spun clock (clock i) i (i + 1) limit refl refl)
        (λ b j p.
          attempts-Measures limit (min best (between (clock i) b)) j left
            (Observed-min best (between (clock i) b) o p))

  Observed-first : (x : ℕ) → Observed clock x → Observed clock (min nanos_max x)
  Observed-first x (i, e, p) =
      let same : x ≡ min nanos_max x = omega (arith, e, range (i + 1)) in
      subst (Observed clock) same (i, e, p)

  -- A clock that does not go back, and whose readings fit into 63 bits: the resolution is what it
  -- advanced by between two readings in a row, and is not zero; or else it stood still for 100'000'001
  -- readings, and that is what the error says.
  pub measured_resolution-Measures : Measures clock spins (measured_resolution clock)
  unfolding measured_resolution attempts
  measured_resolution-Measures =
      attempt-Measures spins nanos_max 1 4 (spin clock (clock 1) 2 spins)
        (spin-Spun clock (clock 1) 1 2 spins refl refl)
        (λ b j p.
          attempts-Measures spins (min nanos_max (between (clock 1) b)) j 4
            (Observed-first (between (clock 1) b) p))
