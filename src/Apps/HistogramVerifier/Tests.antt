-- ===== src/Apps/HistogramVerifier/Tests.antt =====
-- The theorem on apps/hist_verify.cpp at inputs that meet its hypotheses.
use native.Mathlib.Nat.{
  le_trans, mul-pos, le-div_iff_mul-le, div-mul-le_self, mul-div-mul_right, mul_comm, div-one,
}
use dariyanaap.Prelude.{
  ℕ, ◌+◌, ◌*◌, ◌/◌, ◌%◌, ◌^◌, ◌≤◌, ◌<◌, ◌≡◌, refl, sym, ap, ◌∙◌, [], ◌∷◌, none, true, false, arith,
  subst, ltb→le, ltb→lt,
}
use dariyanaap.Prelude.Text.{codes}
use dariyanaap.Core.Double.Rational.{Fraction, rational}
use dariyanaap.Core.Errors.{ok}
use dariyanaap.Stats.Buckets.{max_value}
use dariyanaap.Apps.Formats.{skip_blanks, leading_number, strtoul}
use dariyanaap.Apps.Machine.{Machine}
use dariyanaap.Apps.HistogramVerifier.{Generator, samples_asked, returns, percentiles, bound, main}
use dariyanaap.Apps.HistogramVerifier.Ranking.{IsInRange, HaveRanks}
use dariyanaap.Apps.HistogramVerifier.Passing.{main-passes}

-- Fractions in their order have whole parts in that order.
floor_mono : (a b c d : ℕ) → 0 < b → 0 < d → a * d ≤ c * b → a / b ≤ c / d
floor_mono a b c d hb hd h =
    subst (λ x. x ≤ c / d) (mul-div-mul_right a b hd)
      (subst (λ y. a * d / (b * d) ≤ y)
        (ap (λ k. c * b / k) (mul_comm b d) ∙ mul-div-mul_right c d hb)
        ((le-div_iff_mul-le (mul-pos hb hd)).1 (le_trans (div-mul-le_self (a * d) (b * d)) h)))

abbrev machine : Machine
machine = record { files = λ path. none; refused = λ path. false; out = []; diagnostics = [] }

-- A generator that counts: every other latency is a spike.
abbrev counting : Generator
counting = record {
  State = ℕ;
  seeded = λ seed. seed;
  spike = λ state. (state % 2, state + 1);
  body = λ state. (200_000 + state % 1000, state + 1);
}

one_exact :
    IsInRange rational (rational.literal 10 1) × (rational.to_u64 (rational.literal 10 1) ≡ 1)
one_exact = ((refl, refl, refl), refl)

numbers_exact :
    (n : ℕ)
    → n ≤ 2 ^ 53
    → IsInRange rational (rational.of_u64 n) × (rational.to_u64 (rational.of_u64 n) ≡ n)
numbers_exact n h = ((refl, ground arith, ground arith), div-one n)

bottom_pos : (a : Fraction) → IsInRange rational a → 0 < a.bottom
bottom_pos a (finite, low, high) = ground arith

up :
    (a b : Fraction)
    → IsInRange rational a
    → IsInRange rational b
    → rational.lt a b ≡ true
    → rational.to_u64 a ≤ rational.to_u64 b
up a b ha hb h =
    let l = ltb→lt (a.top * b.bottom) (b.top * a.bottom) h in
    floor_mono a.top a.bottom b.top b.bottom (bottom_pos a ha) (bottom_pos b hb) (omega arith)

down :
    (a b : Fraction)
    → IsInRange rational a
    → IsInRange rational b
    → rational.lt a b ≡ false
    → rational.to_u64 b ≤ rational.to_u64 a
down a b ha hb h =
    floor_mono b.top b.bottom a.top a.bottom (bottom_pos b hb) (bottom_pos a ha)
      (ltb→le (a.top * b.bottom) (b.top * a.bottom) h)

quotients :
    (a b : ℕ)
    → 0 < b
    → b ≤ 2 ^ 53
    → a * 128 ≤ b
    → rational.le
        (rational.abs (rational.div (rational.of_u64 a) (rational.of_u64 b)))
        (bound rational)
      ≡ true
unfolding bound
quotients a b pos fits h = ground arith

start : rational.le (rational.literal 0 1) (bound rational) ≡ true
unfolding bound
start = refl

counting-small : (state : ℕ) → (counting.body state).0 ≤ max_value
counting-small state = omega arith

three : samples_asked (codes " +3x" ∷ []) ≡ 3
unfolding strtoul skip_blanks leading_number
three = refl

have_ranks : HaveRanks rational 3 (percentiles rational)
have_ranks = (
  (refl, refl, refl),
  ((refl, refl, refl), ((refl, refl, refl), ((refl, refl, refl), ((refl, refl, refl), tt)))),
)

main-passes_example : (main rational counting 5 900 (codes " +3x" ∷ []) machine).0 ≡ ok (returns 0)
main-passes_example =
    main-passes rational one_exact numbers_exact up down quotients start counting 5 900
      (codes " +3x" ∷ []) machine counting-small (omega (arith, three)) (omega (arith, three))
      (subst (λ n. HaveRanks rational n (percentiles rational)) (sym three) have_ranks)
