-- ===== src/Load/Http/Numbers.antt =====
-- The digits of `content_length` of src/load/http.cpp against the number that they write.
use dariyanaap.Prelude.{
  ℕ, ◌+◌, ◌-◌, ◌*◌, ◌/◌, ◌<◌, ◌≤◌, ◌≡◌, refl, sym, ◌∙◌, [], ◌∷◌, none, true, false, ltb, u64,
  u64_mod, arith, Bool-cases, inl, inr, if_true, if_false, ap, ltb→lt, ltb→le,
}
use dariyanaap.Prelude.Text.{Bytes, is_digit}
use dariyanaap.Prelude.Text.Fitting.{
  fitting, fitting-digit, fitting-other, fitting-large, digit_range, declared,
}
use dariyanaap.Load.Http.{decimal, plain_decimal}

decimal-other : (c : ℕ) (s : Bytes) (n : ℕ) → is_digit c ≡ false → decimal (c ∷ s) n ≡ none
unfolding decimal
decimal-other c s n e = rw e refl

decimal-large :
    (c : ℕ) (s : Bytes) (n : ℕ)
    → is_digit c ≡ true
    → ltb ((u64_mod - 1 - (c - b'0')) / 10) n ≡ true
    → decimal (c ∷ s) n ≡ none
unfolding decimal
decimal-large c s n e big = rw e (if_true _ _ _ big)

decimal-digit :
    (c : ℕ) (s : Bytes) (n : ℕ)
    → is_digit c ≡ true
    → ltb ((u64_mod - 1 - (c - b'0')) / 10) n ≡ false
    → decimal (c ∷ s) n ≡ decimal s (u64 (n * 10 + (c - b'0')))
unfolding decimal
decimal-digit c s n e small = rw e (if_false _ _ _ small)

decimal-fitting : (s : Bytes) (n : ℕ) → n < u64_mod → decimal s n ≡ fitting s n
unfolding decimal
decimal-fitting [] n h = ground arith
decimal-fitting (c ∷ s) n h = elim (Bool-cases (is_digit c)) [
  | inr e ↦ decimal-other c s n e ∙ sym (fitting-other c s n e)
  | inl e ↦ elim (Bool-cases (ltb ((u64_mod - 1 - (c - b'0')) / 10) n)) [
    | inl big ↦
        let over : u64_mod ≤ n * 10 + (c - b'0') = omega (arith, digit_range c e, ltb→lt _ _ big) in
        decimal-large c s n e big ∙ sym (fitting-digit c s n e ∙ fitting-large s _ over)
    | inr small ↦
        let fits : n * 10 + (c - b'0') < u64_mod =
          omega (arith, digit_range c e, ltb→le _ _ small) in
        let same : u64 (n * 10 + (c - b'0')) ≡ n * 10 + (c - b'0') = omega arith in
        decimal-digit c s n e small
        ∙ (ap (decimal s) same ∙ (decimal-fitting s _ fits ∙ sym (fitting-digit c s n e)))
  ]
]

-- A declared length is read if and only if it is not empty, has digits only, and its number fits
-- into 64 bits, and then it is that number.
pub plain_decimal-declared : (s : Bytes) → plain_decimal s ≡ declared s
plain_decimal-declared [] = refl
plain_decimal-declared (c ∷ s) = decimal-fitting (c ∷ s) 0 (omega arith)
