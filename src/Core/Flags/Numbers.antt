-- ===== src/Core/Flags/Numbers.antt =====
-- The flags of src/core/flags.cpp that hold a whole number.
use dariyanaap.Prelude.{
  ℕ, ◌+◌, ◌-◌, ◌*◌, ◌/◌, ◌<◌, ◌≤◌, ◌≡◌, refl, sym, ap, ◌∙◌, subst, [], ◌∷◌, Option, none, some,
  true, false, ltb, u64, u64_mod, arith, Bool-cases, inl, inr, if_false, ltb→lt, ltb→le,
}
use dariyanaap.Prelude.Text.{Bytes, is_digit}
use dariyanaap.Prelude.Text.Fitting.{
  fitting, fitting-digit, fitting-other, fitting-large, digit_range, declared,
}
use dariyanaap.Core.Errors.{Result, ok, err, is_usage_error}
use dariyanaap.Core.Flags.{Values, lookup, digits, number_of, number}

-- A number is read, or else a usage error is thrown.
abbrev pub Reads : Option ℕ → Result ℕ → Type 0
Reads (some n) (ok m) = m ≡ n
Reads (some n) (err e) = ⊥
Reads none (ok m) = ⊥
Reads none (err e) = is_usage_error e ≡ true

Reads-both : (o p : Option ℕ) (r s : Result ℕ) → o ≡ p → r ≡ s → Reads p s → Reads o r
Reads-both o p r s h k reads = subst (λ q. Reads q r) (sym h) (subst (λ t. Reads p t) (sym k) reads)

digits-other :
    (name value : Bytes) (c : ℕ) (s : Bytes) (n : ℕ)
    → is_digit c ≡ false
    → Reads none (digits name value (c ∷ s) n)
unfolding digits
digits-other name value c s n e = rw e refl

digits-large :
    (name value : Bytes) (c : ℕ) (s : Bytes) (n : ℕ)
    → is_digit c ≡ true
    → ltb ((u64_mod - 1 - (c - b'0')) / 10) n ≡ true
    → Reads none (digits name value (c ∷ s) n)
unfolding digits
digits-large name value c s n e big = rw (e, big) refl

digits-digit :
    (name value : Bytes) (c : ℕ) (s : Bytes) (n : ℕ)
    → is_digit c ≡ true
    → ltb ((u64_mod - 1 - (c - b'0')) / 10) n ≡ false
    → digits name value (c ∷ s) n ≡ digits name value s (u64 (n * 10 + (c - b'0')))
unfolding digits
digits-digit name value c s n e small = rw e (if_false _ _ _ small)

fitting-end : (n : ℕ) → n < u64_mod → fitting [] n ≡ some n
fitting-end n h = ground arith

digits-Reads :
    (name value s : Bytes) (n : ℕ) → n < u64_mod → Reads (fitting s n) (digits name value s n)
unfolding digits
digits-Reads name value [] n h =
    Reads-both (fitting [] n) (some n) (ok n) (ok n) (fitting-end n h) refl refl
digits-Reads name value (c ∷ s) n h = elim (Bool-cases (is_digit c)) [
  | inr e ↦
      Reads-both (fitting (c ∷ s) n) none (digits name value (c ∷ s) n)
        (digits name value (c ∷ s) n) (fitting-other c s n e) refl (digits-other name value c s n e)
  | inl e ↦ elim (Bool-cases (ltb ((u64_mod - 1 - (c - b'0')) / 10) n)) [
    | inl big ↦
        let over : u64_mod ≤ n * 10 + (c - b'0') = omega (arith, digit_range c e, ltb→lt _ _ big) in
        Reads-both (fitting (c ∷ s) n) none (digits name value (c ∷ s) n)
          (digits name value (c ∷ s) n)
          (fitting-digit c s n e ∙ fitting-large s (n * 10 + (c - b'0')) over) refl
          (digits-large name value c s n e big)
    | inr small ↦
        let fits : n * 10 + (c - b'0') < u64_mod =
          omega (arith, digit_range c e, ltb→le _ _ small) in
        let same : u64 (n * 10 + (c - b'0')) ≡ n * 10 + (c - b'0') = omega arith in
        Reads-both (fitting (c ∷ s) n) (fitting s (n * 10 + (c - b'0')))
          (digits name value (c ∷ s) n) (digits name value s (n * 10 + (c - b'0')))
          (fitting-digit c s n e)
          (digits-digit name value c s n e small ∙ ap (digits name value s) same)
          (digits-Reads name value s (n * 10 + (c - b'0')) fits)
  ]
]

-- The number of a flag: the fallback where it is not given, and else what its value writes.
abbrev pub written : Option Bytes → ℕ → Option ℕ
written none fallback = some fallback
written (some value) fallback = declared value

number_of-Reads :
    (given : Option Bytes) (name : Bytes) (fallback : ℕ)
    → Reads (written given fallback) (number_of given name fallback)
unfolding digits
number_of-Reads none name fallback = refl
number_of-Reads (some []) name fallback = refl
number_of-Reads (some (c ∷ value)) name fallback =
    digits-Reads name (c ∷ value) (c ∷ value) 0 (omega arith)

-- A whole number is the fallback where the flag is not given; else it is the number that the
-- value writes, if that is not empty, has digits only and fits into 64 bits, and a usage error if not.
pub number-Reads :
    (values : Values) (name : Bytes) (fallback : ℕ)
    → Reads (written (lookup name values) fallback) (number values name fallback)
unfolding number
number-Reads values name fallback = number_of-Reads (lookup name values) name fallback
