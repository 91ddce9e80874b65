-- ===== src/Prelude/Text/Digits.antt =====
-- Decimal digits and the numbers that they write.
use Prim.Native.Nat.{ℕ, ◌+◌, ◌-◌, ◌*◌, ◌/◌, ◌%◌, ◌≤◌, ◌<◌}
use mathlib.Core.Path.{◌≡◌, refl, ap, ◌∙◌}
use mathlib.Core.Logic.{dite}
use mathlib.Core.Bool.{Bool, true, false, ◌&&◌}
use mathlib.Core.List.{[], ◌∷◌}
use mathlib.Core.WellFounded.{Acc}
use native.Mathlib.Decide.{dec_lt}
use native.Mathlib.Omega.{arith}
use dariyanaap.Prelude.Order.{lt_wf}
use dariyanaap.Prelude.Text.{Bytes, is_digit, contains, is_empty, emit, to_string}

abbrev pub all_digits : Bytes → Bool
all_digits [] = true
all_digits (c ∷ s) = is_digit c && all_digits s

-- The number that the digits write behind those of `n`, however large.
abbrev pub number_from : Bytes → ℕ → ℕ
number_from [] n = n
number_from (c ∷ s) n = number_from s (n * 10 + (c - b'0'))

pub number_from-le : (s : Bytes) (n : ℕ) → n ≤ number_from s n
number_from-le [] n = omega arith
number_from-le (c ∷ s) n = omega (arith, number_from-le s (n * 10 + (c - b'0')))

dite_both {ℓ κ μ} :
    {P : Type ℓ} {A : Type κ} (Q : A → Type μ) (d : Dec P) (f : P → A) (g : ¬ P → A)
    → ((h : P) → Q (f h))
    → ((h : ¬ P) → Q (g h))
    → Q (dite d f g)
dite_both Q (yes h) f g a b = a h
dite_both Q (no h) f g a b = b h

digit-is_digit : (n : ℕ) → is_digit (b'0' + n % 10) ≡ true
digit-is_digit n = ground arith

all_digits-emit :
    (n : ℕ) (a : Acc ◌<◌ n) (out : Bytes) → all_digits out ≡ true → all_digits (emit n a out) ≡ true
unfolding emit
all_digits-emit n (Acc.intro _ smaller) out e =
    dite_both (λ s. all_digits s ≡ true) (dec_lt 9 n) _ _
      (λ h.
        all_digits-emit (n / 10) (smaller (n / 10) _) ((b'0' + n % 10) ∷ out)
          (rw (digit-is_digit n) e))
      (λ h. rw (digit-is_digit n) e)

number_from-emit :
    (n : ℕ) (a : Acc ◌<◌ n) (out : Bytes) → number_from (emit n a out) 0 ≡ number_from out n
unfolding emit
number_from-emit n (Acc.intro _ smaller) out =
    dite_both (λ s. number_from s 0 ≡ number_from out n) (dec_lt 9 n) _ _
      (λ h.
        let e : n / 10 * 10 + (b'0' + n % 10 - b'0') ≡ n = omega arith in
        number_from-emit (n / 10) (smaller (n / 10) _) ((b'0' + n % 10) ∷ out)
        ∙ ap (number_from out) e)
      (λ h.
        let e : 0 * 10 + (b'0' + n % 10 - b'0') ≡ n = omega (arith, h) in ap (number_from out) e)

emit-is_empty : (n : ℕ) (a : Acc ◌<◌ n) (out : Bytes) → is_empty (emit n a out) ≡ false
unfolding emit
emit-is_empty n (Acc.intro _ smaller) out =
    dite_both (λ s. is_empty s ≡ false) (dec_lt 9 n) _ _
      (λ h. emit-is_empty (n / 10) (smaller (n / 10) _) ((b'0' + n % 10) ∷ out)) (λ h. refl)

-- What `std::to_string` prints is digits only, at least one, and they write the number.
pub all_digits-to_string : (n : ℕ) → all_digits (to_string n) ≡ true
unfolding to_string
all_digits-to_string n = all_digits-emit n (lt_wf.apply n) [] refl

pub number_from-to_string : (n : ℕ) → number_from (to_string n) 0 ≡ n
unfolding to_string
number_from-to_string n = number_from-emit n (lt_wf.apply n) []

pub to_string-is_empty : (n : ℕ) → is_empty (to_string n) ≡ false
unfolding to_string
to_string-is_empty n = emit-is_empty n (lt_wf.apply n) []

-- A byte that is no digit does not stand among digits.
pub contains-all_digits :
    (s : Bytes) (b : ℕ) → all_digits s ≡ true → is_digit b ≡ false → contains s b ≡ false
contains-all_digits [] b h k = refl
contains-all_digits (c ∷ s) b h k = ground (arith, contains-all_digits s b)
