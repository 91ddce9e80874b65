-- ===== src/Prelude/Text/Searching.antt =====
-- What `find` says of a text, and of a longer one.
use Prim.Native.Nat.{ℕ, zero, suc, ◌+◌, ◌≤◌}
use mathlib.Core.Path.{◌≡◌, refl, ap}
use mathlib.Core.Logic.{◌⊎◌, inl, inr}
use mathlib.Core.Bool.{true, false}
use mathlib.Core.Option.{Option, none, some}
use mathlib.Core.List.{[], ◌∷◌, ◌++◌}
use native.Mathlib.Omega.{arith}
use dariyanaap.Prelude.Tests.{Bool-cases}
use dariyanaap.Prelude.Lists.{length, take, drop}
use dariyanaap.Prelude.Text.{Bytes, starts_with, find}

pub starts_with-append :
    (needle s r : Bytes) → starts_with needle s ≡ true → starts_with needle (s ++ r) ≡ true
starts_with-append [] s r h = refl
starts_with-append (b ∷ needle) [] r h = absurd (cc)
starts_with-append (b ∷ needle) (c ∷ s) r h = ground (arith, starts_with-append needle s r)

pub not-starts_with-append :
    (needle s r : Bytes)
    → length needle ≤ length s
    → starts_with needle s ≡ false
    → starts_with needle (s ++ r) ≡ false
not-starts_with-append [] s r l h = absurd (cc)
not-starts_with-append (b ∷ needle) [] r l h = absurd (omega arith)
not-starts_with-append (b ∷ needle) (c ∷ s) r l h =
    ground (arith, not-starts_with-append needle s r)

pub starts_with-length : (needle s : Bytes) → starts_with needle s ≡ true → length needle ≤ length s
starts_with-length [] s h = omega arith
starts_with-length (b ∷ needle) [] h = absurd (cc)
starts_with-length (b ∷ needle) (c ∷ s) h = ground (arith, starts_with-length needle s)

-- Where a text is found: here, or further on.
abbrev Found : Bytes → ℕ → Bytes → ℕ → Type 0
Found needle c s i =
    ((starts_with needle (c ∷ s) ≡ true) × (i ≡ 0))
    ⊎ ((starts_with needle (c ∷ s) ≡ false) × ((j : ℕ) × (i ≡ suc j) × (find needle s ≡ some j)))

find_here :
    (needle : Bytes) (c : ℕ) (s : Bytes)
    → starts_with needle (c ∷ s) ≡ true
    → find needle (c ∷ s) ≡ some 0
unfolding find
find_here needle c s e = rw e

find_later :
    (needle : Bytes) (c : ℕ) (s : Bytes) (j : ℕ)
    → starts_with needle (c ∷ s) ≡ false
    → find needle s ≡ some j
    → find needle (c ∷ s) ≡ some (suc j)
unfolding find
find_later needle c s j e h = ground arith

find_nowhere :
    (needle : Bytes) (c : ℕ) (s : Bytes)
    → starts_with needle (c ∷ s) ≡ false
    → find needle s ≡ none
    → find needle (c ∷ s) ≡ none
unfolding find
find_nowhere needle c s e h = rw (e, h)

find-Found :
    (needle : Bytes) (c : ℕ) (s : Bytes) (i : ℕ) → find needle (c ∷ s) ≡ some i → Found needle c s i
find-Found needle c s i h = elim (Bool-cases (starts_with needle (c ∷ s))) [
  | inl e ↦ inl (e, some-eq 0 (find_here needle c s e))
  | inr e ↦ inr (e, later (find needle s) refl e)
]
  where
    some-eq : (k : ℕ) → find needle (c ∷ s) ≡ some k → i ≡ k
    some-eq k e = cc

    later :
        (o : Option ℕ)
        → find needle s ≡ o
        → starts_with needle (c ∷ s) ≡ false
        → (j : ℕ) × (i ≡ suc j) × (find needle s ≡ some j)
    later none q e = absurd (cc (find_nowhere needle c s e q))
    later (some j) q e = (j, some-eq (suc j) (find_later needle c s j e q), q)

pub find-bound : (needle s : Bytes) (i : ℕ) → find needle s ≡ some i → i + length needle ≤ length s
find-bound [] [] i h = unfold find in ground arith
find-bound (b ∷ needle) [] i h = absurd (unfold find in cc)
find-bound needle (c ∷ s) i h = elim (find-Found needle c s i h) [
  | inl (e, z) ↦ omega (arith, starts_with-length needle (c ∷ s) e)
  | inr (e, (j, z, f)) ↦ omega (arith, find-bound needle s j f)
]

-- A first match stays the first match when the text grows.
pub find-append :
    (needle s r : Bytes) (i : ℕ) → find needle s ≡ some i → find needle (s ++ r) ≡ some i
find-append [] [] [] i h = h
find-append [] [] (d ∷ r) i h = unfold find in ground arith
find-append (b ∷ needle) [] r i h = absurd (unfold find in cc)
find-append needle (c ∷ s) r i h = elim (find-Found needle c s i h) [
  | inl (e, z) ↦ rw z (find_here needle c (s ++ r) (starts_with-append needle (c ∷ s) r e))
  | inr (e, (j, z, f)) ↦ rw z (
      find_later needle c (s ++ r) j
        (not-starts_with-append needle (c ∷ s) r (omega (arith, find-bound needle s j f)) e)
        (find-append needle s r j f))
]

pub take_of_append : (n : ℕ) (s r : Bytes) → n ≤ length s → take n (s ++ r) ≡ take n s
take_of_append zero s r h = refl
take_of_append (suc n) [] r h = absurd (omega arith)
take_of_append (suc n) (c ∷ s) r h = ap (◌∷◌ c) (take_of_append n s r (omega arith))

pub drop_of_append : (n : ℕ) (s r : Bytes) → n ≤ length s → drop n (s ++ r) ≡ drop n s ++ r
drop_of_append zero s r h = refl
drop_of_append (suc n) [] r h = absurd (omega arith)
drop_of_append (suc n) (c ∷ s) r h = drop_of_append n s r (omega arith)
