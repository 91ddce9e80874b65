-- ===== src/Stats/Histogram/Refinement.antt =====
-- The histogram of src/stats/histogram.cpp and bags of samples, which forget their order.
use mathlib.Core.HLevel.{Π_prop}
use mathlib.Core.List.{Perm, foldr}
use mathlib.Core.List.Perm
use mathlib.Core.Quot
use mathlib.Core.Quot.{Quot, Quot-set}
use native.Mathlib.Nat.{ℕ_set}
use dariyanaap.Prelude.{
  ℕ, suc, ◌+◌, ◌<◌, ◌≡◌, refl, sym, ap, ◌∙◌, List, [], ◌∷◌, ◌++◌, length, u64_mod,
}
use dariyanaap.Prelude.Counting.{foldr-perm}
use dariyanaap.Stats.Histogram.{Histogram, empty, record_latency, merge}
use dariyanaap.Stats.Histogram.Tally.{record_all}
use dariyanaap.Stats.Histogram.Merge.{merge-record_all, record_all-perm, Histogram-set}

-- A bag of latencies.
abbrev pub Bag : Type 0
Bag = Quot (λ (xs ys : List ℕ). Perm xs ys)

abbrev pub bag : List ℕ → Bag
bag = Quot.mk

length-foldr : (xs : List ℕ) → length xs ≡ foldr (λ x n. suc n) 0 xs
length-foldr [] = refl
length-foldr (x ∷ xs) = ap suc (length-foldr xs)

pub length-perm : (xs ys : List ℕ) → Perm xs ys → length xs ≡ length ys
length-perm xs ys h =
    length-foldr xs
    ∙ foldr-perm (λ (x : ℕ) (n : ℕ). suc n) (λ a b s. refl) ℕ_set 0 xs ys h
    ∙ sym (length-foldr ys)

unfoldable pub size : Bag → ℕ
size = Quot.lift ℕ_set length length-perm

pub none_yet : Bag
none_yet = bag []

pub add : ℕ → Bag → Bag
add x = Quot.lift Quot-set (λ xs. Quot.mk (x ∷ xs)) (λ xs ys h. Quot.sound (Perm.cons x h))

prepend : List ℕ → Bag → Bag
prepend xs =
    Quot.lift Quot-set (λ ys. Quot.mk (xs ++ ys)) (λ ys zs h. Quot.sound (Perm.append_left xs h))

prepend-perm : (xs ys : List ℕ) → Perm xs ys → (b : Bag) → prepend xs b ≡ prepend ys b
unfolding prepend
prepend-perm xs ys h = Quot.ind (λ b. Quot-set _ _) (λ zs. Quot.sound (Perm.append_right zs h))

pub union : Bag → Bag → Bag
unfolding prepend
union a b = Quot.lift Quot-set (λ xs. prepend xs b) (λ xs ys h. prepend-perm xs ys h b) a

-- The histogram that implements a bag.
pub represent : Bag → Histogram
represent = Quot.lift Histogram-set record_all record_all-perm

represent-add : (x : ℕ) (b : Bag) → record_latency (represent b) x ≡ represent (add x b)
unfolding represent add
represent-add x = Quot.ind (λ b. Histogram-set _ _) (λ xs. refl)

represent-union :
    (a b : Bag)
    → size a + size b < u64_mod
    → merge (represent a) (represent b) ≡ represent (union a b)
unfolding represent union prepend size
represent-union =
    Quot.ind (λ a. Π_prop (λ b. Π_prop (λ h. Histogram-set _ _)))
      λ xs. Quot.ind (λ b. Π_prop (λ h. Histogram-set _ _)) λ ys h. merge-record_all xs ys h

-- The histogram implements a bag of samples, in which only how often each occurs is kept: an empty one is
-- the empty bag, `record` adds a sample, and `merge` unites two bags, as long as there are fewer than
-- 2 ^ 64 samples in them.
pub represent-refines :
    (x : ℕ) (a b : Bag)
    → size a + size b < u64_mod
    → (represent none_yet ≡ empty)
      × (record_latency (represent a) x ≡ represent (add x a))
      × (merge (represent a) (represent b) ≡ represent (union a b))
unfolding represent none_yet
represent-refines x a b h = (refl, represent-add x a, represent-union a b h)
