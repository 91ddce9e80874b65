-- ===== src/Apps/HistogramVerifier/Sorting.antt =====
-- The sorted samples of apps/hist_verify.cpp: positions and ranks.
use dariyanaap.Prelude.{
  ℕ, zero, suc, ◌≤◌, ◌<◌, ◌≡◌, refl, List, [], ◌∷◌, some, leb, leb→le, leb→lt, length, get_elem?,
  arith, Bool, if_both, ◌∙◌,
}
use dariyanaap.Prelude.Counting.{count_if}
use dariyanaap.Stats.Histogram.Ranks.{rank}
use dariyanaap.Apps.HistogramVerifier.{insert, sort}

-- No element is below `m`.
abbrev pub IsAbove : ℕ → List ℕ → Type 0
IsAbove m [] = Unit {0}
IsAbove m (x ∷ xs) = (m ≤ x) × IsAbove m xs

abbrev pub IsSorted : List ℕ → Type 0
IsSorted [] = Unit {0}
IsSorted (x ∷ xs) = IsAbove x xs × IsSorted xs

IsAbove-le : (m n : ℕ) (xs : List ℕ) → m ≤ n → IsAbove n xs → IsAbove m xs
IsAbove-le m n [] l h = tt
IsAbove-le m n (x ∷ xs) l (a, h) = (omega arith, IsAbove-le m n xs l h)

insert-IsAbove : (m x : ℕ) (xs : List ℕ) → m ≤ x → IsAbove m xs → IsAbove m (insert x xs)
unfolding insert
insert-IsAbove m x [] l h = (l, tt)
insert-IsAbove m x (y ∷ ys) l (a, h) =
    if_both (IsAbove m) (leb x y) (x ∷ y ∷ ys) (y ∷ insert x ys) (λ _. (l, (a, h)))
      (λ _. (a, insert-IsAbove m x ys l h))

insert-IsSorted : (x : ℕ) (xs : List ℕ) → IsSorted xs → IsSorted (insert x xs)
unfolding insert
insert-IsSorted x [] h = (tt, tt)
insert-IsSorted x (y ∷ ys) (a, h) =
    if_both IsSorted (leb x y) (x ∷ y ∷ ys) (y ∷ insert x ys)
      (λ e. let l = leb→le x y e in ((l, IsAbove-le x y ys l a), (a, h)))
      (λ e. let l = leb→lt x y e in (insert-IsAbove y x ys (omega arith) a, insert-IsSorted x ys h))

pub sort-IsSorted : (xs : List ℕ) → IsSorted (sort xs)
unfolding sort
sort-IsSorted [] = tt
sort-IsSorted (x ∷ xs) = insert-IsSorted x (sort xs) (sort-IsSorted xs)

count_if-insert :
    (p : ℕ → Bool) (x : ℕ) (xs : List ℕ) → count_if p (insert x xs) ≡ count_if p (x ∷ xs)
unfolding insert
count_if-insert p x [] = refl
count_if-insert p x (y ∷ ys) =
    if_both (λ zs. count_if p zs ≡ count_if p (x ∷ y ∷ ys)) (leb x y) (x ∷ y ∷ ys) (y ∷ insert x ys)
      (λ _. refl) (λ _. ground (arith, count_if-insert p x ys))

pub count_if-sort : (p : ℕ → Bool) (xs : List ℕ) → count_if p (sort xs) ≡ count_if p xs
unfolding sort
count_if-sort p [] = refl
count_if-sort p (x ∷ xs) = count_if-insert p x (sort xs) ∙ ground (arith, count_if-sort p xs)

length-insert : (x : ℕ) (xs : List ℕ) → length (insert x xs) ≡ suc (length xs)
unfolding insert
length-insert x [] = refl
length-insert x (y ∷ ys) =
    if_both (λ zs. length zs ≡ suc (length (y ∷ ys))) (leb x y) (x ∷ y ∷ ys) (y ∷ insert x ys)
      (λ _. refl) (λ _. omega (arith, length-insert x ys))

pub length-sort : (xs : List ℕ) → length (sort xs) ≡ length xs
unfolding sort
length-sort [] = refl
length-sort (x ∷ xs) = omega (arith, length-insert x (sort xs), length-sort xs)

pub get_elem?-lt : (xs : List ℕ) (i : ℕ) → i < length xs → (t : ℕ) × (get_elem? xs i ≡ some t)
get_elem?-lt [] i h = absurd (omega arith)
get_elem?-lt (x ∷ xs) zero h = (x, refl)
get_elem?-lt (x ∷ xs) (suc i) h = get_elem?-lt xs i (omega arith)

IsAbove-get : (m : ℕ) (xs : List ℕ) (i t : ℕ) → IsAbove m xs → get_elem? xs i ≡ some t → m ≤ t
IsAbove-get m [] i t a h = absurd (cc)
IsAbove-get m (x ∷ xs) zero t (l, a) h = let e : x ≡ t = cc in omega arith
IsAbove-get m (x ∷ xs) (suc i) t (l, a) h = IsAbove-get m xs i t a h

IsAbove-rank : (m v : ℕ) (xs : List ℕ) → v < m → IsAbove m xs → rank xs v ≡ 0
IsAbove-rank m v [] l h = refl
IsAbove-rank m v (x ∷ xs) l (a, h) = ground (arith, IsAbove-rank m v xs l h)

-- Up to position i there are i + 1 elements, and none of them is above the one that stands there.
pub rank-get_elem? :
    (xs : List ℕ) (i t : ℕ) → IsSorted xs → get_elem? xs i ≡ some t → suc i ≤ rank xs t
rank-get_elem? [] i t s h = absurd (cc)
rank-get_elem? (x ∷ xs) zero t s h = let e : x ≡ t = cc in ground arith
rank-get_elem? (x ∷ xs) (suc i) t (a, s) h =
    let l = IsAbove-get x xs i t a h in ground (arith, rank-get_elem? xs i t s h)

-- What is below the element at position i, only the i elements before it can be below or equal to.
pub rank-below :
    (xs : List ℕ) (i t v : ℕ) → IsSorted xs → get_elem? xs i ≡ some t → v < t → rank xs v ≤ i
rank-below [] i t v s h l = absurd (cc)
rank-below (x ∷ xs) zero t v (a, s) h l =
    let e : x ≡ t = cc in ground (arith, IsAbove-rank x v xs (omega arith) a)
rank-below (x ∷ xs) (suc i) t v (a, s) h l = ground (arith, rank-below xs i t v s h l)
