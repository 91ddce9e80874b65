-- ===== src/Prelude/Counting.antt =====
-- How many elements pass a test, and lists given by a function of the position.
use mathlib.Core.List.{Perm, Permᴰ, foldr}
use mathlib.Core.List.Permᴰ.{nil, cons, swap, trans}
use mathlib.Core.Logic.{∥∥₁_elim}
use Prim.Native.Nat.{ℕ, zero, suc, ◌+◌, ◌≤◌, ◌<◌}
use mathlib.Core.Path.{◌≡◌, refl, ◌∙◌, ap, ap₂}
use mathlib.Core.Bool.{Bool, true}
use mathlib.Core.List.{List, [], ◌∷◌, ◌++◌}
use native.Mathlib.Omega.{arith}
use dariyanaap.Prelude.Tests.{if◌then◌else◌}
use dariyanaap.Prelude.Lists.{length, replicate, get_or}

module _ {ℓ} {A : Type ℓ} where
  abbrev pub count_if : (A → Bool) → List A → ℕ
  count_if p [] = 0
  count_if p (x ∷ xs) = if p x then suc (count_if p xs) else count_if p xs

  pub count_if-append :
      (p : A → Bool) (xs ys : List A) → count_if p (xs ++ ys) ≡ count_if p xs + count_if p ys
  count_if-append p [] ys = omega arith
  count_if-append p (x ∷ xs) ys = ground (arith, count_if-append p xs ys)

  pub count_if-le-length : (p : A → Bool) (xs : List A) → count_if p xs ≤ length xs
  count_if-le-length p [] = omega arith
  count_if-le-length p (x ∷ xs) = ground (arith, count_if-le-length p xs)

  pub count_if_mono :
      (p q : A → Bool)
      → ((x : A) → p x ≡ true → q x ≡ true)
      → (xs : List A) → count_if p xs ≤ count_if q xs
  count_if_mono p q h [] = omega arith
  count_if_mono p q h (x ∷ xs) = ground (arith, h x, count_if_mono p q h xs)

-- A fold whose steps commute does not see the order of the list.
module _ {ℓ κ} {A : Type ℓ} {B : Type κ} (f : A → B → B)
    (comm : (a b : A) (s : B) → f a (f b s) ≡ f b (f a s)) where
  foldr-permᴰ : (z : B) {xs ys : List A} → Permᴰ xs ys → foldr f z xs ≡ foldr f z ys
  foldr-permᴰ z nil = refl
  foldr-permᴰ z (cons e h) = ap₂ f e (foldr-permᴰ z h)
  foldr-permᴰ z (swap {a = a} {b = b} {l = l} e e') =
      comm a b (foldr f z l) ∙ ap₂ (λ u v. f u (f v (foldr f z l))) e' e
  foldr-permᴰ z (trans h k) = foldr-permᴰ z h ∙ foldr-permᴰ z k

  pub foldr-perm : IsSet B → (z : B) (xs ys : List A) → Perm xs ys → foldr f z xs ≡ foldr f z ys
  foldr-perm is_set z xs ys h = ∥∥₁_elim h (is_set _ _) (foldr-permᴰ z)

-- f i, f (i + 1), … , n of them.
abbrev pub tabulate {ℓ} : {A : Type ℓ} → (ℕ → A) → ℕ → ℕ → List A
tabulate f i zero = []
tabulate f i (suc n) = f i ∷ tabulate f (suc i) n

pub tabulate_const : (i n a : ℕ) → tabulate (λ _. a) i n ≡ replicate n a
tabulate_const i zero a = refl
tabulate_const i (suc n) a = ap (◌∷◌ a) (tabulate_const (suc i) n a)

pub tabulate_ext :
    (f g : ℕ → ℕ) (i n : ℕ) → ((k : ℕ) → i ≤ k → f k ≡ g k) → tabulate f i n ≡ tabulate g i n
tabulate_ext f g i zero h = refl
tabulate_ext f g i (suc n) h =
    ap₂ ◌∷◌ (h i (omega arith)) (tabulate_ext f g (suc i) n (λ k l. h k (omega arith)))

pub get_or-tabulate : (f : ℕ → ℕ) (i n j d : ℕ) → j < n → get_or (tabulate f i n) j d ≡ f (i + j)
get_or-tabulate f i zero j d h = elim h [ ]
get_or-tabulate f i (suc n) zero d h = ap f (omega arith)
get_or-tabulate f i (suc n) (suc j) d h =
    get_or-tabulate f (suc i) n j d (omega arith) ∙ ap f (omega arith)

pub tabulate_append {ℓ} :
    {A : Type ℓ} (f : ℕ → A) (i m n : ℕ)
    → tabulate f i m ++ tabulate f (i + m) n ≡ tabulate f i (m + n)
tabulate_append f i zero n =
    let e : i + 0 ≡ i = omega arith in
    let e' : n ≡ 0 + n = omega arith in ap (λ k. tabulate f k n) e ∙ ap (tabulate f i) e'
tabulate_append f i (suc m) n =
    let e : i + suc m ≡ suc i + m = omega arith in
    let e' : suc (m + n) ≡ suc m + n = omega arith in
    ap (◌∷◌ (f i))
      (ap (λ k. tabulate f (suc i) m ++ tabulate f k n) e ∙ tabulate_append f (suc i) m n)
    ∙ ap (tabulate f i) e'
