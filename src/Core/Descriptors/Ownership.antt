-- ===== src/Core/Descriptors/Ownership.antt =====
-- Every open descriptor of src/core/socket.cpp has one owner, whatever is done with the sockets.
use dariyanaap.Prelude.{
  ℕ, zero, suc, ◌+◌, ◌≤◌, ◌<◌, ◌≡◌, ◌≢◌, refl, sym, ap, ◌∙◌, subst, List, [], ◌∷◌, Option, none,
  some, true, false, ◌==◌, if◌then◌else◌, get_elem?, set, get_elem?-set_ne, arith, if_true, if_both,
}
use dariyanaap.Prelude.Counting.{count_if}
use dariyanaap.Core.Descriptors.{
  Owners, is_live, without, kernel_close, held, fd_of, put, construct, closing, close,
  move_construct, moved, move_assign, releasing, release, Step, opens, moves, assigns, closes,
  releases, Reach, here, next, no_owners,
}

abbrev pub occurs : ℕ → List ℕ → ℕ
occurs n = count_if (λ fd. fd == n)

abbrev pub holds : ℕ → Option ℕ → ℕ
holds n none = 0
holds n (some fd) = if fd == n then 1 else 0

abbrev pub holders : ℕ → List (Option ℕ) → ℕ
holders n [] = 0
holders n (o ∷ os) = holds n o + holders n os

-- Each descriptor that is open is held by one object or was released, never both and never by two;
-- one that is not open is held by none; and none was closed twice.
abbrev pub IsOwned : Owners → Type 0
IsOwned s =
    ((n : ℕ) → occurs n s.live ≡ holders n s.objects + occurs n s.released)
    × ((n : ℕ) → occurs n s.live ≤ 1)
    × (s.double_closes ≡ 0)

is_live-occurs : (fd : ℕ) (live : List ℕ) → is_live fd live ≡ false → occurs fd live ≡ 0
is_live-occurs fd [] h = refl
is_live-occurs fd (other ∷ live) h = ground (arith, is_live-occurs fd live)

occurs-is_live : (fd : ℕ) (live : List ℕ) → 0 < occurs fd live → is_live fd live ≡ true
occurs-is_live fd [] h = absurd (omega arith)
occurs-is_live fd (other ∷ live) h = ground (arith, occurs-is_live fd live)

occurs-without :
    (n fd : ℕ) (live : List ℕ)
    → is_live fd live ≡ true
    → occurs n (without fd live) + holds n (some fd) ≡ occurs n live
occurs-without n fd [] h = absurd (cc)
occurs-without n fd (other ∷ live) h = ground (arith, occurs-without n fd live)

holders-set-none :
    (n : ℕ) (os : List (Option ℕ)) (i : ℕ)
    → holders n (set os i none) + holds n (held (get_elem? os i)) ≡ holders n os
holders-set-none n [] i = refl
holders-set-none n (o ∷ os) zero = omega arith
holders-set-none n (o ∷ os) (suc i) = omega (arith, holders-set-none n os i)

holders-set_empty :
    (n : ℕ) (os : List (Option ℕ)) (i : ℕ) (v : Option ℕ)
    → get_elem? os i ≡ some none
    → holders n (set os i v) ≡ holders n os + holds n v
holders-set_empty n [] i v h = absurd (cc)
holders-set_empty n (o ∷ os) zero v h = let e : o ≡ none = cc in rw e (omega arith)
holders-set_empty n (o ∷ os) (suc i) v h = omega (arith, holders-set_empty n os i v h)

get_elem?-set_same :
    (os : List (Option ℕ)) (i : ℕ) (o v : Option ℕ)
    → get_elem? os i ≡ some o
    → get_elem? (set os i v) i ≡ some v
get_elem?-set_same [] i o v h = absurd (cc)
get_elem?-set_same (p ∷ os) zero o v h = refl
get_elem?-set_same (p ∷ os) (suc i) o v h = get_elem?-set_same os i o v h

construct-IsOwned :
    (fd : ℕ) (s : Owners) → is_live fd s.live ≡ false → IsOwned s → IsOwned (construct fd s)
unfolding construct
construct-IsOwned fd s fresh (balance, single, once) = (
  λ n. ground (arith, balance n),
  λ n. ground (arith, single n, is_live-occurs fd s.live fresh),
  once,
)

kernel_close-live :
    (fd : ℕ) (s : Owners)
    → is_live fd s.live ≡ true
    → kernel_close fd s ≡ record s { live = without fd s.live }
unfolding kernel_close
kernel_close-live fd s h = if_true _ _ _ h

-- The object at number i holds this descriptor.
module _ (fd i : ℕ) (s : Owners) (e : fd_of s i ≡ some fd) where
  one_holder : (n : ℕ) → holders n (set s.objects i none) + holds n (some fd) ≡ holders n s.objects
  one_holder n =
      ap (λ o. holders n (set s.objects i none) + holds n o) (sym e)
      ∙ holders-set-none n s.objects i

  held-is_live : IsOwned s → is_live fd s.live ≡ true
  held-is_live (balance, single, once) = occurs-is_live fd s.live (
      let some_holder : 0 < holders fd s.objects = ground (arith, one_holder fd) in
      omega (arith, some_holder, balance fd))

  closed-IsOwned :
      IsOwned s
      → is_live fd s.live ≡ true
      → IsOwned (put i none (record s { live = without fd s.live }))
  unfolding put
  closed-IsOwned (balance, single, once) alive = (
    λ n. omega (arith, balance n, one_holder n, occurs-without n fd s.live alive),
    λ n. omega (arith, single n, occurs-without n fd s.live alive),
    once,
  )

  released-IsOwned : IsOwned s → IsOwned (put i none (record s { released = fd ∷ s.released }))
  unfolding put
  released-IsOwned (balance, single, once) =
      (λ n. ground (arith, balance n, one_holder n), single, once)

closing-IsOwned :
    (o : Option ℕ) (i : ℕ) (s : Owners) → fd_of s i ≡ o → IsOwned s → IsOwned (closing o i s)
closing-IsOwned none i s e owned = owned
closing-IsOwned (some fd) i s e owned =
    let alive = held-is_live fd i s e owned in
    subst (λ t. IsOwned (put i none t)) (sym (kernel_close-live fd s alive))
      (closed-IsOwned fd i s e owned alive)

close-IsOwned : (i : ℕ) (s : Owners) → IsOwned s → IsOwned (close i s)
unfolding close
close-IsOwned i s owned = closing-IsOwned (fd_of s i) i s refl owned

releasing-IsOwned :
    (o : Option ℕ) (i : ℕ) (s : Owners) → fd_of s i ≡ o → IsOwned s → IsOwned (releasing o i s)
releasing-IsOwned none i s e owned = owned
releasing-IsOwned (some fd) i s e owned = released-IsOwned fd i s e owned

move_construct-IsOwned : (j : ℕ) (s : Owners) → IsOwned s → IsOwned (move_construct j s)
unfolding move_construct
move_construct-IsOwned j s (balance, single, once) =
    (λ n. omega (arith, balance n, holders-set-none n s.objects j), single, once)

-- After `close` the object is empty.
kernel_close-objects : (fd : ℕ) (s : Owners) → (kernel_close fd s).objects ≡ s.objects
unfolding kernel_close
kernel_close-objects fd s =
    if_both (λ (t : Owners). t.objects ≡ s.objects) (is_live fd s.live) _ _ (λ _. refl) (λ _. refl)

closing-empty :
    (o p : Option ℕ) (i : ℕ) (s : Owners)
    → fd_of s i ≡ o
    → get_elem? s.objects i ≡ some p
    → get_elem? (closing o i s).objects i ≡ some none
unfolding put
closing-empty none p i s e h = h ∙ ap some (ap held (sym h) ∙ e)
closing-empty (some fd) p i s e h =
    ap (λ os. get_elem? (set os i none) i) (kernel_close-objects fd s)
    ∙ get_elem?-set_same s.objects i p none h

moved-IsOwned :
    (i j : ℕ) (s : Owners)
    → i ≢ j
    → get_elem? s.objects i ≡ some none
    → IsOwned s
    → IsOwned (moved i j s)
unfolding put
moved-IsOwned i j s apart empty (balance, single, once) = (
  λ n. omega (arith, balance n, left n, holders-set_empty n s.objects i (fd_of s j) empty),
  single,
  once,
)
  where
    left :
        (n : ℕ)
        → holders n (set (set s.objects i (fd_of s j)) j none) + holds n (fd_of s j)
          ≡ holders n (set s.objects i (fd_of s j))
    left n =
        ap (λ o. holders n (set (set s.objects i (fd_of s j)) j none) + holds n (held o))
          (sym (get_elem?-set_ne s.objects (fd_of s j) apart))
        ∙ holders-set-none n (set s.objects i (fd_of s j)) j

move_assign-IsOwned :
    (i j : ℕ) (o : Option ℕ) (s : Owners)
    → get_elem? s.objects i ≡ some o
    → IsOwned s
    → IsOwned (move_assign i j s)
unfolding move_assign close
move_assign-IsOwned i j o s h owned =
    if_both IsOwned (i == j) s (moved i j (closing (fd_of s i) i s)) (λ same. owned)
      λ other.
        moved-IsOwned i j (closing (fd_of s i) i s) (ground arith)
          (closing-empty (fd_of s i) o i s refl h) (closing-IsOwned (fd_of s i) i s refl owned)

Step-IsOwned : {s t : Owners} → Step s t → IsOwned s → IsOwned t
unfolding release
Step-IsOwned {s} (opens fd fresh) owned = construct-IsOwned fd s fresh owned
Step-IsOwned {s} (moves j) owned = move_construct-IsOwned j s owned
Step-IsOwned {s} (assigns i j o h) owned = move_assign-IsOwned i j o s h owned
Step-IsOwned {s} (closes i) owned = close-IsOwned i s owned
Step-IsOwned {s} (releases i) owned = releasing-IsOwned (fd_of s i) i s refl owned

Reach-IsOwned_from : {s t : Owners} → IsOwned s → Reach s t → IsOwned t
Reach-IsOwned_from h here = h
Reach-IsOwned_from h (next r st) = Step-IsOwned st (Reach-IsOwned_from h r)

-- Whatever a program does with its sockets, in whatever order: every open descriptor is held by exactly
-- one of them or was released, one that is not open is held by none, so that none is leaked, and no
-- descriptor is ever closed twice.
pub Reach-IsOwned : {s : Owners} → Reach no_owners s → IsOwned s
Reach-IsOwned r = Reach-IsOwned_from (λ n. refl, λ n. omega arith, refl) r
