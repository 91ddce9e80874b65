-- ===== src/Fault/Knobs/Partitions.antt =====
-- The partitions of src/fault/knobs.cpp: cuts between two nodes, without a direction.
use dariyanaap.Prelude.{
  ◌≡◌, refl, sym, ap, ap₂, ◌∙◌, List, [], ◌∷◌, Bool, true, false, not, ◌&&◌, ◌||◌, arith,
  Bool-cases, inl, inr,
}
use dariyanaap.Prelude.Text.{Bytes, bytes_eq, bytes_eq_sound, bytes_eq_refl, is_empty}
use dariyanaap.Core.Errors.{Result, ok, err}
use dariyanaap.Fault.Knobs.{
  Cut, Knobs, gate, refresh_gate, text_lt, ordered, same_cut, member, insert, erase, blocked,
  partition, heal,
}
use dariyanaap.Fault.Knobs.Gate.{IsGated, blocked-ungated, heal-IsGated, insert-is_nil}

-- The order on names is a total one.
text_lt-asymmetric : (s t : Bytes) → text_lt s t ≡ true → text_lt t s ≡ false
text_lt-asymmetric s [] h = absurd (cc)
text_lt-asymmetric [] (d ∷ t) h = refl
text_lt-asymmetric (c ∷ s) (d ∷ t) h = ground (arith, text_lt-asymmetric s t)

text_lt-total : (s t : Bytes) → text_lt s t ≡ false → text_lt t s ≡ false → s ≡ t
text_lt-total [] [] h k = refl
text_lt-total [] (d ∷ t) h k = absurd (cc)
text_lt-total (c ∷ s) [] h k = absurd (cc)
text_lt-total (c ∷ s) (d ∷ t) h k = ground (arith, text_lt-total s t)

ordered_comm : (a b : Bytes) → ordered a b ≡ ordered b a
unfolding ordered
ordered_comm a b = elim (Bool-cases (text_lt b a)) [
  | inl e ↦ rw (e, text_lt-asymmetric b a e) refl
  | inr e ↦ elim (Bool-cases (text_lt a b)) [
    | inl f ↦ rw (e, f) refl
    | inr f ↦ rw (e, f) (ap₂ (λ x y. (x, y)) (text_lt-total a b f e) (text_lt-total b a e f))
  ]
]

same_cut_sound : (c d : Cut) → same_cut c d ≡ true → c ≡ d
same_cut_sound (a, b) (c, d) h =
    ap₂ (λ x y. (x, y)) (bytes_eq_sound a c (ground arith)) (bytes_eq_sound b d (ground arith))

pub same_cut_refl : (c : Cut) → same_cut c c ≡ true
same_cut_refl (a, b) = rw (bytes_eq_refl a, bytes_eq_refl b) refl

pub member-insert :
    (c d : Cut) (cuts : List Cut) → member c (insert d cuts) ≡ (same_cut c d || member c cuts)
unfolding insert
member-insert c d cuts = elim (Bool-cases (member d cuts)) [
  | inr e ↦ rw e refl
  | inl e ↦ rw e (elim (Bool-cases (same_cut c d)) [
    | inr f ↦ rw f refl
    | inl f ↦ rw (f, same_cut_sound c d f) e
  ])
]

pub member-erase :
    (c d : Cut) (cuts : List Cut) → member c (erase d cuts) ≡ (not (same_cut c d) && member c cuts)
unfolding erase
member-erase c d [] = ground arith
member-erase c d (x ∷ cuts) = elim (Bool-cases (same_cut d x)) [
  | inr e ↦
      rw (e, member-erase c d cuts)
        (elim (Bool-cases (same_cut c d)) [
          | inr f ↦ rw f refl
          | inl f ↦ rw (f, ap (λ y. same_cut y x) (same_cut_sound c d f), e) refl
        ])
  | inl e ↦ rw e (
      member-erase c d cuts ∙ (elim (Bool-cases (same_cut c d)) [
        | inr f ↦ rw (f, ← same_cut_sound d x e, f) refl
        | inl f ↦ rw f refl
      ]))
]

bytes_eq_comm : (s t : Bytes) → bytes_eq s t ≡ bytes_eq t s
bytes_eq_comm [] [] = refl
bytes_eq_comm [] (d ∷ t) = refl
bytes_eq_comm (c ∷ s) [] = refl
bytes_eq_comm (c ∷ s) (d ∷ t) = ground (arith, bytes_eq_comm s t)

or_comm : (a b : Bool) → (a || b) ≡ (b || a)
or_comm true true = refl
or_comm true false = refl
or_comm false true = refl
or_comm false false = refl

-- The cut between this node and a peer.
abbrev pub cut_to : Knobs → Bytes → Cut
cut_to k peer = ordered k.identity peer

-- What a partition does: it is refused for an empty name or twice the same name, and else it cuts
-- this node from a peer exactly if they are the two nodes, in either order, or were cut before.
abbrev pub Cuts : Bytes → Bytes → Knobs → Bytes → Result Knobs → Type 0
Cuts a b k peer (ok k') =
    blocked k' peer
    ≡ ((not (is_empty k.identity) && same_cut (cut_to k peer) (ordered a b)) || blocked k peer)
Cuts a b k peer (err e) = (is_empty a || is_empty b || bytes_eq a b) ≡ true

and_or : (a b c : Bool) → (a && (b || c)) ≡ ((a && b) || (a && c))
and_or true b c = refl
and_or false b c = refl

and_swap : (a b c : Bool) → (a && (b && c)) ≡ (b && (a && c))
and_swap true true c = refl
and_swap true false c = refl
and_swap false true c = refl
and_swap false false c = refl

-- Where the gates tell the truth: partitioning cuts this node from a peer exactly if they are
-- the two nodes that are named, in either order, or were cut before; it is refused exactly for
-- an empty name or twice the same.
pub partition-Cuts :
    (a b : Bytes) (k : Knobs) (peer : Bytes) → IsGated k → Cuts a b k peer (partition a b k)
unfolding partition refresh_gate gate
partition-Cuts a b k peer g = elim (Bool-cases (is_empty a || is_empty b)) [
  | inl e ↦ rw e (ground arith)
  | inr e ↦ elim (Bool-cases (bytes_eq a b)) [
    | inl f ↦ rw (e, f) (ground arith)
    | inr f ↦ rw (e, f) (made g)
  ]
]
  where
    after : Knobs
    after =
        refresh_gate
          (record k { partitions = insert (ordered a b) k.partitions; any_partition = true })

    made :
        IsGated k
        → blocked after peer ≡ (
            (not (is_empty k.identity) && same_cut (cut_to k peer) (ordered a b)) || blocked k peer)
    made (x, y, z) =
        blocked-ungated after peer
          (refl, sym (ap not (insert-is_nil (ordered a b) k.partitions)), z)
        ∙ (ap (◌&&◌ (not (is_empty k.identity)))
              (member-insert (cut_to k peer) (ordered a b) k.partitions)
            ∙ (and_or (not (is_empty k.identity)) _ _
                ∙ ap (◌||◌ (not (is_empty k.identity) && same_cut (cut_to k peer) (ordered a b)))
                    (sym (blocked-ungated k peer (x, y, z)))))

-- Where the gates tell the truth, healing a cut opens that one between the two nodes, in either
-- order, and no other.
pub heal-cut :
    (a b : Bytes) (k : Knobs) (peer : Bytes)
    → IsGated k
    → blocked (heal a b k) peer ≡ (not (same_cut (cut_to k peer) (ordered a b)) && blocked k peer)
unfolding heal refresh_gate
heal-cut a b k peer g =
    blocked-ungated (heal a b k) peer (heal-IsGated a b k g)
    ∙ (ap (◌&&◌ (not (is_empty k.identity)))
          (member-erase (cut_to k peer) (ordered a b) k.partitions)
        ∙ (and_swap (not (is_empty k.identity)) _ _
            ∙ ap (◌&&◌ (not (same_cut (cut_to k peer) (ordered a b))))
                (sym (blocked-ungated k peer g))))
