-- ===== src/Fault/Threads/Growing.antt =====
-- The steps of calls of src/fault/knobs.cpp that turn faults on.
use dariyanaap.Prelude.{◌≡◌, refl, List, [], ◌∷◌, ◌++◌, Bool, true, false, not, ◌||◌, ◌==◌, arith}
use dariyanaap.Fault.Knobs.{Knobs}
use dariyanaap.Fault.Threads.{
  Op, store_latency, store_jitter, store_drop, store_hanging, insert_cut, erase_cut, clear_cuts,
  load_latency, load_drop, load_hanging, load_partition, store_any, changed, loaded, refresh_ops,
  Call, latency, drop_probability, hang_forever, partition, heal, clear, ops, all_ops,
}

-- A call that turns a fault on, and a step that turns none off.
abbrev pub turns_on : Call → Bool
turns_on (latency mean jitter) = not (mean == 0)
turns_on (drop_probability ppm) = not (ppm == 0)
turns_on (hang_forever b) = b
turns_on (partition cut) = true
turns_on (heal cut) = false
turns_on clear = false

abbrev pub raising : Op → Bool
raising (store_latency n) = not (n == 0)
raising (store_drop n) = not (n == 0)
raising (store_hanging b) = b
raising (erase_cut cut) = false
raising clear_cuts = false
raising (store_jitter n) = true
raising (insert_cut cut) = true
raising load_latency = true
raising load_drop = true
raising load_hanging = true
raising load_partition = true
raising store_any = true

abbrev pub is_last : Op → Bool
is_last store_any = true
is_last (store_latency n) = false
is_last (store_jitter n) = false
is_last (store_drop n) = false
is_last (store_hanging b) = false
is_last (insert_cut cut) = false
is_last (erase_cut cut) = false
is_last clear_cuts = false
is_last load_latency = false
is_last load_drop = false
is_last load_hanging = false
is_last load_partition = false

-- Every fault that is on stays on.
abbrev pub Grows : Knobs → Knobs → Type 0
Grows k l =
    (not (k.latency_ns == 0) ≡ true → not (l.latency_ns == 0) ≡ true)
    × (not (k.drop_ppm == 0) ≡ true → not (l.drop_ppm == 0) ≡ true)
    × (k.hanging ≡ true → l.hanging ≡ true)
    × (k.any_partition ≡ true → l.any_partition ≡ true)

Grows-refl : (k : Knobs) → Grows k k
Grows-refl k = ((λ h. h), (λ h. h), (λ h. h), (λ h. h))

pub changed-Grows :
    (op : Op) (reg : Bool) (k : Knobs) → raising op ≡ true → Grows k (changed op reg k)
unfolding changed
changed-Grows (store_latency n) reg k r = ((λ _. r), (λ h. h), (λ h. h), (λ h. h))
changed-Grows (store_drop n) reg k r = ((λ h. h), (λ _. r), (λ h. h), (λ h. h))
changed-Grows (store_hanging b) reg k r = ((λ h. h), (λ h. h), (λ _. r), (λ h. h))
changed-Grows (insert_cut cut) reg k r = ((λ h. h), (λ h. h), (λ h. h), (λ _. refl))
changed-Grows (store_jitter n) reg k r = Grows-refl k
changed-Grows store_any reg k r = Grows-refl k
changed-Grows load_latency reg k r = Grows-refl k
changed-Grows load_drop reg k r = Grows-refl k
changed-Grows load_hanging reg k r = Grows-refl k
changed-Grows load_partition reg k r = Grows-refl k
changed-Grows (erase_cut cut) reg k r = absurd (cc)
changed-Grows clear_cuts reg k r = absurd (cc)

changed_mono :
    (op : Op) (reg reg' : Bool) (k l : Knobs)
    → raising op ≡ true
    → Grows k l
    → Grows (changed op reg k) (changed op reg' l)
unfolding changed
changed_mono (store_latency n) reg reg' k l r (a, b, c, d) = ((λ h. h), b, c, d)
changed_mono (store_drop n) reg reg' k l r (a, b, c, d) = (a, (λ h. h), c, d)
changed_mono (store_hanging v) reg reg' k l r (a, b, c, d) = (a, b, (λ h. h), d)
changed_mono (insert_cut cut) reg reg' k l r (a, b, c, d) = (a, b, c, (λ h. h))
changed_mono (store_jitter n) reg reg' k l r g = g
changed_mono store_any reg reg' k l r g = g
changed_mono load_latency reg reg' k l r g = g
changed_mono load_drop reg reg' k l r g = g
changed_mono load_hanging reg reg' k l r g = g
changed_mono load_partition reg reg' k l r g = g
changed_mono (erase_cut cut) reg reg' k l r g = absurd (cc)
changed_mono clear_cuts reg reg' k l r g = absurd (cc)

or_mono :
    (a b c d : Bool)
    → (a ≡ true → c ≡ true)
    → (b ≡ true → d ≡ true)
    → (a || b) ≡ true
    → (c || d) ≡ true
or_mono a b c d f g h = ground arith

loaded_mono :
    (op : Op) (reg reg' : Bool) (k l : Knobs)
    → (reg ≡ true → reg' ≡ true)
    → Grows k l
    → loaded op reg k ≡ true
    → loaded op reg' l ≡ true
unfolding loaded
loaded_mono load_latency reg reg' k l f (a, b, c, d) = a
loaded_mono load_drop reg reg' k l f (a, b, c, d) = or_mono _ _ _ _ f b
loaded_mono load_hanging reg reg' k l f (a, b, c, d) = or_mono _ _ _ _ f c
loaded_mono load_partition reg reg' k l f (a, b, c, d) = or_mono _ _ _ _ f d
loaded_mono (store_latency n) reg reg' k l f g = f
loaded_mono (store_jitter n) reg reg' k l f g = f
loaded_mono (store_drop n) reg reg' k l f g = f
loaded_mono (store_hanging b) reg reg' k l f g = f
loaded_mono (insert_cut cut) reg reg' k l f g = f
loaded_mono (erase_cut cut) reg reg' k l f g = f
loaded_mono clear_cuts reg reg' k l f g = f
loaded_mono store_any reg reg' k l f g = f

-- What is left of a thread, run from here alone, turns nothing off, and stores `true` in the gate
-- each time.
abbrev pub Raises : List Op → Bool → Knobs → Type 0
Raises [] reg k = Unit {0}
Raises (op ∷ code) reg k =
    (raising op ≡ true)
    × ((is_last op ≡ true → reg ≡ true) × Raises code (loaded op reg k) (changed op reg k))

pub Raises-Grows :
    (code : List Op) (reg reg' : Bool) (k l : Knobs)
    → (reg ≡ true → reg' ≡ true)
    → Grows k l
    → Raises code reg k
    → Raises code reg' l
Raises-Grows [] reg reg' k l f g r = tt
Raises-Grows (op ∷ code) reg reg' k l f g (on, (stores, rest)) = (
  on,
  (
    (λ h. f (stores h)),
    Raises-Grows code _ _ _ _ (loaded_mono op reg reg' k l f g) (changed_mono op reg reg' k l on g)
        rest,
  ),
)

refresh-Raises :
    (rest : List Op) (reg : Bool) (k : Knobs)
    → ((not (k.latency_ns == 0) || not (k.drop_ppm == 0)) || k.hanging) || k.any_partition ≡ true
    → ((reg' : Bool) (l : Knobs) → Raises rest reg' l)
    → Raises (refresh_ops ++ rest) reg k
unfolding loaded changed
refresh-Raises rest reg k on later = (
  refl,
  (
    (λ h. absurd (cc)),
    (
      refl,
      (
        (λ h. absurd (cc)),
        (refl, ((λ h. absurd (cc)), (refl, ((λ h. absurd (cc)), (refl, ((λ _. on), later _ _)))))),
      ),
    ),
  ),
)

ops-Raises :
    (call : Call) (rest : List Op)
    → turns_on call ≡ true
    → ((reg : Bool) (k : Knobs) → Raises rest reg k)
    → (reg : Bool) (k : Knobs) → Raises (ops call ++ rest) reg k
unfolding ops loaded changed
ops-Raises (latency mean jitter) rest on later reg k = (
  on,
  (
    (λ h. absurd (cc)),
    (
      refl,
      (
        (λ h. absurd (cc)),
        refresh-Raises rest reg (record k { latency_ns = mean; jitter_ns = jitter }) (ground arith)
            later,
      ),
    ),
  ),
)
ops-Raises (drop_probability ppm) rest on later reg k = (
  on,
  ((λ h. absurd (cc)), refresh-Raises rest reg (record k { drop_ppm = ppm }) (ground arith) later),
)
ops-Raises (hang_forever b) rest on later reg k = (
  on,
  ((λ h. absurd (cc)), refresh-Raises rest reg (record k { hanging = b }) (ground arith) later),
)
ops-Raises (partition cut) rest on later reg k = (
  refl,
  (
    (λ h. absurd (cc)),
    refresh-Raises rest reg (changed (insert_cut cut) reg k) (ground arith) later,
  ),
)
ops-Raises (heal cut) rest on later reg k = absurd (cc)
ops-Raises clear rest on later reg k = absurd (cc)

abbrev pub AllOn : List Call → Type 0
AllOn [] = Unit {0}
AllOn (call ∷ calls) = (turns_on call ≡ true) × AllOn calls

pub all_ops-Raises :
    (calls : List Call) (reg : Bool) (k : Knobs) → AllOn calls → Raises (all_ops calls) reg k
unfolding all_ops
all_ops-Raises [] reg k h = tt
all_ops-Raises (call ∷ calls) reg k (on, h) =
    ops-Raises call (all_ops calls) on (λ reg' l. all_ops-Raises calls reg' l h) reg k
