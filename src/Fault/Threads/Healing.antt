-- ===== src/Fault/Threads/Healing.antt =====
-- A call of a setter of src/fault/knobs.cpp that runs alone, behind any interleaving of others.
use dariyanaap.Prelude.{
  ℕ, ◌+◌, ◌-◌, ◌≡◌, refl, List, [], ◌∷◌, Bool, true, false, not, ◌||◌, ◌==◌, if◌then◌else◌, if_both,
  arith,
}
use dariyanaap.Prelude.Text.{Bytes}
use dariyanaap.Fault.Knobs.{
  Cut, Knobs, insert, is_nil, member, ordered, delay, should_drop, blocked,
}
use dariyanaap.Fault.Knobs.Gate.{drop_ungated, blocked_ungated, member-nil}
use dariyanaap.Fault.Knobs.Partitions.{same_cut_refl, member-insert, member-erase}
use dariyanaap.Fault.Threads.{
  Op, store_latency, store_jitter, store_drop, store_hanging, insert_cut, erase_cut, clear_cuts,
  load_latency, load_drop, load_hanging, load_partition, store_any, changed, loaded, Call, latency,
  drop_probability, hang_forever, partition, heal, clear, ops, alone, System, Step, takes, Reach,
  here, next,
}

-- Whether the one flag that is not the gate tells the truth.
abbrev pub IsFlagged : Knobs → Type 0
IsFlagged k = k.any_partition ≡ not (is_nil k.partitions)

insert-IsFlagged : (cut : Cut) (cuts : List Cut) → true ≡ not (is_nil (insert cut cuts))
unfolding insert
insert-IsFlagged cut [] = refl
insert-IsFlagged cut (c ∷ cs) =
    if_both (λ l. true ≡ not (is_nil l)) (member cut (c ∷ cs)) (c ∷ cs) (cut ∷ c ∷ cs) (λ _. refl)
      (λ _. refl)

changed-IsFlagged : (op : Op) (reg : Bool) (k : Knobs) → IsFlagged k → IsFlagged (changed op reg k)
unfolding changed
changed-IsFlagged (insert_cut cut) reg k h = insert-IsFlagged cut k.partitions
changed-IsFlagged (erase_cut cut) reg k h = refl
changed-IsFlagged clear_cuts reg k h = refl
changed-IsFlagged (store_latency n) reg k h = h
changed-IsFlagged (store_jitter n) reg k h = h
changed-IsFlagged (store_drop n) reg k h = h
changed-IsFlagged (store_hanging b) reg k h = h
changed-IsFlagged load_latency reg k h = h
changed-IsFlagged load_drop reg k h = h
changed-IsFlagged load_hanging reg k h = h
changed-IsFlagged load_partition reg k h = h
changed-IsFlagged store_any reg k h = h

Step-IsFlagged : {s u : System} → Step s u → IsFlagged s.knobs → IsFlagged u.knobs
Step-IsFlagged (takes k before after op code reg) h = changed-IsFlagged op reg k h

Reach-IsFlagged : {s u : System} → IsFlagged s.knobs → Reach s u → IsFlagged u.knobs
Reach-IsFlagged h here = h
Reach-IsFlagged h (next r st) = Step-IsFlagged st (Reach-IsFlagged h r)

alone-IsFlagged :
    (code : List Op) (reg : Bool) (k : Knobs) → IsFlagged k → IsFlagged (alone code reg k)
unfolding alone
alone-IsFlagged [] reg k h = h
alone-IsFlagged (op ∷ code) reg k h =
    alone-IsFlagged code (loaded op reg k) (changed op reg k) (changed-IsFlagged op reg k h)

-- The gate says whether a latency, a probability, a hang or a partition is set.
abbrev pub IsOpenFor : Knobs → Type 0
IsOpenFor k =
    k.any ≡ (((not (k.latency_ns == 0) || not (k.drop_ppm == 0)) || k.hanging) || k.any_partition)

ops-IsOpenFor : (call : Call) (reg : Bool) (k : Knobs) → IsOpenFor (alone (ops call) reg k)
unfolding ops alone changed loaded
ops-IsOpenFor (latency mean jitter) reg k = refl
ops-IsOpenFor (drop_probability ppm) reg k = refl
ops-IsOpenFor (hang_forever b) reg k = refl
ops-IsOpenFor (partition cut) reg k = refl
ops-IsOpenFor (heal cut) reg k = refl
ops-IsOpenFor clear reg k = refl

-- The fault that a call is about stands as the call has set it.
abbrev pub IsInForce : Call → Knobs → Type 0
IsInForce (latency mean jitter) k = (k.latency_ns ≡ mean) × (k.jitter_ns ≡ jitter)
IsInForce (drop_probability ppm) k = k.drop_ppm ≡ ppm
IsInForce (hang_forever b) k = k.hanging ≡ b
IsInForce (partition cut) k = member cut k.partitions ≡ true
IsInForce (heal cut) k = member cut k.partitions ≡ false
IsInForce clear k =
    (k.latency_ns ≡ 0) × (k.drop_ppm ≡ 0) × (k.hanging ≡ false) × (k.partitions ≡ [])

ops-IsInForce : (call : Call) (reg : Bool) (k : Knobs) → IsInForce call (alone (ops call) reg k)
unfolding ops alone changed loaded
ops-IsInForce (latency mean jitter) reg k = (refl, refl)
ops-IsInForce (drop_probability ppm) reg k = refl
ops-IsInForce (hang_forever b) reg k = refl
ops-IsInForce (partition cut) reg k =
    ground (arith, member-insert cut cut k.partitions, same_cut_refl cut)
ops-IsInForce (heal cut) reg k =
    ground (arith, member-erase cut cut k.partitions, same_cut_refl cut)
ops-IsInForce clear reg k = (refl, refl, refl, refl)

-- What the checks answer is what is set, as if no gate stood before them; a hang is met where the gate
-- is open.
abbrev pub delay_set : Knobs → ℕ → ℕ
delay_set k spread =
    if k.latency_ns == 0
    then 0
    else if k.jitter_ns == 0
    then k.latency_ns
    else k.latency_ns + spread - k.jitter_ns

abbrev pub Answers : Knobs → Type 0
Answers k =
    ((spread : ℕ) → delay k spread ≡ delay_set k spread)
    × (k.hanging ≡ true → k.any ≡ true)
    × ((draw : ℕ) → should_drop k draw ≡ drop_ungated k draw)
    × ((peer : Bytes) → blocked k peer ≡ blocked_ungated k peer)

answers : (k : Knobs) → IsOpenFor k → IsFlagged k → Answers k
unfolding delay should_drop blocked
answers k gated flagged = (
  (λ spread. ground arith),
  (λ hangs. ground arith),
  (λ draw. ground arith),
  λ peer. ground (arith, member-nil (ordered k.identity peer) k.partitions),
)

-- Where the flag of the partitions told the truth at first, and behind any interleaving of the steps of
-- any threads, whatever it has done to the gate: a call that then takes its steps while no other thread
-- takes any leaves what it was to set, and checks that answer as if no gate stood before them, for
-- every fault that is set.
pub alone-Answers :
    (s u : System) (call : Call) (reg : Bool)
    → IsFlagged s.knobs
    → Reach s u
    → IsInForce call (alone (ops call) reg u.knobs) × Answers (alone (ops call) reg u.knobs)
alone-Answers s u call reg flagged r = (
  ops-IsInForce call reg u.knobs,
  answers (alone (ops call) reg u.knobs) (ops-IsOpenFor call reg u.knobs)
      (alone-IsFlagged (ops call) reg u.knobs (Reach-IsFlagged flagged r)),
)
