-- ===== src/Fault/Knobs/Gate.antt =====
-- The gate that every check of src/fault/knobs.cpp reads first.
use dariyanaap.Prelude.{
  ℕ, ◌+◌, ◌-◌, ◌*◌, ◌≤◌, ◌≡◌, refl, ap, sym, List, [], ◌∷◌, Bool, true, false, not, ◌&&◌, ◌||◌, ltb,
  arith, Bool-cases, inl, inr,
}
use dariyanaap.Prelude.Text.{Bytes, bytes_eq, is_empty}
use dariyanaap.Core.Double.{Double}
use dariyanaap.Core.Errors.{Result, ok, err}
use dariyanaap.Fault.Numbers.{ℤ, pos, negsuc}
use dariyanaap.Fault.Knobs.{
  Cut, Knobs, all_off, gate, refresh_gate, ordered, member, insert, is_nil, any_enabled, delay,
  should_drop, blocked, set_latency, set_drop_probability, set_hang_forever, set_identity,
  partition, heal, clear,
}

-- The gates tell the truth: one whether any fault is on, one whether there is a partition. The
-- jitter stays within the mean.
abbrev pub IsGated : Knobs → Type 0
IsGated k =
    (k.any ≡ gate k) × (k.any_partition ≡ not (is_nil k.partitions)) × (k.jitter_ns ≤ k.latency_ns)

abbrev pub IsGatedResult : Result Knobs → Type 0
IsGatedResult (ok k) = IsGated k
IsGatedResult (err e) = Unit

-- What the checks would answer without the gates.
abbrev pub drop_ungated : Knobs → ℕ → Bool
drop_ungated k draw = ltb draw k.drop_ppm

abbrev pub blocked_ungated : Knobs → Bytes → Bool
blocked_ungated k peer = not (is_empty k.identity) && member (ordered k.identity peer) k.partitions

abbrev pub delay_ungated : Knobs → ℕ → ℕ
delay_ungated k spread = k.latency_ns + spread - k.jitter_ns

-- Where the gates tell the truth, the one in front of `should_drop` changes no answer.
pub should_drop-ungated :
    (k : Knobs) (draw : ℕ) → IsGated k → should_drop k draw ≡ drop_ungated k draw
unfolding should_drop gate
should_drop-ungated k draw (a, b, c) = ground arith

pub member-nil : (cut : Cut) (cuts : List Cut) → is_nil cuts ≡ true → member cut cuts ≡ false
member-nil cut [] h = refl
member-nil cut (c ∷ cs) h = cc

-- Where the gates tell the truth, the two in front of `blocked` change no answer.
pub blocked-ungated :
    (k : Knobs) (peer : Bytes) → IsGated k → blocked k peer ≡ blocked_ungated k peer
unfolding blocked gate
blocked-ungated k peer (a, b, c) = ground (arith, member-nil (ordered k.identity peer) k.partitions)

-- Where the gates tell the truth, and with a draw within twice the jitter, a delay is the mean
-- and what was drawn less the jitter, which is at most twice the mean; the gate changes nothing.
pub delay-bounds :
    (k : Knobs) (spread : ℕ)
    → IsGated k
    → spread ≤ 2 * k.jitter_ns
    → (delay k spread ≡ delay_ungated k spread) × (delay k spread ≤ 2 * k.latency_ns)
unfolding delay gate
delay-bounds k spread (a, b, c) h = ground arith

pub set_latency-IsGated :
    (mean jitter : ℤ) (k : Knobs) → IsGated k → IsGatedResult (set_latency mean jitter k)
unfolding set_latency refresh_gate gate
set_latency-IsGated (negsuc m) jitter k g = tt
set_latency-IsGated (pos m) (negsuc j) k g = tt
set_latency-IsGated (pos m) (pos j) k (a, b, c) = elim (Bool-cases (ltb m j)) [
  | inl e ↦ rw e tt
  | inr e ↦ rw e (refl, b, ground arith)
]

pub set_drop_probability-IsGated :
    (double : Double) (probability : double.Carrier) (k : Knobs)
    → IsGated k
    → IsGatedResult (set_drop_probability double probability k)
unfolding set_drop_probability refresh_gate gate
set_drop_probability-IsGated double probability k (a, b, c) =
    elim (Bool-cases
      (double.le (double.literal 0 0) probability && double.le probability (double.literal 1 0))) [
        | inl e ↦ rw e (refl, b, c)
        | inr e ↦ rw e tt
      ]

pub set_hang_forever-IsGated :
    (hanging : Bool) (k : Knobs) → IsGated k → IsGated (set_hang_forever hanging k)
unfolding set_hang_forever refresh_gate gate
set_hang_forever-IsGated hanging k (a, b, c) = (refl, b, c)

pub set_identity-IsGated : (name : Bytes) (k : Knobs) → IsGated k → IsGated (set_identity name k)
unfolding set_identity gate
set_identity-IsGated name k g = g

pub insert-is_nil : (cut : Cut) (cuts : List Cut) → is_nil (insert cut cuts) ≡ false
unfolding insert
insert-is_nil cut [] = refl
insert-is_nil cut (c ∷ cs) = elim (Bool-cases (member cut (c ∷ cs))) [
  | inl e ↦ rw e refl
  | inr e ↦ rw e refl
]

pub partition-IsGated : (a b : Bytes) (k : Knobs) → IsGated k → IsGatedResult (partition a b k)
unfolding partition refresh_gate gate
partition-IsGated a b k (x, y, z) = elim (Bool-cases (is_empty a || is_empty b)) [
  | inl e ↦ rw e tt
  | inr e ↦ elim (Bool-cases (bytes_eq a b)) [
    | inl f ↦ rw (e, f) tt
    | inr f ↦ rw (e, f) (refl, sym (ap not (insert-is_nil (ordered a b) k.partitions)), z)
  ]
]

pub heal-IsGated : (a b : Bytes) (k : Knobs) → IsGated k → IsGated (heal a b k)
unfolding heal refresh_gate gate
heal-IsGated a b k (x, y, z) = (refl, refl, z)

pub clear-IsGated : (k : Knobs) → IsGated (clear k)
unfolding clear refresh_gate gate
clear-IsGated k = (refl, refl, omega arith)

-- After the knobs have been cleared, no check finds a fault, whatever is drawn, and the node keeps
-- its name.
pub clear_quiet :
    (k : Knobs) (draw spread : ℕ) (peer : Bytes)
    → (any_enabled (clear k) ≡ false)
      × (should_drop (clear k) draw ≡ false)
      × (blocked (clear k) peer ≡ false)
      × (delay (clear k) spread ≡ 0)
      × ((clear k).identity ≡ k.identity)
unfolding clear refresh_gate gate should_drop blocked delay
clear_quiet k draw spread peer = (refl, refl, refl, refl, refl)

pub all_off-IsGated : IsGated all_off
unfolding gate
all_off-IsGated = (refl, refl, omega arith)
