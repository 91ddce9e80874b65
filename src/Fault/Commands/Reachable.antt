-- ===== src/Fault/Commands/Reachable.antt =====
-- What holds of the knobs of src/fault/knobs.cpp after any instructions.
use dariyanaap.Prelude.{
  List, [], ◌∷◌, Option, none, some, Bool, true, false, ◌||◌, if◌then◌else◌, get_or, if_both,
}
use dariyanaap.Prelude.Text.{Bytes, codes, bytes_eq}
use dariyanaap.Core.Double.{Double}
use dariyanaap.Core.Errors.{Error, Result, ok, err, ◌>>=◌, ◌>>◌}
use dariyanaap.Fault.Numbers.{ℤ}
use dariyanaap.Fault.Knobs.{Knobs, set_latency, set_drop_probability, partition}
use dariyanaap.Fault.Knobs.Gate.{
  IsGated, IsGatedResult, set_latency-IsGated, set_drop_probability-IsGated,
  set_hang_forever-IsGated, set_identity-IsGated, partition-IsGated, heal-IsGated, clear-IsGated,
}
use dariyanaap.Fault.Commands.{
  as_millis, as_probability, is_on, split_on, expect, apply_words, apply_split, apply_command,
  env_latency, env_cuts, env_identity, env_hang, env_drop, env_partition, cut_pair, millis_or_zero,
  is_some, from_env, load_from_env, then_set,
}

-- A command that is accepted leaves the gates true.
pub data IsGatedReply : Result (Bytes × Knobs) → Type 0 where
  accepted : (reply : Bytes) (k : Knobs) → IsGated k → IsGatedReply (ok (reply, k))
  refused : (e : Error) → IsGatedReply (err e)

-- The invariant through a chain of calls that may throw.
after_check :
    (m : Result (Unit {0})) (k : Result (Bytes × Knobs)) → IsGatedReply k → IsGatedReply (m >> k)
after_check (ok a) k h = h
after_check (err e) k h = refused e

after_parse {ℓ} :
    {A : Type ℓ} (m : Result A) (f : A → Result (Bytes × Knobs))
    → ((a : A) → IsGatedReply (f a))
    → IsGatedReply (m >>= f)
after_parse (ok a) f h = h a
after_parse (err e) f h = refused e

after_set :
    (m : Result Knobs) (f : Knobs → Result (Bytes × Knobs))
    → IsGatedResult m
    → ((k : Knobs) → IsGated k → IsGatedReply (f k))
    → IsGatedReply (m >>= f)
after_set (ok k) f g h = h k g
after_set (err e) f g h = refused e

if_gated :
    (b : Bool) (x y : Result (Bytes × Knobs))
    → IsGatedReply x
    → IsGatedReply y
    → IsGatedReply (if b then x else y)
if_gated true x y hx hy = hx
if_gated false x y hx hy = hy

module _ (double : Double) where
  apply_words-IsGated :
      (verb : Bytes) (words : List Bytes) (k : Knobs)
      → IsGated k
      → IsGatedReply (apply_words double verb words k)
  unfolding apply_words
  apply_words-IsGated verb words k g =
      (if_gated (bytes_eq verb (codes "latency")) _ _
        (after_check (expect double verb words 2) _ (
          after_parse (as_millis (get_or words 1 []) (codes "latency")) _ (λ mean.
            after_parse (as_millis (get_or words 2 []) (codes "jitter")) _ (λ jitter.
              after_set (set_latency mean jitter k) (λ k'. ok (codes "ok", k'))
                (set_latency-IsGated mean jitter k g) (λ k' g'. accepted _ k' g')))))
        (if_gated (bytes_eq verb (codes "drop")) _ _
          (after_check (expect double verb words 1) _ (
            after_parse (as_probability double (get_or words 1 []) (codes "drop")) _ (λ p.
              after_set (set_drop_probability double p k) (λ k'. ok (codes "ok", k'))
                (set_drop_probability-IsGated double p k g) (λ k' g'. accepted _ k' g'))))
          (if_gated (bytes_eq verb (codes "hang")) _ _
            (after_check (expect double verb words 1) _
              (accepted _ _ (set_hang_forever-IsGated (is_on (get_or words 1 [])) k g)))
            (if_gated (bytes_eq verb (codes "identity")) _ _
              (after_check (expect double verb words 1) _
                (accepted _ _ (set_identity-IsGated (get_or words 1 []) k g)))
              (if_gated (bytes_eq verb (codes "partition")) _ _
                (after_check (expect double verb words 2) _ (
                  after_set (partition (get_or words 1 []) (get_or words 2 []) k)
                    (λ k'. ok (codes "ok", k'))
                    (partition-IsGated (get_or words 1 []) (get_or words 2 []) k g)
                    (λ k' g'. accepted _ k' g')))
                (if_gated (bytes_eq verb (codes "heal")) _ _
                  (after_check (expect double verb words 2) _
                    (accepted _ _ (heal-IsGated (get_or words 1 []) (get_or words 2 []) k g)))
                  (if_gated (bytes_eq verb (codes "clear")) _ _
                    (after_check (expect double verb words 0) _ (accepted _ _ (clear-IsGated k)))
                    (if_gated (bytes_eq verb (codes "status")) _ _
                      (after_check (expect double verb words 0) _ (accepted _ k g))
                      (refused _)))))))))

  -- If the gates tell the truth about the faults, they do so after any line that is applied.
  pub apply_command-IsGated :
      (line : Bytes) (k : Knobs) → IsGated k → IsGatedReply (apply_command double line k)
  unfolding apply_command
  apply_command-IsGated line k g = words (split_on line 32)
    where
      words : (parts : List Bytes) → IsGatedReply (apply_split double parts k)
      words [] = refused _
      words (verb ∷ args) = apply_words-IsGated verb (verb ∷ args) k g

then_set-IsGated :
    (k : Knobs) (m : Result Knobs) (next : Knobs → Knobs × Result (Unit {0}))
    → IsGated k
    → IsGatedResult m
    → ((k' : Knobs) → IsGated k' → IsGated (next k').0)
    → IsGated (then_set k m next).0
then_set-IsGated k (ok k') next g h n = n k' h
then_set-IsGated k (err e) next g h n = g

cut_pair-IsGated :
    (parts : List Bytes) (cut : Bytes) (k : Knobs)
    → IsGated k
    → IsGatedResult (cut_pair parts cut k)
cut_pair-IsGated (a ∷ b ∷ []) cut k g = partition-IsGated a b k g
cut_pair-IsGated [] cut k g = tt
cut_pair-IsGated (a ∷ []) cut k g = tt
cut_pair-IsGated (a ∷ b ∷ c ∷ rest) cut k g = tt

env_cuts-IsGated : (cuts : List Bytes) (k : Knobs) → IsGated k → IsGated (env_cuts cuts k).0
unfolding env_cuts
env_cuts-IsGated [] k g = g
env_cuts-IsGated (cut ∷ cuts) k g =
    then_set-IsGated k (cut_pair (split_on cut b':') cut k) (env_cuts cuts) g
      (cut_pair-IsGated (split_on cut b':') cut k g) (env_cuts-IsGated cuts)

env_partition-IsGated :
    (cuts : Option Bytes) (k : Knobs) → IsGated k → IsGated (env_partition cuts k).0
env_partition-IsGated none k g = g
env_partition-IsGated (some cuts) k g = env_cuts-IsGated (split_on cuts b',') k g

after_millis :
    (m : Result ℤ) (f : ℤ → Result Knobs)
    → ((n : ℤ) → IsGatedResult (f n))
    → IsGatedResult (m >>= f)
after_millis (ok n) f h = h n
after_millis (err e) f h = tt

env_latency-IsGated :
    (latency jitter : Option Bytes) (k : Knobs)
    → IsGated k
    → IsGatedResult (env_latency latency jitter k)
unfolding env_latency
env_latency-IsGated latency jitter k g =
    if_both IsGatedResult (is_some latency || is_some jitter) _ (ok k)
      (λ _. after_millis (millis_or_zero latency (codes "DARIYANAAP_FAULT_LATENCY_MS")) _ λ mean.
        after_millis (millis_or_zero jitter (codes "DARIYANAAP_FAULT_JITTER_MS"))
          (λ spread. set_latency mean spread k) λ spread. set_latency-IsGated mean spread k g)
      (λ _. g)

env_hang-IsGated : (hang : Option Bytes) (k : Knobs) → IsGated k → IsGated (env_hang hang k)
env_hang-IsGated none k g = g
env_hang-IsGated (some value) k g = set_hang_forever-IsGated (is_on value) k g

env_identity-IsGated : (name : Option Bytes) (k : Knobs) → IsGated k → IsGated (env_identity name k)
env_identity-IsGated none k g = g
env_identity-IsGated (some name) k g = set_identity-IsGated name k g

module _ (double : Double) where
  after_probability :
      (m : Result double.Carrier) (f : double.Carrier → Result Knobs)
      → ((p : double.Carrier) → IsGatedResult (f p))
      → IsGatedResult (m >>= f)
  after_probability (ok p) f h = h p
  after_probability (err e) f h = tt

  env_drop-IsGated :
      (drop : Option Bytes) (k : Knobs) → IsGated k → IsGatedResult (env_drop double drop k)
  env_drop-IsGated none k g = g
  env_drop-IsGated (some text) k g =
      after_probability (as_probability double text (codes "DARIYANAAP_FAULT_DROP"))
        (λ p. set_drop_probability double p k) λ p. set_drop_probability-IsGated double p k g

  -- If the gates tell the truth about the faults, they do so after the environment has been
  -- read, whatever is in it, also where a variable is refused and those before it have been set.
  pub load_from_env-IsGated :
      (getenv : Bytes → Option Bytes) (k : Knobs)
      → IsGated k
      → IsGated (load_from_env double getenv k).0
  unfolding load_from_env
  load_from_env-IsGated getenv k g =
      let env = from_env getenv in
      let name = env (codes "DARIYANAAP_FAULT_IDENTITY") in
      let drop = env (codes "DARIYANAAP_FAULT_DROP") in
      let hang = env (codes "DARIYANAAP_FAULT_HANG") in
      let cuts = env (codes "DARIYANAAP_FAULT_PARTITION") in
      let k0 = env_identity name k in
      let g0 = env_identity-IsGated name k g in
      then_set-IsGated k0 _
        (λ k1. then_set k1 (env_drop double drop k1) (λ k2. env_partition cuts (env_hang hang k2)))
        g0
        (env_latency-IsGated (env (codes "DARIYANAAP_FAULT_LATENCY_MS"))
          (env (codes "DARIYANAAP_FAULT_JITTER_MS")) k0 g0)
        λ k1 g1.
          then_set-IsGated k1 (env_drop double drop k1)
            (λ k2. env_partition cuts (env_hang hang k2)) g1 (env_drop-IsGated drop k1 g1)
            λ k2 g2. env_partition-IsGated cuts (env_hang hang k2) (env_hang-IsGated hang k2 g2)
