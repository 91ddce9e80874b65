-- ===== src/Fault/Commands.antt =====
-- src/fault/knobs.cpp: the instructions that set the knobs, from the environment and in the form
-- that the control socket accepts. `getenv` is an argument.
pub mod Reachable
use dariyanaap.Prelude.{
  ℕ, zero, suc, ◌+◌, List, [], ◌∷◌, ◌++◌, Option, none, some, Bool, true, false, not, ◌||◌, ◌==◌,
  if◌then◌else◌, length, get_or,
}
use dariyanaap.Prelude.Text.{Bytes, codes, bytes_eq, is_empty, to_string}
use dariyanaap.Core.Double.{Double}
use dariyanaap.Core.Errors.{Error, Result, ok, err, usage_error, ◌>>=◌, ◌>>◌, throw_if}
use dariyanaap.Fault.Numbers.{ℤ, pos, scan}
use dariyanaap.Fault.Knobs.{
  Knobs, any_enabled, set_latency, set_drop_probability, set_hang_forever, set_identity, partition,
  heal, clear,
}

-- A part ends where the text does, and empty parts are left out.
abbrev pub push_part : Bytes → List Bytes → List Bytes
push_part [] parts = parts
push_part (c ∷ current) parts = (c ∷ current) ∷ parts

unfoldable pub split_from : Bytes → ℕ → Bytes → List Bytes
split_from [] separator current = push_part current []
split_from (c ∷ text) separator current =
    let rest = split_from text separator (if c == separator then [] else current ++ c ∷ []) in
    if c == separator then push_part current rest else rest

unfoldable pub split_on : Bytes → ℕ → List Bytes
unfolding split_from
split_on text separator = split_from text separator []

abbrev quoted : Bytes → Bytes
quoted text = codes "\"" ++ (text ++ codes "\"")

abbrev found {ℓ} : {A : Type ℓ} → Option A → Error → Result A
found none e = err e
found (some a) e = ok a

unfoldable pub as_millis : Bytes → Bytes → Result ℤ
as_millis text name =
    found (scan text)
      (usage_error (name ++ (codes " must be a whole number of ms, got " ++ quoted text)))

abbrev pub is_on : Bytes → Bool
is_on text = bytes_eq text (codes "1") || bytes_eq text (codes "true")

abbrev non_empty : Option Bytes → Option Bytes
non_empty none = none
non_empty (some []) = none
non_empty (some (c ∷ value)) = some (c ∷ value)

unfoldable pub from_env : (Bytes → Option Bytes) → Bytes → Option Bytes
from_env getenv name = non_empty (getenv name)

abbrev pub millis_or_zero : Option Bytes → Bytes → Result ℤ
millis_or_zero none name = ok (pos 0)
millis_or_zero (some text) name = as_millis text name

abbrev pub env_identity : Option Bytes → Knobs → Knobs
env_identity none k = k
env_identity (some name) k = set_identity name k

abbrev pub is_some : Option Bytes → Bool
is_some none = false
is_some (some value) = true

unfoldable pub env_latency : Option Bytes → Option Bytes → Knobs → Result Knobs
env_latency latency jitter k =
    let set = do
      mean ← millis_or_zero latency (codes "DARIYANAAP_FAULT_LATENCY_MS")
      spread ← millis_or_zero jitter (codes "DARIYANAAP_FAULT_JITTER_MS")
      set_latency mean spread k
    in if is_some latency || is_some jitter then set else ok k

abbrev pub env_hang : Option Bytes → Knobs → Knobs
env_hang none k = k
env_hang (some value) k = set_hang_forever (is_on value) k

abbrev pub cut_pair : List Bytes → Bytes → Knobs → Result Knobs
cut_pair (a ∷ b ∷ []) cut k = partition a b k
cut_pair [] cut k =
    err (usage_error (codes "DARIYANAAP_FAULT_PARTITION wants \"a:b\", got " ++ quoted cut))
cut_pair (a ∷ []) cut k =
    err (usage_error (codes "DARIYANAAP_FAULT_PARTITION wants \"a:b\", got " ++ quoted cut))
cut_pair (a ∷ b ∷ c ∷ rest) cut k =
    err (usage_error (codes "DARIYANAAP_FAULT_PARTITION wants \"a:b\", got " ++ quoted cut))

-- What has been set stays set where a later variable is refused: the knobs stand beside the result.
abbrev pub then_set :
    Knobs → Result Knobs → (Knobs → Knobs × Result (Unit {0})) → Knobs × Result (Unit {0})
then_set k (err e) next = (k, err e)
then_set k (ok k') next = next k'

unfoldable pub env_cuts : List Bytes → Knobs → Knobs × Result (Unit {0})
unfolding split_on
env_cuts [] k = (k, ok tt)
env_cuts (cut ∷ cuts) k = then_set k (cut_pair (split_on cut b':') cut k) (env_cuts cuts)

abbrev pub env_partition : Option Bytes → Knobs → Knobs × Result (Unit {0})
env_partition none k = (k, ok tt)
env_partition (some cuts) k = env_cuts (split_on cuts b',') k

module _ (double : Double) where
  open double use {Carrier}

  unfoldable pub as_probability : Bytes → Bytes → Result Carrier
  as_probability text name =
      found (double.scan text)
        (usage_error (name ++ (codes " must be a number, got " ++ quoted text)))

  abbrev pub env_drop : Option Bytes → Knobs → Result Knobs
  env_drop none k = ok k
  env_drop (some text) k = do
    probability ← as_probability text (codes "DARIYANAAP_FAULT_DROP")
    set_drop_probability double probability k

  unfoldable pub load_from_env : (Bytes → Option Bytes) → Knobs → Knobs × Result (Unit {0})
  unfolding from_env
  load_from_env getenv k =
      let env = from_env getenv in
      let named = env_identity (env (codes "DARIYANAAP_FAULT_IDENTITY")) k in
      then_set named
        (env_latency (env (codes "DARIYANAAP_FAULT_LATENCY_MS"))
          (env (codes "DARIYANAAP_FAULT_JITTER_MS")) named)
        λ k1. then_set k1 (env_drop (env (codes "DARIYANAAP_FAULT_DROP")) k1) λ k2.
          env_partition (env (codes "DARIYANAAP_FAULT_PARTITION"))
            (env_hang (env (codes "DARIYANAAP_FAULT_HANG")) k2)

  -- `expect(count)`
  unfoldable pub expect : Bytes → List Bytes → ℕ → Result (Unit {0})
  expect verb words count =
      throw_if (not (length words == count + 1))
        (usage_error (verb ++ (codes " takes " ++ (to_string count ++ codes " argument(s)"))))

  abbrev word : List Bytes → ℕ → Bytes
  word words i = get_or words i []

  abbrev reply_ok : Knobs → Result (Bytes × Knobs)
  reply_ok k = ok (codes "ok", k)

  unfoldable pub unknown : Bytes → Bytes
  unknown verb =
      codes "unknown command "
      ++ (quoted verb
          ++ codes "; try latency, drop, hang, identity, partition, heal, clear, status")

  -- The verbs in turn.
  unfoldable pub apply_words : Bytes → List Bytes → Knobs → Result (Bytes × Knobs)
  unfolding unknown
  apply_words verb words k =
      if bytes_eq verb (codes "latency")
      then (do
        expect verb words 2
        mean ← as_millis (word words 1) (codes "latency")
        jitter ← as_millis (word words 2) (codes "jitter")
        k' ← set_latency mean jitter k
        reply_ok k')
      else if bytes_eq verb (codes "drop")
      then (do
        expect verb words 1
        probability ← as_probability (word words 1) (codes "drop")
        k' ← set_drop_probability double probability k
        reply_ok k')
      else if bytes_eq verb (codes "hang")
      then (do expect verb words 1; reply_ok (set_hang_forever (is_on (word words 1)) k))
      else if bytes_eq verb (codes "identity")
      then (do expect verb words 1; reply_ok (set_identity (word words 1) k))
      else if bytes_eq verb (codes "partition")
      then (do expect verb words 2; k' ← partition (word words 1) (word words 2) k; reply_ok k')
      else if bytes_eq verb (codes "heal")
      then (do expect verb words 2; reply_ok (heal (word words 1) (word words 2) k))
      else if bytes_eq verb (codes "clear")
      then (do expect verb words 0; reply_ok (clear k))
      else if bytes_eq verb (codes "status")
      then (do
        expect verb words 0
        ok (if any_enabled k then codes "faults active" else codes "no faults", k))
      else err (usage_error (unknown verb))

  abbrev pub apply_split : List Bytes → Knobs → Result (Bytes × Knobs)
  apply_split [] k = err (usage_error (codes "empty command"))
  apply_split (verb ∷ args) k = apply_words verb (verb ∷ args) k

  unfoldable pub apply_command : Bytes → Knobs → Result (Bytes × Knobs)
  apply_command line k = apply_split (split_on line 32) k
