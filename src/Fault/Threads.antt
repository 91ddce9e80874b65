-- ===== src/Fault/Threads.antt =====
-- The setters of src/fault/knobs.cpp on several threads, down to the single loads and stores. A
-- relaxed load or store of one atomic is a step. What stands under the lock is one step too: the set of
-- the cuts is read under the lock only, so that the store of `g_any_partition` is all that is seen of
-- it. The checks of the arguments touch no knob and come before the first step.
pub mod Growing
pub mod Raising
pub mod Losing
pub mod Healing
mod Tests
use dariyanaap.Prelude.{ℕ, List, [], ◌∷◌, ◌++◌, Bool, true, false, not, ◌||◌, ◌==◌}
use dariyanaap.Fault.Knobs.{Cut, Knobs, insert, erase, is_nil}

pub data Op : Type 0 where
  store_latency : ℕ → Op
  store_jitter : ℕ → Op
  store_drop : ℕ → Op
  store_hanging : Bool → Op
  insert_cut : Cut → Op
  erase_cut : Cut → Op
  clear_cuts : Op
  load_latency load_drop load_hanging load_partition : Op
  store_any : Op

-- What a step does to the knobs.
unfoldable pub changed : Op → Bool → Knobs → Knobs
changed (store_latency n) reg k = record k { latency_ns = n }
changed (store_jitter n) reg k = record k { jitter_ns = n }
changed (store_drop n) reg k = record k { drop_ppm = n }
changed (store_hanging b) reg k = record k { hanging = b }
changed (insert_cut cut) reg k = record k {
  partitions = insert cut k.partitions;
  any_partition = true;
}
changed (erase_cut cut) reg k = record k {
  partitions = erase cut k.partitions;
  any_partition = not (is_nil (erase cut k.partitions));
}
changed clear_cuts reg k = record k { partitions = []; any_partition = false }
changed store_any reg k = record k { any = reg }
changed load_latency reg k = k
changed load_drop reg k = k
changed load_hanging reg k = k
changed load_partition reg k = k

-- What `refresh_gate` has of its condition behind a step; the first load begins it.
unfoldable pub loaded : Op → Bool → Knobs → Bool
loaded load_latency reg k = not (k.latency_ns == 0)
loaded load_drop reg k = reg || not (k.drop_ppm == 0)
loaded load_hanging reg k = reg || k.hanging
loaded load_partition reg k = reg || k.any_partition
loaded (store_latency n) reg k = reg
loaded (store_jitter n) reg k = reg
loaded (store_drop n) reg k = reg
loaded (store_hanging b) reg k = reg
loaded (insert_cut cut) reg k = reg
loaded (erase_cut cut) reg k = reg
loaded clear_cuts reg k = reg
loaded store_any reg k = reg

abbrev pub refresh_ops : List Op
refresh_ops = load_latency ∷ load_drop ∷ load_hanging ∷ load_partition ∷ store_any ∷ []

-- The calls of the setters, with their arguments checked and converted, in the steps they take.
pub data Call : Type 0 where
  latency : (mean jitter : ℕ) → Call
  drop_probability : ℕ → Call
  hang_forever : Bool → Call
  partition : Cut → Call
  heal : Cut → Call
  clear : Call

unfoldable pub ops : Call → List Op
ops (latency mean jitter) = store_latency mean ∷ store_jitter jitter ∷ refresh_ops
ops (drop_probability ppm) = store_drop ppm ∷ refresh_ops
ops (hang_forever b) = store_hanging b ∷ refresh_ops
ops (partition cut) = insert_cut cut ∷ refresh_ops
ops (heal cut) = erase_cut cut ∷ refresh_ops
ops clear =
    store_latency 0 ∷ store_jitter 0 ∷ store_drop 0 ∷ store_hanging false ∷ clear_cuts ∷ refresh_ops

unfoldable pub all_ops : List Call → List Op
all_ops [] = []
all_ops (call ∷ calls) = ops call ++ all_ops calls

-- A thread: the steps before it, and its register.
pub record Thread : Type 0 where
  pub code : List Op
  pub reg : Bool

abbrev pub thread : List Call → Thread
thread calls = record { code = all_ops calls; reg = false }

pub record System : Type 0 where
  pub knobs : Knobs
  pub threads : List Thread

-- One thread takes its next step.
pub data Step : System → System → Type 0 where
  takes :
      (k : Knobs) (before after : List Thread) (op : Op) (code : List Op) (reg : Bool)
      → Step
          (record { knobs = k; threads = before ++ record { code = op ∷ code; reg = reg } ∷ after })
          (record {
            knobs = changed op reg k;
            threads = before ++ record { code = code; reg = loaded op reg k } ∷ after;
          })

pub data Reach (s : System) : System → Type 0 where
  here : Reach s s
  next : {t u : System} → Reach s t → Step t u → Reach s u

-- The steps of one thread while no other takes any.
unfoldable pub alone : List Op → Bool → Knobs → Knobs
alone [] reg k = k
alone (op ∷ code) reg k = alone code (loaded op reg k) (changed op reg k)
