-- ===== src/Fault/Threads/Losing.antt =====
-- A call of src/fault/knobs.cpp that turns a fault off, beside one that turns a fault on.
use dariyanaap.Prelude.{ℕ, ◌≡◌, refl, List, [], ◌∷◌, ◌++◌, Bool, false, arith}
use dariyanaap.Fault.Knobs.{Knobs, delay}
use dariyanaap.Fault.Threads.{
  Op, store_latency, store_jitter, store_hanging, load_latency, load_drop, load_hanging,
  load_partition, store_any, changed, loaded, refresh_ops, latency, hang_forever, ops, all_ops,
  alone, Thread, thread, System, takes, Reach, here, next,
}

pub Reach-trans : {s t u : System} → Reach s t → Reach t u → Reach s u
Reach-trans r here = r
Reach-trans r (next q st) = next (Reach-trans r q) st

-- The register behind the steps of one thread.
abbrev register : List Op → Bool → Knobs → Bool
register [] reg k = reg
register (op ∷ code) reg k = register code (loaded op reg k) (changed op reg k)

-- One thread takes the steps `code`, and no other takes any meanwhile.
pub Reach-alone :
    (code rest : List Op) (reg : Bool) (k : Knobs) (before after : List Thread)
    → Reach
        (record {
          knobs = k;
          threads = before ++ record { code = code ++ rest; reg = reg } ∷ after;
        })
        (record {
          knobs = alone code reg k;
          threads = before ++ record { code = rest; reg = register code reg k } ∷ after;
        })
unfolding alone
Reach-alone [] rest reg k before after = here
Reach-alone (op ∷ code) rest reg k before after =
    Reach-trans (next here (takes k before after op (code ++ rest) reg))
      (Reach-alone code rest (loaded op reg k) (changed op reg k) before after)

delay-closed : (k : Knobs) (spread : ℕ) → k.any ≡ false → delay k spread ≡ 0
unfolding delay
delay-closed k spread h = ground arith

-- Every thread is through with its calls.
abbrev pub AllDone : List Thread → Type 0
AllDone [] = Unit {0}
AllDone (t ∷ ts) = (t.code ≡ []) × AllDone ts

-- From a state without a latency, drops and partitions: a call that sets a latency and one that ends a
-- hang, on two threads, can come to a state in which both have returned, the latency is set, and no
-- response is delayed.
pub Reach-loses :
    (k : Knobs) (mean jitter : ℕ)
    → k.latency_ns ≡ 0
    → k.drop_ppm ≡ 0
    → k.any_partition ≡ false
    → (s : System) × Reach
        (record {
          knobs = k;
          threads = thread (latency mean jitter ∷ []) ∷ thread (hang_forever false ∷ []) ∷ [];
        })
        s
      × AllDone s.threads
      × (s.knobs.latency_ns ≡ mean)
      × ((spread : ℕ) → delay s.knobs spread ≡ 0)
unfolding all_ops ops alone changed loaded
Reach-loses k mean jitter a b c =
    let on = store_latency mean ∷ store_jitter jitter ∷ refresh_ops in
    let off = store_hanging false ∷ load_latency ∷ load_drop ∷ load_hanging ∷ load_partition ∷ [] in
    let stale =
      Reach-alone off (store_any ∷ []) false k (record { code = on; reg = false } ∷ []) [] in
    let set =
      Reach-alone on [] false (alone off false k) []
        (record { code = store_any ∷ []; reg = register off false k } ∷ []) in
    let lost =
      Reach-alone (store_any ∷ []) [] (register off false k) (alone on false (alone off false k))
        (record { code = []; reg = register on false (alone off false k) } ∷ []) [] in
    (
      _,
      Reach-trans (Reach-trans stale set) lost,
      (refl, (refl, tt)),
      refl,
      (λ spread. delay-closed _ spread (ground arith)),
    )
