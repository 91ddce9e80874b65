-- ===== src/Fault/Threads/Tests.antt =====
-- The theorems on setters on several threads at inputs that meet their hypotheses.
use dariyanaap.Prelude.{ℕ, ◌≡◌, refl, List, [], ◌∷◌, ◌++◌, true, false}
use dariyanaap.Fault.Knobs.{Knobs, all_off, delay}
use dariyanaap.Fault.Threads.{
  store_hanging, refresh_ops, changed, loaded, Call, latency, hang_forever, ops, all_ops, alone,
  thread, System, Reach, drop_probability,
}
use dariyanaap.Fault.Threads.Healing.{IsInForce, Answers, alone-Answers}
use dariyanaap.Fault.Threads.Raising.{system, finished-open}
use dariyanaap.Fault.Threads.Losing.{Reach-alone, Reach-trans, AllDone, Reach-loses}

abbrev calls : List (Call × List Call)
calls = (latency 5 2, []) ∷ (hang_forever true, latency 3 0 ∷ []) ∷ []

-- The second thread begins, and the first makes its call.
abbrev end : Knobs
end = record all_off { any = true; latency_ns = 5; jitter_ns = 2; hanging = true }

abbrev finished : System
finished = record {
  knobs = end;
  threads =
      record { code = []; reg = true }
      ∷ record { code = refresh_ops ++ all_ops (latency 3 0 ∷ []); reg = false }
      ∷ [];
}

interleaved : Reach (system all_off calls) finished
unfolding all_ops ops alone changed loaded
interleaved =
    Reach-trans
      (Reach-alone (store_hanging true ∷ []) (refresh_ops ++ all_ops (latency 3 0 ∷ [])) false
        all_off (record { code = ops (latency 5 2); reg = false } ∷ []) [])
      (Reach-alone (ops (latency 5 2)) [] false (record all_off { hanging = true }) []
        (record { code = refresh_ops ++ all_ops (latency 3 0 ∷ []); reg = false } ∷ []))

finished-open_example : finished.knobs.any ≡ true
finished-open_example =
    finished-open all_off calls ((refl, tt), ((refl, (refl, tt)), tt)) interleaved refl

Reach-loses_example :
    (s : System) × Reach
      (record {
        knobs = all_off;
        threads = thread (latency 5 2 ∷ []) ∷ thread (hang_forever false ∷ []) ∷ [];
      })
      s
    × AllDone s.threads
    × (s.knobs.latency_ns ≡ 5)
    × ((spread : ℕ) → delay s.knobs spread ≡ 0)
Reach-loses_example = Reach-loses all_off 5 2 refl refl refl

alone-Answers_example :
    IsInForce (drop_probability 7) (alone (ops (drop_probability 7)) false finished.knobs)
    × Answers (alone (ops (drop_probability 7)) false finished.knobs)
alone-Answers_example =
    alone-Answers (system all_off calls) finished (drop_probability 7) false refl interleaved
