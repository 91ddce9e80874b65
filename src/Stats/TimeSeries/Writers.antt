-- ===== src/Stats/TimeSeries/Writers.antt =====
-- Several writers of src/stats/timeseries.hpp on one series, in any order.
use dariyanaap.Prelude.{
  ℕ, zero, suc, ◌+◌, ◌<◌, ◌≡◌, refl, sym, ap₂, subst, ◌∙◌, List, [], ◌∷◌, ◌==◌, u64, arith, length,
}
use dariyanaap.Stats.TimeSeries.{TimeSeries, Writer, second_of, flush, record_at}
use dariyanaap.Stats.TimeSeries.Seconds.{
  count_at, held_by, seen, one_if, record_at-Recorded, flush-Flushed,
}

-- Writer number i records a sample.
unfoldable pub record_by : TimeSeries → List Writer → ℕ → ℕ → ℕ → TimeSeries × List Writer
record_by s [] i now latency = (s, [])
record_by s (w ∷ ws) (suc i) now latency =
    let (s', ws') = record_by s ws i now latency in (s', w ∷ ws')
record_by s (w ∷ ws) zero now latency = let (s', w') = record_at s w now latency in (s', w' ∷ ws)

-- A writer's number, the instant and the latency, for each sample in the order of the recording.
abbrev pub Samples : Type 0
Samples = List (ℕ × (ℕ × ℕ))

unfoldable pub record_all_by : TimeSeries → List Writer → Samples → TimeSeries × List Writer
unfolding record_by
record_all_by s ws [] = (s, ws)
record_all_by s ws ((i, (now, latency)) ∷ samples) =
    let (s', ws') = record_by s ws i now latency in record_all_by s' ws' samples

-- Every writer hands over what it holds.
unfoldable pub flush_all : TimeSeries → List Writer → TimeSeries
flush_all s [] = s
flush_all s (w ∷ ws) = flush_all (flush s w).0 ws

-- The samples of second k, whose writers exist.
abbrev pub samples_in : ℕ → TimeSeries → Samples → ℕ
samples_in k s [] = 0
samples_in k s ((i, (now, latency)) ∷ samples) =
    one_if (k == second_of s now) + samples_in k s samples

abbrev pub AllBelow : ℕ → Samples → Type 0
AllBelow n [] = Unit
AllBelow n ((i, (now, latency)) ∷ samples) = (i < n) × AllBelow n samples

abbrev RecordedBy : ℕ → ℕ → TimeSeries → List Writer → TimeSeries × List Writer → Type 0
RecordedBy k second s ws (s', ws') =
    (u64 (count_at k s'.seconds + held_by k ws')
      ≡ u64 (count_at k s.seconds + held_by k ws + one_if (k == second)))
    × (s'.start ≡ s.start)
    × (length ws' ≡ length ws)

record_by-RecordedBy :
    (k : ℕ) (s : TimeSeries) (ws : List Writer) (i now latency : ℕ)
    → i < length ws
    → RecordedBy k (second_of s now) s ws (record_by s ws i now latency)
unfolding record_by
record_by-RecordedBy k s [] i now latency l = absurd (omega arith)
record_by-RecordedBy k s (w ∷ ws) (suc i) now latency l =
    let (a, b, c) = record_by-RecordedBy k s ws i now latency (omega arith) in
    (omega (arith, a), b, omega (arith, c))
record_by-RecordedBy k s (w ∷ ws) zero now latency l =
    let (a, b) = record_at-Recorded k s w now latency in (omega (arith, a), b, refl)

second_of-start :
    (s s' : TimeSeries) (now : ℕ) → s'.start ≡ s.start → second_of s' now ≡ second_of s now
unfolding second_of
second_of-start s s' now e = rw e refl

samples_in-start :
    (k : ℕ) (s s' : TimeSeries) (samples : Samples)
    → s'.start ≡ s.start
    → samples_in k s' samples ≡ samples_in k s samples
samples_in-start k s s' [] e = refl
samples_in-start k s s' ((i, (now, latency)) ∷ samples) e =
    ap₂ (λ second n. one_if (k == second) + n) (second_of-start s s' now e)
      (samples_in-start k s s' samples e)

record_all_by-seen :
    (k : ℕ) (s : TimeSeries) (ws : List Writer) (samples : Samples)
    → AllBelow (length ws) samples
    → seen k (record_all_by s ws samples).0 (record_all_by s ws samples).1
      ≡ u64 (count_at k s.seconds + held_by k ws + samples_in k s samples)
unfolding record_all_by
record_all_by-seen k s ws [] h = omega arith
record_all_by-seen k s ws ((i, (now, latency)) ∷ samples) (l, h) =
    let r = record_by s ws i now latency in
    let (a, b, c) = record_by-RecordedBy k s ws i now latency l in
    let rest = record_all_by-seen k r.0 r.1 samples (subst (λ n. AllBelow n samples) (sym c) h) in
    omega (arith, rest, a, samples_in-start k s r.0 samples b)

flush_all-count :
    (k : ℕ) (s : TimeSeries) (ws : List Writer)
    → u64 (count_at k (flush_all s ws).seconds) ≡ u64 (count_at k s.seconds + held_by k ws)
unfolding flush_all
flush_all-count k s [] = omega arith
flush_all-count k s (w ∷ ws) =
    omega (arith, flush_all-count k (flush s w).0 ws, (flush-Flushed k s w).0)

-- Writers that record in any order among them, and are flushed in the end: for each second the series
-- then has as many samples as the series and the writers had of it before and were recorded in it
-- since, up to the width of the counter.
pub flush_all-samples_in :
    (k : ℕ) (s : TimeSeries) (ws : List Writer) (samples : Samples)
    → AllBelow (length ws) samples
    → u64 (
        count_at k
          (flush_all (record_all_by s ws samples).0 (record_all_by s ws samples).1).seconds)
      ≡ u64 (count_at k s.seconds + held_by k ws + samples_in k s samples)
flush_all-samples_in k s ws samples h =
    flush_all-count k (record_all_by s ws samples).0 (record_all_by s ws samples).1
    ∙ record_all_by-seen k s ws samples h
