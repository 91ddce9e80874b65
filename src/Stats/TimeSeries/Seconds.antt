-- ===== src/Stats/TimeSeries/Seconds.antt =====
-- How many samples of each second the writers of src/stats/timeseries.hpp and the series have.
use dariyanaap.Prelude.{
  ℕ, zero, suc, ◌+◌, ◌≤◌, ◌<◌, ◌≡◌, refl, ap, ◌∙◌, List, [], ◌∷◌, Bool, true, ltb, leb, ◌==◌,
  if◌then◌else◌, u64, arith, length, if_both, leb→lt,
}
use dariyanaap.Stats.Histogram
use dariyanaap.Stats.Histogram.{Histogram, empty, record_latency}
use dariyanaap.Stats.TimeSeries.{
  TimeSeries, Writer, second_of, resize, merge_at, absorb, flush, add_pending, at_second, record_at,
}

-- The samples of second k in the series.
abbrev pub count_at : ℕ → List Histogram → ℕ
count_at k [] = 0
count_at zero (h ∷ hs) = h.count
count_at (suc k) (h ∷ hs) = count_at k hs

-- The samples of second k that a writer still holds.
abbrev pub held : ℕ → Writer → ℕ
held k w = if k == w.current then w.pending.count else 0

abbrev pub held_by : ℕ → List Writer → ℕ
held_by k [] = 0
held_by k (w ∷ ws) = held k w + held_by k ws

-- The samples of second k that have been recorded; the counters wrap.
abbrev pub seen : ℕ → TimeSeries → List Writer → ℕ
seen k s ws = u64 (count_at k s.seconds + held_by k ws)

count-empty : empty.count ≡ 0
unfolding empty
count-empty = refl

count_at-resize :
    (k n : ℕ) (hs : List Histogram) → length hs ≤ n → count_at k (resize n hs) ≡ count_at k hs
unfolding resize
count_at-resize k zero [] l = refl
count_at-resize k zero (h ∷ hs) l = absurd (omega arith)
count_at-resize zero (suc n) [] l = count-empty
count_at-resize (suc k) (suc n) [] l = count_at-resize k n [] (omega arith)
count_at-resize zero (suc n) (h ∷ hs) l = refl
count_at-resize (suc k) (suc n) (h ∷ hs) l = count_at-resize k n hs (omega arith)

length-resize : (n : ℕ) (hs : List Histogram) → length (resize n hs) ≡ n
unfolding resize
length-resize zero hs = refl
length-resize (suc n) [] = omega (arith, length-resize n [])
length-resize (suc n) (h ∷ hs) = omega (arith, length-resize n hs)

count-merge : (g h : Histogram) → (Histogram.merge g h).count ≡ u64 (g.count + h.count)
unfolding Histogram.merge
count-merge g h = refl

-- What is added to second k when h is merged into second j.
abbrev added : ℕ → ℕ → Histogram → ℕ
added k j h = if k == j then h.count else 0

count_at-merge_at :
    (k j : ℕ) (h : Histogram) (hs : List Histogram)
    → j < length hs
    → u64 (count_at k (merge_at j h hs)) ≡ u64 (count_at k hs + added k j h)
unfolding merge_at
count_at-merge_at k j h [] l = absurd (omega arith)
count_at-merge_at zero zero h (g ∷ hs) l = omega (arith, count-merge g h)
count_at-merge_at (suc k) zero h (g ∷ hs) l = ground arith
count_at-merge_at zero (suc j) h (g ∷ hs) l = ground arith
count_at-merge_at (suc k) (suc j) h (g ∷ hs) l = ground (arith, count_at-merge_at k j h hs)

-- The series, grown so that second j is in it.
abbrev grown : ℕ → List Histogram → List Histogram
grown j hs = if leb (length hs) j then resize (j + 1) hs else hs

grown-longer : (j : ℕ) (hs : List Histogram) → j < length (grown j hs)
grown-longer j hs =
    if_both (λ gs. j < length gs) (leb (length hs) j) _ hs
      (λ e. omega (arith, length-resize (j + 1) hs)) (λ e. leb→lt _ _ e)

count_at-grown : (k j : ℕ) (hs : List Histogram) → count_at k (grown j hs) ≡ count_at k hs
count_at-grown k j hs =
    if_both (λ gs. count_at k gs ≡ count_at k hs) (leb (length hs) j) _ hs
      (λ e. count_at-resize k (j + 1) hs (ground (arith, e))) (λ e. refl)

count_at-absorb :
    (k : ℕ) (s : TimeSeries) (j : ℕ) (h : Histogram)
    → u64 (count_at k (absorb s j h).seconds) ≡ u64 (count_at k s.seconds + added k j h)
unfolding absorb
count_at-absorb k s j h =
    count_at-merge_at k j h (grown j s.seconds) (grown-longer j s.seconds)
    ∙ ap (λ n. u64 (n + added k j h)) (count_at-grown k j s.seconds)

absorb-start : (s : TimeSeries) (j : ℕ) (h : Histogram) → (absorb s j h).start ≡ s.start
unfolding absorb
absorb-start s j h = refl

-- What a writer held has gone into the series, all of it and into its second.
abbrev pub Flushed : ℕ → TimeSeries → Writer → TimeSeries × Writer → Type 0
Flushed k s w (s', w') =
    (u64 (count_at k s'.seconds) ≡ u64 (count_at k s.seconds + held k w))
    × (w'.pending.count ≡ 0)
    × (s'.start ≡ s.start)

held-nothing : (k : ℕ) (w : Writer) → w.pending.count ≡ 0 → held k w ≡ 0
held-nothing k w e = if_both (λ n. n ≡ 0) (k == w.current) w.pending.count 0 (λ _. e) (λ _. refl)

pub flush-Flushed : (k : ℕ) (s : TimeSeries) (w : Writer) → Flushed k s w (flush s w)
unfolding flush
flush-Flushed k s w =
    if_both (Flushed k s w) (ltb 0 w.pending.count) _ (s, w)
      (λ e.
        (count_at-absorb k s w.current w.pending, count-empty, absorb-start s w.current w.pending))
      (λ e.
        let z : w.pending.count ≡ 0 = ground arith in (omega (arith, held-nothing k w z), z, refl))

-- One sample of second `second` has been recorded.
abbrev pub one_if : Bool → ℕ
one_if b = if b then 1 else 0

abbrev pub Recorded : ℕ → ℕ → TimeSeries → Writer → TimeSeries × Writer → Type 0
Recorded k second s w (s', w') =
    (u64 (count_at k s'.seconds + held k w')
      ≡ u64 (count_at k s.seconds + held k w + one_if (k == second)))
    × (s'.start ≡ s.start)

count-record_latency : (h : Histogram) (ns : ℕ) → (record_latency h ns).count ≡ u64 (h.count + 1)
unfolding record_latency
count-record_latency h ns = ground arith

-- A sample that is added to a writer which holds its second, or nothing.
add_pending-Recorded :
    (k second latency : ℕ) (s : TimeSeries) (w : Writer)
    → (second == w.current) ≡ true
    → Recorded k second s w (add_pending latency (s, w))
add_pending-Recorded k second latency s w e =
    (ground (arith, count-record_latency w.pending latency), refl)

at_second-Recorded :
    (k second latency : ℕ) (s : TimeSeries) (w : Writer) (r : TimeSeries × Writer)
    → Flushed k s w r
    → Recorded k second s w (add_pending latency (at_second second r))
at_second-Recorded k second latency s w (s', w') (a, b, c) =
    (ground (arith, count-record_latency w'.pending latency), c)

pub record_at-Recorded :
    (k : ℕ) (s : TimeSeries) (w : Writer) (now latency : ℕ)
    → Recorded k (second_of s now) s w (record_at s w now latency)
unfolding record_at
record_at-Recorded k s w now latency =
    if_both (λ r. Recorded k (second_of s now) s w (add_pending latency r))
      (second_of s now == w.current) (s, w) _
      (λ e. add_pending-Recorded k (second_of s now) latency s w e)
      (λ e. at_second-Recorded k (second_of s now) latency s w (flush s w) (flush-Flushed k s w))
