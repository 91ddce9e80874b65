-- ===== src/Stats/TimeSeries.antt =====
-- src/stats/timeseries.hpp: latency by second, one writer for each worker. The lock makes each
-- `absorb` one step of the shared series; instants are nanoseconds of the steady clock.
pub mod Seconds
pub mod Writers
use dariyanaap.Prelude.{
  ℕ, zero, suc, ◌+◌, ◌-◌, ◌/◌, List, [], ◌∷◌, ltb, leb, ◌==◌, if◌then◌else◌, length,
}
use dariyanaap.Stats.Histogram
use dariyanaap.Stats.Histogram.{Histogram, empty, record_latency}

pub record TimeSeries : Type 0 where
  pub start : ℕ
  pub seconds : List Histogram

pub record Writer : Type 0 where
  pub pending : Histogram
  pub current : ℕ

unfoldable pub writer : Writer
writer = record { pending = empty; current = 0 }

unfoldable pub second_of : TimeSeries → ℕ → ℕ
second_of s now = if leb now s.start then 0 else (now - s.start) / 1_000_000_000

-- `std::vector::resize`
unfoldable pub resize : ℕ → List Histogram → List Histogram
resize zero hs = []
resize (suc n) [] = empty ∷ resize n []
resize (suc n) (h ∷ hs) = h ∷ resize n hs

-- `seconds_[second].merge(histogram)`
unfoldable pub merge_at : ℕ → Histogram → List Histogram → List Histogram
merge_at second h [] = []
merge_at zero h (g ∷ gs) = Histogram.merge g h ∷ gs
merge_at (suc second) h (g ∷ gs) = g ∷ merge_at second h gs

unfoldable pub absorb : TimeSeries → ℕ → Histogram → TimeSeries
absorb s second h =
    let grown =
      if leb (length s.seconds) second then resize (second + 1) s.seconds else s.seconds in
    record s { seconds = merge_at second h grown }

unfoldable pub flush : TimeSeries → Writer → TimeSeries × Writer
flush s w =
    if ltb 0 w.pending.count
    then (absorb s w.current w.pending, record w { pending = empty })
    else (s, w)

abbrev pub add_pending : ℕ → TimeSeries × Writer → TimeSeries × Writer
add_pending latency (s, w) = (s, record w { pending = record_latency w.pending latency })

abbrev pub at_second : ℕ → TimeSeries × Writer → TimeSeries × Writer
at_second second (s, w) = (s, record w { current = second })

unfoldable pub record_at : TimeSeries → Writer → ℕ → ℕ → TimeSeries × Writer
record_at s w now latency =
    let second = second_of s now in
    let moved = if second == w.current then (s, w) else at_second second (flush s w) in
    add_pending latency moved
