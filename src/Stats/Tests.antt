-- ===== src/Stats/Tests.antt =====
-- Runs of src/stats at small inputs, and its theorems at inputs that meet their hypotheses.

use dariyanaap.Prelude.{
  u64, ℕ, ◌≡◌, ◌≤◌, ◌<◌, ◌*◌, ◌^◌, ◌+◌, refl, List, [], ◌∷◌, ◌++◌, some, arith,
}
use dariyanaap.Core.Double.Rational.{rational, Fraction}
use dariyanaap.Prelude.Text.{codes, to_string}
use dariyanaap.Stats.Summary.{Summary, percentiles_bounded, per_second}
use dariyanaap.Stats.Csv.{quoted, write_summary_row, write_summary_header, write_absent_summary_row}
use dariyanaap.Stats.Csv.Fields.{read_field, read_field-quoted}
use dariyanaap.Stats.Csv.Columns.{
  read_table, columns, flag_text, zero_text, write_summary_row-columns,
}
use dariyanaap.Stats.TimeSeries
use dariyanaap.Stats.TimeSeries.{TimeSeries, Writer}
use dariyanaap.Stats.TimeSeries.Seconds.{count_at, held_by}
use dariyanaap.Stats.TimeSeries.Writers.{
  Samples, samples_in, record_all_by, flush_all, flush_all-samples_in,
}
use dariyanaap.Stats.Buckets.{slot_high, slot_low}
use dariyanaap.Stats.Histogram.{merge, percentile, record_latency, empty, walk, target_rank, bump}
use dariyanaap.Stats.Histogram.Tally.{record_all, tally, record_all-tally}
use dariyanaap.Stats.Histogram.Refinement.{
  bag, size, none_yet, add, union, represent, represent-refines,
}
use dariyanaap.Stats.Histogram.Ranks.{rank}
use dariyanaap.Stats.Histogram.Percentile.{target, target-le-rank, percentile-tight}

abbrev samples : List ℕ
samples = 700 ∷ 5 ∷ 601 ∷ []

abbrev fifty : Fraction
fifty = record { top = 50; bottom = 1 }

abbrev hundred : Fraction
hundred = record { top = 100; bottom = 1 }

median : percentile rational (record_all samples) fifty ≡ some 603
unfolding percentile record_latency empty walk target_rank bump slot_high
median = refl

low_300 : slot_low 300 ≤ 345
unfolding slot_low
low_300 = omega arith

high_300 : 345 ≤ slot_high 300
unfolding slot_high
high_300 = omega arith

record_all-tally_example : record_all samples ≡ tally samples
record_all-tally_example = record_all-tally samples (omega arith)

target-le-rank_example : target rational fifty samples ≤ rank samples 603
target-le-rank_example = target-le-rank rational fifty samples 603 (omega arith) median

median_within : target rational fifty samples ≤ rank samples 601
unfolding target_rank
median_within = omega arith

percentile-tight_example : 603 * 128 ≤ 601 * 129
percentile-tight_example =
    percentile-tight rational fifty samples 603 601 (omega arith) median median_within (omega arith)

abbrev slow : List ℕ
slow = 61_000_000_000 ∷ 5 ∷ []

slowest : percentile rational (record_all slow) hundred ≡ some 61_000_000_000
unfolding percentile record_latency empty walk target_rank bump slot_high
slowest = refl

slow_within : rank slow 60_000_000_000 < target rational hundred slow
unfolding target_rank
slow_within = omega arith

-- A text with a comma and a quote in it, behind which another field follows.
read_field-quoted_example :
    read_field (quoted (codes "a,\"b") ++ (44 ∷ codes "7")) ≡ some (codes "a,\"b", 44 ∷ codes "7")
read_field-quoted_example = read_field-quoted (codes "a,\"b") (codes "7")

abbrev few : Summary
few = record {
  samples = 3;
  overflow = 0;
  duration = 1_000_000_000;
  p50 = 603;
  p90 = 703;
  p99 = 703;
  p999 = 703;
  max = 700;
}

write_summary_row-columns_example :
    (read_table write_summary_header (write_summary_row rational few)
      ≡ columns
          (to_string few.samples)
          (to_string few.overflow)
          (flag_text (percentiles_bounded few))
          (to_string few.duration)
          (rational.print_fixed 2 (per_second rational few))
          (to_string few.p50)
          (to_string few.p90)
          (to_string few.p99)
          (to_string few.p999)
          (to_string few.max))
    × (read_table write_summary_header write_absent_summary_row
        ≡ columns zero_text zero_text
            (codes "1")
            zero_text
            zero_text
            zero_text
            zero_text
            zero_text
            zero_text
            zero_text)
write_summary_row-columns_example = write_summary_row-columns rational few (refl, refl)

abbrev series : TimeSeries
series = record { start = 100; seconds = [] }

abbrev writers : List Writer
writers = TimeSeries.writer ∷ TimeSeries.writer ∷ []

-- Two writers, with samples in the first second and in the third.
abbrev recorded : Samples
recorded = (0, (200, 7)) ∷ (1, (300, 8)) ∷ (0, (2_000_000_200, 9)) ∷ []

flush_all-samples_in_example :
    u64 (
      count_at 0
        (flush_all
          (record_all_by series writers recorded).0
          (record_all_by series writers recorded).1).seconds)
    ≡ u64 (count_at 0 [] + held_by 0 writers + samples_in 0 series recorded)
flush_all-samples_in_example =
    flush_all-samples_in 0 series writers recorded (omega arith, (omega arith, (omega arith, tt)))

few_samples : size (bag samples) + size (bag (7 ∷ [])) < 2 ^ 64
unfolding size
few_samples = omega arith

represent-refines_example :
    (represent none_yet ≡ empty)
    × (record_latency (represent (bag samples)) 9 ≡ represent (add 9 (bag samples)))
    × (merge (represent (bag samples)) (represent (bag (7 ∷ [])))
        ≡ represent (union (bag samples) (bag (7 ∷ []))))
represent-refines_example = represent-refines 9 (bag samples) (bag (7 ∷ [])) few_samples
