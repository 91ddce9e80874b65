-- ===== src/Stats/Csv.antt =====
-- src/stats/csv.hpp and src/stats/csv.cpp: the rows that the program writes. Each function gives the
-- text that it adds to the stream.
pub mod Fields
pub mod Columns
use dariyanaap.Prelude.{
  ℕ, zero, suc, ◌+◌, List, [], ◌∷◌, ◌++◌, Bool, true, false, ◌||◌, ltb, ◌==◌, if◌then◌else◌,
}
use dariyanaap.Prelude.Text.{Bytes, codes, to_string}
use dariyanaap.Core.Double.{Double}
use dariyanaap.Core.Errors.{Result, ok, err, ◌>>=◌}
use dariyanaap.Stats.Buckets
use dariyanaap.Stats.Buckets.{slot_low, slot_high, max_value}
use dariyanaap.Stats.Histogram.{Histogram, slot, percentile}
use dariyanaap.Stats.Summary.{Summary, percentiles_bounded, per_second, value}

abbrev pub comma : ℕ
comma = 44

abbrev pub quote : ℕ
quote = 34

abbrev pub line_feed : ℕ
line_feed = 10

-- `kSummaryColumns`
abbrev pub summary_columns : Bytes
summary_columns =
    codes
      "samples,overflow,percentiles_bounded,duration_ns,per_second,p50_ns,p90_ns,p99_ns,p999_ns,max_ns"

abbrev pub is_special : ℕ → Bool
is_special c = c == 44 || (c == 34 || (c == 13 || c == 10))

-- `value.find_first_of(",\"\r\n") != string::npos`
abbrev pub needs_quotes : Bytes → Bool
needs_quotes [] = false
needs_quotes (c ∷ text) = is_special c || needs_quotes text

abbrev pub doubled : Bytes → Bytes
doubled [] = []
doubled (c ∷ text) = if c == 34 then 34 ∷ 34 ∷ doubled text else c ∷ doubled text

unfoldable pub quoted : Bytes → Bytes
quoted text = if needs_quotes text then quote ∷ (doubled text ++ quote ∷ []) else text

unfoldable pub write_summary_header : Bytes
write_summary_header = summary_columns ++ line_feed ∷ []

-- A field and the comma behind it, and a field at the end of its row.
abbrev pub then_comma : Bytes → Bytes → Bytes
then_comma field rest = field ++ comma ∷ rest

abbrev pub end_row : Bytes → Bytes
end_row field = field ++ line_feed ∷ []

unfoldable pub write_summary_row : Double → Summary → Bytes
write_summary_row double s = then_comma (to_string s.samples) (
    then_comma (to_string s.overflow) (
      then_comma (if percentiles_bounded s then codes "1" else codes "0") (
        then_comma (to_string s.duration) (
          then_comma (double.print_fixed 2 (per_second double s)) (
            then_comma (to_string s.p50) (
              then_comma (to_string s.p90) (
                then_comma (to_string s.p99)
                  (then_comma (to_string s.p999) (end_row (to_string s.max))))))))))

-- The loop that counts the fields.
abbrev pub fields_from : Bytes → ℕ → ℕ
fields_from [] fields = fields
fields_from (c ∷ text) fields = fields_from text (if c == 44 then fields + 1 else fields)

-- The fields from number i on.
unfoldable pub absent_fields : ℕ → ℕ → Bytes
absent_fields i zero = []
absent_fields i (suc n) =
    (if ltb 0 i then comma ∷ [] else [])
    ++ ((if i == 2 then codes "1" else codes "0") ++ absent_fields (i + 1) n)

unfoldable pub write_absent_summary_row : Bytes
write_absent_summary_row = absent_fields 0 (fields_from summary_columns 1) ++ line_feed ∷ []

-- The slots from index i on; an empty one is left out.
unfoldable pub slot_rows : Histogram → ℕ → ℕ → Bytes
slot_rows h i zero = []
slot_rows h i (suc n) =
    let rest = slot_rows h (i + 1) n in
    let count = slot h i in
    if count == 0
    then rest
    else then_comma (to_string i) (
        then_comma (to_string (slot_low i))
          (then_comma (to_string (slot_high i)) (end_row (to_string count))))
      ++ rest

unfoldable pub write_histogram : Histogram → Bytes
unfolding slot_rows
write_histogram h =
    codes "slot,low_ns,high_ns,count\n"
    ++ (slot_rows h 0 Buckets.count
        ++ (if ltb 0 h.overflow
            then then_comma (codes "-1") (
                then_comma (to_string (max_value + 1))
                  (then_comma (to_string h.max) (end_row (to_string h.overflow))))
            else []))

module _ (double : Double) where
  open double use {literal}

  -- The four last fields of a second with samples.
  unfoldable pub second_fields : Histogram → Result Bytes
  second_fields h = do
    p50 ← value (percentile double h (literal 500 1))
    p90 ← value (percentile double h (literal 900 1))
    p99 ← value (percentile double h (literal 990 1))
    ok (
        then_comma (to_string p50)
          (then_comma (to_string p90) (then_comma (to_string p99) (end_row (to_string h.max)))))

  unfoldable pub second_rows : ℕ → List Histogram → Result Bytes
  second_rows i [] = ok []
  second_rows i (h ∷ seconds) = do
    fields ← if h.count == 0 then ok (codes "0,0,0,0\n") else second_fields h
    rest ← second_rows (i + 1) seconds
    ok (then_comma (to_string i) (then_comma (to_string h.count) fields) ++ rest)

  unfoldable pub write_timeseries : List Histogram → Result Bytes
  write_timeseries seconds = do
    rows ← second_rows 0 seconds
    ok (codes "second,count,p50_ns,p90_ns,p99_ns,max_ns\n" ++ rows)
