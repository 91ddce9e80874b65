-- ===== src/Stats/Csv/Columns.antt =====
-- The two rows of a summary that src/stats/csv.cpp writes, under the header that it writes.
use dariyanaap.Prelude.{
  ℕ, ◌≡◌, refl, ap, ◌∙◌, List, [], ◌∷◌, Bool, true, false, ◌==◌, if◌then◌else◌, arith, if_false,
}
use dariyanaap.Prelude.Text.{Bytes, codes, to_string, contains}
use dariyanaap.Prelude.Text.Digits.{all_digits-to_string, contains-all_digits}
use dariyanaap.Core.Double.{Double}
use dariyanaap.Stats.Summary.{Summary, per_second, percentiles_bounded}
use dariyanaap.Stats.Csv.{
  then_comma, end_row, write_summary_header, write_summary_row, absent_fields,
  write_absent_summary_row,
}

-- A reader of the first line of a text, which splits it at its commas.
abbrev onto : ℕ → List Bytes → List Bytes
onto c [] = (c ∷ []) ∷ []
onto c (field ∷ fields) = (c ∷ field) ∷ fields

unfoldable pub read_row : Bytes → List Bytes
read_row [] = [] ∷ []
read_row (c ∷ text) =
    let rest = read_row text in
    if c == 10 then [] ∷ [] else if c == 44 then [] ∷ rest else onto c rest

-- The fields of a row with the names that stand above them, up to the last of the shorter.
abbrev pub under : List Bytes → List Bytes → List (Bytes × Bytes)
under [] fields = []
under (name ∷ names) [] = []
under (name ∷ names) (field ∷ fields) = (name, field) ∷ under names fields

abbrev pub read_table : Bytes → Bytes → List (Bytes × Bytes)
read_table header row = under (read_row header) (read_row row)

-- A field that the reader does not take apart.
abbrev pub IsPlain : Bytes → Type 0
IsPlain field = (contains field 44 ≡ false) × (contains field 10 ≡ false)

to_string-IsPlain : (n : ℕ) → IsPlain (to_string n)
to_string-IsPlain n = (
  contains-all_digits (to_string n) 44 (all_digits-to_string n) refl,
  contains-all_digits (to_string n) 10 (all_digits-to_string n) refl,
)

IsPlain-rest :
    (c : ℕ) (field : Bytes)
    → IsPlain (c ∷ field)
    → ((c == 10) ≡ false) × ((c == 44) ≡ false) × IsPlain field
IsPlain-rest c field (a, b) = (ground arith, ground arith, (ground arith, ground arith))

read_row-onto :
    (c : ℕ) (text : Bytes)
    → (c == 10) ≡ false
    → (c == 44) ≡ false
    → read_row (c ∷ text) ≡ onto c (read_row text)
unfolding read_row
read_row-onto c text a b = if_false (c == 10) _ _ a ∙ if_false (c == 44) _ _ b

read_row-then_comma :
    (field rest : Bytes)
    → IsPlain field
    → read_row (then_comma field rest) ≡ (field ∷ read_row rest)
read_row-then_comma [] rest h = unfold read_row in refl
read_row-then_comma (c ∷ field) rest h =
    let (a, b, plain) = IsPlain-rest c field h in
    read_row-onto c (then_comma field rest) a b ∙ ap (onto c) (read_row-then_comma field rest plain)

read_row-end_row : (field : Bytes) → IsPlain field → read_row (end_row field) ≡ (field ∷ [])
read_row-end_row [] h = unfold read_row in refl
read_row-end_row (c ∷ field) h =
    let (a, b, plain) = IsPlain-rest c field h in
    read_row-onto c (end_row field) a b ∙ ap (onto c) (read_row-end_row field plain)

read_row-column :
    (field rest : Bytes) (fields : List Bytes)
    → IsPlain field
    → read_row rest ≡ fields
    → read_row (then_comma field rest) ≡ (field ∷ fields)
read_row-column field rest fields h e = read_row-then_comma field rest h ∙ ap (◌∷◌ field) e

number-column :
    (n : ℕ) (rest : Bytes) (fields : List Bytes)
    → read_row rest ≡ fields
    → read_row (then_comma (to_string n) rest) ≡ (to_string n ∷ fields)
number-column n rest fields e = read_row-column (to_string n) rest fields (to_string-IsPlain n) e

abbrev pub flag_text : Bool → Bytes
flag_text b = if b then codes "1" else codes "0"

flag_text-IsPlain : (b : Bool) → IsPlain (flag_text b)
flag_text-IsPlain true = (refl, refl)
flag_text-IsPlain false = (refl, refl)

-- What stands under each name of the header, given the values in the order of the names.
abbrev pub columns :
    Bytes
    → Bytes
    → Bytes
    → Bytes
    → Bytes
    → Bytes
    → Bytes
    → Bytes
    → Bytes
    → Bytes
    → List (Bytes × Bytes)
columns samples overflow bounded duration rate p50 p90 p99 p999 max =
    (codes "samples", samples)
    ∷ (codes "overflow", overflow)
    ∷ (codes "percentiles_bounded", bounded)
    ∷ (codes "duration_ns", duration)
    ∷ (codes "per_second", rate)
    ∷ (codes "p50_ns", p50)
    ∷ (codes "p90_ns", p90)
    ∷ (codes "p99_ns", p99)
    ∷ (codes "p999_ns", p999)
    ∷ (codes "max_ns", max)
    ∷ []

abbrev pub zero_text : Bytes
zero_text = codes "0"

absent_columns :
    read_table write_summary_header write_absent_summary_row
    ≡ columns zero_text zero_text
        (codes "1")
        zero_text
        zero_text
        zero_text
        zero_text
        zero_text
        zero_text
        zero_text
unfolding read_row write_summary_header write_absent_summary_row absent_fields
absent_columns = refl

module _ (double : Double) (s : Summary)
    (plain : IsPlain (double.print_fixed 2 (per_second double s))) where
  summary_row : read_row (write_summary_row double s) ≡ (
      to_string s.samples
      ∷ to_string s.overflow
      ∷ flag_text (percentiles_bounded s)
      ∷ to_string s.duration
      ∷ double.print_fixed 2 (per_second double s)
      ∷ to_string s.p50
      ∷ to_string s.p90
      ∷ to_string s.p99
      ∷ to_string s.p999
      ∷ to_string s.max
      ∷ [])
  unfolding write_summary_row
  summary_row = number-column s.samples _ _ (
      number-column s.overflow _ _ (
        read_row-column _ _ _ (flag_text-IsPlain (percentiles_bounded s)) (
          number-column s.duration _ _ (
            read_row-column _ _ _ plain (
              number-column s.p50 _ _ (
                number-column s.p90 _ _ (
                  number-column s.p99 _ _ (
                    number-column s.p999 _ _
                      (read_row-end_row (to_string s.max) (to_string-IsPlain s.max))))))))))

  -- As long as the printed rate has no comma and no line feed in it: a reader that splits the header and
  -- the row of a summary at their commas finds under each name the number of that name, and in the row
  -- that stands for no summary zeros, with the percentiles called bounded.
  pub write_summary_row-columns :
      (read_table write_summary_header (write_summary_row double s)
        ≡ columns
            (to_string s.samples)
            (to_string s.overflow)
            (flag_text (percentiles_bounded s))
            (to_string s.duration)
            (double.print_fixed 2 (per_second double s))
            (to_string s.p50)
            (to_string s.p90)
            (to_string s.p99)
            (to_string s.p999)
            (to_string s.max))
      × (read_table write_summary_header write_absent_summary_row
          ≡ columns zero_text zero_text
              (codes "1")
              zero_text
              zero_text
              zero_text
              zero_text
              zero_text
              zero_text
              zero_text)
  write_summary_row-columns =
      (ap (under (read_row write_summary_header)) summary_row ∙ named, absent_columns)
    where
      named :
          under (read_row write_summary_header) (
            to_string s.samples
            ∷ to_string s.overflow
            ∷ flag_text (percentiles_bounded s)
            ∷ to_string s.duration
            ∷ double.print_fixed 2 (per_second double s)
            ∷ to_string s.p50
            ∷ to_string s.p90
            ∷ to_string s.p99
            ∷ to_string s.p999
            ∷ to_string s.max
            ∷ [])
          ≡ columns
              (to_string s.samples)
              (to_string s.overflow)
              (flag_text (percentiles_bounded s))
              (to_string s.duration)
              (double.print_fixed 2 (per_second double s))
              (to_string s.p50)
              (to_string s.p90)
              (to_string s.p99)
              (to_string s.p999)
              (to_string s.max)
      named = unfold read_row in unfold write_summary_header in refl
