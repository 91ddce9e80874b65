-- ===== src/Apps/Results/Sweep.antt =====
-- What `write_csv` of apps/dariyanaap.cpp leaves in summary.csv over the runs of a sweep.
use dariyanaap.Prelude.{
  ◌≡◌, refl, sym, ap, ◌∙◌, List, [], ◌∷◌, ◌++◌, Option, none, some, Bool, false, if◌then◌else◌,
  if_true, if_false, arith, length, Bool-cases, inl, inr,
}
use mathlib.Core.List.{append_assoc, append-nil}
use dariyanaap.Prelude.Text.{Bytes, concat, codes, bytes_eq, bytes_eq_refl, to_string}
use dariyanaap.Core.Double.{Double}
use dariyanaap.Core.Errors.{Result, ok, err}
use dariyanaap.Stats.Histogram.{Histogram}
use dariyanaap.Stats.Csv.{write_histogram, write_timeseries}
use dariyanaap.Apps.Machine.{
  Machine, App, carry_on, ◌>>=◌, ◌>>◌, lift, print, is_there, old_text, append_file, write_file,
}
use dariyanaap.Apps.Report.{Reported}
use dariyanaap.Apps.Results.{
  summary_header, summary_row, summary_path, histogram_path, series_path, write_summary, announce,
  write_run, write_series, write_csv,
}

bytes_eq-append : (d s t : Bytes) → bytes_eq (d ++ s) (d ++ t) ≡ bytes_eq s t
bytes_eq-append [] s t = refl
bytes_eq-append (c ∷ d) s t = ground (arith, bytes_eq-append d s t)

-- An action leaves the file at a path alone, and which paths are refused.
abbrev Keeps {ℓ} : {A : Type ℓ} → Bytes → App A → Type 0
Keeps path action =
    (m : Machine) → ((action m).1.files path ≡ m.files path) × ((action m).1.refused ≡ m.refused)

carry_on-Keeps {ℓ κ} :
    {A : Type ℓ} {B : Type κ} (path : Bytes) (text : Option Bytes) (refused : Bytes → Bool)
    (r : Result A × Machine) (next : A → App B)
    → (r.1.files path ≡ text) × (r.1.refused ≡ refused)
    → ((a : A) → Keeps path (next a))
    → ((carry_on r next).1.files path ≡ text) × ((carry_on r next).1.refused ≡ refused)
carry_on-Keeps path text refused (err e, m') next kept rest = kept
carry_on-Keeps path text refused (ok a, m') next (k, r) rest =
    ((rest a m').0 ∙ k, (rest a m').1 ∙ r)

then-Keeps {ℓ κ} :
    {A : Type ℓ} {B : Type κ} (path : Bytes) (action : App A) (next : A → App B)
    → Keeps path action
    → ((a : A) → Keeps path (next a))
    → Keeps path (action >>= next)
then-Keeps path action next h k m =
    carry_on-Keeps path (m.files path) m.refused (action m) next (h m) k

write_file-Keeps :
    (path other text : Bytes) → bytes_eq other path ≡ false → Keeps path (write_file other text)
unfolding write_file
write_file-Keeps path other text e m = elim (Bool-cases (m.refused other)) [
  | inl no_way ↦ rw no_way (refl, refl)
  | inr free ↦ rw free (if_false (bytes_eq other path) _ _ e, refl)
]

-- summary.csv with more rows, which it is given a header before if it is new.
abbrev pub with_rows : Option Bytes → List Bytes → Option Bytes
with_rows none [] = none
with_rows none (row ∷ rows) = some (summary_header ++ concat (row ∷ rows))
with_rows (some text) rows = some (text ++ concat rows)

with_rows-nil : (o : Option Bytes) → o ≡ with_rows o []
with_rows-nil none = refl
with_rows-nil (some text) = ap some (sym (append-nil text))

with_rows-cons :
    (o : Option Bytes) (row : Bytes) (rows : List Bytes)
    → with_rows (with_rows o (row ∷ [])) rows ≡ with_rows o (row ∷ rows)
with_rows-cons none row rows = simp (append-nil, append_assoc)
with_rows-cons (some text) row rows = simp (append-nil, append_assoc)

module _ (double : Double) (directory protocol : Bytes) where
  other_path :
      (name : Bytes)
      → bytes_eq name (codes "/summary.csv") ≡ false
      → bytes_eq (directory ++ name) (summary_path directory) ≡ false
  other_path name e = bytes_eq-append directory name (codes "/summary.csv") ∙ e

  write_series-Keeps :
      (seconds : List Histogram)
      → Keeps (summary_path directory) (write_series double directory protocol seconds)
  write_series-Keeps [] m = (refl, refl)
  write_series-Keeps (h ∷ seconds) m =
      then-Keeps (summary_path directory) (lift (write_timeseries double (h ∷ seconds)))
        (λ rows. write_file (series_path directory) rows >> told) (λ n. (refl, refl))
        (λ rows.
          then-Keeps (summary_path directory) (write_file (series_path directory) rows) (λ u. told)
            (write_file-Keeps (summary_path directory) (series_path directory) rows
              (other_path (codes "/timeseries.csv") refl))
            (λ u n. (refl, refl)))
        m
    where
      told : App (Unit {0})
      told = print (
          concat (
            codes "  wrote "
            ∷ series_path directory
            ∷ codes " ("
            ∷ to_string (length (h ∷ seconds))
            ∷ codes " seconds)\n"
            ∷ []))

  write_histogram-Keeps :
      (histogram : Histogram)
      → Keeps
          (summary_path directory)
          (write_file (histogram_path directory) (write_histogram histogram))
  write_histogram-Keeps histogram =
      write_file-Keeps (summary_path directory) (histogram_path directory)
        (write_histogram histogram) (other_path (codes "/histogram.csv") refl)

  write_run-Keeps :
      (histogram : Histogram) (seconds : List Histogram)
      → Keeps (summary_path directory) (write_run double directory protocol histogram seconds)
  write_run-Keeps histogram seconds =
      then-Keeps (summary_path directory)
        (write_file (histogram_path directory) (write_histogram histogram))
        (λ u. announce double directory protocol >> write_series double directory protocol seconds)
        (write_histogram-Keeps histogram)
        (λ u.
          then-Keeps (summary_path directory) (announce double directory protocol)
            (λ v. write_series double directory protocol seconds) (λ n. (refl, refl))
            (λ v. write_series-Keeps seconds))

  write_row :
      (row : Bytes) (o : Option Bytes)
      → some (old_text o ++ ((if is_there o then [] else summary_header) ++ row))
        ≡ with_rows o (row ∷ [])
  write_row row none = ap (λ t. some (summary_header ++ t)) (sym (append-nil row))
  write_row row (some text) = ap (λ t. some (text ++ t)) (sym (append-nil row))

  write_summary-row :
      (r : Reported) (m : Machine)
      → m.refused (summary_path directory) ≡ false
      → ((write_summary double directory protocol r m).1.files (summary_path directory)
          ≡ with_rows (m.files (summary_path directory)) (summary_row double protocol r ∷ []))
        × ((write_summary double directory protocol r m).1.refused ≡ m.refused)
  unfolding write_summary append_file
  write_summary-row r m free = rw free (
    if_true (bytes_eq (summary_path directory) (summary_path directory)) _ _
          (bytes_eq_refl (summary_path directory))
        ∙ write_row (summary_row double protocol r) (m.files (summary_path directory)),
    refl,
  )

  write_csv-row :
      (r : Reported) (histogram : Histogram) (seconds : List Histogram) (m : Machine)
      → m.refused (summary_path directory) ≡ false
      → ((write_csv double directory protocol r histogram seconds m).1.files
            (summary_path directory)
          ≡ with_rows (m.files (summary_path directory)) (summary_row double protocol r ∷ []))
        × ((write_csv double directory protocol r histogram seconds m).1.refused ≡ m.refused)
  unfolding write_csv
  write_csv-row r histogram seconds m free =
      carry_on-Keeps (summary_path directory)
        (with_rows (m.files (summary_path directory)) (summary_row double protocol r ∷ []))
        m.refused (write_summary double directory protocol r m)
        (λ u. write_run double directory protocol histogram seconds) (write_summary-row r m free)
        (λ u. write_run-Keeps histogram seconds)

  -- The runs of a sweep, one process after the other, whatever each of them ends in.
  abbrev pub sweep : List (Reported × Histogram × List Histogram) → Machine → Machine
  sweep [] m = m
  sweep ((r, histogram, seconds) ∷ runs) m =
      sweep runs (write_csv double directory protocol r histogram seconds m).1

  abbrev pub rows : List (Reported × Histogram × List Histogram) → List Bytes
  rows [] = []
  rows ((r, histogram, seconds) ∷ runs) = summary_row double protocol r ∷ rows runs

  -- As long as summary.csv can be opened, it has one row for each run in the end, in the order of
  -- the runs and behind what it had before, and a header before them exactly if there was no such file:
  -- also where a run cannot write its other files.
  pub sweep-with_rows :
      (runs : List (Reported × Histogram × List Histogram)) (m : Machine)
      → m.refused (summary_path directory) ≡ false
      → (sweep runs m).files (summary_path directory)
        ≡ with_rows (m.files (summary_path directory)) (rows runs)
  sweep-with_rows [] m free = with_rows-nil (m.files (summary_path directory))
  sweep-with_rows ((r, histogram, seconds) ∷ runs) m free =
      let done = write_csv-row r histogram seconds m free in
      sweep-with_rows runs (write_csv double directory protocol r histogram seconds m).1
        (ap (λ f. f (summary_path directory)) (done.1) ∙ free)
      ∙ ap (λ o. with_rows o (rows runs)) (done.0)
      ∙ with_rows-cons (m.files (summary_path directory)) (summary_row double protocol r)
          (rows runs)
