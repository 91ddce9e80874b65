-- ===== src/Apps/Results/Accepting.antt =====
-- What `write_csv` of apps/dariyanaap.cpp may throw.
use dariyanaap.Prelude.{ℕ, ◌+◌, ◌≡◌, refl, List, [], ◌∷◌, Option, none, some, false, ◌==◌, if_both}
use dariyanaap.Prelude.Text.{Bytes, codes}
use dariyanaap.Core.Double.{Double}
use dariyanaap.Core.Errors.{is_usage_error, Result, ok, err}
use dariyanaap.Core.Errors as Errors
use dariyanaap.Stats.Histogram.{Histogram, percentile}
use dariyanaap.Stats.Summary.{value}
use dariyanaap.Stats.Csv.{write_histogram, write_timeseries, second_rows, second_fields}
use dariyanaap.Apps.Machine.{Machine, App, carry_on, ◌>>=◌, ◌>>◌, lift, append_file, write_file}
use dariyanaap.Apps.Report.{Reported}
use dariyanaap.Apps.Results.{
  summary_path, histogram_path, series_path, write_summary, write_series, announce, write_run,
  write_csv,
}

-- A result that is no usage error.
abbrev pub Accepts {ℓ} : {A : Type ℓ} → Result A → Type 0
Accepts (ok a) = Unit {0}
Accepts (err e) = is_usage_error e ≡ false

abbrev pub Accepting {ℓ} : {A : Type ℓ} → App A → Type 0
Accepting action = (m : Machine) → Accepts (action m).0

pub carry_on-Accepts {ℓ κ} :
    {A : Type ℓ} {B : Type κ} (r : Result A × Machine) (next : A → App B)
    → Accepts r.0
    → ((a : A) → Accepting (next a))
    → Accepts (carry_on r next).0
carry_on-Accepts (ok a, m) next h k = k a m
carry_on-Accepts (err e, m) next h k = h

pub then-Accepting {ℓ κ} :
    {A : Type ℓ} {B : Type κ} (action : App A) (next : A → App B)
    → Accepting action
    → ((a : A) → Accepting (next a))
    → Accepting (action >>= next)
then-Accepting action next h k m = carry_on-Accepts (action m) next (h m) k

append_file-Accepting : (path text : Bytes) → Accepting (append_file path text)
unfolding append_file
append_file-Accepting path text m =
    if_both (λ (r : Result (Unit {0}) × Machine). Accepts r.0) (m.refused path) _ _ (λ _. refl)
      (λ _. tt)

write_file-Accepting : (path text : Bytes) → Accepting (write_file path text)
unfolding write_file
write_file-Accepting path text m =
    if_both (λ (r : Result (Unit {0}) × Machine). Accepts r.0) (m.refused path) _ _ (λ _. refl)
      (λ _. tt)

pub value-Accepts : (o : Option ℕ) → Accepts (value o)
value-Accepts none = refl
value-Accepts (some v) = tt

pub bind-Accepts {ℓ κ} :
    {A : Type ℓ} {B : Type κ} (r : Result A) (next : A → Result B)
    → Accepts r
    → ((a : A) → Accepts (next a))
    → Accepts (Errors.◌>>=◌ r next)
bind-Accepts (ok a) next h k = k a
bind-Accepts (err e) next h k = h

module _ (double : Double) where
  second_fields-Accepts : (h : Histogram) → Accepts (second_fields double h)
  unfolding second_fields
  second_fields-Accepts h =
      bind-Accepts (value (percentile double h (double.literal 500 1))) _ (value-Accepts _) λ a.
        bind-Accepts (value (percentile double h (double.literal 900 1))) _ (value-Accepts _) λ b.
          bind-Accepts (value (percentile double h (double.literal 990 1))) _ (value-Accepts _)
            λ c. tt

  second_rows-Accepts : (i : ℕ) (seconds : List Histogram) → Accepts (second_rows double i seconds)
  unfolding second_rows
  second_rows-Accepts i [] = tt
  second_rows-Accepts i (h ∷ seconds) =
      bind-Accepts _ _
        (if_both Accepts (h.count == 0) (ok (codes "0,0,0,0\n")) (second_fields double h) (λ _. tt)
          (λ _. second_fields-Accepts h))
        λ fields.
          bind-Accepts (second_rows double (i + 1) seconds) _ (second_rows-Accepts (i + 1) seconds)
            λ rest. tt

  write_timeseries-Accepts : (seconds : List Histogram) → Accepts (write_timeseries double seconds)
  unfolding write_timeseries
  write_timeseries-Accepts seconds =
      bind-Accepts (second_rows double 0 seconds) _ (second_rows-Accepts 0 seconds) λ rows. tt

  module _ (directory protocol : Bytes) where
    write_series-Accepting :
        (seconds : List Histogram) → Accepting (write_series double directory protocol seconds)
    write_series-Accepting [] m = tt
    write_series-Accepting (h ∷ seconds) m =
        then-Accepting (lift (write_timeseries double (h ∷ seconds))) _
          (λ n. write_timeseries-Accepts (h ∷ seconds))
          (λ rows.
            then-Accepting (write_file (series_path directory) rows) _
              (write_file-Accepting (series_path directory) rows) (λ u n. tt))
          m

    pub write_csv-Accepting :
        (r : Reported) (histogram : Histogram) (seconds : List Histogram)
        → Accepting (write_csv double directory protocol r histogram seconds)
    unfolding write_csv write_summary
    write_csv-Accepting r histogram seconds =
        then-Accepting (write_summary double directory protocol r)
          (λ u. write_run double directory protocol histogram seconds)
          (λ m. append_file-Accepting (summary_path directory) _ m)
          (λ u.
            then-Accepting (write_file (histogram_path directory) (write_histogram histogram))
              (λ v.
                announce double directory protocol
                >> write_series double directory protocol seconds)
              (write_file-Accepting (histogram_path directory) (write_histogram histogram))
              (λ v.
                then-Accepting (announce double directory protocol)
                  (λ w. write_series double directory protocol seconds) (λ m. tt)
                  (λ w. write_series-Accepting seconds)))
