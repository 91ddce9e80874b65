-- ===== src/Apps/Results.antt =====
-- `write_csv` of apps/dariyanaap.cpp: the files that a run leaves.
pub mod Sweep
pub mod Accepting
use dariyanaap.Prelude.{
  ℕ, zero, suc, List, [], ◌∷◌, ◌++◌, Option, none, some, Bool, true, false, if◌then◌else◌, length,
}
use dariyanaap.Prelude.Text.{Bytes, codes, to_string, concat}
use dariyanaap.Core.Double.{Double}
use dariyanaap.Core.Endpoint.{Endpoint, str}
use dariyanaap.Stats.Histogram.{Histogram}
use dariyanaap.Stats.Summary.{Summary}
use dariyanaap.Stats.Csv.{
  quoted, comma, then_comma, write_summary_header, write_summary_row, write_absent_summary_row,
  write_histogram, write_timeseries,
}
use dariyanaap.Apps.Machine.{
  Machine, App, ◌>>=◌, ◌>>◌, pure, lift, print, exists, append_file, write_file,
}
use dariyanaap.Apps.Report.{Reported}

abbrev pub run_columns : Bytes
run_columns =
    codes
      "target,protocol,mode,connections_requested,connections_started,connections_opened,clock_resolution_ns,"

-- The header of summary.csv, which a file gets that is new.
unfoldable pub summary_header : Bytes
summary_header = run_columns ++ write_summary_header

abbrev pub latency_fields : Double → Option Summary → Bytes
latency_fields double none = write_absent_summary_row
latency_fields double (some s) = write_summary_row double s

unfoldable pub summary_row : Double → Bytes → Reported → Bytes
summary_row double protocol r = then_comma (quoted (str r.target)) (
    then_comma (quoted protocol) (
      then_comma (quoted r.mode) (
        then_comma (to_string r.requested) (
          then_comma (to_string r.started) (
            then_comma (to_string r.opened)
              (then_comma (to_string r.resolution) (latency_fields double r.result.latency)))))))

abbrev pub summary_path : Bytes → Bytes
summary_path directory = directory ++ codes "/summary.csv"

abbrev pub histogram_path : Bytes → Bytes
histogram_path directory = directory ++ codes "/histogram.csv"

abbrev pub series_path : Bytes → Bytes
series_path directory = directory ++ codes "/timeseries.csv"

module _ (double : Double) (directory protocol : Bytes) where
  -- The row, and the header before it if the file is new.
  unfoldable pub write_summary : Reported → App (Unit {0})
  write_summary r m =
      append_file (summary_path directory)
        ((if exists (summary_path directory) m then [] else summary_header)
          ++ summary_row double protocol r)
        m

  abbrev pub write_series : List Histogram → App (Unit {0})
  write_series [] = pure tt
  write_series (h ∷ seconds) = do
    rows ← lift (write_timeseries double (h ∷ seconds))
    write_file (series_path directory) rows
    print (
        concat (
          codes "  wrote "
          ∷ series_path directory
          ∷ codes " ("
          ∷ to_string (length (h ∷ seconds))
          ∷ codes " seconds)\n"
          ∷ []))

  abbrev pub announce : App (Unit {0})
  announce = print (
      concat (
        codes "  wrote "
        ∷ summary_path directory
        ∷ codes " and "
        ∷ histogram_path directory
        ∷ codes "\n"
        ∷ []))

  -- The files that each run writes anew.
  abbrev pub write_run : Histogram → List Histogram → App (Unit {0})
  write_run histogram per_second = do
    write_file (histogram_path directory) (write_histogram histogram)
    announce
    write_series per_second

  unfoldable pub write_csv : Reported → Histogram → List Histogram → App (Unit {0})
  write_csv r histogram per_second = do write_summary r; write_run histogram per_second
