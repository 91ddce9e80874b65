-- ===== src/Apps/HistogramVerifier.antt =====
-- apps/hist_verify.cpp: the histogram against the samples themselves. The generator of random
-- numbers, the clock and `double` are arguments. A sample is a count of nanoseconds and not
-- negative. There is memory for all the samples.
pub mod Sorting
pub mod Truth
pub mod Drawing
pub mod Ranking
pub mod Passing
mod Tests
use dariyanaap.Prelude.{
  ℕ, zero, suc, ◌+◌, ◌-◌, ◌*◌, min, max, List, [], ◌∷◌, ◌++◌, Option, none, some, length, replicate,
  get_elem?, ltb, leb, ◌==◌, if◌then◌else◌, u64, u64_mod,
}
use dariyanaap.Prelude.Text.{Bytes, codes, concat, is_digit, to_string}
use dariyanaap.Core.Double.{Double}
use dariyanaap.Core.Clock.{between}
use dariyanaap.Stats.Buckets
use dariyanaap.Stats.Buckets.{sub_buckets}
use dariyanaap.Stats.Histogram.{Histogram, empty, record_latency, percentile}
use dariyanaap.Stats.Summary.{value}
use dariyanaap.Apps.Formats.{strtoul, pad}
use dariyanaap.Apps.Machine.{Machine, App, ◌>>=◌, ◌>>◌, pure, lift, print}

-- The engine with the two distributions that are drawn from: `spike` is a number from 1 to 1000,
-- `body` the latency of a request that is none, in whole nanoseconds.
pub record Generator : Type 1 where
  pub State : Type 0
  pub seeded : ℕ → State
  pub spike : State → ℕ × State
  pub body : State → ℕ × State

module _ (generator : Generator) where
  open generator use {State, spike, body}

  unfoldable pub draw_sample : State → ℕ × State
  draw_sample state =
      let (roll, after) = spike state in if roll == 1 then (500_000_000, after) else body after

  unfoldable pub draw : ℕ → State → List ℕ
  draw zero state = []
  draw (suc n) state = let (ns, after) = draw_sample state in max ns 1 ∷ draw n after

-- The loop that records the samples.
unfoldable pub record_each : List ℕ → Histogram → Histogram
record_each [] h = h
record_each (ns ∷ rest) h = record_each rest (record_latency h ns)

-- std::sort
unfoldable pub insert : ℕ → List ℕ → List ℕ
insert x [] = x ∷ []
insert x (y ∷ ys) = let later = insert x ys in if leb x y then x ∷ y ∷ ys else y ∷ later

unfoldable pub sort : List ℕ → List ℕ
sort [] = []
sort (x ∷ xs) = insert x (sort xs)

abbrev pub samples_asked : List Bytes → ℕ
samples_asked [] = 1_000_000
samples_asked (text ∷ rest) = strtoul text

-- sizeof(Histogram): the slots, and three numbers of eight bytes.
abbrev pub histogram_size : ℕ
unfolding Buckets.count
histogram_size = 8 * (Buckets.count + 3)

-- What the loop over the percentiles comes to: the worst error, a percentile below the true value,
-- or an access behind the last sample.
pub data Checked (A : Type 0) : Type 0 where
  worst_of : A → Checked A
  under_reported : Checked A
  out_of_range : Checked A

-- How the program ends: it returns, or its behaviour is undefined.
pub data Ending : Type 0 where
  returns : ℕ → Ending
  undefined : Ending

abbrev pub fail_line : Bytes
fail_line = concat (
    codes "  FAIL: reported below the true value "
    ∷ (226 ∷ 128 ∷ 148 ∷ [])
    ∷ codes " the never-under-report guarantee is broken\n"
    ∷ [])

abbrev pub table_head : Bytes
unfolding pad
table_head = concat (
    codes "\n"
    ∷ pad 12 (codes "percentile")
    ∷ codes " "
    ∷ pad 14 (codes "exact ns")
    ∷ codes " "
    ∷ pad 14 (codes "reported ns")
    ∷ codes " "
    ∷ pad 9 (codes "error")
    ∷ codes "\n"
    ∷ [])

module _ (double : Double) where
  open double use {Carrier, literal, of_u64, mul, div, lt, le, neg, abs, ceil, to_u64, print_fixed}

  abbrev pub percentiles : List Carrier
  percentiles = literal 500 1 ∷ literal 900 1 ∷ literal 990 1 ∷ literal 999 1 ∷ literal 1000 1 ∷ []

  -- std::clamp<double> and std::max<double>
  abbrev pub clamp_double : Carrier → Carrier → Carrier → Carrier
  clamp_double x low high = if lt x low then low else if lt high x then high else x

  abbrev pub max_double : Carrier → Carrier → Carrier
  max_double a b = if lt a b then b else a

  unfoldable pub rank_of : Carrier → ℕ → ℕ
  rank_of p samples = to_u64 (
      clamp_double (ceil (mul (div p (literal 100 0)) (of_u64 samples))) (literal 10 1)
        (of_u64 samples))

  -- static_cast<double>(got - truth) / static_cast<double>(truth), the difference signed.
  unfoldable pub relative_error : ℕ → ℕ → Carrier
  relative_error got truth =
      div (if ltb got truth then neg (of_u64 (truth - got)) else of_u64 (got - truth))
        (of_u64 truth)

  unfoldable pub row : Carrier → ℕ → ℕ → Bytes
  row p truth got = concat (
      pad 11 (print_fixed 1 p)
      ∷ codes "% "
      ∷ pad 14 (to_string truth)
      ∷ codes " "
      ∷ pad 14 (to_string got)
      ∷ codes " "
      ∷ pad 8 (print_fixed 4 (mul (relative_error got truth) (literal 1000 1)))
      ∷ codes "%\n"
      ∷ [])

  -- What is done with a percentile whose true value is there; `next` is the rest of the loop.
  unfoldable pub compare_with :
      ℕ → ℕ → Carrier → Carrier → (Carrier → App (Checked Carrier)) → App (Checked Carrier)
  compare_with truth got p worst next =
      print (row p truth got)
      >> (if ltb got truth
          then print fail_line >> pure under_reported
          else next (max_double worst (abs (relative_error got truth))))

  abbrev pub judged :
      Option ℕ
      → Histogram
      → Carrier
      → Carrier
      → (Carrier → App (Checked Carrier))
      → App (Checked Carrier)
  judged none h p worst next = pure out_of_range
  judged (some truth) h p worst next =
      lift (value (percentile double h p)) >>= λ got. compare_with truth got p worst next

  -- The loop over the percentiles.
  unfoldable pub check : List ℕ → Histogram → ℕ → List Carrier → Carrier → App (Checked Carrier)
  check exact h samples [] worst = pure (worst_of worst)
  check exact h samples (p ∷ ps) worst =
      judged (get_elem? exact (rank_of p samples - 1)) h p worst (check exact h samples ps)

  unfoldable pub bound : Carrier
  bound = div (literal 10 1) (of_u64 sub_buckets)

  abbrev verdict_text : Carrier → Bytes
  verdict_text worst = concat (
      codes "\nworst error "
      ∷ print_fixed 4 (mul worst (literal 1000 1))
      ∷ codes "%, bound "
      ∷ print_fixed 4 (mul bound (literal 1000 1))
      ∷ codes "%: "
      ∷ (if le worst bound then codes "PASS" else codes "FAIL")
      ∷ codes "\n"
      ∷ [])

  unfoldable pub conclude : Checked Carrier → App Ending
  unfolding bound
  conclude (worst_of worst) =
      print (verdict_text worst) >> pure (returns (if le worst bound then 0 else 1))
  conclude under_reported = pure (returns 1)
  conclude out_of_range = pure undefined

  unfoldable pub preamble : ℕ → ℕ → Histogram → Bytes
  preamble samples elapsed h = concat (
      codes "samples          "
      ∷ to_string samples
      ∷ codes "\nrecord() cost    "
      ∷ print_fixed 1 (div (of_u64 elapsed) (of_u64 samples))
      ∷ codes " ns/op\nhistogram        "
      ∷ to_string histogram_size
      ∷ codes " bytes, fixed\nexact percentiles need "
      ∷ to_string (u64 (samples * 8))
      ∷ codes " bytes of samples ("
      ∷ print_fixed 0 (div (of_u64 (u64 (samples * 8))) (of_u64 histogram_size))
      ∷ codes "x more)\noverflow         "
      ∷ to_string h.overflow
      ∷ codes "\n"
      ∷ table_head
      ∷ [])

  -- `started` and `ended` are what the clock says before and after the samples are recorded.
  unfoldable pub main : Generator → (started ended : ℕ) → List Bytes → App Ending
  main generator started ended arguments =
      let samples = samples_asked arguments in
      let drawn = draw generator samples (generator.seeded 20_260_902) in
      let h = record_each drawn empty in
      print (preamble samples (between started ended) h)
      >> (check (sort drawn) h samples percentiles (literal 0 1) >>= conclude)
