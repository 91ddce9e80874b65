-- ===== src/Apps/HistogramVerifier/Drawing.antt =====
-- The samples that apps/hist_verify.cpp draws, and how many of them it records.
use dariyanaap.Prelude.{
  ℕ, zero, suc, ◌≤◌, ◌<◌, ◌≡◌, refl, ap, ◌∙◌, List, [], u64_mod, length, ◌==◌, if_both, arith,
}
use dariyanaap.Stats.Buckets.{max_value}
use dariyanaap.Stats.Histogram.{empty}
use dariyanaap.Stats.Histogram.Tally.{tally, record_all-tally}
use dariyanaap.Stats.Histogram.Ranks.{rank}
use dariyanaap.Apps.HistogramVerifier.{Generator, draw_sample, draw, record_each}
use dariyanaap.Apps.HistogramVerifier.Sorting.{}
use dariyanaap.Apps.HistogramVerifier.Truth.{history, record_each-history, length-history}

module _ (generator : Generator) where
  open generator use {State, body}

  pub length-draw : (n : ℕ) (state : State) → length (draw generator n state) ≡ n
  unfolding draw
  length-draw zero state = refl
  length-draw (suc n) state = ap suc (length-draw n _)

  pub draw-positive : (n : ℕ) (state : State) → rank (draw generator n state) 0 ≡ 0
  unfolding draw
  draw-positive zero state = refl
  draw-positive (suc n) state = ground (arith, draw-positive n (draw_sample generator state).1)

  module _ (small : (state : State) → (body state).0 ≤ max_value) where
    draw_sample-small : (state : State) → (draw_sample generator state).0 ≤ max_value
    unfolding draw_sample
    draw_sample-small state =
        if_both (λ (r : ℕ × State). r.0 ≤ max_value) ((generator.spike state).0 == 1)
          (500_000_000, (generator.spike state).1) (body (generator.spike state).1)
          (λ _. omega arith) (λ _. small (generator.spike state).1)

    pub draw-small : (n : ℕ) (state : State) → rank (draw generator n state) max_value ≡ n
    unfolding draw
    draw-small zero state = refl
    draw-small (suc n) state =
        ground (arith, draw_sample-small state, draw-small n (draw_sample generator state).1)

pub record_each-count :
    (xs : List ℕ) → length xs < u64_mod → (record_each xs empty).count ≡ length xs
unfolding tally
record_each-count xs h =
    ap (λ k. k.count) (record_each-history xs [])
    ∙ ap (λ k. k.count) (record_all-tally (history xs []) (omega (arith, length-history xs [])))
    ∙ omega (arith, length-history xs [])
