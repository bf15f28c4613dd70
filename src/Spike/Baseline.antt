-- ===== src/Spike/Baseline.antt =====
-- The baseline of a series: median and MAD of its recent values, and the threshold they give.
use cost_optimization.Prelude.{
  ◌+◌, ◌%◌, Bool, ◌&&◌, ◌||◌, Option, none, some, List, [], ◌∷◌, ◌++◌, map, length, set_elem?,
  sort_by, leb, ltb, if◌then◌else◌, ◌>>=◌,
}
use cost_optimization.Float64.{Float64, ◌+F◌, ◌-F◌, ◌*F◌, ◌<F◌, lit, float_less}
use cost_optimization.Model.{Trigger, static, baseline_deviation}
use cost_optimization.Quantile.{quantile}
use cost_optimization.Spike.{SeriesState, baseline_window, baseline_min_samples}

module _ {F : Type 0} ⦃f : Float64 F⦄ where
  -- `quantileSorted` is `Quantile`.
  unfoldable pub median_mad : List F → Option (F × F)
  median_mad [] = some (lit 0 1, lit 0 1)
  median_mad (v ∷ vals) = do
    med ← quantile (sort_by float_less (v ∷ vals)) (lit 1 2)
    let dev = sort_by float_less (map (λ x. f.fabs (x -F med)) (sort_by float_less (v ∷ vals)))
    mad ← quantile dev (lit 1 2)
    some (med, mad)

  unfoldable pub mad_to_sigma : F → F
  mad_to_sigma mad = let s = lit 14826 10000 *F mad in if s <F lit 1 1 then lit 1 1 else s

  -- The new value goes to the end, or over the oldest one once the window is full.
  unfoldable pub record_value : SeriesState F → F → Option (SeriesState F)
  record_value st val =
      if ltb (length st.hist) baseline_window
      then some (record st { hist = st.hist ++ val ∷ [] })
      else (do
        hist ← set_elem? st.hist st.hist_pos val
        some (record st {
          hist = hist;
          hist_pos = (st.hist_pos + 1) % baseline_window;
          hist_full = Bool.true;
        }))

  unfoldable pub refresh_baseline : SeriesState F → Option (SeriesState F)
  refresh_baseline st =
      if leb 20 (st.base_age + 1) || f.eq st.baseline (lit 0 1) && leb 4 (length st.hist)
      then (do
        (baseline, mad) ← median_mad st.hist
        some (record st { baseline = baseline; mad = mad; base_age = 0 }))
      else some (record st { base_age = st.base_age + 1 })

  -- Only a sample outside an event counts, so that a spike does not raise its own baseline.
  unfoldable pub update_baseline : SeriesState F → F → Option (SeriesState F)
  update_baseline st val = elim st.open_event [
    | none ↦ do st1 ← record_value st val; refresh_baseline st1
    | some _ ↦ some st
  ]

  -- The threshold of the baseline, not below the floor of the rule.
  unfoldable pub baseline_threshold : SeriesState F → F
  unfolding mad_to_sigma
  baseline_threshold st =
      let bt = st.baseline +F st.rule.baseline_k *F mad_to_sigma st.mad in
      if bt <F st.rule.baseline_floor then st.rule.baseline_floor else bt

  unfoldable pub effective_threshold : SeriesState F → F × Trigger
  unfolding baseline_threshold
  effective_threshold st =
      if lit 0 1 <F st.rule.baseline_k
        && leb baseline_min_samples (length st.hist)
        && baseline_threshold st <F st.rule.static_threshold
      then (baseline_threshold st, baseline_deviation)
      else (st.rule.static_threshold, static)
