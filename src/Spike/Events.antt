-- ===== src/Spike/Events.antt =====
-- The life of an open event: the baseline rests while it lasts, its peak bounds its samples, it
-- closes after a minute below the threshold, and the cooldown keeps the series quiet after it.
use cost_optimization.Prelude.{
  ℕ, ◌<◌, ◌≡◌, String, true, Option, none, some, List, [], ◌∷◌, ltb, ◌>>=◌, >>=-eq-some, All, arith,
}
use cost_optimization.Float64.{Float64}
use cost_optimization.Model.{Time, SpikeEvent, add_time}
use cost_optimization.Config.{SpikesConfig}
use cost_optimization.Spike.{OpenEvent, SeriesState}
use cost_optimization.Spike.Baseline.{update_baseline}
use cost_optimization.Spike.Bounds.{update_baseline-SameMachine}
use cost_optimization.Spike.Detector.{
  StepResult, open_new, step_above, step_idle, step_during, step_open, step_post, step_phase, step,
}

module _ {F : Type 0} ⦃f : Float64 F⦄ where
  -- While an event is open, capture after it included, a step changes nothing that the baseline
  -- consists of.
  pub baseline_frozen :
      (cfg : SpikesConfig F) (n : ℕ) (st : SeriesState F) (id : String) (ts : Time) (val : F)
      (oe : OpenEvent F) (r : StepResult F)
      → st.open_event ≡ some oe
      → step cfg n st id ts val ≡ some r
      → (r.state.hist ≡ st.hist)
        × (r.state.hist_pos ≡ st.hist_pos)
        × (r.state.baseline ≡ st.baseline)
        × (r.state.mad ≡ st.mad)
        × (r.state.base_age ≡ st.base_age)
  unfolding step step_phase update_baseline step_open step_post step_during
  baseline_frozen cfg n st id ts val oe r busy h = ground arith

  quiet_step :
      (cfg : SpikesConfig F) (n : ℕ) (st : SeriesState F) (id : String) (ts : Time) (val : F)
      {r : StepResult F}
      → st.open_event ≡ none
      → ltb ts st.cooldown_till ≡ true
      → step cfg n st id ts val ≡ some r
      → (r.done ≡ none)
        × (r.open_count ≡ n)
        × (r.state.open_event ≡ none)
        × (r.state.cooldown_till ≡ st.cooldown_till)
  unfolding step step_phase step_idle
  quiet_step cfg n st id ts val idle cool h =
      let (st1, e1, e2) = >>=-eq-some (update_baseline st val) _ h in
      let same = update_baseline-SameMachine st val e1 in ground arith

  -- The samples of one series, one after the other, each with the identifier that an event would get.
  unfoldable pub feed :
      SpikesConfig F
      → ℕ
      → SeriesState F
      → List (String × Time × F)
      → Option (SeriesState F × ℕ × List (SpikeEvent F))
  feed cfg n st [] = some (st, n, [])
  feed cfg n st ((id, ts, val) ∷ samples) = do
    r ← step cfg n st id ts val
    (st1, n1, events) ← feed cfg r.open_count r.state samples
    some (st1, n1, elim r.done [ none ↦ events | some ev ↦ ev ∷ events ])

  -- The step that completes an event starts the cooldown and leaves no climb behind.
  pub done-cooldown :
      (cfg : SpikesConfig F) (n : ℕ) (st : SeriesState F) (id : String) (ts : Time) (val : F)
      (ev : SpikeEvent F) (r : StepResult F)
      → step cfg n st id ts val ≡ some r
      → r.done ≡ some ev
      → (r.state.open_event ≡ none)
        × (r.state.above_since ≡ 0)
        × (r.state.cooldown_till ≡ add_time ts cfg.cooldown)
  unfolding step step_phase step_open step_post step_idle step_above open_new step_during
  done-cooldown cfg n st id ts val ev r h d =
      let (st1, e1, e2) = >>=-eq-some (update_baseline st val) _ h in ground arith

  -- Where no event is open: however many samples come before the cooldown is over, and whatever their
  -- values, no event opens and none completes.
  pub cooldown_quiet :
      (cfg : SpikesConfig F) (n : ℕ) (st : SeriesState F) (samples : List (String × Time × F))
      (st1 : SeriesState F) (n1 : ℕ) (events : List (SpikeEvent F))
      → st.open_event ≡ none
      → All (λ s. s.1 < st.cooldown_till) samples
      → feed cfg n st samples ≡ some (st1, n1, events)
      → (events ≡ []) × (n1 ≡ n) × (st1.open_event ≡ none)
  unfolding feed
  cooldown_quiet cfg n st [] st1 n1 events idle early h = ground arith
  cooldown_quiet cfg n st ((id, ts, val) ∷ samples) st1 n1 events idle early h =
      let (r, e1, e2) = >>=-eq-some (step cfg n st id ts val) _ h in
      let ((st2, n2, more), e3, e4) = >>=-eq-some (feed cfg r.open_count r.state samples) _ e2 in
      let facts = quiet_step cfg n st id ts val idle (ground arith) e1 in
      let rest =
        cooldown_quiet cfg r.open_count r.state samples st2 n2 more facts.2 (rw facts.3 early.1)
          e3 in
      ground arith
