-- ===== src/Spike/Invariant.antt =====
-- The invariant of a series, kept by every step: its buffers, its window and the samples of its open
-- event keep their caps, and so does every event that a step completes.
use cost_optimization.Prelude.{
  ℕ, ◌≤◌, ◌≡◌, String, Bool, not, ◌||◌, Option, none, some, length, ltb, >>=-eq-some, Bool-cases,
  Option-cases, inl, inr, arith, subst, then_of_true, else_of_false,
}
use cost_optimization.Float64.{Float64, ◌≤F◌}
use cost_optimization.Model.{Time, SpikeEvent, Trigger, sub_lt}
use cost_optimization.Config.{SpikesConfig}
use cost_optimization.Spike.{
  OpenEvent, SeriesState, max_pre_points, max_during_points, max_post_points,
}
use cost_optimization.Spike.Buffers.{decimate, append_capped}
use cost_optimization.Spike.Baseline.{update_baseline, effective_threshold}
use cost_optimization.Spike.Bounds.{
  length-push-le, cap-push, length-decimate-le, length-append_capped-le, IsWindow,
  update_baseline_lem,
}
use cost_optimization.Spike.Detector.{
  StepResult, point, extend, step_during, step_post, open_new, step_above, step_idle, step_open,
  step_phase, step,
}

module _ {F : Type 0} where
  pub record IsCapped (ev : SpikeEvent F) : Type 0 where
    pub pre_capped : length ev.pre_samples ≤ max_pre_points
    pub during_capped : length ev.during_samples ≤ max_during_points
    pub post_capped : length ev.post_samples ≤ max_post_points

  abbrev pub OpenCapped : Option (OpenEvent F) → Type 0
  OpenCapped none = Unit {0}
  OpenCapped (some oe) = IsCapped oe.ev

  abbrev pub DoneCapped : Option (SpikeEvent F) → Type 0
  DoneCapped none = Unit {0}
  DoneCapped (some ev) = IsCapped ev

  pub record IsBounded (st : SeriesState F) : Type 0 where
    pub is_window : IsWindow st
    pub ring : length st.pre.pts ≤ st.pre.cap
    pub open_capped : OpenCapped st.open_event

module _ {F : Type 0} ⦃f : Float64 F⦄ where
  extend-IsCapped :
      (ev : SpikeEvent F) (ts : Time) (val : F) {ev1 : SpikeEvent F}
      → IsCapped ev
      → extend ev ts val ≡ some ev1
      → IsCapped ev1
  unfolding extend
  extend-IsCapped ev ts val c h =
      let (during, e1, e2) =
        >>=-eq-some (append_capped ev.during_samples (point ts val) max_during_points) _ h in
      ground (
        arith,
        length-append_capped-le ev.during_samples (point ts val) max_during_points (omega arith) e1,
      )

  step_during-IsBounded :
      (cfg : SpikesConfig F) (st : SeriesState F) (oe : OpenEvent F) (ts : Time) (val : F)
      (above : Bool) {st1 : SeriesState F}
      → IsBounded st
      → IsCapped oe.ev
      → step_during cfg st oe ts val above ≡ some st1
      → IsBounded st1
  unfolding step_during
  step_during-IsBounded cfg st oe ts val above b c h =
      let (ev, e1, e2) = >>=-eq-some (extend oe.ev ts val) _ h in
      ground (arith, extend-IsCapped oe.ev ts val c e1)

  step_post-IsBounded :
      (cfg : SpikesConfig F) (n : ℕ) (st : SeriesState F) (oe : OpenEvent F) (ts : Time) (val : F)
      {r : StepResult F}
      → IsBounded st
      → IsCapped oe.ev
      → step_post cfg n st oe ts val ≡ some r
      → IsBounded r.state × DoneCapped r.done
  unfolding step_post
  step_post-IsBounded cfg n st oe ts val b c h =
      let (post, e1, e2) =
        >>=-eq-some (append_capped oe.ev.post_samples (point ts val) max_post_points) _ h in
      ground (
        arith,
        length-append_capped-le oe.ev.post_samples (point ts val) max_post_points (omega arith) e1,
      )

  open_new-IsBounded :
      (st : SeriesState F) (id : String) (ts : Time) (val : F) (th : F × Trigger)
      {st1 : SeriesState F}
      → IsBounded st
      → open_new st id ts val th ≡ some st1
      → IsBounded st1
  unfolding open_new
  open_new-IsBounded st id ts val th b h =
      let (pre, e1, e2) = >>=-eq-some (decimate st.pre.pts max_pre_points) _ h in
      ground (arith, length-decimate-le st.pre.pts max_pre_points (omega arith) e1)

  step_above-IsBounded :
      (n : ℕ) (st : SeriesState F) (id : String) (ts : Time) (val : F) (th : F × Trigger)
      {r : StepResult F}
      → IsBounded st
      → step_above n st id ts val th ≡ some r
      → IsBounded r.state × DoneCapped r.done
  unfolding step_above
  step_above-IsBounded n st id ts val th b h =
      elim (Bool-cases (sub_lt ts st.above_since st.rule.sustained)) [
        | inl short ↦ ground arith
        | inr long ↦
            let (st1, e1, e2) = >>=-eq-some (open_new st id ts val th) _ (rw long at h) in
            ground (arith, open_new-IsBounded st id ts val th b e1)
      ]

  step_idle-IsBounded :
      (n : ℕ) (st : SeriesState F) (id : String) (ts : Time) (val : F) (th : F × Trigger)
      {r : StepResult F}
      → IsBounded st
      → step_idle n st id ts val th ≡ some r
      → IsBounded r.state × DoneCapped r.done
  unfolding step_idle
  step_idle-IsBounded n st id ts val th b h =
      let fits = length-push-le st.pre (point ts val) in
      elim (Bool-cases (not (th.0 ≤F val) || ltb ts st.cooldown_till)) [
        | inl quiet ↦ let e = rw quiet at h in ground (arith, cap-push st.pre (point ts val))
        | inr climb ↦
            step_above-IsBounded n _ id ts val th
              (record {
                is_window = omega arith;
                ring = rw cap-push fits;
                open_capped = b.open_capped;
              })
              (rw climb at h)
      ]

  step_open-IsBounded :
      (cfg : SpikesConfig F) (n : ℕ) (st : SeriesState F) (oe : OpenEvent F) (ts : Time) (val : F)
      {r : StepResult F}
      → IsBounded st
      → IsCapped oe.ev
      → step_open cfg n st oe ts val ≡ some r
      → IsBounded r.state × DoneCapped r.done
  unfolding step_open
  step_open-IsBounded cfg n st oe ts val b c h = elim (Bool-cases oe.in_post) [
    | inl post ↦ step_post-IsBounded cfg n st oe ts val b c (then_of_true _ _ post h)
    | inr during ↦
        let (st1, e1, e2) =
          >>=-eq-some (step_during cfg st oe ts val ((effective_threshold st).0 ≤F val)) _
            (else_of_false _ _ during h) in
        ground (arith, step_during-IsBounded cfg st oe ts val _ b c e1)
  ]

  step_phase-IsBounded :
      (cfg : SpikesConfig F) (n : ℕ) (st : SeriesState F) (id : String) (ts : Time) (val : F)
      {r : StepResult F}
      → IsBounded st
      → step_phase cfg n st id ts val ≡ some r
      → IsBounded r.state × DoneCapped r.done
  unfolding step_phase
  step_phase-IsBounded cfg n st id ts val b h = elim (Option-cases st.open_event) [
    | inl idle ↦
        step_idle-IsBounded n st id ts val (effective_threshold st) b (rw (idle, step_phase) at h)
    | inr (oe, busy) ↦
        step_open-IsBounded cfg n st oe ts val b (subst OpenCapped busy b.open_capped)
          (rw (busy, step_phase) at h)
  ]

  -- Every step keeps the caps of the series, and an event that it completes has at most 120 samples
  -- from before the event, 360 from the event and 60 from after it.
  pub step-IsBounded :
      (cfg : SpikesConfig F) (n : ℕ) (st : SeriesState F) (id : String) (ts : Time) (val : F)
      {r : StepResult F}
      → IsBounded st
      → step cfg n st id ts val ≡ some r
      → IsBounded r.state × DoneCapped r.done
  unfolding step
  step-IsBounded cfg n st id ts val b h =
      let (st1, e1, e2) = >>=-eq-some (update_baseline st val) _ h in
      let (w, same) = update_baseline_lem st val b.is_window e1 in
      step_phase-IsBounded cfg n st1 id ts val
        (record {
          is_window = w;
          ring = rw same.pre b.ring;
          open_capped = rw same.open_event b.open_capped;
        })
        e2
