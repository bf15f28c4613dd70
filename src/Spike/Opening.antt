-- ===== src/Spike/Opening.antt =====
-- When an event opens: only after an unbroken streak of samples above the threshold that has lasted
-- as long as the rule asks for, and not before the cooldown is over.
use cost_optimization.Prelude.{
  ℕ, ◌≡◌, refl, ◌≢◌, inl, inr, String, true, false, none, some, ltb, if◌then◌else◌, >>=-eq-some,
  Bool-cases, Option-cases, arith,
}
use cost_optimization.Float64.{Float64, ◌≤F◌}
use cost_optimization.Model.{Time, Trigger, sub_lt, is_zero}
use cost_optimization.Config.{SpikesConfig}
use cost_optimization.Spike.{OpenEvent, SeriesState}
use cost_optimization.Spike.Baseline.{update_baseline, effective_threshold}
use cost_optimization.Spike.Bounds.{SameMachine, update_baseline-SameMachine}
use cost_optimization.Spike.Detector.{
  StepResult, open_new, step_above, step_idle, step_during, step_open, step_post, step_phase, step,
}

-- When the climb that a sample at `ts` belongs to began.
abbrev pub climb_start : Time → Time → Time
climb_start above_since ts = if is_zero above_since then ts else above_since

module _ {F : Type 0} ⦃f : Float64 F⦄ where
  -- A sample above the threshold in force, outside an event and after the cooldown.
  pub record IsClimb (st : SeriesState F) (ts : Time) (val : F) : Type 0 where
    pub idle : st.open_event ≡ none
    pub fresh : SeriesState F
    pub updated : update_baseline st val ≡ some fresh
    pub above : ((effective_threshold fresh).0 ≤F val) ≡ true
    pub cooled : ltb ts st.cooldown_till ≡ false

  step_idle_opens :
      (n : ℕ) (st : SeriesState F) (id : String) (ts : Time) (val : F) (th : F × Trigger)
      {r : StepResult F} {oe : OpenEvent F}
      → st.open_event ≡ none
      → step_idle n st id ts val th ≡ some r
      → r.state.open_event ≡ some oe
      → ((th.0 ≤F val) ≡ true)
        × (ltb ts st.cooldown_till ≡ false)
        × (oe.ev.start_ts ≡ climb_start st.above_since ts)
        × (sub_lt ts oe.ev.start_ts st.rule.sustained ≡ false)
        × (r.state.above_since ≡ oe.ev.start_ts)
  unfolding step_idle step_above open_new
  step_idle_opens n st id ts val th idle h o = ground arith

  step_idle_climbs :
      (n : ℕ) (st : SeriesState F) (id : String) (ts : Time) (val : F) (th : F × Trigger)
      {r : StepResult F}
      → step_idle n st id ts val th ≡ some r
      → r.state.above_since ≢ 0
      → ((th.0 ≤F val) ≡ true)
        × (ltb ts st.cooldown_till ≡ false)
        × (r.state.above_since ≡ climb_start st.above_since ts)
  unfolding step_idle step_above open_new
  step_idle_climbs n st id ts val th h o = ground arith

  step_open_ends :
      (cfg : SpikesConfig F) (n : ℕ) (st : SeriesState F) (oe : OpenEvent F) (ts : Time) (val : F)
      {r : StepResult F}
      → step_open cfg n st oe ts val ≡ some r
      → r.state.open_event ≡ none
      → r.state.above_since ≡ 0
  unfolding step_open step_post step_during
  step_open_ends cfg n st oe ts val h o = ground arith

  -- From a step outside an event to the step of the idle machine.
  idle_inversion :
      (cfg : SpikesConfig F) (n : ℕ) (st : SeriesState F) (id : String) (ts : Time) (val : F)
      {r : StepResult F}
      → st.open_event ≡ none
      → step cfg n st id ts val ≡ some r
      → (st1 : SeriesState F) × (update_baseline st val ≡ some st1)
        × SameMachine st st1
        × (step_idle n st1 id ts val (effective_threshold st1) ≡ some r)
  unfolding step step_phase
  idle_inversion cfg n st id ts val idle h =
      let (st1, e1, e2) = >>=-eq-some (update_baseline st val) _ h in
      let same = update_baseline-SameMachine st val e1 in (st1, e1, same, ground arith)

  step-IsClimb :
      (cfg : SpikesConfig F) (n : ℕ) (st : SeriesState F) (id : String) (ts : Time) (val : F)
      {r : StepResult F}
      → st.open_event ≡ none
      → step cfg n st id ts val ≡ some r
      → r.state.above_since ≢ 0
      → IsClimb st ts val × (r.state.above_since ≡ climb_start st.above_since ts)
  step-IsClimb cfg n st id ts val idle h o =
      let (st1, e1, same, e2) = idle_inversion cfg n st id ts val idle h in
      let facts = step_idle_climbs n st1 id ts val (effective_threshold st1) e2 o in
      (
        record { idle = idle; fresh = st1; updated = e1; above = facts.0; cooled = ground arith },
        ground arith,
      )

  busy_ends :
      (cfg : SpikesConfig F) (n : ℕ) (st : SeriesState F) (oe : OpenEvent F) (id : String)
      (ts : Time) (val : F) {r : StepResult F}
      → st.open_event ≡ some oe
      → step cfg n st id ts val ≡ some r
      → r.state.open_event ≡ none
      → r.state.above_since ≡ 0
  unfolding step step_phase update_baseline
  busy_ends cfg n st oe id ts val {r = r} busy h o =
      step_open_ends cfg n st oe ts val {r = r} (ground arith) o

module _ {F : Type 0} ⦃f : Float64 F⦄ (cfg : SpikesConfig F) where
  -- The states that a series gets into, from one that has just been made.
  pub data Reached : SeriesState F → Type 0 where
    made : {st : SeriesState F} → st.above_since ≡ 0 → st.open_event ≡ none → Reached st
    stepped :
        {st st1 : SeriesState F} (n : ℕ) (id : String) (ts : Time) (val : F) (r : StepResult F)
        → Reached st
        → step cfg n st id ts val ≡ some r
        → st1 ≡ r.state
        → Reached st1

  -- An unbroken run of samples above the threshold, the first of them at the given time.
  pub data Streak : Time → SeriesState F → Type 0 where
    first :
        {start : Time} {st st1 : SeriesState F} (n : ℕ) (id : String) (ts : Time) (val : F)
        (r : StepResult F)
        → IsClimb st ts val
        → step cfg n st id ts val ≡ some r
        → start ≡ ts
        → st1 ≡ r.state
        → Streak start st1
    again :
        {start : Time} {st st1 : SeriesState F} (n : ℕ) (id : String) (ts : Time) (val : F)
        (r : StepResult F)
        → Streak start st
        → IsClimb st ts val
        → step cfg n st id ts val ≡ some r
        → st1 ≡ r.state
        → Streak start st1

  extend-Streak :
      {start : Time} {st st1 : SeriesState F} (n : ℕ) (id : String) (ts : Time) (val : F)
      (r : StepResult F)
      → (st.above_since ≢ 0 → Streak st.above_since st)
      → IsClimb st ts val
      → step cfg n st id ts val ≡ some r
      → start ≡ climb_start st.above_since ts
      → st1 ≡ r.state
      → Streak start st1
  extend-Streak {start} {st} n id ts val r ih climb h e s =
      elim (Bool-cases (is_zero st.above_since)) [
        | inl zero_time ↦ first n id ts val r climb h (ground arith) s
        | inr climbing ↦
            let same : start ≡ st.above_since = ground arith in
            rw same (again n id ts val r (ih (ground arith)) climb h s)
      ]

  pub Reached-Streak :
      {st : SeriesState F}
      → Reached st
      → st.open_event ≡ none
      → st.above_since ≢ 0
      → Streak st.above_since st
  Reached-Streak (made zero_time idle) o a = absurd (a zero_time)
  Reached-Streak {st = st1} (stepped {st = st} n id ts val r reached h s) o a =
      elim (Option-cases st.open_event) [
        | inl idle ↦
            let (climb, e) = step-IsClimb cfg n st id ts val idle h (ground arith) in
            extend-Streak n id ts val r (Reached-Streak reached idle) climb h (ground arith) s
        | inr (oe, busy) ↦ absurd (a (ground (arith, busy_ends cfg n st oe id ts val busy h)))
      ]

  -- From a state that a series gets into: where a step opens an event, every sample from the event's
  -- start on was above the threshold in force and none fell into the cooldown, and that streak has
  -- lasted at least as long as the rule asks for.
  pub opened-Streak :
      {st : SeriesState F} (n : ℕ) (id : String) (ts : Time) (val : F) (r : StepResult F)
      (oe : OpenEvent F)
      → Reached st
      → st.open_event ≡ none
      → step cfg n st id ts val ≡ some r
      → r.state.open_event ≡ some oe
      → Streak oe.ev.start_ts r.state × (sub_lt ts oe.ev.start_ts st.rule.sustained ≡ false)
  opened-Streak {st} n id ts val r oe reached idle h o =
      let (st1, e1, same, e2) = idle_inversion cfg n st id ts val idle h in
      let facts = step_idle_opens n st1 id ts val (effective_threshold st1) (ground arith) e2 o in
      let climb : IsClimb st ts val = record {
        idle = idle;
        fresh = st1;
        updated = e1;
        above = facts.0;
        cooled = ground arith;
      } in
      (
        extend-Streak n id ts val r (Reached-Streak reached idle) climb h (ground arith) refl,
        ground arith,
      )
