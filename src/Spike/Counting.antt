-- ===== src/Spike/Counting.antt =====
-- `openCount`, by which the agent learns of a capture in progress, is the number of series with an
-- open event, whatever samples the detector is offered.
use cost_optimization.Prelude.{
  ℕ, ◌+◌, ◌≤◌, ◌<◌, ◌≡◌, refl, ◌↔◌, inl, inr, String, true, Option, none, some, List, [], ◌∷◌, ◌++◌,
  ◌>>=◌, >>=-eq-some, Option-cases, sum_of, arith, ap,
}
use cost_optimization.Prelude.Assoc.{Map, lookup, insert, weight, sum_of-insert, weight-le-sum_of}
use cost_optimization.Float64.{Float64}
use cost_optimization.Model.{Time, SpikeEvent}
use cost_optimization.Config.{SpikeRule, SpikesConfig, Config}
use cost_optimization.Spike.{Key, Point, OpenEvent, SeriesState, SpikeDetector, key_eq}
use cost_optimization.Spike.Baseline.{update_baseline}
use cost_optimization.Spike.Bounds.{update_baseline-SameMachine}
use cost_optimization.Spike.Detector.{
  StepResult, open_new, step_above, step_idle, step_during, step_open, step_post, step_phase, step,
  rule_for, new_series, series_for, offer_one, offer_all, offer, new_detector, capture_active,
}

module _ {F : Type 0} where
  abbrev pub is_open_event : Option (OpenEvent F) → ℕ
  is_open_event none = 0
  is_open_event (some oe) = 1

  abbrev pub is_open : SeriesState F → ℕ
  is_open st = is_open_event st.open_event

  abbrev pub open_series : SpikeDetector F → ℕ
  open_series d = sum_of (λ p. is_open p.1) d.series

module _ {F : Type 0} ⦃f : Float64 F⦄ where
  phase_counts :
      (cfg : SpikesConfig F) (n : ℕ) (st : SeriesState F) (id : String) (ts : Time) (val : F)
      {r : StepResult F}
      → is_open st ≤ n
      → step_phase cfg n st id ts val ≡ some r
      → r.open_count + is_open st ≡ n + is_open r.state
  unfolding step_phase step_idle step_above open_new step_open step_post step_during
  phase_counts cfg n st id ts val le h = ground arith

  step_counts :
      (cfg : SpikesConfig F) (n : ℕ) (st : SeriesState F) (id : String) (ts : Time) (val : F)
      {r : StepResult F}
      → is_open st ≤ n
      → step cfg n st id ts val ≡ some r
      → r.open_count + is_open st ≡ n + is_open r.state
  unfolding step
  step_counts cfg n st id ts val le h =
      let (st1, e1, e2) = >>=-eq-some (update_baseline st val) _ h in
      let same = update_baseline-SameMachine st val e1 in
      let kept : is_open st1 ≡ is_open st = ap is_open_event same.open_event in
      let counts = phase_counts cfg n st1 id ts val (rw kept le) e2 in rw (← kept) counts

  series_for-weight :
      (d : SpikeDetector F) (rule : SpikeRule F) (key : Key) {st : SeriesState F}
      → series_for d rule key ≡ some st
      → weight is_open (lookup key d.series) ≡ is_open st
  unfolding series_for new_series
  series_for-weight d rule key h = ground arith

  offer_one_counts :
      (d : SpikeDetector F) (ids : Key → String) (ts : Time) (key : Key) (val : F)
      {d1 : SpikeDetector F} {events : List (SpikeEvent F)}
      → d.open_count ≡ open_series d
      → offer_one d ids ts key val ≡ some (d1, events)
      → d1.open_count ≡ open_series d1
  unfolding offer_one
  offer_one_counts d ids ts key val {d1} c h =
      elim (Option-cases (rule_for d.cfg.spikes.rules key.resource)) [
        | inl other ↦ ground arith
        | inr (rule, hit) ↦
            let (st, e1, e2) = >>=-eq-some (series_for d rule key) _ (rw (hit, offer_one) at h) in
            let (r, e3, e4) =
              >>=-eq-some (step d.cfg.spikes d.open_count st (ids key) ts val) _ e2 in
            let old = series_for-weight d rule key e1 in
            let room = weight-le-sum_of is_open key d.series in
            let counts =
              step_counts d.cfg.spikes d.open_count st (ids key) ts val (omega arith) e3 in
            let write = sum_of-insert is_open key r.state d.series in
            let s1 : d1.series ≡ insert key r.state d.series = ground arith in
            let s2 : d1.open_count ≡ r.open_count = ground arith in rw (s1, s2) (omega arith)
      ]

  offer_all_counts :
      (d : SpikeDetector F) (ids : Key → String) (ts : Time) (values : Map Key F)
      {d1 : SpikeDetector F} {events : List (SpikeEvent F)}
      → d.open_count ≡ open_series d
      → offer_all d ids ts values ≡ some (d1, events)
      → d1.open_count ≡ open_series d1
  unfolding offer_all
  offer_all_counts d ids ts [] c h = ground arith
  offer_all_counts d ids ts ((key, val) ∷ rest) c h =
      let ((d2, e2), p, q) = >>=-eq-some (offer_one d ids ts key val) _ h in
      let ((d3, e3), p1, q1) = >>=-eq-some (offer_all d2 ids ts rest) _ q in
      let done = offer_all_counts d2 ids ts rest (offer_one_counts d ids ts key val c p) p1 in
      ground arith

  -- A run of the detector: what it is offered, one point after the other, each with the identifiers
  -- that new events would get.
  unfoldable pub offers :
      SpikeDetector F
      → List ((Key → String) × Point F)
      → Option (SpikeDetector F × List (SpikeEvent F))
  offers d [] = some (d, [])
  offers d ((ids, p) ∷ points) = do
    (d1, done) ← offer d ids p
    (d2, more) ← offers d1 points
    some (d2, done ++ more)

  offers_count :
      (d : SpikeDetector F) (points : List ((Key → String) × Point F)) {d1 : SpikeDetector F}
      {events : List (SpikeEvent F)}
      → d.open_count ≡ open_series d
      → offers d points ≡ some (d1, events)
      → d1.open_count ≡ open_series d1
  unfolding offers offer
  offers_count d [] c h = ground arith
  offers_count d ((ids, p) ∷ points) c h =
      let ((d2, e2), a, b) = >>=-eq-some (offer_all d ids p.ts p.values) _ h in
      let ((d3, e3), a1, b1) = >>=-eq-some (offers d2 points) _ b in
      let done = offers_count d2 points (offer_all_counts d ids p.ts p.values c a) a1 in
      ground arith

  -- After any run of a new detector, the count of open events is the number of series with an open
  -- event, and a capture is reported exactly where there is one.
  pub capture_active_iff :
      (cfg : Config F) (points : List ((Key → String) × Point F)) (d : SpikeDetector F)
      (events : List (SpikeEvent F))
      → offers (new_detector cfg) points ≡ some (d, events)
      → (d.open_count ≡ open_series d) × ((capture_active d ≡ true) ↔ (0 < open_series d))
  unfolding capture_active new_detector
  capture_active_iff cfg points d events h =
      let counts = offers_count _ points refl h in (counts, ground arith)
