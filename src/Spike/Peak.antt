-- ===== src/Spike/Peak.antt =====
-- The peak of an event bounds every sample that the event keeps of its duration.
use cost_optimization.Prelude.{
  ℕ, zero, suc, ◌+◌, ◌/◌, ◌≡◌, inl, inr, String, Bool, true, false, ◌||◌, Option, none, some, List,
  [], ◌∷◌, ◌++◌, length, get_elem?, leb, if◌then◌else◌, >>=-eq-some, then_of_true, else_of_false,
  Bool-cases, Option-cases, All, All-append, All-get_elem?, arith, subst, sym, ltb,
}
use cost_optimization.Float64.{Float64, ◌≤F◌, ◌<F◌, ◌*F◌, of_nat, IsStrictOrder}
use cost_optimization.Model.{is_zero, sub_lt, add_time, Time, MetricPoint, SpikeEvent, Trigger}
use cost_optimization.Config.{SpikesConfig}
use cost_optimization.Spike.{OpenEvent, SeriesState, max_during_points, max_post_points}
use cost_optimization.Spike.Buffers.{pick_from, decimate, append_capped}
use cost_optimization.Spike.Baseline.{update_baseline, effective_threshold}
use cost_optimization.Spike.Bounds.{update_baseline-SameMachine}
use cost_optimization.Spike.Detector.{
  StepResult, point, extend, open_new, step_above, step_idle, step_during, step_open, step_post,
  step_phase, step, close, close_below,
}

module _ {F A : Type 0} ⦃f : Float64 F⦄ (P : A → Type 0) where
  All-pick_from :
      (s : List A) (step : F) (i n : ℕ) {out : List A}
      → All P s
      → pick_from s step i n ≡ some out
      → All P out
  unfolding pick_from
  All-pick_from s step i zero a h = ground arith
  All-pick_from s step i (suc n) {out} a h =
      let (p, e, h1) = >>=-eq-some (get_elem? s (f.trunc (of_nat i *F step))) _ h in
      let (rest, e1, h2) = >>=-eq-some (pick_from s step (i + 1) n) _ h1 in
      let here = All-get_elem? P s _ a e in
      let more = All-pick_from s step (i + 1) n a e1 in
      let same : out ≡ p ∷ rest = ground arith in rw same (here, more)

module _ {F : Type 0} ⦃f : Float64 F⦄ (P : MetricPoint F → Type 0) where
  All-decimate :
      (s : List (MetricPoint F)) (target : ℕ) {out : List (MetricPoint F)}
      → All P s
      → decimate s target ≡ some out
      → All P out
  unfolding decimate
  All-decimate s target {out} a h = elim (Bool-cases (leb (length s) target || leb target 0)) [
    | inl short ↦ let same : out ≡ s = ground arith in rw same a
    | inr long ↦ All-pick_from {F = F} P s _ 0 target a (else_of_false _ _ long h)
  ]

  All-append_capped :
      (s : List (MetricPoint F)) (p : MetricPoint F) (cap : ℕ) {out : List (MetricPoint F)}
      → All P s
      → P p
      → append_capped s p cap ≡ some out
      → All P out
  unfolding append_capped
  All-append_capped s p cap {out} a here h = elim (Bool-cases (leb cap (length s))) [
    | inl full ↦
        let e = rw full at h in
        let (kept, e1, e2) = >>=-eq-some (decimate s (cap / 2)) _ e in
        let same : out ≡ kept ++ p ∷ [] = ground arith in
        rw same (All-append P kept (p ∷ []) (All-decimate s (cap / 2) a e1) (here, tt))
    | inr free ↦
        let same : out ≡ s ++ p ∷ [] = ground arith in
        rw same (All-append P s (p ∷ []) a (here, tt))
  ]

module _ {F : Type 0} ⦃f : Float64 F⦄ where
  -- No sample that the event keeps of its duration is above its peak.
  abbrev pub IsPeak : SpikeEvent F → Type 0
  IsPeak ev = All (λ (p : MetricPoint F). (ev.peak <F p.value) ≡ false) ev.during_samples

  abbrev pub OpenPeak : Option (OpenEvent F) → Type 0
  OpenPeak none = Unit {0}
  OpenPeak (some oe) = IsPeak oe.ev

  abbrev pub DonePeak : Option (SpikeEvent F) → Type 0
  DonePeak none = Unit {0}
  DonePeak (some ev) = IsPeak ev

module _ {F : Type 0} ⦃f : Float64 F⦄ (laws : IsStrictOrder F) where
  raise_peak :
      (peak val : F) (s : List (MetricPoint F))
      → (peak <F val) ≡ true
      → All (λ (p : MetricPoint F). (peak <F p.value) ≡ false) s
      → All (λ (p : MetricPoint F). (val <F p.value) ≡ false) s
  raise_peak peak val [] lt a = tt
  raise_peak peak val (p ∷ s) lt (here, rest) =
      (ground (arith, laws.lt_trans peak val p.value), raise_peak peak val s lt rest)

  extend-IsPeak :
      (ev : SpikeEvent F) (ts : Time) (val : F) {ev1 : SpikeEvent F}
      → IsPeak ev
      → extend ev ts val ≡ some ev1
      → IsPeak ev1
  unfolding extend
  extend-IsPeak ev ts val {ev1} a h =
      let (during, e1, e2) =
        >>=-eq-some (append_capped ev.during_samples (point ts val) max_during_points) _ h in
      let same : ev1.during_samples ≡ during = ground arith in
      elim (Bool-cases (ev.peak <F val)) [
        | inl higher ↦
            let top : ev1.peak ≡ val = ground arith in
            rw (same, top)
              (All-append_capped (λ p. (val <F p.value) ≡ false) ev.during_samples (point ts val) _
                (raise_peak ev.peak val ev.during_samples higher a) (laws.lt_irrefl val) e1)
        | inr lower ↦
            let top : ev1.peak ≡ ev.peak = ground arith in
            rw (same, top)
              (All-append_capped (λ p. (ev.peak <F p.value) ≡ false) ev.during_samples
                (point ts val) _ a lower e1)
      ]

  step_post-IsPeak :
      (cfg : SpikesConfig F) (n : ℕ) (st : SeriesState F) (oe : OpenEvent F) (ts : Time) (val : F)
      (r : StepResult F)
      → IsPeak oe.ev
      → step_post cfg n st oe ts val ≡ some r
      → OpenPeak r.state.open_event × DonePeak r.done
  unfolding step_post
  step_post-IsPeak cfg n st oe ts val r a h =
      let (post, e1, e2) =
        >>=-eq-some (append_capped oe.ev.post_samples (point ts val) max_post_points) _ h in
      let ev = record oe.ev { post_samples = post } in
      elim (Bool-cases (ltb oe.post_until ts)) [
        | inl over ↦
            let same : r.state.open_event ≡ none = ground arith in
            let done : r.done ≡ some ev = ground arith in
            (subst OpenPeak (sym same) tt, subst DonePeak (sym done) a)
        | inr more ↦
            let same : r.state.open_event ≡ some (record oe { ev = ev }) = ground arith in
            let done : r.done ≡ none = ground arith in
            (subst OpenPeak (sym same) a, subst DonePeak (sym done) tt)
      ]

  step_during-IsPeak :
      (cfg : SpikesConfig F) (st : SeriesState F) (oe : OpenEvent F) (ts : Time) (val : F)
      (above : Bool) (st1 : SeriesState F)
      → IsPeak oe.ev
      → step_during cfg st oe ts val above ≡ some st1
      → OpenPeak st1.open_event
  unfolding step_during
  step_during-IsPeak cfg st oe ts val above st1 a h =
      let (ev, e1, e2) = >>=-eq-some (extend oe.ev ts val) _ h in
      let kept = extend-IsPeak oe.ev ts val a e1 in
      let below = if is_zero st.below_since then ts else st.below_since in
      elim (Bool-cases (above || sub_lt ts below close_below)) [
        | inl lasts ↦
            let same : st1.open_event ≡ some (record oe { ev = ev }) = ground arith in
            subst OpenPeak (sym same) kept
        | inr over ↦
            let same : st1.open_event
                ≡ some (record {
                  ev = close ev below;
                  in_post = true;
                  post_until = add_time ts cfg.post_capture;
                }) =
              ground arith in
            subst OpenPeak (sym same) kept
      ]

  step_open-IsPeak :
      (cfg : SpikesConfig F) (n : ℕ) (st : SeriesState F) (oe : OpenEvent F) (ts : Time) (val : F)
      (r : StepResult F)
      → IsPeak oe.ev
      → step_open cfg n st oe ts val ≡ some r
      → OpenPeak r.state.open_event × DonePeak r.done
  unfolding step_open
  step_open-IsPeak cfg n st oe ts val r a h = elim (Bool-cases oe.in_post) [
    | inl post ↦ step_post-IsPeak cfg n st oe ts val r a (then_of_true _ _ post h)
    | inr during ↦
        let above = (effective_threshold st).0 ≤F val in
        let (st1, e1, e2) =
          >>=-eq-some (step_during cfg st oe ts val above) _ (else_of_false _ _ during h) in
        let kept = step_during-IsPeak cfg st oe ts val above st1 a e1 in
        let state : r.state ≡ st1 = ground arith in
        let done : r.done ≡ none = ground arith in
        (subst (λ s. OpenPeak s.open_event) (sym state) kept, subst DonePeak (sym done) tt)
  ]

  step_idle-IsPeak :
      (n : ℕ) (st : SeriesState F) (id : String) (ts : Time) (val : F) (th : F × Trigger)
      (r : StepResult F)
      → st.open_event ≡ none
      → step_idle n st id ts val th ≡ some r
      → OpenPeak r.state.open_event × DonePeak r.done
  unfolding step_idle step_above open_new
  step_idle-IsPeak n st id ts val th r idle h = ground arith

  -- Where the comparison of values is a strict order: a step keeps that none of the samples that
  -- the open event has in its `during_samples` is above its peak, and an event that it completes has
  -- that too.
  pub step-IsPeak :
      (cfg : SpikesConfig F) (n : ℕ) (st : SeriesState F) (id : String) (ts : Time) (val : F)
      (r : StepResult F)
      → OpenPeak st.open_event
      → step cfg n st id ts val ≡ some r
      → OpenPeak r.state.open_event × DonePeak r.done
  unfolding step step_phase
  step-IsPeak cfg n st id ts val r a h =
      let (st1, e1, e2) = >>=-eq-some (update_baseline st val) _ h in
      let same = update_baseline-SameMachine st val e1 in
      elim (Option-cases st.open_event) [
        | inl idle ↦
            step_idle-IsPeak n st1 id ts val (effective_threshold st1) r (ground arith)
              (ground arith)
        | inr (oe, busy) ↦
            step_open-IsPeak cfg n st1 oe ts val r (subst OpenPeak busy a) (ground arith)
      ]
