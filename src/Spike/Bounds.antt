-- ===== src/Spike/Bounds.antt =====
-- The memory of the detector is bounded: every buffer of a series and of an event keeps its cap.
use cost_optimization.Prelude.{
  ℕ, zero, suc, ◌+◌, ◌-◌, ◌/◌, ◌<◌, ◌≤◌, ◌≡◌, refl, ◌||◌, some, List, [], ◌∷◌, ◌++◌, length,
  get_elem?, set_elem?, length-drop, length-append, length-set_elem?, ltb, leb, >>=-eq-some,
  Bool-cases, Option-cases, inl, inr, arith,
}
use cost_optimization.Float64.{Float64, ◌*F◌, ◌/F◌, of_nat}
use cost_optimization.Model.{MetricPoint}
use cost_optimization.Spike.{RingBuf, SeriesState, baseline_window}
use cost_optimization.Spike.Buffers.{push, pick_from, decimate, append_capped}
use cost_optimization.Spike.Baseline.{record_value, refresh_baseline, update_baseline}
use cost_optimization.Spike.Detector.{step}

pub length-push-le :
    {F : Type 0} (r : RingBuf F) (p : MetricPoint F) → length (push r p).pts ≤ r.cap
unfolding push
length-push-le r p = ground (
  arith,
  length-append r.pts (p ∷ []),
  length-drop (length (r.pts ++ p ∷ []) - r.cap) (r.pts ++ p ∷ []),
)

pub cap-push : {F : Type 0} (r : RingBuf F) (p : MetricPoint F) → (push r p).cap ≡ r.cap
unfolding push
cap-push r p = refl

-- What an update of the baseline leaves alone: all but the baseline's own fields.
pub record SameMachine {F : Type 0} (st st1 : SeriesState F) : Type 0 where
  pub rule : st1.rule ≡ st.rule
  pub key : st1.key ≡ st.key
  pub pre : st1.pre ≡ st.pre
  pub above_since : st1.above_since ≡ st.above_since
  pub below_since : st1.below_since ≡ st.below_since
  pub cooldown_till : st1.cooldown_till ≡ st.cooldown_till
  pub open_event : st1.open_event ≡ st.open_event

pub record IsWindow {F : Type 0} (st : SeriesState F) : Type 0 where
  pub window : length st.hist ≤ baseline_window
  pub cursor : st.hist_pos < baseline_window

module _ {F A : Type 0} ⦃f : Float64 F⦄ where
  length-pick_from :
      (s : List A) (step : F) (i n : ℕ) {out : List A}
      → pick_from s step i n ≡ some out
      → length out ≡ n
  unfolding pick_from
  length-pick_from s step i zero h = ground arith
  length-pick_from s step i (suc n) h =
      let (p, _, h1) = >>=-eq-some (get_elem? s (f.trunc (of_nat i *F step))) _ h in
      let (rest, e, h2) = >>=-eq-some (pick_from s step (i + 1) n) _ h1 in
      ground (arith, length-pick_from s step (i + 1) n e)

module _ {F : Type 0} ⦃f : Float64 F⦄ where
  pub length-decimate-le :
      (s : List (MetricPoint F)) (target : ℕ) {out : List (MetricPoint F)}
      → 0 < target
      → decimate s target ≡ some out
      → length out ≤ target
  unfolding decimate
  length-decimate-le s target pos h = elim (Bool-cases (leb (length s) target || leb target 0)) [
    | inl short ↦ ground arith
    | inr long ↦
        let e = rw long at h in
        ground (arith, length-pick_from s (of_nat {F = F} (length s) /F of_nat target) 0 target e)
  ]

  pub length-append_capped-le :
      (s : List (MetricPoint F)) (p : MetricPoint F) (cap : ℕ) {out : List (MetricPoint F)}
      → 2 ≤ cap
      → append_capped s p cap ≡ some out
      → length out ≤ cap
  unfolding append_capped
  length-append_capped-le s p cap big h = elim (Bool-cases (leb cap (length s))) [
    | inl full ↦
        let e = rw full at h in
        let (kept, e1, e2) = >>=-eq-some (decimate s (cap / 2)) _ e in
        ground (arith, length-append kept (p ∷ []), length-decimate-le s (cap / 2) (omega arith) e1)
    | inr free ↦ let e = rw free at h in ground (arith, length-append s (p ∷ []))
  ]

  record_value_lem :
      (st : SeriesState F) (val : F) {st1 : SeriesState F}
      → IsWindow st
      → record_value st val ≡ some st1
      → IsWindow st1 × SameMachine st st1
  unfolding record_value
  record_value_lem st val w h = elim (Bool-cases (ltb (length st.hist) baseline_window)) [
    | inl free ↦ let e = rw free at h in ground (arith, length-append st.hist (val ∷ []))
    | inr full ↦
        let (hist, e1, e2) = >>=-eq-some (set_elem? st.hist st.hist_pos val) _ (rw full at h) in
        ground (arith, length-set_elem? st.hist st.hist_pos val e1)
  ]

  refresh_baseline_lem :
      (st : SeriesState F) {st1 : SeriesState F}
      → IsWindow st
      → refresh_baseline st ≡ some st1
      → IsWindow st1 × SameMachine st st1
  unfolding refresh_baseline
  refresh_baseline_lem st w h = ground arith

  pub update_baseline_lem :
      (st : SeriesState F) (val : F) {st1 : SeriesState F}
      → IsWindow st
      → update_baseline st val ≡ some st1
      → IsWindow st1 × SameMachine st st1
  unfolding update_baseline
  update_baseline_lem st val w h = elim (Option-cases st.open_event) [
    | inl idle ↦
        let (st1, e1, e2) = >>=-eq-some (record_value st val) _ (rw (idle, update_baseline) at h) in
        let (w1, same1) = record_value_lem st val w e1 in
        let (w2, same2) = refresh_baseline_lem st1 w1 e2 in (w2, ground arith)
    | inr (oe, busy) ↦ ground arith
  ]

  -- The same without a bound on the window.
  pub update_baseline-SameMachine :
      (st : SeriesState F) (val : F) {st1 : SeriesState F}
      → update_baseline st val ≡ some st1
      → SameMachine st st1
  unfolding update_baseline record_value refresh_baseline
  update_baseline-SameMachine st val h = ground arith
