-- ===== src/Spike/Detector.antt =====
-- The state machine of a series, and `Offer` over the series of a detector. `none` is a panic. The
-- eight random bytes of an event's identifier are an argument, as text.
use cost_optimization.Prelude.{
  ℕ, suc, ◌+◌, ◌-◌, ◌/◌, String, Bool, true, false, not, ◌||◌, Option, none, some, List, [], ◌∷◌,
  ◌++◌, if◌then◌else◌, ◌>>=◌, ltb, ◌==◌,
}
use cost_optimization.Prelude.Int.{ℤ, pos, negsuc}
use cost_optimization.Prelude.Assoc.{Map, lookup, insert}
use cost_optimization.Float64.{Float64, ◌<F◌, ◌≤F◌, lit, round2, seconds_since}
use cost_optimization.Model.{
  Time, MetricPoint, SpikeEvent, Trigger, add_time, sub_lt, is_zero, new_meta, kind_spike, minute,
}
use cost_optimization.Config.{SpikeRule, SpikesConfig, Config}
use cost_optimization.Spike.{
  Key, Point, OpenEvent, SeriesState, SpikeDetector, max_pre_points, max_during_points,
  max_post_points, key_eq,
}
use cost_optimization.Spike.Buffers.{push, decimate, append_capped}
use cost_optimization.Spike.Baseline.{update_baseline, effective_threshold}
use text.Mathlib.Text.{◌==◌ as str_eq}

-- The event closes after the value stays below the threshold this long.
abbrev pub close_below : ℤ
close_below = pos minute

-- A series after a sample, the detector's count of open events, and the event that is complete.
pub record StepResult (F : Type 0) : Type 0 where
  pub state : SeriesState F
  pub open_count : ℕ
  pub done : Option (SpikeEvent F)

-- int(PreBuffer / HostInterval) + 1, at least 4. Go divides towards zero, and by zero it panics;
-- a quotient that is not positive gives 4 in any case.
unfoldable pub pre_cap : ℤ → ℤ → Option ℕ
pre_cap (pos a) (pos b) = if b == 0 then none else some (if ltb (a / b + 1) 4 then 4 else a / b + 1)
pre_cap (pos a) (negsuc b) = some 4
pre_cap (negsuc a) (pos b) = if b == 0 then none else some 4
pre_cap (negsuc a) (negsuc b) = some (if ltb (suc a / suc b + 1) 4 then 4 else suc a / suc b + 1)

module _ {F : Type 0} ⦃f : Float64 F⦄ where
  abbrev pub point : Time → F → MetricPoint F
  point ts val = record { ts = ts; value = val }

  -- A sample of an event that is not yet over, with what it adds to the event.
  unfoldable pub extend : SpikeEvent F → Time → F → Option (SpikeEvent F)
  extend ev ts val = do
    during ← append_capped ev.during_samples (point ts val) max_during_points
    some (record ev { during_samples = during; peak = if ev.peak <F val then val else ev.peak })

  abbrev pub close : SpikeEvent F → Time → SpikeEvent F
  close ev end = record ev { end_ts = end; duration_s = seconds_since end ev.start_ts }

  unfoldable pub step_during :
      SpikesConfig F → SeriesState F → OpenEvent F → Time → F → Bool → Option (SeriesState F)
  step_during cfg st oe ts val above = do
    ev ← extend oe.ev ts val
    let below = if is_zero st.below_since then ts else st.below_since
    some (
        if above
        then record st { below_since = 0; open_event = some (record oe { ev = ev }) }
        else if sub_lt ts below close_below
        then record st { below_since = below; open_event = some (record oe { ev = ev }) }
        else record st {
          below_since = below;
          open_event = some (record {
            ev = close ev below;
            in_post = true;
            post_until = add_time ts cfg.post_capture;
          });
        })

  unfoldable pub step_post :
      SpikesConfig F → ℕ → SeriesState F → OpenEvent F → Time → F → Option (StepResult F)
  step_post cfg open_count st oe ts val = do
    post ← append_capped oe.ev.post_samples (point ts val) max_post_points
    let ev = record oe.ev { post_samples = post }
    some (
        if ltb oe.post_until ts
        then record {
          state = record st {
            open_event = none;
            cooldown_till = add_time ts cfg.cooldown;
            above_since = 0;
          };
          open_count = open_count - 1;
          done = some ev;
        }
        else record {
          state = record st { open_event = some (record oe { ev = ev }) };
          open_count = open_count;
          done = none;
        })

  abbrev pub new_event :
      SeriesState F → String → Time → F → F × Trigger → List (MetricPoint F) → SpikeEvent F
  new_event st id ts val th pre = record {
    meta = new_meta kind_spike ts;
    event_id = id;
    resource = st.key.resource;
    device = st.key.device;
    start_ts = st.above_since;
    end_ts = 0;
    duration_s = lit 0 1;
    baseline = round2 st.baseline;
    peak = val;
    threshold = round2 th.0;
    trigger = th.1;
    pre_samples = pre;
    during_samples = [];
    post_samples = [];
    top_procs = [];
    core_seconds_by_proc = [];
    probable_cause = "unattributed";
    correlated_process = "";
    correlated_service_or_job = "";
    attribution_confidence = lit 0 1;
    attribution_evidence = [];
    validation_required = true;
    sql_correlated = false;
    sql_instance = "";
  }

  -- `ev.PreSamples = decimate(pre, maxPrePoints)` and what follows.
  unfoldable pub open_new : SeriesState F → String → Time → F → F × Trigger → Option (SeriesState F)
  open_new st id ts val th = do
    pre ← decimate st.pre.pts max_pre_points
    some (record st {
      open_event =
          some (record { ev = new_event st id ts val th pre; in_post = false; post_until = 0 });
      below_since = 0;
    })

  abbrev pub unfinished : SeriesState F → ℕ → StepResult F
  unfinished st open_count = record { state = st; open_count = open_count; done = none }

  -- No event is open. A climb goes on, or starts here.
  unfoldable pub step_above :
      ℕ → SeriesState F → String → Time → F → F × Trigger → Option (StepResult F)
  step_above open_count st id ts val th =
      if sub_lt ts st.above_since st.rule.sustained
      then some (unfinished st open_count)
      else (do st1 ← open_new st id ts val th; some (unfinished st1 (open_count + 1)))

  unfoldable pub step_idle :
      ℕ → SeriesState F → String → Time → F → F × Trigger → Option (StepResult F)
  step_idle open_count st id ts val th =
      let pre = push st.pre (point ts val) in
      if not (th.0 ≤F val) || ltb ts st.cooldown_till
      then some (unfinished (record st { pre = pre; above_since = 0 }) open_count)
      else step_above open_count
          (record st {
            pre = pre;
            above_since = if is_zero st.above_since then ts else st.above_since;
          })
          id ts val th

  -- An event lasts, or the capture after it does.
  unfoldable pub step_open :
      SpikesConfig F → ℕ → SeriesState F → OpenEvent F → Time → F → Option (StepResult F)
  step_open cfg open_count st oe ts val =
      if oe.in_post then step_post cfg open_count st oe ts val else (do
        st1 ← step_during cfg st oe ts val ((effective_threshold st).0 ≤F val)
        some (unfinished st1 open_count))

  unfoldable pub step_phase :
      SpikesConfig F → ℕ → SeriesState F → String → Time → F → Option (StepResult F)
  step_phase cfg open_count st id ts val = elim st.open_event [
    | none ↦ step_idle open_count st id ts val (effective_threshold st)
    | some oe ↦ step_open cfg open_count st oe ts val
  ]

  unfoldable pub step :
      SpikesConfig F → ℕ → SeriesState F → String → Time → F → Option (StepResult F)
  unfolding step_phase
  step cfg open_count st id ts val = do
    st1 ← update_baseline st val
    step_phase cfg open_count st1 id ts val

  unfoldable pub rule_for : List (SpikeRule F) → String → Option (SpikeRule F)
  rule_for [] resource = none
  rule_for (r ∷ rules) resource =
      if str_eq r.resource resource then some r else rule_for rules resource

  unfoldable pub new_series : Config F → SpikeRule F → Key → Option (SeriesState F)
  unfolding pre_cap
  new_series cfg rule key = do
    cap ← pre_cap cfg.spikes.pre_buffer cfg.sampling.host_interval
    some (record {
      rule = rule;
      key = key;
      pre = record { pts = []; cap = cap };
      hist = [];
      hist_pos = 0;
      hist_full = false;
      baseline = lit 0 1;
      mad = lit 0 1;
      base_age = 0;
      above_since = 0;
      below_since = 0;
      cooldown_till = 0;
      open_event = none;
    })

  -- The state of a key, made anew where the detector has none.
  unfoldable pub series_for : SpikeDetector F → SpikeRule F → Key → Option (SeriesState F)
  series_for d rule key = elim (lookup key d.series) [
    | none ↦ new_series d.cfg rule key
    | some st ↦ some st
  ]

  -- One turn of the loop of `Offer`.
  unfoldable pub offer_one :
      SpikeDetector F
      → (Key → String)
      → Time
      → Key
      → F
      → Option (SpikeDetector F × List (SpikeEvent F))
  unfolding rule_for series_for
  offer_one d ids ts key val = elim (rule_for d.cfg.spikes.rules key.resource) [
    | none ↦ some (d, [])
    | some rule ↦ do
      st ← series_for d rule key
      r ← step d.cfg.spikes d.open_count st (ids key) ts val
      some (
        record d { series = insert key r.state d.series; open_count = r.open_count },
        elim r.done [ none ↦ [] | some ev ↦ ev ∷ [] ],
      )
  ]

  unfoldable pub offer_all :
      SpikeDetector F
      → (Key → String)
      → Time
      → Map Key F
      → Option (SpikeDetector F × List (SpikeEvent F))
  offer_all d ids ts [] = some (d, [])
  offer_all d ids ts ((key, val) ∷ rest) = do
    (d1, done) ← offer_one d ids ts key val
    (d2, more) ← offer_all d1 ids ts rest
    some (d2, done ++ more)

  unfoldable pub new_detector : Config F → SpikeDetector F
  new_detector cfg = record { cfg = cfg; series = []; open_count = 0 }

  unfoldable pub offer :
      SpikeDetector F → (Key → String) → Point F → Option (SpikeDetector F × List (SpikeEvent F))
  unfolding offer_all
  offer d ids p = offer_all d ids p.ts p.values

  unfoldable pub capture_active : SpikeDetector F → Bool
  capture_active d = ltb 0 d.open_count
