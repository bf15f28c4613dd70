-- ===== src/Spike/Tests.antt =====
-- Runs of the detector over samples at 15 s, with amounts in ten-thousandths, and the theorems at
-- the states of those runs.
use cost_optimization.Prelude.{
  ℕ, zero, suc, ◌+◌, ◌*◌, ◌<◌, ◌≡◌, refl, ◌↔◌, String, true, false, Option, none, some, List, [],
  ◌∷◌, arith, sort_by,
}
use cost_optimization.Prelude.Int.{pos}
use cost_optimization.Prelude.Assoc.{lookup, insert}
use cost_optimization.Float64.{fixed_float64, fixed-IsStrictOrder, seconds_since}
use cost_optimization.Model.{Time, SpikeEvent, second, minute, sub_lt, add_time, is_zero}
use cost_optimization.Config.{SpikeRule, SpikesConfig, Config, default}
use cost_optimization.Quantile.{quantile}
use cost_optimization.Spike.{Key, Point, OpenEvent, SeriesState, SpikeDetector, key_eq}
use cost_optimization.Spike.Buffers.{push, pick_from, decimate, append_capped}
use cost_optimization.Spike.Baseline.{
  median_mad, mad_to_sigma, record_value, refresh_baseline, update_baseline, effective_threshold,
}
use cost_optimization.Spike.Invariant.{IsBounded, DoneCapped, step-IsBounded}
use cost_optimization.Spike.Opening.{Reached, Streak, made, stepped, opened-Streak}
use cost_optimization.Spike.Events.{baseline_frozen, feed, cooldown_quiet}
use cost_optimization.Spike.Peak.{OpenPeak, DonePeak, step-IsPeak}
use cost_optimization.Spike.Counting.{open_series, offers, capture_active_iff}
use cost_optimization.Spike.Detector.{
  StepResult, extend, step_during, step_post, open_new, step_above, step_idle, step_open,
  step_phase, step, rule_for, pre_cap, new_series, series_for, offer_one, offer_all, offer,
  new_detector, capture_active,
}

program : Unit {0}
unfolding push pick_from decimate append_capped quantile median_mad mad_to_sigma record_value
    refresh_baseline update_baseline effective_threshold extend step_during step_post open_new
    step_above step_idle step_open step_phase step feed sort_by seconds_since
program = tt

abbrev cpu_rule : SpikeRule ℕ
cpu_rule = record {
  resource = "cpu";
  static_threshold = 850000;
  sustained = pos minute;
  baseline_k = 0;
  baseline_floor = 400000;
}

abbrev cfg : SpikesConfig ℕ
cfg = record {
  cooldown = pos (5 * minute);
  pre_buffer = pos (2 * minute);
  post_capture = pos minute;
  rules = cpu_rule ∷ [];
}

abbrev fresh : SeriesState ℕ
fresh = record {
  rule = cpu_rule;
  key = record { resource = "cpu"; device = "" };
  pre = record { pts = []; cap = 9 };
  hist = [];
  hist_pos = 0;
  hist_full = false;
  baseline = 0;
  mad = 0;
  base_age = 0;
  above_since = 0;
  below_since = 0;
  cooldown_till = 0;
  open_event = none;
}

-- The i-th sample, 15 s after the one before.
abbrev at : ℕ → Time
at i = minute + i * (15 * second)

abbrev series : ℕ → List ℕ → List (String × Time × ℕ)
series i [] = []
series i (v ∷ vs) = ("e1", at i, v * 10000) ∷ series (i + 1) vs

abbrev after : List ℕ → SeriesState ℕ
after vs = elim (feed cfg 0 fresh (series 0 vs)) [ none ↦ fresh | some (st, n, events) ↦ st ]

abbrev result : Option (StepResult ℕ) → StepResult ℕ
result none = record { state = fresh; open_count = 0; done = none }
result (some r) = r

abbrev open_of : SeriesState ℕ → OpenEvent ℕ
open_of st = elim st.open_event [
  | none ↦ record {
    ev = record {
      meta = record { kind = ""; schema = ""; ts = 0 };
      event_id = "";
      resource = "";
      device = "";
      start_ts = 0;
      end_ts = 0;
      duration_s = 0;
      baseline = 0;
      peak = 0;
      threshold = 0;
      trigger = cost_optimization.Model.static;
      pre_samples = [];
      during_samples = [];
      post_samples = [];
      top_procs = [];
      core_seconds_by_proc = [];
      probable_cause = "";
      correlated_process = "";
      correlated_service_or_job = "";
      attribution_confidence = 0;
      attribution_evidence = [];
      validation_required = false;
      sql_correlated = false;
      sql_instance = "";
    };
    in_post = false;
    post_until = 0;
  }
  | some oe ↦ oe
]

-- Two quiet samples, five at 95 %.
abbrev busy : List ℕ
busy = 20 ∷ 20 ∷ 95 ∷ 95 ∷ 95 ∷ 95 ∷ 95 ∷ []

opens_after_a_minute :
    ((after (20 ∷ 20 ∷ 95 ∷ 95 ∷ 95 ∷ 95 ∷ [])).open_event ≡ none)
    × ((open_of (after busy)).ev.start_ts ≡ at 2)
unfolding program
opens_after_a_minute = (refl, refl)

next_step : List ℕ → ℕ → ℕ → StepResult ℕ
unfolding program
next_step vs i v = result (step cfg 0 (after vs) "e1" (at i) (v * 10000))

busy-IsBounded : IsBounded (after busy)
unfolding program
busy-IsBounded = record {
  is_window = record { window = omega arith; cursor = omega arith };
  ring = omega arith;
  open_capped = record {
    pre_capped = omega arith;
    during_capped = omega arith;
    post_capped = omega arith;
  };
}

step-IsBounded_example :
    IsBounded (next_step busy 7 40).state × DoneCapped (next_step busy 7 40).done
unfolding next_step
step-IsBounded_example =
    step-IsBounded cfg 0 (after busy) "e1" (at 7) 400000 {r = next_step busy 7 40} busy-IsBounded
      refl

run : List ℕ → Option (SeriesState ℕ × ℕ × List (SpikeEvent ℕ))
unfolding program
run vs = feed cfg 0 fresh (series 0 vs)

-- The states of a series that is offered five samples above the threshold.
climbing : SeriesState ℕ
climbing = after (95 ∷ 95 ∷ 95 ∷ 95 ∷ [])

climbing-Reached : Reached cfg climbing
unfolding climbing program
climbing-Reached =
    stepped {st = after (95 ∷ 95 ∷ 95 ∷ [])} 0 "e1" (at 3) 950000
      (result (step cfg 0 (after (95 ∷ 95 ∷ 95 ∷ [])) "e1" (at 3) 950000))
      (stepped {st = after (95 ∷ 95 ∷ [])} 0 "e1" (at 2) 950000
        (result (step cfg 0 (after (95 ∷ 95 ∷ [])) "e1" (at 2) 950000))
        (stepped {st = after (95 ∷ [])} 0 "e1" (at 1) 950000
          (result (step cfg 0 (after (95 ∷ [])) "e1" (at 1) 950000))
          (stepped {st = fresh} 0 "e1" (at 0) 950000 (result (step cfg 0 fresh "e1" (at 0) 950000))
            (made {st = fresh} refl refl) refl refl)
          refl refl)
        refl refl)
      refl refl

opening : StepResult ℕ
unfolding climbing program
opening = result (step cfg 0 climbing "e1" (at 4) 950000)

opened-Streak_example :
    Streak cfg (open_of opening.state).ev.start_ts opening.state
    × (sub_lt (at 4) (open_of opening.state).ev.start_ts climbing.rule.sustained ≡ false)
unfolding opening
opened-Streak_example =
    opened-Streak cfg {st = climbing} 0 "e1" (at 4) 950000 opening (open_of opening.state)
      climbing-Reached refl refl refl

busy_next : StepResult ℕ
unfolding program
busy_next = result (step cfg 1 (after busy) "e1" (at 7) 950000)

baseline_frozen_example :
    (busy_next.state.hist ≡ (after busy).hist)
    × (busy_next.state.hist_pos ≡ (after busy).hist_pos)
    × (busy_next.state.baseline ≡ (after busy).baseline)
    × (busy_next.state.mad ≡ (after busy).mad)
    × (busy_next.state.base_age ≡ (after busy).base_age)
unfolding busy_next
baseline_frozen_example =
    baseline_frozen cfg 1 (after busy) "e1" (at 7) 950000 (open_of (after busy)) busy_next refl refl

step-IsPeak_example : OpenPeak busy_next.state.open_event × DonePeak busy_next.done
unfolding busy_next
step-IsPeak_example =
    step-IsPeak fixed-IsStrictOrder cfg 1 (after busy) "e1" (at 7) 950000 busy_next tt refl

-- After the capture of a minute the event is complete.
captured : SeriesState ℕ
unfolding program
captured =
    after (20 ∷ 20 ∷ 95 ∷ 95 ∷ 95 ∷ 95 ∷ 95 ∷ 10 ∷ 10 ∷ 10 ∷ 10 ∷ 10 ∷ 10 ∷ 10 ∷ 10 ∷ 10 ∷ [])

completing : StepResult ℕ
unfolding captured
completing = result (step cfg 1 captured "e1" (at 16) 100000)

done_event : SpikeEvent ℕ
unfolding completing
done_event = elim completing.done [ none ↦ (open_of captured).ev | some ev ↦ ev ]

-- Six samples at 95 % within the cooldown of five minutes.
repeat : List (String × Time × ℕ)
repeat = series 17 (95 ∷ 95 ∷ 95 ∷ 95 ∷ 95 ∷ 95 ∷ [])

after_repeat : SeriesState ℕ
unfolding completing repeat
after_repeat = elim (feed cfg 0 completing.state repeat) [
  | none ↦ fresh
  | some (st, n, events) ↦ st
]

cooldown_quiet_example :
    (◌≡◌ {A = List (SpikeEvent ℕ)} [] []) × (◌≡◌ {A = ℕ} 0 0) × (after_repeat.open_event ≡ none)
unfolding after_repeat
cooldown_quiet_example =
    cooldown_quiet cfg 0 completing.state repeat after_repeat 0 [] refl (omega arith) refl

-- A detector with the rule above, offered six points at 95 %.
detector_cfg : Config ℕ
unfolding default
detector_cfg = record (default "/var/lib/ura" "integrated") { spikes = cfg }

abbrev no_ids : Key → String
no_ids key = "e1"

abbrev points : ℕ → ℕ → List ((Key → String) × Point ℕ)
points zero i = []
points (suc n) i =
    (no_ids, record { ts = at i; values = (record { resource = "cpu"; device = "" }, 950000) ∷ [] })
    ∷ points n (i + 1)

detector_after : ℕ → SpikeDetector ℕ
unfolding detector_cfg program rule_for pre_cap new_series series_for offer_one offer_all offer
    offers new_detector lookup insert
detector_after n = elim (offers (new_detector detector_cfg) (points n 0)) [
  | none ↦ new_detector detector_cfg
  | some (d, events) ↦ d
]

capture_active_iff_example :
    ((detector_after 6).open_count ≡ open_series (detector_after 6))
    × ((capture_active (detector_after 6) ≡ true) ↔ (0 < open_series (detector_after 6)))
unfolding detector_after
capture_active_iff_example = capture_active_iff detector_cfg (points 6 0) (detector_after 6) [] refl

captures_after_a_minute : capture_active (detector_after 6) ≡ true
unfolding detector_after capture_active
captures_after_a_minute = refl
