-- ===== src/Analyzer/Recurrence/Tests.antt =====
-- Recurrence at concrete spikes.
use cost_optimization.Prelude.{
  ℕ, ◌+◌, ◌*◌, ◌≡◌, refl, String, true, false, List, [], ◌∷◌, map, sort_by,
}
use cost_optimization.Prelude.Assoc.{lookup, insert}
use cost_optimization.Float64.{fixed_float64}
use cost_optimization.Model.{minute, new_meta, kind_spike, static, SpikeEvent}
use cost_optimization.Analyzer.Recurrence.{
  Pattern, add_day, near, far, clusters_of, days_of, weekdays_only, add_to_group, group, sum_by,
  patterns_of, patterns_of_groups, detect_patterns,
}

program : Unit {0}
unfolding lookup insert sort_by add_day near far clusters_of days_of weekdays_only add_to_group
    group sum_by patterns_of patterns_of_groups detect_patterns
program = tt

-- A spike at a minute of a day.
abbrev spike : String → ℕ → ℕ → SpikeEvent ℕ
spike id day at = record {
  meta = new_meta kind_spike ((day * 1440 + at) * minute);
  event_id = id;
  resource = "cpu";
  device = "";
  start_ts = (day * 1440 + at) * minute;
  end_ts = 0;
  duration_s = 6000000;
  baseline = 200000;
  peak = 950000;
  threshold = 850000;
  trigger = static;
  pre_samples = [];
  during_samples = [];
  post_samples = [];
  top_procs = [];
  core_seconds_by_proc = [];
  probable_cause = "";
  correlated_process = "";
  correlated_service_or_job = "";
  attribution_confidence = 0;
  attribution_evidence = [];
  validation_required = true;
  sql_correlated = false;
  sql_instance = "";
}

-- Three nights, around midnight, and one spike at noon.
abbrev nights : List (SpikeEvent ℕ)
nights = spike "a" 10 1435 ∷ spike "b" 11 1438 ∷ spike "c" 13 5 ∷ spike "d" 13 720 ∷ []

found : List (Pattern ℕ)
unfolding program
found = detect_patterns nights 10

one_pattern : map (λ (p : Pattern ℕ). p.event_ids) found ≡ ("a" ∷ "b" ∷ "c" ∷ []) ∷ []
unfolding program found
one_pattern = refl

-- The times 23:55, 23:58 and 00:05 have the plain mean 15:59.
mean_across_midnight : map (λ (p : Pattern ℕ). p.time_of_day_utc) found ≡ (15 * 60 + 59) ∷ []
unfolding program found
mean_across_midnight = refl
