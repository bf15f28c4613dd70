-- ===== src/Agent/Attribution/Tests.antt =====
-- The attribution of an event to concrete processes, in ten-thousandths.
use cost_optimization.Prelude.{ℕ, ◌*◌, ◌≡◌, ◌≤◌, refl, String, true, List, [], ◌∷◌, sort_by, arith}
use cost_optimization.Prelude.Assoc.{string_eq, lookup, insert}
use cost_optimization.Float64.{lit, fixed_float64, fixed-IsStrictOrder}
use cost_optimization.Model.{new_meta, ProcSample, ProcTop, SpikeEvent, SchedEntry, minute}
use cost_optimization.Analyzer.Dataset.Tests.{spike_of}
use cost_optimization.Sched.{Calendar, codes}
use cost_optimization.Agent.Attribution.{
  AttributionTexts, lower, trim_suffix, is_sql_process, core_share, note_share, note_service,
  note_schedule, note_sql, conclude, attribute_top, attribute,
}
use cost_optimization.Agent.Attribution.Ranking.{
  round2f, observe_proc, add_procs, add_snapshots, core_seconds, rank_processes,
}
use cost_optimization.Agent.Attribution.Schedules.{same_time_of_day, is_match, match_schedule}
use cost_optimization.Agent.Attribution.Ranked.{IsRanking, rank_processes-IsRanking}
use cost_optimization.Agent.Attribution.Caution.{Attributed, attribute-Attributed}

program : Unit {0}
unfolding lookup insert sort_by codes lower trim_suffix is_sql_process core_share note_share
    note_service note_schedule note_sql conclude attribute_top attribute round2f observe_proc
    add_procs add_snapshots core_seconds rank_processes same_time_of_day is_match match_schedule
program = tt

abbrev proc_of : ℕ → String → ℕ → ProcSample ℕ
proc_of pid name cpu_time = record {
  pid = pid;
  ppid = 1;
  name = name;
  exe = "";
  service_unit = "";
  cpu_pct = 100000;
  cpu_time_s = cpu_time;
  rss_bytes = 1024;
  read_bytes_ps = 0;
  write_bytes_ps = 0;
  start_time = 0;
}

abbrev snapshot_of : List (ProcSample ℕ) → ProcTop ℕ
snapshot_of procs = record { meta = new_meta "proc_top" 0; procs = procs }

-- The engine uses eight seconds, the other process one.
abbrev two_snapshots : List (ProcTop ℕ)
two_snapshots =
    snapshot_of (proc_of 7 "backup" 10000 ∷ proc_of 8 "SQLServr.exe" 20000 ∷ [])
    ∷ snapshot_of (proc_of 7 "backup" 20000 ∷ proc_of 8 "SQLServr.exe" 100000 ∷ [])
    ∷ []

abbrev nightly : SchedEntry
nightly = record {
  source = "cron";
  name = "nightly";
  schedule = "";
  unit = "";
  last_run = 0;
  next_run = 1443 * minute;
}

abbrev calendar : Calendar
calendar = record {
  minute_of = λ t. 0;
  hour_of = λ t. 0;
  day_of = λ t. 1;
  month_of = λ t. 1;
  weekday_of = λ t. 0;
}

abbrev texts : AttributionTexts ℕ
texts = record { top_process = λ p. p.name; share = λ n q a b. n }

abbrev event : SpikeEvent ℕ
event = spike_of "e1" (5 * minute)

abbrev attributed : SpikeEvent ℕ
attributed = attribute texts calendar event two_snapshots (nightly ∷ []) ((8, "h1|A") ∷ [])

engine_first : (attributed.correlated_process ≡ "SQLServr.exe") × (attributed.sql_instance ≡ "h1|A")
unfolding program
engine_first = (refl, refl)

-- 0.3, with 0.2 for the share and 0.2 for the schedule.
confidence_is : attributed.attribution_confidence ≡ 7000
unfolding program
confidence_is = refl

cause_is :
    attributed.probable_cause
    ≡ "probably caused by SQLServr.exe via cron:nightly (temporal correlation; validate with owner)"
unfolding program
cause_is = refl

engine_by_name : is_sql_process "SQLServr.exe" ≡ true
unfolding program
engine_by_name = refl

-- Whether a process id is one of the two.
abbrev IsKnown : ℕ → String → Type 0
IsKnown pid name = pid ≤ 8

rank_processes-IsRanking_example : IsRanking IsKnown (rank_processes two_snapshots event).1
rank_processes-IsRanking_example =
    rank_processes-IsRanking IsKnown two_snapshots event
      ((omega arith, (omega arith, tt)), ((omega arith, (omega arith, tt)), tt))

attribute-Attributed_example :
    (attributed.validation_required ≡ true)
    × Attributed event
        (rank_processes two_snapshots
          (record event { validation_required = true; attribution_confidence = lit 0 1 })).1
        attributed
attribute-Attributed_example =
    attribute-Attributed fixed-IsStrictOrder texts calendar event two_snapshots (nightly ∷ [])
      ((8, "h1|A") ∷ [])
