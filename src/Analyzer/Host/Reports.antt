-- ===== src/Analyzer/Host/Reports.antt =====
-- Runs of `analyzeHost` of internal/analyzer/recommend.go, and its theorems at concrete data.
use cost_optimization.Prelude.{
  ℕ, ◌+◌, ◌-◌, ◌/◌, ◌*◌, ◌≡◌, refl, false, Option, none, some, List, [], ◌∷◌, sort_by, arith,
}
use cost_optimization.Prelude.Int.{pos, pos_part}
use cost_optimization.Prelude.Assoc.{string_eq, lookup, insert}
use cost_optimization.Float64.{Float64, fixed_float64, fixed_scale}
use cost_optimization.Model.{minute, new_meta}
use cost_optimization.Model.Host.{Inventory, HostMinute}
use cost_optimization.Quantile.{quantile}
use cost_optimization.Analyzer.Stats.{
  sum, summarize, keep_longest, above, observe, observe_all, sustained,
}
use cost_optimization.Analyzer.Recurrence.{
  add_day, has_id, near, far, clusters_of, days_of, weekdays_only, add_to_group, group, sum_by,
  patterns_of, patterns_of_groups, detect_patterns,
}
use cost_optimization.Analyzer.Dataset.{HostData, new_host}
use cost_optimization.Analyzer.Report.{
  HostReport, CapacityRange, likely_rightsizing, keeps_headroom,
}
use cost_optimization.Analyzer.Recommend.{
  role_of, local_ha_role, note_optimization, dominated_by_recurring_spikes, suggest_capacity,
  confidence_from, load_ladder, ladder, downgrade, steal_check, classify_host,
}
use cost_optimization.Analyzer.Host.{is_paging, psi_evidence, gather, latest_fs}
use cost_optimization.Analyzer.Host.Analysis.{
  Texts, new_report, distinct, correlates, last_ts, with_inventory, observe_span, set_measures,
  summarize_minutes, describe, analyze_minutes, analyze_host,
}
use cost_optimization.Analyzer.Host.Assessment.{HasRanks, IsSupported, analyze_host-IsSupported}
use cost_optimization.Sampler.Minutes.{empty_cpu, empty_mem}

unfoldable pub program : Unit {0}
unfolding lookup insert sort_by quantile sum summarize keep_longest above observe observe_all
    sustained add_day has_id near far clusters_of days_of weekdays_only add_to_group group sum_by
    patterns_of patterns_of_groups detect_patterns role_of local_ha_role note_optimization
    dominated_by_recurring_spikes suggest_capacity confidence_from load_ladder ladder downgrade
    steal_check classify_host is_paging psi_evidence gather latest_fs distinct correlates last_ts
    with_inventory observe_span set_measures summarize_minutes describe analyze_minutes analyze_host
program = tt

-- A coarse arithmetic: quotients are rounded up to the next whole number. By it, two minutes of nine
-- days are a whole share of them, so that two minutes are enough for a report.
abbrev pub coarse : Float64 ℕ
coarse = record fixed_float64 { div = λ a b. (a + b - 1) / b * fixed_scale }

abbrev pub texts : Texts ℕ
texts = record { evidence = λ e. "pressure"; correlate = λ k n. k; less = λ a b. false }

abbrev inventory : Inventory
inventory = record {
  meta = new_meta "inventory" 0;
  host_id = "h1";
  hostname = "db1";
  os = "linux";
  os_version = "";
  kernel_build = "";
  boot_time = 0;
  uptime_s = 0;
  timezone = "UTC";
  tz_offset_sec = pos 0;
  virtualization = "";
  cpu_model = "";
  physical_cores = pos 4;
  logical_cpus = pos 8;
  allocated_vcpu = pos 8;
  total_ram_bytes = 8589934592;
  swap_total_bytes = 0;
  disks = [];
  filesystems = [];
  nics = [];
  agent_version = "0.1.0";
  config_hash = "";
  privacy_mode = false;
}

abbrev idle_minute : ℕ → HostMinute ℕ
idle_minute day = record {
  meta = new_meta "host_minute" (day * (1440 * minute));
  samples = pos 4;
  cpu = record (empty_cpu ⦃f = coarse⦄) { avg_pct = 100000; max_pct = 150000 };
  mem = record (empty_mem ⦃f = coarse⦄) { used_pct_avg = 200000; used_bytes_avg = 1073741824 };
  disks = [];
  fs = [];
  net = [];
  psi = none;
}

abbrev pub idle_host : HostData ℕ
idle_host = record (new_host "h1") {
  inventory = some inventory;
  minutes = idle_minute 1 ∷ idle_minute 9 ∷ [];
}

idle_report : Option (HostReport ℕ)
unfolding program
idle_report = analyze_host ⦃f = coarse⦄ texts idle_host

abbrev two_to_four : CapacityRange ℕ
two_to_four = record {
  min_vcpu = 2;
  max_vcpu = 4;
  min_ram_gb = 40000;
  max_ram_gb = 60000;
  note = keeps_headroom;
}

abbrev summary_in : Option (HostReport ℕ) → List ℕ
summary_in none = []
summary_in (some r) =
    r.observed_days ∷ pos_part r.alloc_vcpu ∷ r.alloc_ram_gb ∷ r.cpu.p95 ∷ r.cpu.count ∷ []

idle_summary : summary_in idle_report ≡ 9 ∷ 8 ∷ 80000 ∷ 100000 ∷ 2 ∷ []
unfolding program idle_report
idle_summary = refl

abbrev report_or : HostReport ℕ → Option (HostReport ℕ) → HostReport ℕ
report_or r none = r
report_or r (some q) = q

idle_result : HostReport ℕ
unfolding idle_report
idle_result = report_or (new_report ⦃f = coarse⦄ idle_host) idle_report

idle_analyzed : analyze_host ⦃f = coarse⦄ texts idle_host ≡ some idle_result
unfolding program idle_result
idle_analyzed = refl

idle_suggested : idle_result.suggested ≡ some two_to_four
unfolding program idle_result
idle_suggested = refl

idle_category : idle_result.category ≡ some likely_rightsizing
unfolding program idle_result
idle_category = refl

analyze_host-IsSupported_example : IsSupported ⦃f = coarse⦄ idle_host two_to_four
analyze_host-IsSupported_example =
    analyze_host-IsSupported ⦃f = coarse⦄ texts idle_host idle_analyzed idle_suggested

fixed_HasRanks : HasRanks ℕ
fixed_HasRanks = record {
  r50 = λ n. (omega arith, omega arith);
  r95 = λ n. (omega arith, omega arith);
  r99 = λ n. (omega arith, omega arith);
}
