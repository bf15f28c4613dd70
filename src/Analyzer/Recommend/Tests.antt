-- ===== src/Analyzer/Recommend/Tests.antt =====
-- The ladder at concrete reports, in ten-thousandths.
use cost_optimization.Prelude.{ℕ, ◌*◌, ◌≡◌, ◌≢◌, ◌↔◌, refl, false, none, some, [], ◌∷◌}
use cost_optimization.Prelude.Int.{pos}
use cost_optimization.Float64.{fixed_float64, ◌<F◌, lit}
use cost_optimization.Analyzer.Stats.{Summary}
use cost_optimization.Analyzer.Report.{
  HostReport, CapacityRange, likely_rightsizing, keeps_headroom,
}
use cost_optimization.Analyzer.Recommend.{
  role_of, local_ha_role, note_optimization, dominated_by_recurring_spikes, suggest_capacity,
  confidence_from, load_ladder, ladder, downgrade, steal_check, classify_host,
}
use cost_optimization.Analyzer.Recommend.Decisions.{
  IsReduction, IsClear, suggested-IsReduction, suggested-IsClear,
}
use cost_optimization.Analyzer.Recommend.Candidates.{IsFarBelow, candidate_iff}

program : Unit {0}
unfolding role_of local_ha_role note_optimization dominated_by_recurring_spikes suggest_capacity
    confidence_from load_ladder ladder downgrade steal_check classify_host
program = tt

abbrev level : ℕ → Summary ℕ
level v = record {
  p50 = v * 10000;
  p95 = v * 10000;
  p99 = v * 10000;
  max = v * 10000;
  avg = v * 10000;
  count = 20000;
}

abbrev host : ℕ → ℕ → HostReport ℕ
host cpu_level mem_level = record {
  host_id = "h1";
  hostname = "db1";
  os = "linux";
  os_version = "";
  virtualization = "";
  data_problems = [];
  alloc_vcpu = pos 8;
  alloc_ram_gb = 80000;
  observed_days = 14;
  coverage_pct = 990000;
  cpu = level cpu_level;
  cpu_peak = level cpu_level;
  cpu_steal = 0;
  sustained_cpu = record { start = 0; end = 0; minutes = 0; peak_v = 0 };
  minutes_over70 = 0;
  minutes_over85 = 0;
  mem = level mem_level;
  mem_used_p95_gb = mem_level * 800;
  mem_pressure = [];
  paging_evidence = false;
  disk_capacity = [];
  disk_latency_p95_ms = 0;
  disk_busy_p95_pct = 0;
  net_rx_p95_mbs = 0;
  net_tx_p95_mbs = 0;
  spike_count = 0;
  patterns = [];
  top_correlates = [];
  sql_instances = [];
  category = none;
  recommendation = none;
  suggested = none;
  confidence = 0;
  validation_required = false;
  rationale = [];
}

classified : ℕ → ℕ → HostReport ℕ
unfolding program
classified cpu_level mem_level = classify_host [] (host cpu_level mem_level)

idle_is_likely : (classified 10 20).category ≡ some likely_rightsizing
unfolding program classified
idle_is_likely = refl

abbrev two_to_four : CapacityRange ℕ
two_to_four = record {
  min_vcpu = 2;
  max_vcpu = 4;
  min_ram_gb = 40000;
  max_ram_gb = 60000;
  note = keeps_headroom;
}

idle_range : (classified 10 20).suggested ≡ some two_to_four
unfolding program classified
idle_range = refl

-- The upper end of the memory range, 9 GB, is above the allocation of 8 GB.
ram_range_passes_allocation :
    (classified 45 60).suggested
    ≡ some record {
      min_vcpu = 6;
      max_vcpu = 7;
      min_ram_gb = 70000;
      max_ram_gb = 90000;
      note = keeps_headroom;
    }
unfolding program classified
ram_range_passes_allocation = refl

-- With a primary and a secondary instance, the role is that of the one that the map gives first.
role_by_order_primary : local_ha_role (("PRIMARY" ∷ []) ∷ ("SECONDARY" ∷ []) ∷ []) ≡ "PRIMARY"
unfolding program
role_by_order_primary = refl

role_by_order_secondary : local_ha_role (("SECONDARY" ∷ []) ∷ ("PRIMARY" ∷ []) ∷ []) ≡ "SECONDARY"
unfolding program
role_by_order_secondary = refl

suggested_10_20 : (classify_host [] (host 10 20)).suggested ≡ some two_to_four
unfolding program
suggested_10_20 = refl

suggested_any : (classify_host [] (host 10 20)).suggested ≢ none
unfolding program
suggested_any h = cc

suggested-IsReduction_example : IsReduction 8 2 4
suggested-IsReduction_example =
    suggested-IsReduction [] (host 10 20) {s = two_to_four} refl suggested_10_20

suggested-IsClear_example : IsClear (local_ha_role []) (host 10 20)
suggested-IsClear_example = suggested-IsClear [] (host 10 20) refl suggested_any

candidate_iff_example : ((classify_host [] (host 10 20)).category ≡ some likely_rightsizing) ↔ (
    IsClear (local_ha_role []) (host 10 20)
    × IsFarBelow (host 10 20)
    × ((lit {F = ℕ} 5 1 <F (host 10 20).cpu_steal) ≡ false))
candidate_iff_example = candidate_iff [] (host 10 20)
