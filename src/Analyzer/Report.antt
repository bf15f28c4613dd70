-- ===== src/Analyzer/Report.antt =====
-- internal/analyzer/recommend.go: what a report on a host holds. The texts of a report are data:
-- `Advice`, `Rationale` and `Note` name the text that the source formats, with its arguments. Counts
-- are never negative.
use cost_optimization.Prelude.{ℕ, String, Bool, Option, List}
use cost_optimization.Prelude.Int.{ℤ}
use cost_optimization.Model.Host.{FsUsage}
use cost_optimization.Analyzer.Stats.{Summary, SustainedRun}
use cost_optimization.Analyzer.Recurrence.{Pattern}
use cost_optimization.Analyzer.Dataset.{Problem}

pub data Category : Type 0 where
  likely_rightsizing possible_rightsizing optimize_workload sql_memory_config : Category
  multi_instance_risk insufficient_headroom ha_dr_constraint no_change : Category
  insufficient_data monitor_longer : Category

pub data Advice : Type 0 where
  not_enough_telemetry early_signals secondary_replica memory_headroom_insufficient : Advice
  memory_high optimize_jobs cpu_high strong_candidate moderate_headroom no_safe_margin
        no_telemetry :
      Advice

pub data Note : Type 0 where
  keeps_headroom after_optimization : Note

pub data Rationale (F : Type 0) : Type 0 where
  days_at_coverage : ℕ → F → Rationale F
  cycles_not_observed : ℕ → Rationale F
  secondary_role : Rationale F
  memory_p95 : F → List String → Rationale F
  pattern : Pattern F → Rationale F
  cpu_minutes : F → ℕ → Rationale F
  cpu_and_memory : F → F → ℕ → Rationale F
  longest_sustained : ℕ → Rationale F
  p95s : F → F → Rationale F
  steal_warning : F → Rationale F

pub record CapacityRange (F : Type 0) : Type 0 where
  pub min_vcpu : ℕ
  pub max_vcpu : ℕ
  pub min_ram_gb : F
  pub max_ram_gb : F
  pub note : Note

pub record HostReport (F : Type 0) : Type 0 where
  pub host_id : String
  pub hostname : String
  pub os : String
  pub os_version : String
  pub virtualization : String
  pub data_problems : List Problem
  pub alloc_vcpu : ℤ
  pub alloc_ram_gb : F
  pub observed_days : ℕ
  pub coverage_pct : F
  pub cpu : Summary F
  pub cpu_peak : Summary F
  pub cpu_steal : F
  pub sustained_cpu : SustainedRun F
  pub minutes_over70 : ℕ
  pub minutes_over85 : ℕ
  pub mem : Summary F
  pub mem_used_p95_gb : F
  pub mem_pressure : List String
  pub paging_evidence : Bool
  pub disk_capacity : List FsUsage
  pub disk_latency_p95_ms : F
  pub disk_busy_p95_pct : F
  pub net_rx_p95_mbs : F
  pub net_tx_p95_mbs : F
  pub spike_count : ℕ
  pub patterns : List (Pattern F)
  pub top_correlates : List String
  pub sql_instances : List String
  pub category : Option Category
  pub recommendation : Option Advice
  pub suggested : Option (CapacityRange F)
  pub confidence : F
  pub validation_required : Bool
  pub rationale : List (Rationale F)
