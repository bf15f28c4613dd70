-- ===== src/Analyzer/Build.antt =====
-- internal/analyzer/analyzer.go: the consolidated report on all hosts. The texts of the report are data,
-- with the arguments that the source formats. `Entries` is `spikeEntry`, `Groups` is `buildHAGroups`,
-- `Fleet` is `Build`.
pub mod Entries
pub mod Groups
pub mod Fleet
mod Tally
mod Identity
mod Categories
mod Consistency
mod Savings
mod Replicas
mod Membership
mod Totality
mod Tests
use cost_optimization.Prelude.{ℕ, String, Option, List}
use cost_optimization.Prelude.Int.{ℤ}
use cost_optimization.Prelude.Assoc.{Map}
use cost_optimization.Model.{Time}
use cost_optimization.Analyzer.Dataset.{Problem, Warning}
use cost_optimization.Analyzer.Report.{HostReport}
use cost_optimization.Analyzer.Sql.{SqlReport}

pub data NextStep : Type 0 where
  confirm_agent_schedule review_query_hash : NextStep
  confirm_scheduled_run : String → NextStep
  identify_task : NextStep
  ask_owner : String → NextStep
  extend_monitoring : NextStep

-- What a halved allocation would mean: the cores in use, the allocation and its half, and for work
-- that would take longer the seconds of the event and those that it could take.
pub data Impact (F : Type 0) : Type 0 where
  not_extended : F → ℕ → ℕ → Impact F
  extended : F → ℕ → ℕ → ℕ → ℕ → Impact F

pub record SpikeReportEntry (F : Type 0) : Type 0 where
  pub host_id : String
  pub hostname : String
  pub event_id : String
  pub start_ts : Time
  pub duration_s : F
  pub resource : String
  pub device : String
  pub baseline : F
  pub peak : F
  pub recurrence : String
  pub process : String
  pub service_or_job : String
  pub sql_instance : String
  pub sql_evidence : String
  pub probable_cause : String
  pub confidence : F
  pub evidence : List String
  pub next_validation_step : NextStep
  pub vcpu_impact_note : Option (Impact F)

pub record FleetSummary (F : Type 0) : Type 0 where
  pub hosts : ℕ
  pub sql_instances : ℕ
  pub total_alloc_vcpu : ℤ
  pub total_alloc_ram_gb : F
  pub spike_events : ℕ
  pub categories : Map String ℕ
  pub potential_vcpu : ℤ
  pub potential_ram_gb : F

-- The note of a group is one constant text, left out.
pub record HaGroup : Type 0 where
  pub ag_name : String
  pub members : List String
  pub replicas : List String

pub data Quality (F : Type 0) : Type 0 where
  import_warning : Warning → Quality F
  host_problem : String → Problem → Quality F
  low_coverage : String → F → Quality F

pub record Report (F : Type 0) : Type 0 where
  pub generated_at : Time
  pub schema_version : String
  pub tool_version : String
  pub fleet : FleetSummary F
  pub hosts : List (HostReport F)
  pub sql_instances : List (SqlReport F)
  pub ha_groups : List HaGroup
  pub spikes : List (SpikeReportEntry F)
  pub data_quality : List (Quality F)
