-- ===== src/Analyzer/Sql.antt =====
-- internal/analyzer/recommend_sql.go: the report on an instance of SQL Server. The texts of a report
-- are data: each name stands for the text that the source formats, with its arguments. `Classify` is
-- the ladder of `classifySQL`, `Instance` is `analyzeSQLInstance`.
pub mod Classify
pub mod Samples
pub mod Instance
pub mod Keys
mod Ladder
mod Pressures
pub mod Tests
use cost_optimization.Prelude.{ℕ, String, Bool, Option, List}
use cost_optimization.Prelude.Int.{ℤ}
use cost_optimization.Analyzer.Report.{Category}

pub data SqlAdvice (F : Type 0) : Type 0 where
  no_deep_telemetry : SqlAdvice F
  secondary_of : String → SqlAdvice F
  unlimited_instances : ℕ → ℕ → F → SqlAdvice F
  combined_exceeds : ℕ → ℕ → SqlAdvice F
  unlimited_default : F → F → SqlAdvice F
  pressure_present : SqlAdvice F
  target_not_reached : SqlAdvice F
  uptime_too_short : F → SqlAdvice F
  staged_reduction : ℤ → F → F → SqlAdvice F
  no_safe_reduction : SqlAdvice F

pub data Pressure (F : Type 0) : Type 0 where
  physical_memory_low : Pressure F
  grants_pending : ℤ → Pressure F
  ple_below_floor : ℤ → F → Pressure F
  host_paging : Pressure F

pub data SqlRationale (F : Type 0) : Type 0 where
  collection_note : String → SqlRationale F
  secondary_detected : SqlRationale F
  combined_memory : ℕ → ℕ → ℕ → SqlRationale F
  max_is_default : SqlRationale F
  pressure : Pressure F → SqlRationale F
  total_vs_target : F → F → F → SqlRationale F
  cpu_and_ple : F → ℤ → ℤ → SqlRationale F
  observed : F → F → ℤ → F → SqlRationale F

pub data JobCorrelate : Type 0 where
  agent_job : String → JobCorrelate
  active_request : String → String → String → JobCorrelate

-- Of a `CapacityRange`, what the source sets: the memory and the note.
pub data MemoryNote : Type 0 where
  os_reserve cache_headroom : MemoryNote

pub record MemoryRange (F : Type 0) : Type 0 where
  pub min_ram_gb : F
  pub max_ram_gb : F
  pub note : MemoryNote

pub record SqlReport (F : Type 0) : Type 0 where
  pub host_id : String
  pub hostname : String
  pub instance_key : String
  pub instance_name : String
  pub version : String
  pub edition : String
  pub ha_role : String
  pub ha_group : String
  pub collection_level : String
  pub host_ram_gb : F
  pub min_server_mem_mb : ℕ
  pub max_server_mem_mb : ℕ
  pub max_is_unlimited : Bool
  pub sql_process_mem_gb : F
  pub total_server_mem_gb : F
  pub target_server_mem_gb : F
  pub sql_mem_pct_of_host : F
  pub sql_mem_pct_of_max : F
  pub non_buffer_mem_gb : F
  pub os_headroom_gb : F
  pub engine_uptime_days : F
  pub ple_p5 : ℤ
  pub grants_pending_max : ℤ
  pub pressure_signals : List (Pressure F)
  pub batch_req_p95 : F
  pub sql_cpu_p95 : F
  pub file_io_read_p95_ms : F
  pub top_waits : List (String × F)
  pub sql_spikes : ℕ
  pub job_correlates : List String
  pub category : Option Category
  pub recommendation : Option (SqlAdvice F)
  pub suggested_max_mem_gb : Option (MemoryRange F)
  pub confidence : F
  pub validation_required : Bool
  pub rationale : List (SqlRationale F)
