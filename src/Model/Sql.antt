-- ===== src/Model/Sql.antt =====
-- internal/model/model.go: the records of SQL Server. The field names are those of the JSON.
use cost_optimization.Prelude.{ℕ, String, Bool, List}
use cost_optimization.Prelude.Int.{ℤ}
use cost_optimization.Prelude.Assoc.{Map}
use cost_optimization.Model.{Time, Meta}

pub record SqlDatabase (F : Type 0) : Type 0 where
  pub name : String
  pub size_mb : F
  pub log_size_mb : F
  pub state : String

pub record AgInfo : Type 0 where
  pub ag_name : String
  pub role : String
  pub sync_state : String
  pub readable_secondary : String
  pub partner_replicas : List String

pub record HaInfo : Type 0 where
  pub mode : String
  pub ags : List AgInfo

pub record SqlInstanceInventory (F : Type 0) : Type 0 where
  pub meta : Meta
  pub instance_key : String
  pub machine_name : String
  pub instance_name : String
  pub is_default : Bool
  pub version : String
  pub build : String
  pub product_level : String
  pub edition : String
  pub start_time : Time
  pub uptime_s : ℕ
  pub cpu_count_visible : ℤ
  pub scheduler_count : ℤ
  pub phys_mem_visible_kb : ℕ
  pub pid : ℤ
  pub service_account : String
  pub maxdop : ℤ
  pub cost_threshold : ℤ
  pub min_server_memory_mb : ℕ
  pub max_server_memory_mb : ℕ
  pub max_memory_unlimited_default : Bool
  pub lock_pages_in_memory : String
  pub linux_memory_limit_mb : ℕ
  pub ha : HaInfo
  pub databases : List (SqlDatabase F)
  pub collection_level : String
  pub collection_note : String

pub record WaitDelta (F : Type 0) : Type 0 where
  pub wait_ms : F
  pub count : F

pub record DbFileIo (F : Type 0) : Type 0 where
  pub database : String
  pub file_type : String
  pub read_lat_ms : F
  pub write_lat_ms : F
  pub read_ps : F
  pub write_ps : F

pub record SqlSample (F : Type 0) : Type 0 where
  pub meta : Meta
  pub instance_key : String
  pub physical_memory_in_use_kb : ℕ
  pub locked_page_allocations_kb : ℕ
  pub large_page_allocations_kb : ℕ
  pub memory_utilization_pct : ℤ
  pub process_physical_memory_low : Bool
  pub process_virtual_memory_low : Bool
  pub total_server_memory_kb : ℕ
  pub target_server_memory_kb : ℕ
  pub database_cache_kb : ℕ
  pub stolen_server_memory_kb : ℕ
  pub free_memory_kb : ℕ
  pub memory_grants_pending : ℤ
  pub memory_grants_active : ℤ
  pub ple_seconds : ℤ
  pub memory_clerks_top_kb : Map String ℕ
  pub batch_requests_ps : F
  pub compilations_ps : F
  pub recompilations_ps : F
  pub sql_process_cpu_pct : F
  pub page_reads_ps : F
  pub page_writes_ps : F
  pub lazy_writes_ps : F
  pub checkpoint_pages_ps : F
  pub wait_deltas : Map String (WaitDelta F)
  pub blocked_sessions : ℤ
  pub file_io : List (DbFileIo F)
  pub tempdb_used_mb : F
  pub tempdb_total_mb : F

pub record SqlActiveRequest : Type 0 where
  pub session_id : ℤ
  pub request_id : ℤ
  pub database : String
  pub command : String
  pub status : String
  pub cpu_time_ms : ℤ
  pub elapsed_ms : ℤ
  pub logical_reads : ℤ
  pub physical_reads : ℤ
  pub writes : ℤ
  pub wait_type : String
  pub blocking_session : ℤ
  pub program_name : String
  pub query_hash : String
  pub plan_hash : String

pub record SqlAgentJobRun (F : Type 0) : Type 0 where
  pub job_name : String
  pub start_time : Time
  pub duration_s : F
  pub outcome : String
  pub running : Bool

pub record SqlSpikeContext (F : Type 0) : Type 0 where
  pub meta : Meta
  pub event_id : String
  pub instance_key : String
  pub active_requests : List SqlActiveRequest
  pub agent_jobs : List (SqlAgentJobRun F)
  pub correlation_level : String
