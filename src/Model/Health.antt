-- ===== src/Model/Health.antt =====
-- internal/model/model.go: the health record of an agent and the snapshot of scheduled work. The field
-- names are those of the JSON.
use cost_optimization.Prelude.{ℕ, String, List}
use cost_optimization.Prelude.Assoc.{Map}
use cost_optimization.Model.{Time, Meta, SchedEntry}

pub record SchedSnapshot : Type 0 where
  pub meta : Meta
  pub entries : List SchedEntry

pub record RecentError : Type 0 where
  pub ts : Time
  pub collector : String
  pub error : String

pub record Health (F : Type 0) : Type 0 where
  pub meta : Meta
  pub agent_version : String
  pub agent_uptime_s : ℕ
  pub samples_collected : ℕ
  pub samples_dropped : ℕ
  pub collector_status : Map String String
  pub permission_issues : List String
  pub recent_errors : List RecentError
  pub spool_bytes : ℕ
  pub self_rss_bytes : ℕ
  pub self_cpu_pct : F
