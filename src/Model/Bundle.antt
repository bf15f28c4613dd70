-- ===== src/Model/Bundle.antt =====
-- internal/model/model.go: the manifest of a bundle. The field names are those of the JSON.
use cost_optimization.Prelude.{String, List}
use cost_optimization.Prelude.Int.{ℤ}
use cost_optimization.Model.{Time}

pub record TimeRange : Type 0 where
  pub start : Time
  pub end : Time

pub record SegmentMeta : Type 0 where
  pub name : String
  pub kind : String
  pub sha256 : String
  pub size_bytes : ℤ
  pub records : ℤ
  pub min_ts : Time
  pub max_ts : Time

pub record HealthSummary : Type 0 where
  pub expected_minutes : ℤ
  pub collected_minutes : ℤ
  pub gaps : List TimeRange
  pub permission_issues : List String

pub record Manifest : Type 0 where
  pub schema_version : String
  pub agent_version : String
  pub bundle_id : String
  pub host_id : String
  pub hostname : String
  pub timezone : String
  pub created_at : Time
  pub period_start : Time
  pub period_end : Time
  pub config_hash : String
  pub segments : List SegmentMeta
  pub health : HealthSummary
