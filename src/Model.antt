-- ===== src/Model.antt =====
-- internal/model/model.go: the records that the agent and the analyzer share. A time is a number of
-- nanoseconds since Go's zero time, so 0 is the zero time and `UTC()` changes nothing. The JSON tags
-- are left out. `F` is float64.
pub mod Host
pub mod Sql
pub mod Bundle
pub mod Health
use cost_optimization.Prelude.{ℕ, String, Bool, List, ◌==◌, ◌+◌, ◌-◌, ltb}
use cost_optimization.Prelude.Int.{ℤ, pos_part, neg_part}
use cost_optimization.Prelude.Assoc.{Map}

abbrev pub Time : Type 0
Time = ℕ

abbrev pub second : ℕ
second = 1000000000

abbrev pub minute : ℕ
minute = 60000000000

abbrev pub is_zero : Time → Bool
is_zero t = t == 0

-- t.Add(d), and t.Sub(u) < d: the source only compares differences, and a difference that `Sub`
-- saturates compares with an int64 as the exact one does.
abbrev pub add_time : Time → ℤ → Time
add_time t d = t + pos_part d - neg_part d

abbrev pub sub_lt : Time → Time → ℤ → Bool
sub_lt t u d = ltb (t + neg_part d) (u + pos_part d)

abbrev pub schema_version : String
schema_version = "1.0.0"

abbrev pub agent_version : String
agent_version = "0.1.0"

pub record Meta : Type 0 where
  pub kind : String
  pub schema : String
  pub ts : Time

abbrev pub new_meta : String → Time → Meta
new_meta kind ts = record { kind = kind; schema = schema_version; ts = ts }

abbrev pub kind_spike : String
kind_spike = "spike_event"

-- A sample of one process.
pub record ProcSample (F : Type 0) : Type 0 where
  pub pid : ℕ
  pub ppid : ℕ
  pub name : String
  pub exe : String
  pub service_unit : String
  pub cpu_pct : F
  pub cpu_time_s : F
  pub rss_bytes : ℕ
  pub read_bytes_ps : F
  pub write_bytes_ps : F
  pub start_time : Time

pub record ProcTop (F : Type 0) : Type 0 where
  pub meta : Meta
  pub procs : List (ProcSample F)

pub record SchedEntry : Type 0 where
  pub source : String
  pub name : String
  pub schedule : String
  pub unit : String
  pub last_run : Time
  pub next_run : Time

pub record MetricPoint (F : Type 0) : Type 0 where
  pub ts : Time
  pub value : F

-- What the field `trigger` holds.
pub data Trigger : Type 0 where
  static baseline_deviation : Trigger

pub record SpikeEvent (F : Type 0) : Type 0 where
  pub meta : Meta
  pub event_id : String
  pub resource : String
  pub device : String
  pub start_ts : Time
  pub end_ts : Time
  pub duration_s : F
  pub baseline : F
  pub peak : F
  pub threshold : F
  pub trigger : Trigger
  pub pre_samples : List (MetricPoint F)
  pub during_samples : List (MetricPoint F)
  pub post_samples : List (MetricPoint F)
  pub top_procs : List (ProcSample F)
  pub core_seconds_by_proc : Map String F
  pub probable_cause : String
  pub correlated_process : String
  pub correlated_service_or_job : String
  pub attribution_confidence : F
  pub attribution_evidence : List String
  pub validation_required : Bool
  pub sql_correlated : Bool
  pub sql_instance : String
