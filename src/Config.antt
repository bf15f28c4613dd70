-- ===== src/Config.antt =====
-- internal/config/config.go: the configuration, its defaults and `Validate`. YAML, JSON and the
-- hash are library code. A Go `int` that is checked for its sign, and a duration, is an integer.
-- The defaults that depend on the platform are arguments.
mod Validation
mod Tests
use cost_optimization.Prelude.{
  ℕ, String, ◌≡◌, Bool, true, false, not, ◌&&◌, ◌||◌, Option, none, some, List, [], ◌∷◌, ◌*◌, ◌-◌,
  if◌then◌else◌, leb,
}
use cost_optimization.Prelude.Int.{ℤ, pos, negsuc, ltb_ℤ}
use cost_optimization.Float64.{Float64, lit}
use cost_optimization.Model.{second, minute}
use text.Mathlib.Text.{◌==◌}
use Prim.Native.String.{◌++◌}

pub record SpikeRule (F : Type 0) : Type 0 where
  pub resource : String
  pub static_threshold : F
  pub sustained : ℤ
  pub baseline_k : F
  pub baseline_floor : F

pub record AgentConfig : Type 0 where
  pub data_dir : String
  pub duration_days : ℤ
  pub recipient : String
  pub privacy_mode : Bool

pub record SamplingConfig : Type 0 where
  pub host_interval : ℤ
  pub proc_interval : ℤ
  pub proc_top_n : ℤ
  pub proc_persist_interval : ℤ
  pub sql_sample_interval : ℤ
  pub sql_inventory_interval : ℤ
  pub health_interval : ℤ
  pub sched_interval : ℤ

pub record RetentionConfig : Type 0 where
  pub max_spool_mb : ℤ
  pub max_age_days : ℤ
  pub keep_after_export : Bool

pub record SpikesConfig (F : Type 0) : Type 0 where
  pub cooldown : ℤ
  pub pre_buffer : ℤ
  pub post_capture : ℤ
  pub rules : List (SpikeRule F)

pub record SqlConfig : Type 0 where
  pub enabled : Bool
  pub auth : String
  pub username : String
  pub password_file : String
  pub connect_timeout : ℤ
  pub collect_sql_text : Bool

pub record ExportConfig : Type 0 where
  pub auto_daily : Bool
  pub export_dir : String

pub record Config (F : Type 0) : Type 0 where
  pub agent : AgentConfig
  pub sampling : SamplingConfig
  pub retention : RetentionConfig
  pub spikes : SpikesConfig F
  pub sql : SqlConfig
  pub export : ExportConfig

module _ {F : Type 0} ⦃f : Float64 F⦄ where
  abbrev rule : String → ℕ → ℕ → ℕ → ℕ → SpikeRule F
  rule resource static minutes k floor = record {
    resource = resource;
    static_threshold = lit static 1;
    sustained = pos (minutes * minute);
    baseline_k = lit k 1;
    baseline_floor = lit floor 1;
  }

  abbrev pub default_rules : List (SpikeRule F)
  default_rules =
      rule "cpu" 85 2 4 40
      ∷ rule "memory" 90 2 5 60
      ∷ rule "paging" 500 1 6 100
      ∷ rule "disk_latency" 50 1 5 10
      ∷ rule "disk_queue" 8 1 5 2
      ∷ rule "disk_io" 95 2 4 50
      ∷ []

  -- `Default`: what Go leaves at its zero value is written out.
  unfoldable pub default : String → String → Config F
  default default_data_dir default_sql_auth = record {
    agent = record {
      data_dir = default_data_dir;
      duration_days = pos 30;
      recipient = "";
      privacy_mode = false;
    };
    sampling = record {
      host_interval = pos (15 * second);
      proc_interval = pos (60 * second);
      proc_top_n = pos 10;
      proc_persist_interval = pos (5 * minute);
      sql_sample_interval = pos (60 * second);
      sql_inventory_interval = pos (360 * minute);
      health_interval = pos (5 * minute);
      sched_interval = pos (360 * minute);
    };
    retention = record {
      max_spool_mb = pos 2048;
      max_age_days = pos 100;
      keep_after_export = false;
    };
    spikes = record {
      cooldown = pos (10 * minute);
      pre_buffer = pos (5 * minute);
      post_capture = pos (3 * minute);
      rules = default_rules;
    };
    sql = record {
      enabled = true;
      auth = default_sql_auth;
      username = "";
      password_file = "";
      connect_timeout = pos (5 * second);
      collect_sql_text = false;
    };
    export = record { auto_daily = true; export_dir = "" };
  }

-- The errors of `Validate`; the text of each is in the source.
pub data ConfigError : Type 0 where
  data_dir_required duration_days_range recipient_required host_interval_short : ConfigError
  proc_top_n_range max_spool_mb_small sql_auth_unknown : ConfigError
  unknown_resource : String → ConfigError

abbrev pub is_resource : String → Bool
is_resource r =
    r == "cpu"
    || r == "memory"
    || r == "paging"
    || r == "disk_latency"
    || r == "disk_queue"
    || r == "disk_io"
    || r == "net"

module _ {F : Type 0} where
  -- The first rule with an unknown resource.
  unfoldable pub bad_resource : List (SpikeRule F) → Option String
  bad_resource [] = none
  bad_resource (r ∷ rules) = if is_resource r.resource then bad_resource rules else some r.resource

  -- `Validate` changes the receiver where no export directory is set, before the rules are read.
  abbrev pub with_export_dir : Config F → Config F
  with_export_dir c =
      if c.export.export_dir == ""
      then record c { export = record c.export { export_dir = c.agent.data_dir ++ "/export" } }
      else c

  unfoldable pub check_rules : Config F → Config F × Option ConfigError
  unfolding bad_resource
  check_rules c = elim (bad_resource c.spikes.rules) [
    | none ↦ (c, none)
    | some r ↦ (c, some (unknown_resource r))
  ]

  -- The configuration after the call, and the error.
  unfoldable pub validate : Config F → Config F × Option ConfigError
  unfolding check_rules
  validate c =
      if c.agent.data_dir == ""
      then (c, some data_dir_required)
      else if ltb_ℤ c.agent.duration_days (pos 1) || ltb_ℤ (pos 365) c.agent.duration_days
      then (c, some duration_days_range)
      else if c.agent.recipient == ""
      then (c, some recipient_required)
      else if ltb_ℤ c.sampling.host_interval (pos second)
      then (c, some host_interval_short)
      else if ltb_ℤ c.sampling.proc_top_n (pos 1) || ltb_ℤ (pos 100) c.sampling.proc_top_n
      then (c, some proc_top_n_range)
      else if ltb_ℤ c.retention.max_spool_mb (pos 64)
      then (c, some max_spool_mb_small)
      else if not (c.sql.auth == "integrated") && not (c.sql.auth == "sqllogin")
      then (c, some sql_auth_unknown)
      else check_rules (with_export_dir c)
