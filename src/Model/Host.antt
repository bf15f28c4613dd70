-- ===== src/Model/Host.antt =====
-- internal/model/model.go: the inventory of a host and the aggregates of a minute. The field names are those of the JSON.
use cost_optimization.Prelude.{ℕ, String, Bool, List, Option}
use cost_optimization.Prelude.Int.{ℤ}
use cost_optimization.Model.{Time, Meta}

pub record DiskInfo : Type 0 where
  pub device : String
  pub model : String
  pub size_bytes : ℕ

pub record FsInfo : Type 0 where
  pub mount : String
  pub device : String
  pub fstype : String
  pub total_bytes : ℕ
  pub avail_bytes : ℕ

pub record NicInfo : Type 0 where
  pub name : String
  pub mac : String
  pub speed_mbps : ℤ
  pub addrs : List String

pub record Inventory : Type 0 where
  pub meta : Meta
  pub host_id : String
  pub hostname : String
  pub os : String
  pub os_version : String
  pub kernel_build : String
  pub boot_time : Time
  pub uptime_s : ℕ
  pub timezone : String
  pub tz_offset_sec : ℤ
  pub virtualization : String
  pub cpu_model : String
  pub physical_cores : ℤ
  pub logical_cpus : ℤ
  pub allocated_vcpu : ℤ
  pub total_ram_bytes : ℕ
  pub swap_total_bytes : ℕ
  pub disks : List DiskInfo
  pub filesystems : List FsInfo
  pub nics : List NicInfo
  pub agent_version : String
  pub config_hash : String
  pub privacy_mode : Bool

pub record CpuAgg (F : Type 0) : Type 0 where
  pub avg_pct : F
  pub max_pct : F
  pub user_pct : F
  pub system_pct : F
  pub iowait_pct : F
  pub steal_pct : F
  pub per_core_max : List F
  pub load1 : F
  pub load5 : F
  pub run_queue : F
  pub ctx_switch_ps : F

pub record MemAgg (F : Type 0) : Type 0 where
  pub used_pct_avg : F
  pub used_pct_max : F
  pub used_bytes_avg : ℕ
  pub avail_bytes_min : ℕ
  pub committed_bytes : ℕ
  pub swap_used_bytes : ℕ
  pub page_in_ps : F
  pub page_out_ps : F
  pub major_fault_ps : F

pub record DiskAgg (F : Type 0) : Type 0 where
  pub device : String
  pub read_iops : F
  pub write_iops : F
  pub read_bytes_ps : F
  pub write_bytes_ps : F
  pub read_lat_ms : F
  pub write_lat_ms : F
  pub queue_depth : F
  pub busy_pct : F

pub record FsUsage : Type 0 where
  pub mount : String
  pub total_bytes : ℕ
  pub avail_bytes : ℕ

pub record NetAgg (F : Type 0) : Type 0 where
  pub name : String
  pub rx_bytes_ps : F
  pub tx_bytes_ps : F
  pub rx_pkts_ps : F
  pub tx_pkts_ps : F
  pub errs_ps : F
  pub drops_ps : F
  pub util_pct : F

pub record PsiAgg (F : Type 0) : Type 0 where
  pub cpu_some_avg : F
  pub mem_some_avg : F
  pub mem_full_avg : F
  pub io_some_avg : F
  pub io_full_avg : F
  pub mem_some_max : F
  pub io_some_max : F

pub record HostMinute (F : Type 0) : Type 0 where
  pub meta : Meta
  pub samples : ℤ
  pub cpu : CpuAgg F
  pub mem : MemAgg F
  pub disks : List (DiskAgg F)
  pub fs : List FsUsage
  pub net : List (NetAgg F)
  pub psi : Option (PsiAgg F)
