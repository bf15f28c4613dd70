-- ===== src/Sampler.antt =====
-- internal/sampler/sampler.go: the sampler's state, what it reads and what a sample holds. The
-- probes of the operating system are inputs, listed in `Readings`; the counters of gopsutil are
-- uint64. `Rates` holds the arithmetic, `Reading` is `Sample`, `Minutes` the aggregation of a minute.
pub mod Rates
pub mod Network
pub mod Reading
pub mod Devices
pub mod Minutes
pub mod Grouping
pub mod Points
mod Order
mod Percentages
mod Tests
use cost_optimization.Prelude.{ℕ, String, Bool, List, Option}
use cost_optimization.Prelude.Assoc.{Map}
use cost_optimization.Model.{Time}

pub record DiskRates (F : Type 0) : Type 0 where
  pub read_iops : F
  pub write_iops : F
  pub read_bytes_ps : F
  pub write_bytes_ps : F
  pub read_lat_ms : F
  pub write_lat_ms : F
  pub queue_depth : F
  pub busy_pct : F

-- The speed is never negative: nicSpeedMbps gives 0 instead.
pub record NetRates (F : Type 0) : Type 0 where
  pub rx_bytes_ps : F
  pub tx_bytes_ps : F
  pub rx_pkts_ps : F
  pub tx_pkts_ps : F
  pub errs_ps : F
  pub drops_ps : F
  pub speed_mbps : ℕ

pub record PsiSample (F : Type 0) : Type 0 where
  pub cpu_some : F
  pub mem_some : F
  pub mem_full : F
  pub io_some : F
  pub io_full : F

pub record HighRes (F : Type 0) : Type 0 where
  pub ts : Time
  pub cpu_total_pct : F
  pub cpu_user_pct : F
  pub cpu_system_pct : F
  pub cpu_iowait_pct : F
  pub cpu_steal_pct : F
  pub per_core_pct : List F
  pub load1 : F
  pub load5 : F
  pub ctx_switch_ps : F
  pub mem_used_pct : F
  pub mem_used_bytes : ℕ
  pub mem_avail_bytes : ℕ
  pub mem_committed : ℕ
  pub swap_used_bytes : ℕ
  pub page_in_ps : F
  pub page_out_ps : F
  pub major_fault_ps : F
  pub disks : Map String (DiskRates F)
  pub net : Map String (NetRates F)
  pub psi : Option (PsiSample F)

-- The fields of gopsutil's cpu.TimesStat, disk.IOCountersStat and net.IOCountersStat that are read.
pub record CpuTimes (F : Type 0) : Type 0 where
  pub user : F
  pub system : F
  pub idle : F
  pub iowait : F
  pub steal : F
  pub nice : F
  pub irq : F
  pub softirq : F

pub record DiskCounters : Type 0 where
  pub read_count : ℕ
  pub write_count : ℕ
  pub read_bytes : ℕ
  pub write_bytes : ℕ
  pub read_time : ℕ
  pub write_time : ℕ
  pub io_time : ℕ
  pub weighted_io : ℕ

pub record NicCounters : Type 0 where
  pub name : String
  pub bytes_recv : ℕ
  pub bytes_sent : ℕ
  pub packets_recv : ℕ
  pub packets_sent : ℕ
  pub errin : ℕ
  pub errout : ℕ
  pub dropin : ℕ
  pub dropout : ℕ

pub record VmCounters : Type 0 where
  pub page_in : ℕ
  pub page_out : ℕ
  pub maj_fault : ℕ
  pub ctx_switch : ℕ

pub record VirtualMemory (F : Type 0) : Type 0 where
  pub used_percent : F
  pub used : ℕ
  pub available : ℕ
  pub committed_as : ℕ

-- What a probe gives: a value, an error with its text, or errUnsupported.
pub data Probe {ℓ} (A : Type ℓ) : Type ℓ where
  read : A → Probe A
  failed : String → Probe A
  unsupported : Probe A

-- What the probes of one call give, in the order of the calls; the map of the disks is listed in
-- the order in which Go ranges over it.
pub record Readings (F : Type 0) : Type 0 where
  pub now : Time
  pub cpu_total : Probe (List (CpuTimes F))
  pub cpu_cores : Probe (List (CpuTimes F))
  pub load_avg : Probe (F × F)
  pub memory : Probe (VirtualMemory F)
  pub swap_used : Probe ℕ
  pub vm_counters : Probe VmCounters
  pub disk_io : Probe (Map String DiskCounters)
  pub nics : Probe (List NicCounters)
  pub psi : Probe (PsiSample F)

-- The calls of `issues` are the result of `sample`, so the callback is no field.
pub record Sampler (F : Type 0) : Type 0 where
  pub prev_ts : Time
  pub prev_cpu : List (CpuTimes F)
  pub prev_cpu_cores : List (CpuTimes F)
  pub prev_disk : Map String DiskCounters
  pub prev_net : Map String NicCounters
  pub prev_vm : VmCounters
  pub prev_vm_ok : Bool
  pub nic_speeds : Map String ℕ
