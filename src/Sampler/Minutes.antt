-- ===== src/Sampler/Minutes.antt =====
-- `MinuteAgg` of internal/sampler/sampler.go: the samples of a minute, and their aggregate.
use cost_optimization.Prelude.{
  ◌+◌, ◌-◌, ◌%◌, ◌^◌, String, not, ◌&&◌, ◌||◌, Option, none, some, List, [], ◌∷◌, ◌++◌, length, map,
  ltb, ◌==◌, if◌then◌else◌,
}
use cost_optimization.Prelude.Int.{pos}
use cost_optimization.Float64.{Float64, ◌+F◌, ◌/F◌, ◌<F◌, of_nat, lit, round2}
use cost_optimization.Model.{Time, minute, is_zero, new_meta}
use cost_optimization.Model.Host.{CpuAgg, MemAgg, DiskAgg, NetAgg, PsiAgg, HostMinute}
use cost_optimization.Sampler.{HighRes, PsiSample}
use cost_optimization.Sampler.Devices.{
  DeviceAcc, no_devices, add_disks, add_nics, disk_aggs, net_aggs,
}

pub record MinuteAgg (F : Type 0) : Type 0 where
  pub minute : Time
  pub samples : List (HighRes F)

-- The variables of `emit`; `psi` holds the sums and the number of samples that have them.
pub record MinuteAcc (F : Type 0) : Type 0 where
  pub cpu : CpuAgg F
  pub mem : MemAgg F
  pub disks : DeviceAcc F (DiskAgg F)
  pub net : DeviceAcc F (NetAgg F)
  pub psi : PsiAgg F × F

-- t.Truncate(time.Minute), which counts from the zero time.
abbrev pub truncate_minute : Time → Time
truncate_minute t = t - t % minute

abbrev pub kind_host_minute : String
kind_host_minute = "host_minute"

module _ {F : Type 0} ⦃f : Float64 F⦄ where
  -- The loop over PerCorePct, up to the shorter length.
  unfoldable pub max_cores : List F → List F → List F
  max_cores (m ∷ ms) (v ∷ vs) = f.fmax m v ∷ max_cores ms vs
  max_cores ms _ = ms

  -- A nil slice is the empty one: the source makes it only where a sample has cores.
  abbrev pub start_cores : List F → List F → List F
  start_cores [] vs = map (λ v. lit 0 1) vs
  start_cores ms vs = ms

  unfoldable pub add_cpu : F → HighRes F → CpuAgg F → CpuAgg F
  unfolding max_cores
  add_cpu n s c = record c {
    avg_pct = c.avg_pct +F s.cpu_total_pct /F n;
    max_pct = f.fmax c.max_pct s.cpu_total_pct;
    user_pct = c.user_pct +F s.cpu_user_pct /F n;
    system_pct = c.system_pct +F s.cpu_system_pct /F n;
    iowait_pct = c.iowait_pct +F s.cpu_iowait_pct /F n;
    steal_pct = c.steal_pct +F s.cpu_steal_pct /F n;
    load1 = c.load1 +F s.load1 /F n;
    load5 = c.load5 +F s.load5 /F n;
    ctx_switch_ps = c.ctx_switch_ps +F s.ctx_switch_ps /F n;
    per_core_max = max_cores (start_cores c.per_core_max s.per_core_pct) s.per_core_pct;
  }

  unfoldable pub add_mem : F → HighRes F → MemAgg F → MemAgg F
  add_mem n s m = record m {
    used_pct_avg = m.used_pct_avg +F s.mem_used_pct /F n;
    used_pct_max = f.fmax m.used_pct_max s.mem_used_pct;
    used_bytes_avg = (m.used_bytes_avg + f.trunc (of_nat s.mem_used_bytes /F n)) % 2 ^ 64;
    avail_bytes_min =
        if m.avail_bytes_min == 0 || ltb s.mem_avail_bytes m.avail_bytes_min
        then s.mem_avail_bytes
        else m.avail_bytes_min;
    committed_bytes =
        if ltb m.committed_bytes s.mem_committed then s.mem_committed else m.committed_bytes;
    swap_used_bytes =
        if ltb m.swap_used_bytes s.swap_used_bytes then s.swap_used_bytes else m.swap_used_bytes;
    page_in_ps = m.page_in_ps +F s.page_in_ps /F n;
    page_out_ps = m.page_out_ps +F s.page_out_ps /F n;
    major_fault_ps = m.major_fault_ps +F s.major_fault_ps /F n;
  }

  abbrev pub add_psi_sample : PsiSample F → PsiAgg F → PsiAgg F
  add_psi_sample s psi = record {
    cpu_some_avg = psi.cpu_some_avg +F s.cpu_some;
    mem_some_avg = psi.mem_some_avg +F s.mem_some;
    mem_full_avg = psi.mem_full_avg +F s.mem_full;
    io_some_avg = psi.io_some_avg +F s.io_some;
    io_full_avg = psi.io_full_avg +F s.io_full;
    mem_some_max = f.fmax psi.mem_some_max s.mem_some;
    io_some_max = f.fmax psi.io_some_max s.io_some;
  }

  -- The sums and the number of samples that have them.
  unfoldable pub add_psi : Option (PsiSample F) → PsiAgg F × F → PsiAgg F × F
  add_psi none acc = acc
  add_psi (some s) (psi, count) = (add_psi_sample s psi, count +F lit 1 1)

  abbrev pub empty_psi : PsiAgg F
  empty_psi = record {
    cpu_some_avg = lit 0 1;
    mem_some_avg = lit 0 1;
    mem_full_avg = lit 0 1;
    io_some_avg = lit 0 1;
    io_full_avg = lit 0 1;
    mem_some_max = lit 0 1;
    io_some_max = lit 0 1;
  }

  unfoldable pub psi_agg : PsiAgg F × F → Option (PsiAgg F)
  psi_agg (psi, count) =
      if lit 0 1 <F count
      then some (record psi {
        cpu_some_avg = round2 (psi.cpu_some_avg /F count);
        mem_some_avg = round2 (psi.mem_some_avg /F count);
        mem_full_avg = round2 (psi.mem_full_avg /F count);
        io_some_avg = round2 (psi.io_some_avg /F count);
        io_full_avg = round2 (psi.io_full_avg /F count);
      })
      else none

  abbrev pub empty_cpu : CpuAgg F
  empty_cpu = record {
    avg_pct = lit 0 1;
    max_pct = lit 0 1;
    user_pct = lit 0 1;
    system_pct = lit 0 1;
    iowait_pct = lit 0 1;
    steal_pct = lit 0 1;
    per_core_max = [];
    load1 = lit 0 1;
    load5 = lit 0 1;
    run_queue = lit 0 1;
    ctx_switch_ps = lit 0 1;
  }

  abbrev pub empty_mem : MemAgg F
  empty_mem = record {
    used_pct_avg = lit 0 1;
    used_pct_max = lit 0 1;
    used_bytes_avg = 0;
    avail_bytes_min = 0;
    committed_bytes = 0;
    swap_used_bytes = 0;
    page_in_ps = lit 0 1;
    page_out_ps = lit 0 1;
    major_fault_ps = lit 0 1;
  }

  -- One round of the loop over the samples.
  unfoldable pub add_sample : F → HighRes F → MinuteAcc F → MinuteAcc F
  unfolding add_cpu add_mem add_psi
  add_sample n s acc = record {
    cpu = add_cpu n s acc.cpu;
    mem = add_mem n s acc.mem;
    disks = add_disks s.disks acc.disks;
    net = add_nics s.net acc.net;
    psi = add_psi s.psi acc.psi;
  }

  unfoldable pub add_samples_of : F → List (HighRes F) → MinuteAcc F → MinuteAcc F
  unfolding add_sample
  add_samples_of n [] acc = acc
  add_samples_of n (s ∷ ss) acc = add_samples_of n ss (add_sample n s acc)

  -- `roundAggs`.
  unfoldable pub round_cpu : CpuAgg F → CpuAgg F
  round_cpu c = record c {
    avg_pct = round2 c.avg_pct;
    max_pct = round2 c.max_pct;
    user_pct = round2 c.user_pct;
    system_pct = round2 c.system_pct;
    iowait_pct = round2 c.iowait_pct;
    steal_pct = round2 c.steal_pct;
    load1 = round2 c.load1;
    load5 = round2 c.load5;
    ctx_switch_ps = round2 c.ctx_switch_ps;
    per_core_max = map round2 c.per_core_max;
  }

  unfoldable pub round_mem : MemAgg F → MemAgg F
  round_mem m = record m {
    used_pct_avg = round2 m.used_pct_avg;
    used_pct_max = round2 m.used_pct_max;
    page_in_ps = round2 m.page_in_ps;
    page_out_ps = round2 m.page_out_ps;
    major_fault_ps = round2 m.major_fault_ps;
  }

  abbrev pub empty_acc : MinuteAcc F
  empty_acc = record {
    cpu = empty_cpu;
    mem = empty_mem;
    disks = no_devices;
    net = no_devices;
    psi = (empty_psi, lit 0 1);
  }

  unfoldable pub minute_of : Time → List (HighRes F) → MinuteAcc F → HostMinute F
  unfolding round_cpu round_mem psi_agg
  minute_of start samples acc = record {
    meta = new_meta kind_host_minute start;
    samples = pos (length samples);
    cpu = round_cpu acc.cpu;
    mem = round_mem acc.mem;
    disks = disk_aggs acc.disks;
    fs = [];
    net = net_aggs acc.net;
    psi = psi_agg acc.psi;
  }

  unfoldable pub emit : MinuteAgg F → HostMinute F
  unfolding add_samples_of minute_of
  emit m =
      let acc = add_samples_of (of_nat {F = F} (length m.samples)) m.samples empty_acc in
      minute_of m.minute m.samples acc

  unfoldable pub add : HighRes F → MinuteAgg F → MinuteAgg F × Option (HostMinute F)
  unfolding emit
  add hr m =
      let start = truncate_minute hr.ts in
      let other = not (start == m.minute) in
      let full = not (is_zero m.minute) && other && ltb 0 (length m.samples) in
      let kept : MinuteAgg F =
        if is_zero m.minute || other then record { minute = start; samples = [] } else m in
      (record kept { samples = kept.samples ++ hr ∷ [] }, (if full then some (emit m) else none))

  unfoldable pub flush_partial : MinuteAgg F → MinuteAgg F × Option (HostMinute F)
  unfolding emit
  flush_partial m =
      if length m.samples == 0 then (m, none) else (record m { samples = [] }, some (emit m))
