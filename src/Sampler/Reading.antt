-- ===== src/Sampler/Reading.antt =====
-- `Sample` of internal/sampler/sampler.go: one function per probe, which acts on the sampler, the
-- sample under construction and the issues reported so far.
use cost_optimization.Prelude.{
  ℕ, String, Bool, true, false, not, ◌&&◌, Option, none, some, List, [], ◌∷◌, ◌++◌, length, ◌==◌,
  if◌then◌else◌,
}
use cost_optimization.Prelude.Assoc.{Map, string_eq, lookup, insert}
use cost_optimization.Float64.{Float64, ◌<F◌, lit, seconds_since}
use cost_optimization.Model.{Time, is_zero}
use cost_optimization.Sampler.{
  HighRes, DiskRates, PsiSample, CpuTimes, DiskCounters, NicCounters, VmCounters, VirtualMemory,
  Probe, read, failed, unsupported, Readings, Sampler,
}
use cost_optimization.Sampler.Rates.{CpuPct, cpu_delta_pct, rate, disk_rates, skip_device}
use cost_optimization.Sampler.Network.{NetScan, nic_loop}

pub record Progress (F : Type 0) : Type 0 where
  pub sampler : Sampler F
  pub hr : HighRes F
  pub issues : List (String × String)

-- `errUnsupported.Error()`.
abbrev pub unsupported_text : String
unsupported_text = "unsupported on this platform"

abbrev pub report : {F : Type 0} → String → String → Progress F → Progress F
report collector err p = record p { issues = p.issues ++ (collector, err) ∷ [] }

abbrev pub empty_vm : VmCounters
empty_vm = record { page_in = 0; page_out = 0; maj_fault = 0; ctx_switch = 0 }

-- `New`.
unfoldable pub new_sampler : {F : Type 0} → Sampler F
new_sampler = record {
  prev_ts = 0;
  prev_cpu = [];
  prev_cpu_cores = [];
  prev_disk = [];
  prev_net = [];
  prev_vm = empty_vm;
  prev_vm_ok = false;
  nic_speeds = [];
}

module _ {F : Type 0} ⦃f : Float64 F⦄ where
  abbrev pub new_high_res : Time → HighRes F
  new_high_res ts = record {
    ts = ts;
    cpu_total_pct = lit 0 1;
    cpu_user_pct = lit 0 1;
    cpu_system_pct = lit 0 1;
    cpu_iowait_pct = lit 0 1;
    cpu_steal_pct = lit 0 1;
    per_core_pct = [];
    load1 = lit 0 1;
    load5 = lit 0 1;
    ctx_switch_ps = lit 0 1;
    mem_used_pct = lit 0 1;
    mem_used_bytes = 0;
    mem_avail_bytes = 0;
    mem_committed = 0;
    swap_used_bytes = 0;
    page_in_ps = lit 0 1;
    page_out_ps = lit 0 1;
    major_fault_ps = lit 0 1;
    disks = [];
    net = [];
    psi = none;
  }

  abbrev pub with_cpu : CpuPct F → HighRes F → HighRes F
  with_cpu c hr = record hr {
    cpu_total_pct = c.total;
    cpu_user_pct = c.user;
    cpu_system_pct = c.system;
    cpu_iowait_pct = c.iowait;
    cpu_steal_pct = c.steal;
  }

  -- The shares are set where both readings hold one element and this is not the first call.
  abbrev pub set_cpu : Bool → List (CpuTimes F) → CpuTimes F → HighRes F → HighRes F
  set_cpu false (prev ∷ []) cur hr = with_cpu (cpu_delta_pct prev cur) hr
  set_cpu _ _ cur hr = hr

  unfoldable pub sample_cpu : Bool → Probe (List (CpuTimes F)) → Progress F → Progress F
  sample_cpu first (read (cur ∷ [])) p = record p {
    hr = set_cpu first p.sampler.prev_cpu cur p.hr;
    sampler = record p.sampler { prev_cpu = cur ∷ [] };
  }
  sample_cpu first (read _) p = p
  sample_cpu first (failed err) p = report "cpu.times" err p
  sample_cpu first unsupported p = report "cpu.times" unsupported_text p

  -- The loop over the cores, for lists of equal length.
  unfoldable pub core_pcts : List (CpuTimes F) → List (CpuTimes F) → List F
  core_pcts (prev ∷ prevs) (cur ∷ curs) = (cpu_delta_pct prev cur).total ∷ core_pcts prevs curs
  core_pcts _ _ = []

  unfoldable pub sample_cores : Bool → Probe (List (CpuTimes F)) → Progress F → Progress F
  unfolding core_pcts
  sample_cores first (read cores) p =
      let prev = p.sampler.prev_cpu_cores in
      record p {
        hr =
            if not first && length prev == length cores
            then record p.hr { per_core_pct = core_pcts prev cores }
            else p.hr;
        sampler = record p.sampler { prev_cpu_cores = cores };
      }
  sample_cores first _ p = p

  unfoldable pub sample_load : Probe (F × F) → Progress F → Progress F
  sample_load (read (l1, l5)) p = record p { hr = record p.hr { load1 = l1; load5 = l5 } }
  sample_load _ p = p

  unfoldable pub sample_memory : Probe (VirtualMemory F) → Progress F → Progress F
  sample_memory (read vm) p = record p {
    hr = record p.hr {
      mem_used_pct = vm.used_percent;
      mem_used_bytes = vm.used;
      mem_avail_bytes = vm.available;
      mem_committed = vm.committed_as;
    };
  }
  sample_memory (failed err) p = report "mem.virtual" err p
  sample_memory unsupported p = report "mem.virtual" unsupported_text p

  unfoldable pub sample_swap : Probe ℕ → Progress F → Progress F
  sample_swap (read used) p = record p { hr = record p.hr { swap_used_bytes = used } }
  sample_swap _ p = p

  abbrev pub vm_rates : VmCounters → VmCounters → F → HighRes F → HighRes F
  vm_rates vc prev elapsed hr = record hr {
    page_in_ps = rate vc.page_in prev.page_in elapsed;
    page_out_ps = rate vc.page_out prev.page_out elapsed;
    major_fault_ps = rate vc.maj_fault prev.maj_fault elapsed;
    ctx_switch_ps = rate vc.ctx_switch prev.ctx_switch elapsed;
  }

  unfoldable pub sample_vm : Bool → F → Probe VmCounters → Progress F → Progress F
  sample_vm first elapsed (read vc) p = record p {
    hr =
        if not first && p.sampler.prev_vm_ok && lit 0 1 <F elapsed
        then vm_rates vc p.sampler.prev_vm elapsed p.hr
        else p.hr;
    sampler = record p.sampler { prev_vm = vc; prev_vm_ok = true };
  }
  sample_vm first elapsed (failed err) p = report "vmstat" err p
  sample_vm first elapsed unsupported p = p

  -- One round of the loop over the disks.
  abbrev pub add_disk :
      F
      → String
      → DiskCounters
      → Option DiskCounters
      → Map String (DiskRates F)
      → Map String (DiskRates F)
  add_disk elapsed dev cur none rates = rates
  add_disk elapsed dev cur (some prev) rates = insert dev (disk_rates cur prev elapsed) rates

  unfoldable pub disk_loop :
      F
      → Map String DiskCounters
      → Map String DiskCounters
      → Map String (DiskRates F)
      → Map String (DiskRates F)
  disk_loop elapsed prevs [] rates = rates
  disk_loop elapsed prevs ((dev, cur) ∷ io) rates =
      disk_loop elapsed prevs io
        (if skip_device dev then rates else add_disk elapsed dev cur (lookup dev prevs) rates)

  unfoldable pub sample_disks : Bool → F → Probe (Map String DiskCounters) → Progress F → Progress F
  unfolding disk_loop
  sample_disks first elapsed (read io) p = record p {
    hr =
        if not first && lit 0 1 <F elapsed
        then record p.hr { disks = disk_loop elapsed p.sampler.prev_disk io p.hr.disks }
        else p.hr;
    sampler = record p.sampler { prev_disk = io };
  }
  sample_disks first elapsed (failed err) p = report "disk.io" err p
  sample_disks first elapsed unsupported p = report "disk.io" unsupported_text p

  unfoldable pub sample_net :
      (String → ℕ) → Bool → F → Probe (List NicCounters) → Progress F → Progress F
  unfolding nic_loop
  sample_net speed first elapsed (read nics) p =
      let start : NetScan F = record {
        cur = [];
        speeds = p.sampler.nic_speeds;
        rates = p.hr.net;
      } in
      let s = nic_loop speed first elapsed p.sampler.prev_net nics start in
      record p {
        hr = record p.hr { net = s.rates };
        sampler = record p.sampler { prev_net = s.cur; nic_speeds = s.speeds };
      }
  sample_net speed first elapsed (failed err) p = report "net.io" err p
  sample_net speed first elapsed unsupported p = report "net.io" unsupported_text p

  unfoldable pub sample_psi : Probe (PsiSample F) → Progress F → Progress F
  sample_psi (read psi) p = record p { hr = record p.hr { psi = some psi } }
  sample_psi (failed err) p = report "psi" err p
  sample_psi unsupported p = p

  -- The probes in the order of the source.
  unfoldable pub probes : (String → ℕ) → Bool → F → Readings F → List (Progress F → Progress F)
  probes speed first elapsed r =
      sample_cpu first r.cpu_total
      ∷ sample_cores first r.cpu_cores
      ∷ sample_load r.load_avg
      ∷ sample_memory r.memory
      ∷ sample_swap r.swap_used
      ∷ sample_vm first elapsed r.vm_counters
      ∷ sample_disks first elapsed r.disk_io
      ∷ sample_net speed first elapsed r.nics
      ∷ sample_psi r.psi
      ∷ []

  unfoldable pub probe_all : List (Progress F → Progress F) → Progress F → Progress F
  probe_all [] p = p
  probe_all (probe ∷ rest) p = probe_all rest (probe p)

  -- The sampler after the call, the sample, and the issues reported.
  unfoldable pub sample :
      (String → ℕ)
      → Readings F
      → Sampler F
      → Sampler F × Option (HighRes F) × List (String × String)
  sample speed r s =
      let first = is_zero s.prev_ts in
      let elapsed = seconds_since r.now s.prev_ts in
      let start : Progress F = record { sampler = s; hr = new_high_res r.now; issues = [] } in
      let p = probe_all (probes speed first elapsed r) start in
      (record p.sampler { prev_ts = r.now }, (if first then none else some p.hr), p.issues)
