-- ===== src/Sampler/Percentages.antt =====
-- The percentages of a sample that internal/sampler/sampler.go computes.
use cost_optimization.Prelude.{
  ℕ, ◌≡◌, String, Bool, true, false, not, ◌&&◌, Option, none, some, List, [], ◌∷◌, length, All,
  arith, subst, else_of_false, ◌==◌, Bool-cases, inl, inr,
}
use cost_optimization.Prelude.Assoc.{Map, string_eq, lookup, All-insert}
use cost_optimization.Float64.{Float64, ◌<F◌, lit}
use cost_optimization.Model.{Time, is_zero}
use cost_optimization.Sampler.{
  HighRes, DiskRates, CpuTimes, DiskCounters, NicCounters, VmCounters, VirtualMemory, PsiSample,
  Probe, read, failed, unsupported, Readings, Sampler,
}
use cost_optimization.Sampler.Rates.{
  CpuPct, no_cpu-IsCpuPct, HasPct, IsPct, IsCpuPct, disk_rates-IsPct, cpu_delta_pct-IsCpuPct,
  skip_device,
}
use cost_optimization.Sampler.Reading.{
  Progress, new_high_res, set_cpu, sample_cpu, core_pcts, sample_cores, sample_load, sample_memory,
  sample_swap, sample_vm, add_disk, disk_loop, sample_disks, sample_net, sample_psi, probes,
  probe_all, sample,
}
use mathlib.Core.Option.{some-injective}

module _ {F : Type 0} ⦃f : Float64 F⦄ where
  abbrev pub cpu_of : HighRes F → CpuPct F
  cpu_of hr = record {
    total = hr.cpu_total_pct;
    user = hr.cpu_user_pct;
    system = hr.cpu_system_pct;
    iowait = hr.cpu_iowait_pct;
    steal = hr.cpu_steal_pct;
  }

  -- The shares of the processor, those of its cores, and the busy time of the disks.
  abbrev pub IsInRange : HighRes F → Type 0
  IsInRange hr =
      IsCpuPct (cpu_of hr) × All IsPct hr.per_core_pct × All (λ p. IsPct p.1.busy_pct) hr.disks

  module _ (h : HasPct F) where
    set_cpu-IsInRange :
        (first : Bool) (prevs : List (CpuTimes F)) (cur : CpuTimes F) (hr : HighRes F)
        → IsInRange hr
        → IsInRange (set_cpu first prevs cur hr)
    set_cpu-IsInRange true prevs cur hr v = v
    set_cpu-IsInRange false [] cur hr v = v
    set_cpu-IsInRange false (prev ∷ []) cur hr (c, cores, ds) =
        (cpu_delta_pct-IsCpuPct h prev cur, cores, ds)
    set_cpu-IsInRange false (p ∷ q ∷ ps) cur hr v = v

    -- A step of `Sample` that keeps the range.
    abbrev Keeps : (Progress F → Progress F) → Type 0
    Keeps g = (p : Progress F) → IsInRange p.hr → IsInRange (g p).hr

    sample_cpu-Keeps : (first : Bool) (r : Probe (List (CpuTimes F))) → Keeps (sample_cpu first r)
    unfolding sample_cpu
    sample_cpu-Keeps first (read []) p v = v
    sample_cpu-Keeps first (read (cur ∷ [])) p v =
        set_cpu-IsInRange first p.sampler.prev_cpu cur p.hr v
    sample_cpu-Keeps first (read (c ∷ d ∷ cs)) p v = v
    sample_cpu-Keeps first (failed err) p v = v
    sample_cpu-Keeps first unsupported p v = v

    core_pcts-IsPct : (prevs curs : List (CpuTimes F)) → All IsPct (core_pcts prevs curs)
    unfolding core_pcts
    core_pcts-IsPct [] curs = tt
    core_pcts-IsPct (p ∷ ps) [] = tt
    core_pcts-IsPct (p ∷ ps) (c ∷ cs) =
        (IsCpuPct.total (cpu_delta_pct-IsCpuPct h p c), core_pcts-IsPct ps cs)

    sample_cores-Keeps :
        (first : Bool) (r : Probe (List (CpuTimes F))) → Keeps (sample_cores first r)
    unfolding sample_cores
    sample_cores-Keeps first (read cores) p v =
        elim (Bool-cases (not first && length p.sampler.prev_cpu_cores == length cores)) [
          | inl set ↦
              rw (set, sample_cores) (v.0, core_pcts-IsPct p.sampler.prev_cpu_cores cores, v.2)
          | inr unset ↦ rw (unset, sample_cores) v
        ]
    sample_cores-Keeps first (failed err) p v = v
    sample_cores-Keeps first unsupported p v = v

    sample_load-Keeps : (r : Probe (F × F)) → Keeps (sample_load r)
    unfolding sample_load
    sample_load-Keeps (read l) p v = v
    sample_load-Keeps (failed err) p v = v
    sample_load-Keeps unsupported p v = v

    sample_memory-Keeps : (r : Probe (VirtualMemory F)) → Keeps (sample_memory r)
    unfolding sample_memory
    sample_memory-Keeps (read vm) p v = v
    sample_memory-Keeps (failed err) p v = v
    sample_memory-Keeps unsupported p v = v

    sample_swap-Keeps : (r : Probe ℕ) → Keeps (sample_swap r)
    unfolding sample_swap
    sample_swap-Keeps (read used) p v = v
    sample_swap-Keeps (failed err) p v = v
    sample_swap-Keeps unsupported p v = v

    sample_vm-Keeps :
        (first : Bool) (elapsed : F) (r : Probe VmCounters) → Keeps (sample_vm first elapsed r)
    unfolding sample_vm
    sample_vm-Keeps first elapsed (read vc) p v =
        elim (Bool-cases (not first && p.sampler.prev_vm_ok && lit 0 1 <F elapsed)) [
          | inl set ↦ rw (set, sample_vm) v
          | inr unset ↦ rw (unset, sample_vm) v
        ]
    sample_vm-Keeps first elapsed (failed err) p v = v
    sample_vm-Keeps first elapsed unsupported p v = v

    add_disk-IsPct :
        (elapsed : F) (dev : String) (cur : DiskCounters) (prev : Option DiskCounters)
        (rates : Map String (DiskRates F))
        → All (λ p. IsPct p.1.busy_pct) rates
        → All (λ p. IsPct p.1.busy_pct) (add_disk elapsed dev cur prev rates)
    add_disk-IsPct elapsed dev cur none rates v = v
    add_disk-IsPct elapsed dev cur (some prev) rates v =
        All-insert (λ p. IsPct p.1.busy_pct) dev _ rates (disk_rates-IsPct h cur prev elapsed) v

    disk_loop-IsPct :
        (elapsed : F) (prevs io : Map String DiskCounters) (rates : Map String (DiskRates F))
        → All (λ p. IsPct p.1.busy_pct) rates
        → All (λ p. IsPct p.1.busy_pct) (disk_loop elapsed prevs io rates)
    unfolding disk_loop
    disk_loop-IsPct elapsed prevs [] rates v = v
    disk_loop-IsPct elapsed prevs ((dev, cur) ∷ io) rates v = elim (Bool-cases (skip_device dev)) [
      | inl skip ↦ rw (skip, disk_loop) (disk_loop-IsPct elapsed prevs io rates v)
      | inr kept ↦
          rw (kept, disk_loop)
            (disk_loop-IsPct elapsed prevs io _
              (add_disk-IsPct elapsed dev cur (lookup dev prevs) rates v))
    ]

    sample_disks-Keeps :
        (first : Bool) (elapsed : F) (r : Probe (Map String DiskCounters))
        → Keeps (sample_disks first elapsed r)
    unfolding sample_disks
    sample_disks-Keeps first elapsed (read io) p (c, cores, ds) =
        elim (Bool-cases (not first && lit 0 1 <F elapsed)) [
          | inl set ↦
              rw (set, sample_disks)
                (c, cores, disk_loop-IsPct elapsed p.sampler.prev_disk io p.hr.disks ds)
          | inr unset ↦ rw (unset, sample_disks) (c, cores, ds)
        ]
    sample_disks-Keeps first elapsed (failed err) p v = v
    sample_disks-Keeps first elapsed unsupported p v = v

    sample_net-Keeps :
        (speed : String → ℕ) (first : Bool) (elapsed : F) (r : Probe (List NicCounters))
        → Keeps (sample_net speed first elapsed r)
    unfolding sample_net
    sample_net-Keeps speed first elapsed (read nics) p v = v
    sample_net-Keeps speed first elapsed (failed err) p v = v
    sample_net-Keeps speed first elapsed unsupported p v = v

    sample_psi-Keeps : (r : Probe (PsiSample F)) → Keeps (sample_psi r)
    unfolding sample_psi
    sample_psi-Keeps (read psi) p v = v
    sample_psi-Keeps (failed err) p v = v
    sample_psi-Keeps unsupported p v = v

    probes-Keeps :
        (speed : String → ℕ) (first : Bool) (elapsed : F) (r : Readings F)
        → All Keeps (probes speed first elapsed r)
    unfolding probes
    probes-Keeps speed first elapsed r = (
      sample_cpu-Keeps first r.cpu_total,
      (
        sample_cores-Keeps first r.cpu_cores,
        (
          sample_load-Keeps r.load_avg,
          (
            sample_memory-Keeps r.memory,
            (
              sample_swap-Keeps r.swap_used,
              (
                sample_vm-Keeps first elapsed r.vm_counters,
                (
                  sample_disks-Keeps first elapsed r.disk_io,
                  (sample_net-Keeps speed first elapsed r.nics, (sample_psi-Keeps r.psi, tt)),
                ),
              ),
            ),
          ),
        ),
      ),
    )

    probe_all-Keeps :
        (steps : List (Progress F → Progress F)) → All Keeps steps → Keeps (probe_all steps)
    unfolding probe_all
    probe_all-Keeps [] k p v = v
    probe_all-Keeps (g ∷ gs) (k, ks) p v = probe_all-Keeps gs ks (g p) (k p v)

    new_high_res-IsInRange : (t : Time) → IsInRange (new_high_res t)
    new_high_res-IsInRange t = (no_cpu-IsCpuPct h, tt, tt)

    -- In a sample, the five shares of the processor, those of every core and the busy time of every
    -- disk are neither below 0 nor above 100, whatever the counters were, also after a reset. It is
    -- assumed that `<` on float64 is a strict order and that 100 is not below 0.
    pub sample-IsInRange :
        (speed : String → ℕ) (r : Readings F) (s : Sampler F) {hr : HighRes F}
        → (sample speed r s).1 ≡ some hr
        → IsInRange hr
    unfolding sample
    sample-IsInRange speed r s e = elim (Bool-cases (is_zero s.prev_ts)) [
      | inl first ↦ absurd (ground arith)
      | inr later ↦ subst IsInRange (some-injective _ _ (else_of_false _ _ later e)) (
          probe_all-Keeps _ (probes-Keeps speed (is_zero s.prev_ts) _ r) _
            (new_high_res-IsInRange r.now))
    ]
