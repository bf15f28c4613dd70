-- ===== src/Analyzer/Recommend.antt =====
-- internal/analyzer/recommend.go: the decision ladder of a host. The store of SQL inventories is a Go
-- map, so its order is an argument: the inventories in the order in which a run happens to read them.
pub mod Decisions
mod Candidates
pub mod Completeness
mod Tests
use cost_optimization.Prelude.{
  ℕ, ◌+◌, ◌-◌, ◌*◌, ◌/◌, ◌<◌, ◌≤◌, ◌≡◌, String, Bool, true, false, not, ◌&&◌, ◌||◌, Option, none,
  some, List, [], ◌∷◌, ◌++◌, map, length, if◌then◌else◌, ltb, leb, ◌==◌,
}
use cost_optimization.Prelude.Int.{pos_part}
use cost_optimization.Float64.{Float64, ◌+F◌, ◌-F◌, ◌*F◌, ◌/F◌, ◌<F◌, ◌≤F◌, of_nat, lit, round2}
use cost_optimization.Analyzer.Report.{
  Category, likely_rightsizing, possible_rightsizing, optimize_workload, insufficient_headroom,
  ha_dr_constraint, no_change, insufficient_data, monitor_longer, Advice, not_enough_telemetry,
  early_signals, secondary_replica, memory_headroom_insufficient, memory_high, optimize_jobs,
  cpu_high, strong_candidate, moderate_headroom, no_safe_margin, Note, keeps_headroom,
  after_optimization, Rationale, days_at_coverage, cycles_not_observed, secondary_role, memory_p95,
  pattern, cpu_minutes, cpu_and_memory, longest_sustained, p95s, steal_warning, CapacityRange,
  HostReport,
}
use text.Mathlib.Text.{◌==◌ as equals}

-- The role of one availability group, and then of the groups of the inventories.
unfoldable pub role_of : List String → Option String
role_of [] = none
role_of (role ∷ roles) =
    let rest = role_of roles in
    if equals role "SECONDARY"
    then some "SECONDARY"
    else if equals role "PRIMARY"
    then some "PRIMARY"
    else rest

unfoldable pub local_ha_role : List (List String) → String
unfolding role_of
local_ha_role [] = ""
local_ha_role (inv ∷ inventories) = elim (role_of inv) [
  | none ↦ local_ha_role inventories
  | some role ↦ role
]

abbrev pub min_vcpu : ℕ
min_vcpu = 2

-- The source divides a difference that is negative where the next test returns nil.
abbrev hi_vcpu : ℕ → ℕ → ℕ
hi_vcpu alloc lo = let hi = lo + (alloc - lo) / 3 in if leb hi lo then lo + 1 else hi

unfoldable pub downgrade : Option Category → Option Category
downgrade none = none
downgrade (some likely_rightsizing) = some possible_rightsizing
downgrade (some c) = some c

module _ {F : Type 0} where
  -- append(r.Rationale, ...)
  abbrev pub because : List (Rationale F) → HostReport F → HostReport F
  because why r = record r { rationale = r.rationale ++ why }

  abbrev pub decide : Category → Advice → List (Rationale F) → HostReport F → HostReport F
  decide category advice why r =
      because why (record r { category = some category; recommendation = some advice })

  unfoldable pub note_optimization : Option (CapacityRange F) → Option (CapacityRange F)
  note_optimization none = none
  note_optimization (some s) = some (record s { note = after_optimization })

module _ {F : Type 0} ⦃f : Float64 F⦄ where
  abbrev cpu_target_peak_pct : F
  cpu_target_peak_pct = lit 70 1

  abbrev mem_headroom_factor : F
  mem_headroom_factor = lit 130 100

  unfoldable pub dominated_by_recurring_spikes : HostReport F → Bool
  dominated_by_recurring_spikes r =
      if length r.patterns == 0
      then false
      else (r.cpu.p50 <F lit 35 1) && ((lit 85 1 ≤F r.cpu_peak.max) || (lit 60 1 ≤F r.cpu.p99))

  -- The allocated CPUs. The range starts at two at least, so that a number of them that is not positive
  -- gets no suggestion, whatever it is.
  abbrev pub allocated : HostReport F → ℕ
  allocated r = pos_part r.alloc_vcpu

  -- The CPUs that are needed, before the lower bound of two is applied.
  abbrev pub needed_vcpu : HostReport F → ℕ
  needed_vcpu r =
      let need_p95 = of_nat (allocated r) *F r.cpu.p95 /F cpu_target_peak_pct in
      let need_peak = of_nat (allocated r) *F r.cpu_peak.p99 /F lit 100 1 in
      f.trunc (f.ceil (f.fmax need_p95 need_peak))

  abbrev lo_vcpu : HostReport F → ℕ
  lo_vcpu r = if ltb (needed_vcpu r) min_vcpu then min_vcpu else needed_vcpu r

  abbrev ram_range : F → F → F × F
  ram_range alloc ram =
      let ram_lo = f.fmax (lit 4 1) (f.ceil ram) in
      let ram_hi = f.fmax (ram_lo +F lit 2 1) (f.ceil (ram *F lit 125 100)) in
      if alloc ≤F ram_lo then (lit 0 1, lit 0 1) else (ram_lo, ram_hi)

  unfoldable pub suggest_capacity : HostReport F → Option (CapacityRange F)
  suggest_capacity r =
      let lo = lo_vcpu r in
      let ram = ram_range r.alloc_ram_gb (r.mem_used_p95_gb *F mem_headroom_factor) in
      if allocated r == 0 || f.eq r.alloc_ram_gb (lit 0 1)
      then none
      else if leb (allocated r) lo
      then none
      else some record {
        min_vcpu = lo;
        max_vcpu = hi_vcpu (allocated r) lo;
        min_ram_gb = ram.0;
        max_ram_gb = ram.1;
        note = keeps_headroom;
      }

  unfoldable pub confidence_from : ℕ → F → F
  confidence_from days coverage_pct =
      let d = f.fmin (of_nat days) (lit 30 1) /F lit 30 1 in
      let c = coverage_pct /F lit 100 1 in
      round2 (f.fmin (lit 9 10) (lit 25 100 +F lit 45 100 *F d +F lit 2 10 *F c))

  abbrev pub mem_high : HostReport F → Bool
  mem_high r = (lit 80 1 ≤F r.mem.p95) || ltb 0 (length r.mem_pressure)

  abbrev pub cpu_is_high : HostReport F → Bool
  cpu_is_high r = (lit 75 1 ≤F r.cpu.p95) || ltb 30 r.minutes_over85

  -- The switch of `classifyHost`, from the case of a recurring workload on.
  unfoldable pub load_ladder : F → HostReport F → HostReport F
  unfolding dominated_by_recurring_spikes suggest_capacity note_optimization
  load_ladder conf r =
      if dominated_by_recurring_spikes r
      then record (decide optimize_workload optimize_jobs (map pattern r.patterns) r) {
        suggested = note_optimization (suggest_capacity r);
      }
      else if cpu_is_high r
      then decide no_change cpu_high (cpu_minutes r.cpu.p95 r.minutes_over85 ∷ []) r
      else if (r.cpu.p95 <F lit 40 1) && (r.mem.p95 <F lit 60 1) && not r.paging_evidence
      then record (decide likely_rightsizing strong_candidate
          (cpu_and_memory r.cpu.p95 r.mem.p95 r.observed_days
            ∷ longest_sustained r.sustained_cpu.minutes
            ∷ [])
          r) { suggested = suggest_capacity r }
      else if (r.cpu.p95 <F lit 55 1) && (r.mem.p95 <F lit 75 1)
      then record (decide possible_rightsizing moderate_headroom (p95s r.cpu.p95 r.mem.p95 ∷ [])
          r) { suggested = suggest_capacity r; confidence = f.fmax (lit 2 10) (conf -F lit 15 100) }
      else decide no_change no_safe_margin (p95s r.cpu.p95 r.mem.p95 ∷ []) r

  -- The whole switch.
  unfoldable pub ladder : F → String → HostReport F → HostReport F
  unfolding load_ladder
  ladder conf ha_role r =
      if ltb r.observed_days 3 || (r.coverage_pct <F lit 50 1)
      then decide insufficient_data not_enough_telemetry
          (days_at_coverage r.observed_days r.coverage_pct ∷ []) r
      else if ltb r.observed_days 7
      then decide monitor_longer early_signals (cycles_not_observed r.observed_days ∷ []) r
      else if equals ha_role "SECONDARY"
      then decide ha_dr_constraint secondary_replica (secondary_role ∷ []) r
      else if mem_high r
      then (if lit 90 1 ≤F r.mem.p95
          then decide insufficient_headroom memory_headroom_insufficient
              (memory_p95 r.mem.p95 r.mem_pressure ∷ []) r
          else decide no_change memory_high (memory_p95 r.mem.p95 r.mem_pressure ∷ []) r)
      else load_ladder conf r

  -- What follows the switch.
  unfoldable pub steal_check : HostReport F → HostReport F
  unfolding downgrade
  steal_check r =
      if lit 5 1 <F r.cpu_steal
      then because (steal_warning r.cpu_steal ∷ []) (record r { category = downgrade r.category })
      else r

  unfoldable pub classify_host : List (List String) → HostReport F → HostReport F
  unfolding confidence_from ladder steal_check local_ha_role
  classify_host sql_inv r =
      let conf = confidence_from r.observed_days r.coverage_pct in
      steal_check (
        ladder conf (local_ha_role sql_inv)
          (record r { validation_required = true; confidence = conf }))
