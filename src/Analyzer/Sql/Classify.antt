-- ===== src/Analyzer/Sql/Classify.antt =====
-- `classifySQL` of internal/analyzer/recommend_sql.go and its helpers. The sums of megabytes and
-- kilobytes are of uint64.
use cost_optimization.Prelude.{
  ℕ, ◌+◌, ◌%◌, ◌^◌, String, Bool, true, false, not, ◌&&◌, ◌||◌, Option, none, some, List, [], ◌∷◌,
  ◌++◌, map, length, ltb, ◌==◌, if◌then◌else◌,
}
use cost_optimization.Prelude.Int.{ℤ, pos, negsuc}
use cost_optimization.Prelude.Assoc.{string_eq, lookup}
use cost_optimization.Float64.{Float64, ◌-F◌, ◌*F◌, ◌/F◌, ◌<F◌, ◌≤F◌, of_nat, lit, of_int}
use cost_optimization.Model.Sql.{SqlInstanceInventory, SqlSample}
use cost_optimization.Analyzer.Dataset.{HostData, slice_of}
use cost_optimization.Analyzer.Report.{
  Category, possible_rightsizing, sql_memory_config, multi_instance_risk, insufficient_headroom,
  ha_dr_constraint, no_change, monitor_longer, HostReport,
}
use cost_optimization.Analyzer.Recommend.{confidence_from}
use cost_optimization.Analyzer.Sql.{
  SqlAdvice, secondary_of, unlimited_instances, combined_exceeds, unlimited_default,
  pressure_present, target_not_reached, uptime_too_short, staged_reduction, no_safe_reduction,
  SqlRationale, secondary_detected, combined_memory, max_is_default, pressure, total_vs_target,
  cpu_and_ple, observed, os_reserve, cache_headroom, MemoryRange, SqlReport,
}
use text.Mathlib.Text.{◌==◌ as equals}

abbrev pub uint64_mod : ℕ
uint64_mod = 2 ^ 64

-- The configured limits and the memory in use of all instances of a host, and how many of them have
-- no limit.
pub record Combined : Type 0 where
  pub max_mb : ℕ
  pub proc_kb : ℕ
  pub unlimited : ℕ

abbrev pub no_instances : Combined
no_instances = record { max_mb = 0; proc_kb = 0; unlimited = 0 }

-- ss[len(ss)-1], if there is one.
unfoldable pub last_of {ℓ} : {A : Type ℓ} → List A → Option A
last_of [] = none
last_of (x ∷ []) = some x
last_of (x ∷ y ∷ ys) = last_of (y ∷ ys)

module _ {F : Type 0} where
  abbrev pub used_by : Option (SqlSample F) → ℕ
  used_by none = 0
  used_by (some s) = s.physical_memory_in_use_kb

  -- One round of the loop over the instances.
  abbrev pub add_instance : HostData F → String × SqlInstanceInventory F → Combined → Combined
  add_instance h p c =
      let used = used_by (last_of (slice_of (lookup p.0 h.sql_samples))) in
      record {
        max_mb =
            if p.1.max_memory_unlimited_default
            then c.max_mb
            else (c.max_mb + p.1.max_server_memory_mb) % uint64_mod;
        proc_kb = (c.proc_kb + used) % uint64_mod;
        unlimited = if p.1.max_memory_unlimited_default then c.unlimited + 1 else c.unlimited;
      }

  unfoldable pub combine : HostData F → List (String × SqlInstanceInventory F) → Combined → Combined
  unfolding last_of
  combine h [] c = c
  combine h (p ∷ ps) c = combine h ps (add_instance h p c)

  unfoldable pub latest_sample : HostData F → String → Option (SqlSample F)
  unfolding last_of
  latest_sample h key = last_of (slice_of (lookup key h.sql_samples))

  unfoldable pub max_total_kb : ℕ → List (SqlSample F) → ℕ
  max_total_kb top [] = top
  max_total_kb top (s ∷ ss) =
      max_total_kb (if ltb top s.total_server_memory_kb then s.total_server_memory_kb else top) ss

  abbrev pub because : List (SqlRationale F) → SqlReport F → SqlReport F
  because why r = record r { rationale = r.rationale ++ why }

  abbrev pub decide : Category → SqlAdvice F → List (SqlRationale F) → SqlReport F → SqlReport F
  decide category advice why r =
      because why (record r { category = some category; recommendation = some advice })

-- What the switch reads beside the report; `combined` sums the instances of the host, of which
-- there are `instances`.
pub record Situation (F : Type 0) : Type 0 where
  pub combined : Combined
  pub instances : ℕ
  pub host_mb : ℕ
  pub os_reserve_mb : ℕ
  pub alloc_ram_gb : F
  pub target_reached : Bool
  pub peak_total_gb : F

abbrev pub equals_zero : ℤ → Bool
equals_zero (pos n) = n == 0
equals_zero (negsuc n) = false

module _ {F : Type 0} ⦃f : Float64 F⦄ where
  abbrev os_reserve_min_gb : F
  os_reserve_min_gb = lit 4 1

  unfoldable pub suggested_max_mem_gb : F → F
  suggested_max_mem_gb host_gb =
      let reserve = f.fmax os_reserve_min_gb (host_gb *F lit 10 100) in
      f.fmax (lit 2 1) (f.floor (host_gb -F reserve))

  unfoldable pub max_total_server_mem_gb : HostData F → String → F
  unfolding max_total_kb
  max_total_server_mem_gb h key =
      of_nat (max_total_kb 0 (slice_of (lookup key h.sql_samples))) /F lit 1048576 1

  abbrev pub reached : Option (SqlSample F) → Bool
  reached none = false
  reached (some s) =
      ◌≤F◌ {F = F} (lit 95 100 *F of_nat s.target_server_memory_kb)
        (of_nat s.total_server_memory_kb)

  -- uint64(hostReport.AllocRAMGB * 1024), and the reserve of the system.
  abbrev pub host_mb : HostReport F → ℕ
  host_mb hr = f.trunc (hr.alloc_ram_gb *F lit 1024 1)

  abbrev pub os_reserve_mb : HostReport F → ℕ
  os_reserve_mb hr =
      f.trunc (f.fmax (os_reserve_min_gb *F lit 1024 1) (of_nat (host_mb hr) /F lit 10 1))

  -- The case of several instances.
  abbrev pub competes : Situation F → Bool
  competes x =
      ltb 1 x.instances
      && ltb 0 x.host_mb
      && (ltb 0 x.combined.unlimited
          || ltb x.host_mb ((x.combined.max_mb + x.os_reserve_mb) % uint64_mod))

  abbrev pub multi_advice : Situation F → SqlAdvice F
  multi_advice x =
      if ltb 0 x.combined.unlimited
      then unlimited_instances x.combined.unlimited x.instances
          (of_nat x.os_reserve_mb /F lit 1024 1)
      else combined_exceeds x.combined.max_mb x.host_mb

  abbrev pub uptime_ok : SqlReport F → Bool
  uptime_ok r = lit 3 1 ≤F r.engine_uptime_days

  abbrev pub fits_comfortably : SqlReport F → Bool
  fits_comfortably r =
      (r.sql_cpu_p95 <F lit 40 1)
      && ◌<F◌ {F = F} (lit 3600 1) (of_int r.ple_p5)
      && equals_zero r.grants_pending_max
      && (lit 95 1 <F r.sql_mem_pct_of_max)

  abbrev pub cache_range : F → MemoryRange F
  cache_range peak =
      let lo = f.ceil (peak *F lit 12 10) in
      record { min_ram_gb = lo; max_ram_gb = f.ceil (lo *F lit 125 100); note = cache_headroom }

  abbrev pub limit_range : F → MemoryRange F
  limit_range gb = record { min_ram_gb = gb; max_ram_gb = gb; note = os_reserve }

  -- The switch, from the case of a full cache on.
  unfoldable pub cache_ladder : Situation F → SqlReport F → SqlReport F
  cache_ladder x r =
      if fits_comfortably r
      then record (decide possible_rightsizing
          (staged_reduction r.ple_p5 (cache_range x.peak_total_gb).min_ram_gb
            (cache_range x.peak_total_gb).max_ram_gb)
          (cpu_and_ple r.sql_cpu_p95 r.ple_p5 r.grants_pending_max ∷ []) r) {
            suggested_max_mem_gb = some (cache_range x.peak_total_gb);
          }
      else decide no_change no_safe_reduction
          (observed r.total_server_mem_gb r.target_server_mem_gb r.ple_p5 r.sql_cpu_p95 ∷ []) r

  -- The switch, from the case of pressure on.
  unfoldable pub pressure_ladder : Situation F → SqlReport F → SqlReport F
  unfolding cache_ladder
  pressure_ladder x r =
      if ltb 0 (length r.pressure_signals)
      then decide insufficient_headroom pressure_present (map pressure r.pressure_signals) r
      else if uptime_ok r && not x.target_reached
      then decide monitor_longer target_not_reached
          (total_vs_target r.total_server_mem_gb r.target_server_mem_gb r.engine_uptime_days ∷ []) r
      else if not (uptime_ok r)
      then decide monitor_longer (uptime_too_short r.engine_uptime_days) [] r
      else cache_ladder x r

  -- The whole switch.
  unfoldable pub sql_ladder : Situation F → SqlReport F → SqlReport F
  unfolding pressure_ladder suggested_max_mem_gb
  sql_ladder x r =
      if equals r.ha_role "SECONDARY"
      then decide ha_dr_constraint (secondary_of r.ha_group) (secondary_detected ∷ []) r
      else if competes x
      then decide multi_instance_risk (multi_advice x)
          (combined_memory x.combined.max_mb x.combined.proc_kb x.host_mb ∷ []) r
      else if r.max_is_unlimited
      then record (decide sql_memory_config
          (unlimited_default (suggested_max_mem_gb x.alloc_ram_gb) x.alloc_ram_gb)
          (max_is_default ∷ []) r) {
            suggested_max_mem_gb = some (limit_range (suggested_max_mem_gb x.alloc_ram_gb));
          }
      else pressure_ladder x r

  -- What the lines before the switch compute.
  unfoldable pub situation : HostData F → SqlInstanceInventory F → HostReport F → Situation F
  unfolding combine latest_sample max_total_server_mem_gb
  situation h inv hr = record {
    combined = combine h h.sql_inv no_instances;
    instances = length h.sql_inv;
    host_mb = host_mb hr;
    os_reserve_mb = os_reserve_mb hr;
    alloc_ram_gb = hr.alloc_ram_gb;
    target_reached = reached (latest_sample h inv.instance_key);
    peak_total_gb = max_total_server_mem_gb h inv.instance_key;
  }

  unfoldable pub classify_sql :
      HostData F → SqlInstanceInventory F → HostReport F → SqlReport F → SqlReport F
  unfolding sql_ladder situation confidence_from
  classify_sql h inv hr r = sql_ladder (situation h inv hr) (record r {
    validation_required = true;
    confidence = confidence_from hr.observed_days hr.coverage_pct;
  })
