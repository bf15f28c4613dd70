-- ===== src/Analyzer/Sql/Ladder.antt =====
-- What the report on an instance of SQL Server may recommend.
use cost_optimization.Prelude.{◌+◌, ◌%◌, ◌≤◌, ◌≡◌, ◌≢◌, ◌⊎◌, true, false, Option, none, []}
use cost_optimization.Float64.{Float64, ◌≤F◌, ◌<F◌, lit, of_int}
use cost_optimization.Prelude.Assoc.{string_eq}
use cost_optimization.Analyzer.Sql.{SqlReport}
use cost_optimization.Analyzer.Sql.Classify.{Situation, equals_zero, uint64_mod}
use cost_optimization.Prelude.Assoc.{string_eq}
use text.Mathlib.Text.{◌==◌ as equals}

module _ {F : Type 0} ⦃f : Float64 F⦄ where
  -- A cache that is full while demand is met, with nothing that speaks against a reduction.
  pub record IsComfortable (x : Situation F) (r : SqlReport F) : Type 0 where
    pub no_pressure : r.pressure_signals ≡ []
    pub seasoned : (lit 3 1 ≤F r.engine_uptime_days) ≡ true
    pub reached : x.target_reached ≡ true
    pub idle : (r.sql_cpu_p95 <F lit 40 1) ≡ true
    pub long_lived_pages : ◌<F◌ {F = F} (lit 3600 1) (of_int r.ple_p5) ≡ true
    pub none_pending : equals_zero r.grants_pending_max ≡ true
    pub full : (lit 95 1 <F r.sql_mem_pct_of_max) ≡ true

  -- The memory of the host is unknown, or it holds the limits of all instances, none of which is
  -- unlimited, and the reserve of the system. The sum wraps around like the source's.
  abbrev pub HasRoom : Situation F → Type 0
  HasRoom x =
      (x.host_mb ≡ 0)
      ⊎ ((x.combined.unlimited ≡ 0)
          × ((x.combined.max_mb + x.os_reserve_mb) % uint64_mod ≤ x.host_mb))

  -- What a suggestion of a limit rests on.
  pub record IsSupported (x : Situation F) (r : SqlReport F) : Type 0 where
    pub not_secondary : equals r.ha_role "SECONDARY" ≡ false
    pub room : (x.instances ≤ 1) ⊎ HasRoom x
    pub cause : (r.max_is_unlimited ≡ true) ⊎ IsComfortable x r

  pub record IsSound (x : Situation F) (r : SqlReport F) : Type 0 where
    pub category : r.category ≢ none
    pub recommendation : r.recommendation ≢ none
    pub validated : r.validation_required ≡ true
    pub supported : r.suggested_max_mem_gb ≢ none → IsSupported x r
