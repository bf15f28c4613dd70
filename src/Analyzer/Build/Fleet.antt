-- ===== src/Analyzer/Build/Fleet.antt =====
-- `Build` of internal/analyzer/analyzer.go. A loop over the sorted keys of a map is a loop over its
-- sorted entries. `none` is a panic of a quantile.
use cost_optimization.Prelude.{
  ℕ, ◌+◌, String, Bool, ◌&&◌, Option, none, some, List, [], ◌∷◌, ◌++◌, map, length, ltb,
  if◌then◌else◌, ◌>>=◌, sort_by,
}
use cost_optimization.Prelude.Int.{ℤ, pos, ltb_ℤ, ◌+ℤ◌, ◌-ℤ◌}
use cost_optimization.Prelude.Assoc.{Map, string_eq, lookup, insert}
use cost_optimization.Float64.{Float64, ◌+F◌, ◌-F◌, ◌<F◌, lit}
use cost_optimization.Model.{Time, schema_version, agent_version}
use cost_optimization.Model.Sql.{SqlInstanceInventory}
use cost_optimization.Analyzer.Recurrence.{detect_patterns}
use cost_optimization.Analyzer.Dataset.{HostData, Dataset, Warning}
use cost_optimization.Analyzer.Report.{
  Category, likely_rightsizing, possible_rightsizing, optimize_workload, sql_memory_config,
  multi_instance_risk, insufficient_headroom, ha_dr_constraint, no_change, insufficient_data,
  monitor_longer, CapacityRange, HostReport,
}
use cost_optimization.Analyzer.Host.Analysis.{Texts, count_of, analyze_host}
use cost_optimization.Analyzer.Sql.{JobCorrelate, SqlReport}
use cost_optimization.Analyzer.Sql.Instance.{analyze_sql_instance}
use cost_optimization.Analyzer.Build.{
  SpikeReportEntry, FleetSummary, Quality, import_warning, host_problem, low_coverage, Report,
}
use cost_optimization.Analyzer.Build.Entries.{EntryTexts, spike_entry}
use cost_optimization.Analyzer.Build.Groups.{build_ha_groups}

pub record BuildTexts (F : Type 0) : Type 0 where
  pub host : Texts F
  pub job : JobCorrelate → String
  pub entry : EntryTexts F

abbrev pub category_name : Option Category → String
category_name none = ""
category_name (some likely_rightsizing) = "likely_rightsizing_candidate"
category_name (some possible_rightsizing) = "possible_rightsizing_candidate"
category_name (some optimize_workload) = "optimize_recurring_workload_before_rightsizing"
category_name (some sql_memory_config) = "sql_memory_configuration_issue"
category_name (some multi_instance_risk) = "multi_instance_memory_allocation_risk"
category_name (some insufficient_headroom) = "insufficient_os_headroom"
category_name (some ha_dr_constraint) = "ha_dr_constraint"
category_name (some no_change) = "no_change_recommended"
category_name (some insufficient_data) = "insufficient_data"
category_name (some monitor_longer) = "monitor_for_longer"

abbrev pub count_category : String → Map String ℕ → Map String ℕ
count_category name m = insert name (count_of (lookup name m) + 1) m

abbrev pub by_key : {V : Type 0} → (String → String → Bool) → Map String V → Map String V
by_key less m = sort_by (λ p q. less p.0 q.0) m

module _ {F : Type 0} ⦃f : Float64 F⦄ where
  abbrev pub vcpu_saving : HostReport F → Option (CapacityRange F) → ℤ
  vcpu_saving hr none = pos 0
  vcpu_saving hr (some s) =
      if ltb 0 s.min_vcpu && ltb_ℤ (pos s.min_vcpu) hr.alloc_vcpu
      then hr.alloc_vcpu -ℤ pos s.max_vcpu
      else pos 0

  abbrev pub ram_saving : HostReport F → F → Option (CapacityRange F) → F
  ram_saving hr acc none = acc
  ram_saving hr acc (some s) =
      if (lit 0 1 <F s.min_ram_gb) && (s.max_ram_gb <F hr.alloc_ram_gb)
      then acc +F (hr.alloc_ram_gb -F s.max_ram_gb)
      else acc

  -- What a host adds to the summary.
  unfoldable pub count_host : HostReport F → FleetSummary F → FleetSummary F
  unfolding insert lookup
  count_host hr fleet = record fleet {
    hosts = fleet.hosts + 1;
    total_alloc_vcpu = fleet.total_alloc_vcpu +ℤ hr.alloc_vcpu;
    total_alloc_ram_gb = fleet.total_alloc_ram_gb +F hr.alloc_ram_gb;
    spike_events = fleet.spike_events + hr.spike_count;
    categories = count_category (category_name hr.category) fleet.categories;
    potential_vcpu = fleet.potential_vcpu +ℤ vcpu_saving hr hr.suggested;
    potential_ram_gb = ram_saving hr fleet.potential_ram_gb hr.suggested;
  }

  -- A report with one more host, and with one more instance.
  unfoldable pub with_host : HostReport F → Report F → Report F
  unfolding count_host
  with_host hr rep = record rep { hosts = rep.hosts ++ hr ∷ []; fleet = count_host hr rep.fleet }

  unfoldable pub with_sql : SqlReport F → Report F → Report F
  with_sql sr rep = record rep {
    sql_instances = rep.sql_instances ++ sr ∷ [];
    fleet = record rep.fleet { sql_instances = rep.fleet.sql_instances + 1 };
  }

  -- The loop over the instances of a host.
  unfoldable pub add_sql :
      (JobCorrelate → String)
      → HostData F
      → HostReport F
      → Map String (SqlInstanceInventory F)
      → Report F
      → Option (Report F)
  unfolding with_sql
  add_sql text h hr [] rep = some rep
  add_sql text h hr ((key, inv) ∷ invs) rep = do
    sr ← analyze_sql_instance text h inv hr
    add_sql text h hr invs (with_sql sr rep)

  abbrev pub low_coverage_note : HostData F → HostReport F → List (Quality F)
  low_coverage_note h hr =
      if (hr.coverage_pct <F lit 90 1) && ltb 0 (length h.minutes)
      then low_coverage hr.hostname hr.coverage_pct ∷ []
      else []

  -- What follows the loop over the instances.
  unfoldable pub add_details : BuildTexts F → HostData F → HostReport F → Report F → Report F
  unfolding spike_entry
  add_details texts h hr rep =
      let patterns = detect_patterns h.spikes hr.observed_days in
      record rep {
        spikes = rep.spikes ++ map (spike_entry texts.entry h hr patterns) h.spikes;
        data_quality =
            (rep.data_quality ++ map (host_problem hr.hostname) h.problems)
            ++ low_coverage_note h hr;
      }

  -- One round of the loop over the hosts.
  unfoldable pub add_host : BuildTexts F → HostData F → Report F → Option (Report F)
  unfolding with_host add_sql add_details
  add_host texts h rep = do
    hr ← analyze_host texts.host h
    counted ←
        add_sql texts.job h hr (by_key texts.host.less h.sql_inv)
          (record rep { hosts = rep.hosts ++ hr ∷ []; fleet = count_host hr rep.fleet })
    some (add_details texts h hr counted)

  unfoldable pub add_hosts : BuildTexts F → Map String (HostData F) → Report F → Option (Report F)
  unfolding add_host
  add_hosts texts [] rep = some rep
  add_hosts texts ((id, h) ∷ hosts) rep = do next ← add_host texts h rep; add_hosts texts hosts next

  abbrev pub empty_fleet : FleetSummary F
  empty_fleet = record {
    hosts = 0;
    sql_instances = 0;
    total_alloc_vcpu = pos 0;
    total_alloc_ram_gb = lit 0 1;
    spike_events = 0;
    categories = [];
    potential_vcpu = pos 0;
    potential_ram_gb = lit 0 1;
  }

  abbrev pub empty_report : Time → List Warning → Report F
  empty_report now warnings = record {
    generated_at = now;
    schema_version = schema_version;
    tool_version = agent_version;
    fleet = empty_fleet;
    hosts = [];
    sql_instances = [];
    ha_groups = [];
    spikes = [];
    data_quality = map import_warning warnings;
  }

  unfoldable pub build : BuildTexts F → Time → Dataset F → Option (Report F)
  unfolding add_hosts build_ha_groups
  build texts now ds = do
    rep ← add_hosts texts (by_key texts.host.less ds.hosts) (empty_report now ds.warnings)
    some (record rep {
      ha_groups = build_ha_groups texts.host.less ds;
      spikes = sort_by (λ (a b : SpikeReportEntry F). ltb a.start_ts b.start_ts) rep.spikes;
    })
