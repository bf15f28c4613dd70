-- ===== src/Analyzer/Build/Tests.antt =====
-- A consolidated report on two hosts: one with minutes, two spikes and an instance of SQL Server in an
-- availability group, and one of which only a spike and the other replica are known.
use cost_optimization.Prelude.{
  ℕ, ◌≡◌, refl, String, false, Option, none, some, [], ◌∷◌, map, sort_by, arith,
}
use cost_optimization.Prelude.Int.{pos, ◌+ℤ◌, ◌-ℤ◌}
use cost_optimization.Prelude.Assoc.{string_eq, lookup, insert}
use cost_optimization.Float64.{fixed_float64}
use cost_optimization.Model.Sql.{AgInfo, SqlInstanceInventory}
use cost_optimization.Analyzer.Recurrence.{has_id, pattern_for}
use cost_optimization.Analyzer.Dataset.{HostData, Dataset, new_host}
use cost_optimization.Analyzer.Dataset.Tests.{spike_of}
use cost_optimization.Analyzer.Host.Assessment.{HasRanks}
use cost_optimization.Analyzer.Host.Reports.{coarse, texts, idle_host}
use cost_optimization.Analyzer.Host.Reports as Reports
use cost_optimization.Analyzer.Sql.Tests.{instance_of, sample_with, text_of}
use cost_optimization.Analyzer.Sql.Tests as SqlTests
use cost_optimization.Analyzer.Build.{Report}
use cost_optimization.Analyzer.Build.Entries.{
  job_evidence, sql_evidence_of, validation_step, core_seconds_total, vcpu_impact, spike_entry,
}
use cost_optimization.Analyzer.Build.Groups.{
  append_unique, add_replicas, joined, add_ag, add_ags, add_instances, groups_of_hosts,
  build_ha_groups,
}
use cost_optimization.Analyzer.Build.Fleet.{
  BuildTexts, count_host, with_host, with_sql, add_sql, add_details, add_host, add_hosts,
  empty_report, build,
}
use cost_optimization.Analyzer.Build.Consistency.{IsConsistent, build-IsConsistent}
use cost_optimization.Analyzer.Build.Membership.{IsPartition, build_ha_groups-IsPartition}
use cost_optimization.Analyzer.Build.Totality.{build_total}

program : Unit {0}
unfolding Reports.program SqlTests.program lookup insert sort_by has_id pattern_for ◌+ℤ◌ ◌-ℤ◌
    job_evidence sql_evidence_of validation_step core_seconds_total vcpu_impact spike_entry
    append_unique add_replicas joined add_ag add_ags add_instances groups_of_hosts build_ha_groups
    count_host with_host with_sql add_sql add_details add_host add_hosts build
program = tt

abbrev build_texts : BuildTexts ℕ
build_texts = record {
  host = texts;
  job = text_of;
  entry = record { pattern = λ p. "pattern"; request = λ r. "request" };
}

abbrev ag_with : String → AgInfo
ag_with role = record {
  ag_name = "AG1";
  role = role;
  sync_state = "";
  readable_secondary = "";
  partner_replicas = "db1" ∷ "db2" ∷ "db1" ∷ [];
}

abbrev replica : String → SqlInstanceInventory ℕ
replica role = record (instance_of 8192 false) {
  ha = record { mode = "ag"; ags = ag_with role ∷ [] };
}

abbrev first_host : HostData ℕ
first_host = record idle_host {
  spikes = spike_of "e1" 7 ∷ spike_of "e2" 9 ∷ [];
  sql_inv = ("h1|A", replica "PRIMARY") ∷ [];
  sql_samples = ("h1|A", sample_with (pos 0) ∷ []) ∷ [];
}

abbrev second_host : HostData ℕ
second_host = record (new_host "h2") {
  spikes = spike_of "e3" 8 ∷ [];
  sql_inv = ("h2|A", replica "SECONDARY") ∷ [];
}

abbrev fleet_data : Dataset ℕ
fleet_data = record {
  hosts = ("h1", first_host) ∷ ("h2", second_host) ∷ [];
  warnings = [];
  bundles = 2;
  ok_bundles = 2;
  partial_bundles = 0;
  rejected_bundles = 0;
}

abbrev report_or : Report ℕ → Option (Report ℕ) → Report ℕ
report_or r none = r
report_or r (some q) = q

fleet_report : Report ℕ
unfolding program
fleet_report =
    report_or (empty_report ⦃f = coarse⦄ 0 []) (build ⦃f = coarse⦄ build_texts 1 fleet_data)

fleet_built : build ⦃f = coarse⦄ build_texts 1 fleet_data ≡ some fleet_report
unfolding program fleet_report
fleet_built = refl

-- Three spikes are listed, in the order of their times, and two are counted.
listed_spikes : map (λ e. e.event_id) fleet_report.spikes ≡ "e1" ∷ "e3" ∷ "e2" ∷ []
unfolding program fleet_report
listed_spikes = refl

counted_two : fleet_report.fleet.spike_events ≡ 2
unfolding program fleet_report
counted_two = refl

replicas_named : map (λ g. g.replicas) fleet_report.ha_groups ≡ ("db1" ∷ "db2" ∷ []) ∷ []
unfolding program fleet_report
replicas_named = refl

build-IsConsistent_example : IsConsistent ⦃f = coarse⦄ build_texts fleet_data fleet_report
build-IsConsistent_example = build-IsConsistent ⦃f = coarse⦄ build_texts 1 fleet_data fleet_built

build_ha_groups-IsPartition_example :
    IsPartition texts.less fleet_data (build_ha_groups texts.less fleet_data)
build_ha_groups-IsPartition_example = build_ha_groups-IsPartition texts.less fleet_data

ranks : HasRanks ℕ
ranks = record {
  r50 = λ n. (omega arith, omega arith);
  r95 = λ n. (omega arith, omega arith);
  r99 = λ n. (omega arith, omega arith);
}

build_total_example : (rep : Report ℕ) × (build build_texts 1 fleet_data ≡ some rep)
build_total_example = build_total ranks (λ n. (omega arith, omega arith)) build_texts 1 fleet_data
