-- ===== src/Analyzer/Sql/Tests.antt =====
-- Reports on instances of SQL Server at concrete data, in ten-thousandths.
use cost_optimization.Prelude.{
  ℕ, ◌≡◌, refl, String, Bool, true, false, Option, none, some, [], ◌∷◌, sort_by,
}
use cost_optimization.Prelude.Int.{ℤ, pos}
use cost_optimization.Prelude.Assoc.{string_eq, lookup, insert}
use cost_optimization.Float64.{fixed_float64}
use cost_optimization.Model.{new_meta}
use cost_optimization.Model.Sql.{SqlInstanceInventory, SqlSample}
use cost_optimization.Quantile.{quantile}
use cost_optimization.Analyzer.Stats.{sum, summarize}
use cost_optimization.Analyzer.Dataset.{HostData, new_host}
use cost_optimization.Analyzer.Report.{
  Category, possible_rightsizing, sql_memory_config, insufficient_headroom, HostReport,
}
use cost_optimization.Analyzer.Recommend.{confidence_from}
use cost_optimization.Analyzer.Host.Analysis.{new_report}
use cost_optimization.Analyzer.Sql.{
  MemoryRange, os_reserve, cache_headroom, JobCorrelate, SqlReport,
}
use cost_optimization.Analyzer.Sql.Classify.{
  last_of, combine, latest_sample, max_total_kb, suggested_max_mem_gb, max_total_server_mem_gb,
  cache_ladder, pressure_ladder, sql_ladder, situation, classify_sql,
}
use cost_optimization.Analyzer.Sql.Samples.{
  dedup_strings, running_jobs, spikes_of, correlates_of, add_waits, data_latencies, gather_sql,
}
use cost_optimization.Analyzer.Sql.Instance.{
  role_and_group, new_sql_report, summarize_sql, set_memory, signals, set_signals, finish_sql,
  analyze_sql_instance,
}
use cost_optimization.Analyzer.Sql.Pressures.{any_signal, is_ple, is_grants, signals-corroborated}

unfoldable pub program : Unit {0}
unfolding lookup insert sort_by quantile sum summarize confidence_from last_of combine latest_sample
    max_total_kb suggested_max_mem_gb max_total_server_mem_gb cache_ladder pressure_ladder
    sql_ladder situation classify_sql dedup_strings running_jobs spikes_of correlates_of add_waits
    data_latencies gather_sql role_and_group new_sql_report summarize_sql set_memory signals
    set_signals finish_sql analyze_sql_instance
program = tt

abbrev pub instance_of : ℕ → Bool → SqlInstanceInventory ℕ
instance_of max_mb unlimited = record {
  meta = new_meta "sql_inventory" 0;
  instance_key = "h1|A";
  machine_name = "db1";
  instance_name = "A";
  is_default = false;
  version = "16";
  build = "";
  product_level = "";
  edition = "";
  start_time = 0;
  uptime_s = 864000;
  cpu_count_visible = pos 8;
  scheduler_count = pos 8;
  phys_mem_visible_kb = 0;
  pid = pos 1;
  service_account = "";
  maxdop = pos 0;
  cost_threshold = pos 5;
  min_server_memory_mb = 0;
  max_server_memory_mb = max_mb;
  max_memory_unlimited_default = unlimited;
  lock_pages_in_memory = "unknown";
  linux_memory_limit_mb = 0;
  ha = record { mode = "standalone"; ags = [] };
  databases = [];
  collection_level = "deep";
  collection_note = "";
}

-- 8 GB of 8 GB are in use, as aimed at.
abbrev pub sample_with : ℤ → SqlSample ℕ
sample_with pending = record {
  meta = new_meta "sql_sample" 0;
  instance_key = "h1|A";
  physical_memory_in_use_kb = 8388608;
  locked_page_allocations_kb = 0;
  large_page_allocations_kb = 0;
  memory_utilization_pct = pos 100;
  process_physical_memory_low = false;
  process_virtual_memory_low = false;
  total_server_memory_kb = 8388608;
  target_server_memory_kb = 8388608;
  database_cache_kb = 4194304;
  stolen_server_memory_kb = 0;
  free_memory_kb = 0;
  memory_grants_pending = pending;
  memory_grants_active = pos 0;
  ple_seconds = pos 5000;
  memory_clerks_top_kb = [];
  batch_requests_ps = 0;
  compilations_ps = 0;
  recompilations_ps = 0;
  sql_process_cpu_pct = 100000;
  page_reads_ps = 0;
  page_writes_ps = 0;
  lazy_writes_ps = 0;
  checkpoint_pages_ps = 0;
  wait_deltas = [];
  blocked_sessions = pos 0;
  file_io = [];
  tempdb_used_mb = 0;
  tempdb_total_mb = 0;
}

abbrev host_with : SqlInstanceInventory ℕ → ℤ → HostData ℕ
host_with inv pending = record (new_host "h1") {
  sql_inv = ("h1|A", inv) ∷ [];
  sql_samples = ("h1|A", sample_with pending ∷ []) ∷ [];
}

abbrev host_report : HostReport ℕ
host_report = record (new_report (new_host {F = ℕ} "h1")) {
  alloc_ram_gb = 640000;
  observed_days = 14;
  coverage_pct = 990000;
}

abbrev pub text_of : JobCorrelate → String
text_of j = "job"

-- The advice on an instance with a limit, and what it suggests.
abbrev outcome_of : Option (SqlReport ℕ) → Option (Option Category × Option (MemoryRange ℕ))
outcome_of none = none
outcome_of (some r) = some (r.category, r.suggested_max_mem_gb)

abbrev analyzed : SqlInstanceInventory ℕ → ℤ → Option (SqlReport ℕ)
analyzed inv pending = analyze_sql_instance text_of (host_with inv pending) inv host_report

-- The limit is 8 GB, and the "reduction" leads to 10 to 13 GB.
reduction_above_limit :
    outcome_of (analyzed (instance_of 8192 false) (pos 0))
    ≡ some (
      some possible_rightsizing,
      some (record { min_ram_gb = 100000; max_ram_gb = 130000; note = cache_headroom }),
    )
unfolding program
reduction_above_limit = refl

no_limit :
    outcome_of (analyzed (instance_of 2147483647 true) (pos 0))
    ≡ some (
      some sql_memory_config,
      some (record { min_ram_gb = 570000; max_ram_gb = 570000; note = os_reserve }),
    )
unfolding program
no_limit = refl

waiting_grants :
    outcome_of (analyzed (instance_of 8192 false) (pos 2)) ≡ some (some insufficient_headroom, none)
unfolding program
waiting_grants = refl

abbrev report_or : SqlReport ℕ → Option (SqlReport ℕ) → SqlReport ℕ
report_or r none = r
report_or r (some q) = q

abbrev plain : SqlInstanceInventory ℕ
plain = instance_of 8192 false

sound_report : SqlReport ℕ
unfolding program
sound_report =
    report_or (new_sql_report (host_with plain (pos 0)) plain host_report) (analyzed plain (pos 0))

-- A report with a life expectancy of a minute and two grants that wait.
short_report : SqlReport ℕ
unfolding program
short_report = record (new_sql_report (host_with plain (pos 2)) plain host_report) {
  ple_p5 = pos 60;
  grants_pending_max = pos 2;
}

short_ple : any_signal is_ple (signals (sample_with (pos 2)) host_report short_report) ≡ true
unfolding program short_report
short_ple = refl

signals-corroborated_example :
    any_signal is_grants (signals (sample_with (pos 2)) host_report short_report) ≡ true
signals-corroborated_example =
    signals-corroborated (sample_with (pos 2)) host_report short_report short_ple
