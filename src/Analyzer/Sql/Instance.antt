-- ===== src/Analyzer/Sql/Instance.antt =====
-- `analyzeSQLInstance` of internal/analyzer/recommend_sql.go. The texts that package fmt forms for a
-- correlated job are a parameter. `none` is a panic of a quantile.
use cost_optimization.Prelude.{
  ℕ, String, Bool, true, false, not, ◌&&◌, Option, none, some, List, [], ◌∷◌, ◌++◌, map, length,
  take, ltb, if◌then◌else◌, ◌>>=◌, sort_by,
}
use cost_optimization.Prelude.Int.{pos, ltb_ℤ}
use cost_optimization.Prelude.Assoc.{Map, string_eq, lookup}
use cost_optimization.Float64.{
  Float64, ◌-F◌, ◌*F◌, ◌/F◌, ◌<F◌, of_nat, lit, of_int, trunc_int, round1, float_less,
}
use cost_optimization.Model.Sql.{AgInfo, SqlInstanceInventory, SqlSample}
use cost_optimization.Quantile.{quantile}
use cost_optimization.Analyzer.Stats.{summarize}
use cost_optimization.Analyzer.Dataset.{HostData, slice_of}
use cost_optimization.Analyzer.Report.{monitor_longer, HostReport}
use cost_optimization.Analyzer.Sql.{
  no_deep_telemetry, Pressure, physical_memory_low, grants_pending, ple_below_floor, host_paging,
  collection_note, JobCorrelate, SqlReport,
}
use cost_optimization.Analyzer.Sql.Samples.{
  dedup_strings, SqlGathered, spikes_of, correlates_of, nothing_gathered, gather_sql,
}
use cost_optimization.Analyzer.Sql.Classify.{last_of, classify_sql}
use text.Mathlib.Text.{◌==◌ as equals}

-- The role and the group of the last availability group, if there is any.
unfoldable pub role_and_group : String × String → List AgInfo → String × String
role_and_group rg [] = rg
role_and_group rg (ag ∷ ags) = role_and_group (ag.role, ag.ag_name) ags

abbrev pub first_role : String → String
first_role mode = if equals mode "fci" then "fci" else "standalone"

module _ {F : Type 0} ⦃f : Float64 F⦄ where
  -- The RAM of the host: the inventory's, or what the engine sees.
  abbrev pub host_ram : F → ℕ → F
  host_ram alloc visible_kb =
      if lit 0 1 <F alloc
      then alloc
      else if ltb 0 visible_kb
      then round1 (of_nat visible_kb /F lit 1048576 1)
      else lit 0 1

  unfoldable pub new_sql_report : HostData F → SqlInstanceInventory F → HostReport F → SqlReport F
  unfolding role_and_group
  new_sql_report h inv hr =
      let rg = role_and_group (first_role inv.ha.mode, "") inv.ha.ags in
      record {
        host_id = h.host_id;
        hostname = hr.hostname;
        instance_key = inv.instance_key;
        instance_name = inv.instance_name;
        version = inv.version;
        edition = inv.edition;
        ha_role = rg.0;
        ha_group = rg.1;
        collection_level = inv.collection_level;
        host_ram_gb = host_ram hr.alloc_ram_gb inv.phys_mem_visible_kb;
        min_server_mem_mb = inv.min_server_memory_mb;
        max_server_mem_mb = inv.max_server_memory_mb;
        max_is_unlimited = inv.max_memory_unlimited_default;
        sql_process_mem_gb = lit 0 1;
        total_server_mem_gb = lit 0 1;
        target_server_mem_gb = lit 0 1;
        sql_mem_pct_of_host = lit 0 1;
        sql_mem_pct_of_max = lit 0 1;
        non_buffer_mem_gb = lit 0 1;
        os_headroom_gb = lit 0 1;
        engine_uptime_days = round1 (of_nat inv.uptime_s /F lit 86400 1);
        ple_p5 = pos 0;
        grants_pending_max = pos 0;
        pressure_signals = [];
        batch_req_p95 = lit 0 1;
        sql_cpu_p95 = lit 0 1;
        file_io_read_p95_ms = lit 0 1;
        top_waits = [];
        sql_spikes = 0;
        job_correlates = [];
        category = none;
        recommendation = none;
        suggested_max_mem_gb = none;
        confidence = lit 0 1;
        validation_required = false;
        rationale = [];
      }

  -- The report where there is no deep telemetry.
  abbrev pub process_only : SqlInstanceInventory F → SqlReport F → SqlReport F
  process_only inv r = record r {
    category = some monitor_longer;
    recommendation = some no_deep_telemetry;
    validation_required = true;
    confidence = lit 2 10;
    rationale =
        if not (equals inv.collection_note "")
        then r.rationale ++ collection_note inv.collection_note ∷ []
        else r.rationale;
  }

  abbrev pub longest_waits : Map String F → List (String × F)
  longest_waits waits =
      map (λ (w : String × F). (w.0, w.1 /F lit 1000 1))
        (take 5 (sort_by (λ (a b : String × F). b.1 <F a.1) waits))

  unfoldable pub summarize_sql : SqlGathered F → SqlReport F → Option (SqlReport F)
  summarize_sql g r = do
    ple ← quantile (sort_by float_less g.ples) (lit 5 100)
    grants ← summarize g.grants
    batch ← summarize g.batch
    cpu ← summarize g.sqlcpu
    lat ← summarize g.read_lat
    some (record r {
      ple_p5 = trunc_int ple;
      grants_pending_max = trunc_int grants.max;
      batch_req_p95 = round1 batch.p95;
      sql_cpu_p95 = round1 cpu.p95;
      file_io_read_p95_ms = round1 lat.p95;
      top_waits = longest_waits g.waits;
    })

  abbrev pub gigabytes : ℕ → F
  gigabytes kb = round1 (of_nat kb /F lit 1048576 1)

  -- The fields of memory, from the latest sample.
  unfoldable pub set_memory : SqlSample F → SqlReport F → SqlReport F
  set_memory s r =
      let proc = gigabytes s.physical_memory_in_use_kb in
      let total = gigabytes s.total_server_memory_kb in
      let known = lit 0 1 <F r.host_ram_gb in
      let limited = ltb 0 r.max_server_mem_mb && not r.max_is_unlimited in
      let outside = proc -F total in
      record r {
        sql_process_mem_gb = proc;
        total_server_mem_gb = total;
        target_server_mem_gb = gigabytes s.target_server_memory_kb;
        sql_mem_pct_of_host =
            if known then round1 (proc /F r.host_ram_gb *F lit 100 1) else r.sql_mem_pct_of_host;
        os_headroom_gb = if known then round1 (r.host_ram_gb -F proc) else r.os_headroom_gb;
        sql_mem_pct_of_max =
            if limited
            then round1 (
                of_nat s.total_server_memory_kb
                /F lit 1024 1
                /F of_nat r.max_server_mem_mb
                *F lit 100 1)
            else r.sql_mem_pct_of_max;
        non_buffer_mem_gb = if lit 1 2 <F outside then round1 outside else r.non_buffer_mem_gb;
      }

  abbrev pub ple_floor : SqlSample F → F
  ple_floor s =
      lit 300 1 *F f.fmax (lit 1 1) (of_nat s.database_cache_kb /F lit 1048576 1) /F lit 4 1

  abbrev pub signal : Bool → Pressure F → List (Pressure F)
  signal true p = p ∷ []
  signal false p = []

  unfoldable pub signals : SqlSample F → HostReport F → SqlReport F → List (Pressure F)
  signals s hr r =
      let pending = ltb_ℤ (pos 0) r.grants_pending_max in
      signal s.process_physical_memory_low physical_memory_low
      ++ (signal pending (grants_pending r.grants_pending_max)
          ++ (signal ((of_int r.ple_p5 <F ple_floor s) && pending)
                (ple_below_floor r.ple_p5 (ple_floor s))
              ++ signal hr.paging_evidence host_paging))

  -- The signs of pressure and the correlated jobs.
  unfoldable pub set_signals :
      (JobCorrelate → String)
      → HostData F
      → String
      → HostReport F
      → SqlSample F
      → SqlReport F
      → SqlReport F
  unfolding signals spikes_of correlates_of dedup_strings
  set_signals text h key hr latest r =
      let scs = spikes_of key h.sql_spikes in
      record r {
        pressure_signals = signals latest hr r;
        sql_spikes = length scs;
        job_correlates = dedup_strings [] (map text (correlates_of scs));
      }

  -- What follows the statistics.
  unfoldable pub finish_sql :
      (JobCorrelate → String)
      → HostData F
      → SqlInstanceInventory F
      → HostReport F
      → SqlSample F
      → SqlReport F
      → SqlReport F
  unfolding set_memory set_signals classify_sql
  finish_sql text h inv hr latest r =
      classify_sql h inv hr (set_signals text h inv.instance_key hr latest (set_memory latest r))

  -- What follows the first return; `latest` is the last of the samples.
  abbrev pub analyze_samples :
      (JobCorrelate → String)
      → HostData F
      → SqlInstanceInventory F
      → HostReport F
      → List (SqlSample F)
      → Option (SqlSample F)
      → Option (SqlReport F)
  analyze_samples text h inv hr samples none = some (process_only inv (new_sql_report h inv hr))
  analyze_samples text h inv hr samples (some latest) = do
    r ← summarize_sql (gather_sql samples nothing_gathered) (new_sql_report h inv hr)
    some (finish_sql text h inv hr latest r)

  unfoldable pub analyze_sql_instance :
      (JobCorrelate → String)
      → HostData F
      → SqlInstanceInventory F
      → HostReport F
      → Option (SqlReport F)
  unfolding new_sql_report summarize_sql gather_sql finish_sql last_of
  analyze_sql_instance text h inv hr =
      let samples = slice_of (lookup inv.instance_key h.sql_samples) in
      if equals inv.collection_level "process_only"
      then some (process_only inv (new_sql_report h inv hr))
      else analyze_samples text h inv hr samples (last_of samples)
