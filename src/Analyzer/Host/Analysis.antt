-- ===== src/Analyzer/Host/Analysis.antt =====
-- `analyzeHost` of internal/analyzer/recommend.go. The minutes are in order, as `normalize` leaves them.
-- The texts that package fmt formats, and the order of sort.Strings, are a parameter.
use cost_optimization.Prelude.{
  ℕ, ◌+◌, ◌-◌, ◌*◌, String, Bool, true, false, not, Option, none, some, List, [], ◌∷◌, map, length,
  if◌then◌else◌, ◌>>=◌, sort_by,
}
use cost_optimization.Prelude.Int.{pos}
use cost_optimization.Prelude.Assoc.{Map, string_eq, lookup, insert}
use cost_optimization.Float64.{Float64, ◌+F◌, ◌*F◌, ◌/F◌, of_nat, lit, round1, hours, minutes}
use cost_optimization.Model.{Time, minute, SpikeEvent}
use cost_optimization.Model.Host.{Inventory, HostMinute}
use cost_optimization.Analyzer.Stats.{Summary, zero_run, summarize, sustained}
use cost_optimization.Analyzer.Recurrence.{has_id, detect_patterns}
use cost_optimization.Analyzer.Dataset.{HostData}
use cost_optimization.Analyzer.Report.{HostReport, insufficient_data, no_telemetry}
use cost_optimization.Analyzer.Recommend.{classify_host}
use cost_optimization.Analyzer.Host.{Evidence, Gathered, gather, latest_fs}
use text.Mathlib.Text.{◌==◌ as str_eq}
use Prim.Native.String.{◌++◌ as ◌<>◌}

pub record Texts (F : Type 0) : Type 0 where
  pub evidence : Evidence F → String
  pub correlate : String → ℕ → String
  pub less : String → String → Bool

abbrev three_minutes : ℕ
three_minutes = 3 * minute

-- The keys of a set of texts.
unfoldable pub distinct : List String → List String
unfolding has_id
distinct [] = []
distinct (x ∷ xs) = let rest = distinct xs in if has_id x rest then rest else x ∷ rest

abbrev pub correlate_key : String → String → String
correlate_key process job = if not (str_eq job "") then process <> " (" <> job <> ")" else process

abbrev pub count_of : Option ℕ → ℕ
count_of none = 0
count_of (some n) = n

module _ {F : Type 0} where
  -- The loop over the spikes.
  unfoldable pub correlates : List (SpikeEvent F) → Map String ℕ → Map String ℕ
  correlates [] corr = corr
  correlates (s ∷ spikes) corr =
      let key = correlate_key s.correlated_process s.correlated_service_or_job in
      correlates spikes (
        if not (str_eq s.correlated_process "")
        then insert key (count_of (lookup key corr) + 1) corr
        else corr)

  -- The time of the last minute.
  unfoldable pub last_ts : Time → List (HostMinute F) → Time
  last_ts t [] = t
  last_ts t (m ∷ ms) = last_ts m.meta.ts ms

  abbrev pub roles_of : HostData F → List (List String)
  roles_of h = map (λ p. map (λ ag. ag.role) p.1.ha.ags) h.sql_inv

module _ {F : Type 0} ⦃f : Float64 F⦄ where
  abbrev zero_summary : Summary F
  zero_summary = record {
    p50 = lit 0 1;
    p95 = lit 0 1;
    p99 = lit 0 1;
    max = lit 0 1;
    avg = lit 0 1;
    count = 0;
  }

  abbrev pub new_report : HostData F → HostReport F
  new_report h = record {
    host_id = h.host_id;
    hostname = "(unknown)";
    os = "unknown";
    os_version = "";
    virtualization = "";
    data_problems = h.problems;
    alloc_vcpu = pos 0;
    alloc_ram_gb = lit 0 1;
    observed_days = 0;
    coverage_pct = lit 0 1;
    cpu = zero_summary;
    cpu_peak = zero_summary;
    cpu_steal = lit 0 1;
    sustained_cpu = zero_run;
    minutes_over70 = 0;
    minutes_over85 = 0;
    mem = zero_summary;
    mem_used_p95_gb = lit 0 1;
    mem_pressure = [];
    paging_evidence = false;
    disk_capacity = [];
    disk_latency_p95_ms = lit 0 1;
    disk_busy_p95_pct = lit 0 1;
    net_rx_p95_mbs = lit 0 1;
    net_tx_p95_mbs = lit 0 1;
    spike_count = 0;
    patterns = [];
    top_correlates = [];
    sql_instances = [];
    category = none;
    recommendation = none;
    suggested = none;
    confidence = lit 0 1;
    validation_required = false;
    rationale = [];
  }

  unfoldable pub with_inventory : Option Inventory → HostReport F → HostReport F
  with_inventory none r = r
  with_inventory (some inv) r = record r {
    hostname = inv.hostname;
    os = inv.os;
    os_version = inv.os_version;
    virtualization = inv.virtualization;
    alloc_vcpu = inv.allocated_vcpu;
    alloc_ram_gb = round1 (of_nat inv.total_ram_bytes /F lit 1073741824 1);
  }

  -- The observed days and the share of minutes that were collected.
  unfoldable pub observe_span : HostMinute F → List (HostMinute F) → HostReport F → HostReport F
  unfolding last_ts
  observe_span m ms r =
      let span = last_ts m.meta.ts ms - m.meta.ts in
      let count = length (m ∷ ms) in
      record r {
        observed_days = f.trunc (hours span /F lit 24 1) + 1;
        coverage_pct =
            round1 (f.fmin (lit 100 1) (of_nat count /F (minutes span +F lit 1 1) *F lit 100 1));
      }

  -- The summaries in their order: of the CPU, its peaks, steal, memory, the bytes in use, the
  -- latencies and the busy time of disks, and what the network received and sent.
  unfoldable pub set_measures :
      Gathered F
      → HostReport F
      → (cpu peak steal mem used latencies busies rx tx : Summary F) → HostReport F
  unfolding sustained
  set_measures g r cpu peak steal mem used latencies busies rx tx = record r {
    cpu = cpu;
    cpu_peak = peak;
    cpu_steal = steal.p95;
    mem = mem;
    mem_used_p95_gb = round1 (used.p95 /F lit 1073741824 1);
    sustained_cpu = (sustained g.cpu_timed (lit 70 1) three_minutes).0;
    minutes_over70 = (sustained g.cpu_timed (lit 70 1) three_minutes).1;
    minutes_over85 = (sustained g.cpu_timed (lit 85 1) three_minutes).1;
    disk_latency_p95_ms = round1 latencies.p95;
    disk_busy_p95_pct = round1 busies.p95;
    net_rx_p95_mbs = round1 rx.p95;
    net_tx_p95_mbs = round1 tx.p95;
    paging_evidence = g.paging;
  }

  -- The statistics of what the minutes hold; `none` where one of them panics.
  unfoldable pub summarize_minutes : Gathered F → HostReport F → Option (HostReport F)
  unfolding set_measures
  summarize_minutes g r = do
    cpu ← summarize g.cpu_avg
    peak ← summarize g.cpu_max
    steal ← summarize g.steal
    mem ← summarize g.mem_pct
    used ← summarize g.mem_used_bytes
    latencies ← summarize g.latencies
    busies ← summarize g.busies
    rx ← summarize g.rx
    tx ← summarize g.tx
    some (set_measures g r cpu peak steal mem used latencies busies rx tx)

  -- What follows the statistics, up to the call of `classifyHost`.
  unfoldable pub describe : Texts F → HostData F → HostReport F → HostReport F
  unfolding distinct correlates
  describe texts h r = record r {
    mem_pressure = sort_by texts.less (distinct (map texts.evidence (gather h.minutes).pressure));
    disk_capacity = latest_fs h.minutes;
    spike_count = length h.spikes;
    patterns = detect_patterns h.spikes r.observed_days;
    top_correlates =
        sort_by texts.less (map (λ p. texts.correlate p.0 p.1) (correlates h.spikes []));
    sql_instances = sort_by texts.less (map (λ p. p.0) h.sql_inv);
  }

  abbrev pub assess : Texts F → HostData F → HostReport F → HostReport F
  assess texts h r = classify_host (roles_of h) (describe texts h r)

  -- What follows the first return, for the minutes from the given one on.
  unfoldable pub analyze_minutes :
      Texts F
      → HostData F
      → HostMinute F
      → List (HostMinute F)
      → HostReport F
      → Option (HostReport F)
  unfolding observe_span summarize_minutes describe
  analyze_minutes texts h m ms r = do
    measured ← summarize_minutes (gather (m ∷ ms)) (observe_span m ms r)
    some (assess texts h measured)

  -- The report without any minute.
  abbrev pub no_minutes : HostReport F → HostReport F
  no_minutes r = record r {
    category = some insufficient_data;
    recommendation = some no_telemetry;
    validation_required = true;
  }

  abbrev pub analyze_from :
      Texts F → HostData F → List (HostMinute F) → HostReport F → Option (HostReport F)
  analyze_from texts h [] r = some (no_minutes r)
  analyze_from texts h (m ∷ ms) r = analyze_minutes texts h m ms r

  unfoldable pub analyze_host : Texts F → HostData F → Option (HostReport F)
  unfolding with_inventory analyze_minutes
  analyze_host texts h = analyze_from texts h h.minutes (with_inventory h.inventory (new_report h))
