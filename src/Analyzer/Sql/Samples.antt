-- ===== src/Analyzer/Sql/Samples.antt =====
-- What `analyzeSQLInstance` of internal/analyzer/recommend_sql.go gathers from the samples and the spikes
-- of an instance.
use cost_optimization.Prelude.{
  String, not, Option, none, some, is_some, List, [], ◌∷◌, ◌++◌, if◌then◌else◌,
}
use cost_optimization.Prelude.Assoc.{Map, string_eq, lookup, insert}
use cost_optimization.Float64.{Float64, ◌+F◌, lit, of_int}
use cost_optimization.Model.Sql.{
  SqlSample, WaitDelta, DbFileIo, SqlActiveRequest, SqlAgentJobRun, SqlSpikeContext,
}
use cost_optimization.Analyzer.Sql.{JobCorrelate, agent_job, active_request}
use text.Mathlib.Text.{◌==◌ as equals}

-- `dedupStrings`, with the texts seen so far.
unfoldable pub dedup_strings : Map String (Unit {0}) → List String → List String
dedup_strings seen [] = []
dedup_strings seen (s ∷ ss) =
    let old = dedup_strings seen ss in
    let new = s ∷ dedup_strings (insert s tt seen) ss in
    if is_some (lookup s seen) then old else new

abbrev pub first_request : List SqlActiveRequest → List JobCorrelate
first_request [] = []
first_request (ar ∷ rest) = active_request ar.database ar.command ar.query_hash ∷ []

-- What the loop over the samples gathers.
pub record SqlGathered (F : Type 0) : Type 0 where
  pub ples : List F
  pub grants : List F
  pub batch : List F
  pub sqlcpu : List F
  pub read_lat : List F
  pub waits : Map String F

module _ {F : Type 0} where
  unfoldable pub running_jobs : List (SqlAgentJobRun F) → List JobCorrelate
  running_jobs [] = []
  running_jobs (j ∷ jobs) =
      let rest = running_jobs jobs in if j.running then agent_job j.job_name ∷ rest else rest

  -- The spikes of an instance.
  unfoldable pub spikes_of : String → List (SqlSpikeContext F) → List (SqlSpikeContext F)
  spikes_of key [] = []
  spikes_of key (sc ∷ scs) =
      let rest = spikes_of key scs in if not (equals sc.instance_key key) then rest else sc ∷ rest

  unfoldable pub correlates_of : List (SqlSpikeContext F) → List JobCorrelate
  unfolding running_jobs
  correlates_of [] = []
  correlates_of (sc ∷ scs) =
      running_jobs sc.agent_jobs
      ++ ((if equals sc.correlation_level "active_request"
            then first_request sc.active_requests
            else [])
          ++ correlates_of scs)

module _ {F : Type 0} ⦃f : Float64 F⦄ where
  abbrev pub wait_so_far : Option F → F
  wait_so_far none = lit 0 1
  wait_so_far (some v) = v

  unfoldable pub add_waits : Map String (WaitDelta F) → Map String F → Map String F
  add_waits [] agg = agg
  add_waits ((wt, wd) ∷ deltas) agg =
      add_waits deltas (insert wt (wait_so_far (lookup wt agg) +F wd.wait_ms) agg)

  unfoldable pub data_latencies : List (DbFileIo F) → List F
  data_latencies [] = []
  data_latencies (io ∷ ios) =
      let rest = data_latencies ios in
      if equals io.file_type "data" then io.read_lat_ms ∷ rest else rest

  abbrev pub nothing_gathered : SqlGathered F
  nothing_gathered = record {
    ples = [];
    grants = [];
    batch = [];
    sqlcpu = [];
    read_lat = [];
    waits = [];
  }

  unfoldable pub gather_sql : List (SqlSample F) → SqlGathered F → SqlGathered F
  unfolding add_waits data_latencies
  gather_sql [] g = g
  gather_sql (s ∷ ss) g = gather_sql ss record {
    ples = g.ples ++ of_int s.ple_seconds ∷ [];
    grants = g.grants ++ of_int s.memory_grants_pending ∷ [];
    batch = g.batch ++ s.batch_requests_ps ∷ [];
    sqlcpu = g.sqlcpu ++ s.sql_process_cpu_pct ∷ [];
    read_lat = g.read_lat ++ data_latencies s.file_io;
    waits = add_waits s.wait_deltas g.waits;
  }
