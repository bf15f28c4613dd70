-- ===== src/Analyzer/Sql/Keys.antt =====
-- A report on an instance of SQL Server names the host and the instance that it is about.
use cost_optimization.Prelude.{
  ◌≡◌, sym, ap, ◌∙◌, if_cases, String, true, Option, none, some, List, arith, >>=-eq-some,
}
use cost_optimization.Prelude.Assoc.{string_eq, lookup}
use cost_optimization.Float64.{Float64}
use cost_optimization.Model.Sql.{SqlInstanceInventory, SqlSample}
use cost_optimization.Analyzer.Dataset.{HostData, slice_of}
use cost_optimization.Analyzer.Report.{HostReport}
use cost_optimization.Analyzer.Recommend.{confidence_from}
use cost_optimization.Analyzer.Sql.{SqlReport, JobCorrelate}
use cost_optimization.Analyzer.Sql.Classify.{
  Situation, situation, cache_ladder, pressure_ladder, sql_ladder, classify_sql, last_of,
}
use cost_optimization.Analyzer.Sql.Samples.{SqlGathered, gather_sql, nothing_gathered}
use cost_optimization.Analyzer.Sql.Instance.{
  new_sql_report, summarize_sql, set_memory, set_signals, finish_sql, analyze_samples,
  analyze_sql_instance,
}
use mathlib.Core.Option.{some-injective}
use text.Mathlib.Text.{◌==◌ as equals}

module _ {F : Type 0} ⦃f : Float64 F⦄ where
  abbrev HasKeys : SqlReport F → SqlReport F → Type 0
  HasKeys r q = (q.host_id ≡ r.host_id) × (q.instance_key ≡ r.instance_key)

  cache_ladder-HasKeys : (x : Situation F) (r : SqlReport F) → HasKeys r (cache_ladder x r)
  unfolding cache_ladder
  cache_ladder-HasKeys x r = (ground arith, ground arith)

  pressure_ladder-HasKeys : (x : Situation F) (r : SqlReport F) → HasKeys r (pressure_ladder x r)
  unfolding pressure_ladder
  pressure_ladder-HasKeys x r =
      let rest = cache_ladder-HasKeys x r in (ground (arith, rest), ground (arith, rest))

  sql_ladder-HasKeys : (x : Situation F) (r : SqlReport F) → HasKeys r (sql_ladder x r)
  unfolding sql_ladder
  sql_ladder-HasKeys x r =
      let rest = pressure_ladder-HasKeys x r in (ground (arith, rest), ground (arith, rest))

  finish_sql-HasKeys :
      (text : JobCorrelate → String) (h : HostData F) (inv : SqlInstanceInventory F)
      (hr : HostReport F) (latest : SqlSample F) (r : SqlReport F)
      → HasKeys r (finish_sql text h inv hr latest r)
  unfolding finish_sql set_memory set_signals classify_sql
  finish_sql-HasKeys text h inv hr latest r =
      let q = set_signals text h inv.instance_key hr latest (set_memory latest r) in
      let conf = confidence_from hr.observed_days hr.coverage_pct in
      sql_ladder-HasKeys (situation h inv hr)
        (record q { validation_required = true; confidence = conf })

  summarize_sql-HasKeys :
      (g : SqlGathered F) (r : SqlReport F) {q : SqlReport F}
      → summarize_sql g r ≡ some q
      → HasKeys r q
  unfolding summarize_sql
  summarize_sql-HasKeys g r h = (ground arith, ground arith)

  analyze_samples-keys :
      (text : JobCorrelate → String) (h : HostData F) (inv : SqlInstanceInventory F)
      (hr : HostReport F) (samples : List (SqlSample F)) (latest : Option (SqlSample F))
      {r : SqlReport F}
      → analyze_samples text h inv hr samples latest ≡ some r
      → (r.host_id ≡ h.host_id) × (r.instance_key ≡ inv.instance_key)
  unfolding new_sql_report
  analyze_samples-keys text h inv hr samples none e =
      let same = some-injective _ _ e in
      (
        sym (ap (λ (z : SqlReport F). z.host_id) same),
        sym (ap (λ (z : SqlReport F). z.instance_key) same),
      )
  analyze_samples-keys text h inv hr samples (some latest) e =
      let (q, e1, e2) =
        >>=-eq-some (summarize_sql (gather_sql samples nothing_gathered) (new_sql_report h inv hr))
          _ e in
      let same = some-injective _ _ e2 in
      let (a, b) = summarize_sql-HasKeys _ _ e1 in
      let (c, d) = finish_sql-HasKeys text h inv hr latest q in
      (
        sym (ap (λ (z : SqlReport F). z.host_id) same) ∙ c ∙ a,
        sym (ap (λ (z : SqlReport F). z.instance_key) same) ∙ d ∙ b,
      )

  pub analyze_sql_instance-keys :
      (text : JobCorrelate → String) (h : HostData F) (inv : SqlInstanceInventory F)
      (hr : HostReport F) {r : SqlReport F}
      → analyze_sql_instance text h inv hr ≡ some r
      → (r.host_id ≡ h.host_id) × (r.instance_key ≡ inv.instance_key)
  unfolding analyze_sql_instance
  analyze_sql_instance-keys text h inv hr {r = r} e =
      let samples = slice_of (lookup inv.instance_key h.sql_samples) in
      if_cases (λ o. o ≡ some r → (r.host_id ≡ h.host_id) × (r.instance_key ≡ inv.instance_key))
        (equals inv.collection_level "process_only") _ _
        (λ shallow e'. analyze_samples-keys text h inv hr samples none e')
        (λ deep e'. analyze_samples-keys text h inv hr samples (last_of samples) e') e
