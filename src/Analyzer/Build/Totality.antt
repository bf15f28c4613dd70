-- ===== src/Analyzer/Build/Totality.antt =====
-- That `Build` of internal/analyzer/analyzer.go never panics.
use cost_optimization.Prelude.{
  ◌≡◌, refl, String, Option, none, some, List, [], ◌∷◌, sort_by, if_cases, ◌>>=◌,
}
use cost_optimization.Prelude.Assoc.{string_eq, Map, lookup}
use cost_optimization.Float64.{Float64, lit, float_less}
use cost_optimization.Model.{Time}
use cost_optimization.Model.Sql.{SqlInstanceInventory, SqlSample}
use cost_optimization.Quantile.{quantile_total, RanksInRange}
use cost_optimization.Analyzer.Stats.{summarize, summarize_total}
use cost_optimization.Analyzer.Dataset.{HostData, Dataset, slice_of}
use cost_optimization.Analyzer.Report.{HostReport}
use cost_optimization.Analyzer.Host.Assessment.{HasRanks, analyze_host_total}
use cost_optimization.Analyzer.Sql.{JobCorrelate, SqlReport}
use cost_optimization.Analyzer.Sql.Samples.{SqlGathered, gather_sql, nothing_gathered}
use cost_optimization.Analyzer.Sql.Classify.{last_of}
use cost_optimization.Analyzer.Sql.Instance.{
  summarize_sql, analyze_samples, analyze_sql_instance, new_sql_report,
}
use cost_optimization.Analyzer.Build.{Report}
use cost_optimization.Analyzer.Build.Fleet.{
  BuildTexts, by_key, with_host, with_sql, add_sql, add_host, add_hosts, empty_report, build,
}
use text.Mathlib.Text.{◌==◌ as equals}

abbrev Yields : {A : Type 0} → Option A → Type 0
Yields {A = A} o = (a : A) × (o ≡ some a)

Yields-bind :
    {A B : Type 0} (m : Option A) (g : A → Option B)
    → Yields m
    → ((a : A) → Yields (g a))
    → Yields (m >>= g)
Yields-bind m g (a, e) k = let (b, e') = k a in (b, rw e e')

module _ {F : Type 0} ⦃f : Float64 F⦄ (k : HasRanks F) (k5 : RanksInRange {F = F} (lit 5 100)) where
  summarized : (vs : List F) → Yields (summarize vs)
  summarized vs = let (s, e, c) = summarize_total vs k.r50 k.r95 k.r99 in (s, e)

  summarize_sql_total : (g : SqlGathered F) (r : SqlReport F) → Yields (summarize_sql g r)
  unfolding summarize_sql
  summarize_sql_total g r =
      Yields-bind _ _ (quantile_total (sort_by float_less g.ples) (lit 5 100) k5) (λ a.
        Yields-bind _ _ (summarized g.grants) (λ b. Yields-bind _ _ (summarized g.batch) (λ c.
          Yields-bind _ _ (summarized g.sqlcpu)
            (λ d. Yields-bind _ _ (summarized g.read_lat) (λ e. (_, refl))))))

  analyze_samples_total :
      (text : JobCorrelate → String) (h : HostData F) (inv : SqlInstanceInventory F)
      (hr : HostReport F) (samples : List (SqlSample F)) (latest : Option (SqlSample F))
      → Yields (analyze_samples text h inv hr samples latest)
  analyze_samples_total text h inv hr samples none = (_, refl)
  analyze_samples_total text h inv hr samples (some s) =
      Yields-bind _ _
        (summarize_sql_total (gather_sql samples nothing_gathered) (new_sql_report h inv hr))
        (λ r. (_, refl))

  analyze_sql_instance_total :
      (text : JobCorrelate → String) (h : HostData F) (inv : SqlInstanceInventory F)
      (hr : HostReport F)
      → Yields (analyze_sql_instance text h inv hr)
  unfolding analyze_sql_instance
  analyze_sql_instance_total text h inv hr =
      let samples = slice_of (lookup inv.instance_key h.sql_samples) in
      if_cases Yields (equals inv.collection_level "process_only") _ _ (λ p. (_, refl))
        (λ p. analyze_samples_total text h inv hr samples (last_of samples))

  add_sql_total :
      (text : JobCorrelate → String) (h : HostData F) (hr : HostReport F)
      (invs : Map String (SqlInstanceInventory F)) (rep : Report F)
      → Yields (add_sql text h hr invs rep)
  unfolding add_sql
  add_sql_total text h hr [] rep = (rep, refl)
  add_sql_total text h hr ((key, inv) ∷ invs) rep =
      Yields-bind _ _ (analyze_sql_instance_total text h inv hr)
        (λ sr. add_sql_total text h hr invs (with_sql sr rep))

  add_host_total :
      (texts : BuildTexts F) (h : HostData F) (rep : Report F) → Yields (add_host texts h rep)
  unfolding add_host
  add_host_total texts h rep =
      let (hr, e, d) = analyze_host_total k texts.host h in
      Yields-bind _ _ (hr, e)
        (λ r.
          Yields-bind _ _
            (add_sql_total texts.job h r (by_key texts.host.less h.sql_inv) (with_host r rep))
            (λ q. (_, refl)))

  add_hosts_total :
      (texts : BuildTexts F) (hosts : Map String (HostData F)) (rep : Report F)
      → Yields (add_hosts texts hosts rep)
  unfolding add_hosts
  add_hosts_total texts [] rep = (rep, refl)
  add_hosts_total texts ((id, h) ∷ hosts) rep =
      Yields-bind _ _ (add_host_total texts h rep) (λ next. add_hosts_total texts hosts next)

  -- Where the ranks of the quantiles are in range, `Build` makes a report of every dataset, without a
  -- panic, whatever was imported.
  pub build_total :
      (texts : BuildTexts F) (now : Time) (ds : Dataset F)
      → (rep : Report F) × (build texts now ds ≡ some rep)
  unfolding build
  build_total texts now ds =
      Yields-bind _ _
        (add_hosts_total texts (by_key texts.host.less ds.hosts) (empty_report now ds.warnings))
        (λ rep. (_, refl))
