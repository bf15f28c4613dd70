-- ===== src/Analyzer/Build/Consistency.antt =====
-- That the summary of `Build` of internal/analyzer/analyzer.go agrees with what the report lists.
use cost_optimization.Prelude.{
  ℕ, ◌+◌, ◌≡◌, refl, ◌∙◌, subst, String, Option, none, some, [], ◌∷◌, map, length, sum_of,
  sum_of-sort_by, sum_of-one, sum_of-zero, length-append, length-map, length-sort_by, arith, ltb,
  >>=-eq-some,
}
use cost_optimization.Prelude.Order.{IsAscending, sort_by-IsAscending}
use cost_optimization.Prelude.Assoc.{string_eq, Map, lookup, weight, sum_of-insert}
use cost_optimization.Float64.{Float64}
use cost_optimization.Model.{Time}
use cost_optimization.Analyzer.Dataset.{HostData, Dataset}
use cost_optimization.Analyzer.Host.Analysis.{count_of}
use cost_optimization.Analyzer.Host.Kept.{counted_spikes, analyze_host-spike_count}
use cost_optimization.Analyzer.Report.{Category}
use cost_optimization.Analyzer.Build.{Report, SpikeReportEntry}
use cost_optimization.Analyzer.Build.Entries.{spike_entry}
use cost_optimization.Analyzer.Build.Fleet.{
  BuildTexts, by_key, category_name, count_category, with_host, with_sql, count_host, add_details,
  add_hosts, empty_report, build,
}
use cost_optimization.Analyzer.Build.Identity.{
  spike_ids-Measure, host_ids-Measure, sql_keys-Measure,
}
use cost_optimization.Analyzer.Build.Categories.{
  category_name-injective, in_category, CategoryCounts-Kept,
}
use cost_optimization.Analyzer.Build.Tally.{Measure, add_hosts-tally, add_hosts-kept}
use mathlib.Core.Option.{some-injective}

counted-weight : (o : Option ℕ) → count_of o ≡ weight (λ n. n) o
counted-weight none = refl
counted-weight (some n) = refl

sum_of-count_category :
    (name : String) (m : Map String ℕ)
    → sum_of (λ p. p.1) (count_category name m) ≡ sum_of (λ p. p.1) m + 1
sum_of-count_category name m = omega (
  arith,
  sum_of-insert (λ n. n) name (count_of (lookup name m) + 1) m,
  counted-weight (lookup name m),
)

module _ {F : Type 0} ⦃f : Float64 F⦄ (texts : BuildTexts F) where
  hosts-Measure : Measure texts (λ rep. rep.fleet.hosts) (λ h. 1)
  unfolding with_host with_sql add_details count_host
  hosts-Measure = record {
    per_host = λ hr. 1;
    per_sql = λ h inv. 0;
    per_details = λ h. 0;
    host = λ hr rep. refl;
    sql = λ h inv hr sr rep e. omega arith;
    details = λ h hr rep. omega arith;
    total = λ h hr e. omega (arith, sum_of-zero h.sql_inv);
  }

  listed-Measure : Measure texts (λ rep. length rep.hosts) (λ h. 1)
  unfolding with_host with_sql add_details
  listed-Measure = record {
    per_host = λ hr. 1;
    per_sql = λ h inv. 0;
    per_details = λ h. 0;
    host = λ hr rep. length-append rep.hosts (hr ∷ []);
    sql = λ h inv hr sr rep e. omega arith;
    details = λ h hr rep. omega arith;
    total = λ h hr e. omega (arith, sum_of-zero h.sql_inv);
  }

  category-Measure : Measure texts (λ rep. sum_of (λ p. p.1) rep.fleet.categories) (λ h. 1)
  unfolding with_host with_sql add_details count_host
  category-Measure = record {
    per_host = λ hr. 1;
    per_sql = λ h inv. 0;
    per_details = λ h. 0;
    host = λ hr rep. sum_of-count_category (category_name hr.category) rep.fleet.categories;
    sql = λ h inv hr sr rep e. omega arith;
    details = λ h hr rep. omega arith;
    total = λ h hr e. omega (arith, sum_of-zero h.sql_inv);
  }

  instance-Measure : Measure texts (λ rep. rep.fleet.sql_instances) (λ h. length h.sql_inv)
  unfolding with_host with_sql add_details count_host
  instance-Measure = record {
    per_host = λ hr. 0;
    per_sql = λ h inv. 1;
    per_details = λ h. 0;
    host = λ hr rep. omega arith;
    sql = λ h inv hr sr rep e. refl;
    details = λ h hr rep. omega arith;
    total = λ h hr e. omega (arith, sum_of-one h.sql_inv);
  }

  sql-Measure : Measure texts (λ rep. length rep.sql_instances) (λ h. length h.sql_inv)
  unfolding with_host with_sql add_details
  sql-Measure = record {
    per_host = λ hr. 0;
    per_sql = λ h inv. 1;
    per_details = λ h. 0;
    host = λ hr rep. omega arith;
    sql = λ h inv hr sr rep e. length-append rep.sql_instances (sr ∷ []);
    details = λ h hr rep. omega arith;
    total = λ h hr e. omega (arith, sum_of-one h.sql_inv);
  }

  spikes-Measure : Measure texts (λ rep. length rep.spikes) (λ h. length h.spikes)
  unfolding with_host with_sql add_details
  spikes-Measure = record {
    per_host = λ hr. 0;
    per_sql = λ h inv. 0;
    per_details = λ h. length h.spikes;
    host = λ hr rep. omega arith;
    sql = λ h inv hr sr rep e. omega arith;
    details = λ h hr rep. omega (
      arith,
      length-append rep.spikes (map (spike_entry texts.entry h hr _) h.spikes),
      length-map (spike_entry texts.entry h hr _) h.spikes,
    );
    total = λ h hr e. omega (arith, sum_of-zero h.sql_inv);
  }

  counted-Measure : Measure texts (λ rep. rep.fleet.spike_events) (λ h. counted_spikes h h.minutes)
  unfolding with_host with_sql add_details count_host
  counted-Measure = record {
    per_host = λ hr. hr.spike_count;
    per_sql = λ h inv. 0;
    per_details = λ h. 0;
    host = λ hr rep. refl;
    sql = λ h inv hr sr rep e. omega arith;
    details = λ h hr rep. omega arith;
    total = λ h hr e. omega (arith, sum_of-zero h.sql_inv, analyze_host-spike_count texts.host h e);
  }

  -- The counts of the summary, and what the report lists, in terms of the dataset.
  pub record IsConsistent (ds : Dataset F) (rep : Report F) : Type 0 where
    pub hosts : rep.fleet.hosts ≡ length ds.hosts
    pub hosts_listed : length rep.hosts ≡ length ds.hosts
    pub hosts_once :
        (g : String → ℕ)
        → sum_of (λ hr. g hr.host_id) rep.hosts ≡ sum_of (λ p. g p.1.host_id) ds.hosts
    pub categories : sum_of (λ p. p.1) rep.fleet.categories ≡ length ds.hosts
    pub category_counts :
        (name : String) → count_of (lookup name rep.fleet.categories) ≡ in_category name rep
    pub category_names : (a b : Option Category) → category_name a ≡ category_name b → a ≡ b
    pub instances : rep.fleet.sql_instances ≡ sum_of (λ p. length p.1.sql_inv) ds.hosts
    pub instances_listed : length rep.sql_instances ≡ sum_of (λ p. length p.1.sql_inv) ds.hosts
    pub instances_once :
        (g : String → String → ℕ)
        → sum_of (λ sr. g sr.host_id sr.instance_key) rep.sql_instances
          ≡ sum_of (λ p. sum_of (λ q. g p.1.host_id q.1.instance_key) p.1.sql_inv) ds.hosts
    pub spikes_once :
        (g : String → String → ℕ)
        → sum_of (λ e. g e.host_id e.event_id) rep.spikes
          ≡ sum_of (λ p. sum_of (λ s. g p.1.host_id s.event_id) p.1.spikes) ds.hosts
    pub spikes_listed : length rep.spikes ≡ sum_of (λ p. length p.1.spikes) ds.hosts
    pub spikes_ordered : IsAscending (map (λ e. e.start_ts) rep.spikes)
    pub spikes : rep.fleet.spike_events ≡ sum_of (λ p. counted_spikes p.1 p.1.minutes) ds.hosts

  measured :
      {m : Report F → ℕ} {w : HostData F → ℕ}
      → Measure texts m w
      → (now : Time) (ds : Dataset F) {q : Report F}
      → add_hosts texts (by_key texts.host.less ds.hosts) (empty_report now ds.warnings) ≡ some q
      → m (empty_report now ds.warnings) ≡ 0
      → m q ≡ sum_of (λ p. w p.1) ds.hosts
  measured {w = w} k now ds e z = omega (
    arith,
    add_hosts-tally texts k _ (empty_report now ds.warnings) e,
    sum_of-sort_by (λ p. w p.1) (λ p q. texts.host.less p.0 q.0) ds.hosts,
    z,
  )

  -- The summary that `Build` makes agrees with the dataset and with what the report lists. By their
  -- identifiers, the report lists the hosts of the dataset, the instances of their inventories and the
  -- spikes of its hosts, each as often as the dataset has it, the spikes in the order of their start
  -- times. The summary counts the hosts and the instances that are listed; under the name of a category
  -- it counts the listed hosts of that category, and no two categories have one name. It counts the
  -- spikes of those hosts only that have minutes.
  pub build-IsConsistent :
      (now : Time) (ds : Dataset F) {rep : Report F}
      → build texts now ds ≡ some rep
      → IsConsistent ds rep
  unfolding build
  build-IsConsistent now ds e =
      let hosts = by_key texts.host.less ds.hosts in
      let (q, e1, e2) = >>=-eq-some (add_hosts texts hosts (empty_report now ds.warnings)) _ e in
      subst (IsConsistent ds) (some-injective _ _ e2) (record {
        hosts = measured hosts-Measure now ds e1 refl ∙ sum_of-one ds.hosts;
        hosts_listed = measured listed-Measure now ds e1 refl ∙ sum_of-one ds.hosts;
        hosts_once = λ g. measured (host_ids-Measure texts g) now ds e1 refl;
        category_counts =
            add_hosts-kept texts (CategoryCounts-Kept texts) hosts (empty_report now ds.warnings) e1
              (λ name. refl);
        category_names = category_name-injective;
        instances_once = λ g. measured (sql_keys-Measure texts g) now ds e1 refl;
        spikes_once = λ g.
            sum_of-sort_by (λ (e : SpikeReportEntry F). g e.host_id e.event_id)
              (λ (a b : SpikeReportEntry F). ltb a.start_ts b.start_ts) q.spikes
            ∙ measured (spike_ids-Measure texts g) now ds e1 refl;
        categories = measured category-Measure now ds e1 refl ∙ sum_of-one ds.hosts;
        instances = measured instance-Measure now ds e1 refl;
        instances_listed = measured sql-Measure now ds e1 refl;
        spikes_listed =
            length-sort_by (λ (a b : SpikeReportEntry F). ltb a.start_ts b.start_ts) q.spikes
            ∙ measured spikes-Measure now ds e1 refl;
        spikes_ordered = sort_by-IsAscending (λ (e : SpikeReportEntry F). e.start_ts) q.spikes;
        spikes = measured counted-Measure now ds e1 refl;
      })
