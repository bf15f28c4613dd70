-- ===== src/Analyzer/Build/Identity.antt =====
-- What `Build` of internal/analyzer/analyzer.go lists, by identifiers.
use cost_optimization.Prelude.{
  ℕ, ◌≡◌, refl, ap, List, sum_of-append, String, [], ◌∷◌, map, sum_of, sum_of-zero, arith,
}
use cost_optimization.Prelude.Assoc.{string_eq}
use cost_optimization.Float64.{Float64}
use cost_optimization.Analyzer.Host.Kept.{analyze_host-host_id}
use cost_optimization.Analyzer.Report.{HostReport}
use cost_optimization.Analyzer.Sql.{SqlReport}
use cost_optimization.Analyzer.Sql.Keys.{analyze_sql_instance-keys}
use cost_optimization.Analyzer.Build.{SpikeReportEntry}
use cost_optimization.Analyzer.Build.Entries.{spike_entry}
use cost_optimization.Analyzer.Build.Fleet.{BuildTexts, with_host, with_sql, add_details}
use cost_optimization.Analyzer.Build.Tally.{Measure}

sum_of-map {ℓ} :
    {A B : Type ℓ} (g : B → ℕ) (h : A → B) (xs : List A)
    → sum_of g (map h xs) ≡ sum_of (λ x. g (h x)) xs
sum_of-map g h [] = refl
sum_of-map g h (x ∷ xs) = omega (arith, sum_of-map g h xs)

module _ {F : Type 0} ⦃f : Float64 F⦄ (texts : BuildTexts F) where
  -- The spikes that the report lists, by an amount for the pair of a host and an event.
  pub spike_ids-Measure :
      (g : String → String → ℕ)
      → Measure texts
          (λ rep. sum_of (λ e. g e.host_id e.event_id) rep.spikes)
          (λ h. sum_of (λ s. g h.host_id s.event_id) h.spikes)
  unfolding with_host with_sql add_details spike_entry
  spike_ids-Measure g = record {
    per_host = λ hr. 0;
    per_sql = λ h inv. 0;
    per_details = λ h. sum_of (λ s. g h.host_id s.event_id) h.spikes;
    host = λ hr rep. omega arith;
    sql = λ h inv hr sr rep e. omega arith;
    details = λ h hr rep. omega (
      arith,
      sum_of-append (λ (e : SpikeReportEntry F). g e.host_id e.event_id) rep.spikes
          (map (spike_entry texts.entry h hr _) h.spikes),
      sum_of-map (λ (e : SpikeReportEntry F). g e.host_id e.event_id)
          (spike_entry texts.entry h hr _) h.spikes,
    );
    total = λ h hr e. omega (arith, sum_of-zero h.sql_inv);
  }

  pub host_ids-Measure :
      (g : String → ℕ)
      → Measure texts (λ rep. sum_of (λ hr. g hr.host_id) rep.hosts) (λ h. g h.host_id)
  unfolding with_host with_sql add_details
  host_ids-Measure g = record {
    per_host = λ hr. g hr.host_id;
    per_sql = λ h inv. 0;
    per_details = λ h. 0;
    host = λ hr rep.
        omega (arith, sum_of-append (λ (hr : HostReport F). g hr.host_id) rep.hosts (hr ∷ []));
    sql = λ h inv hr sr rep e. omega arith;
    details = λ h hr rep. omega arith;
    total =
        λ h hr e. omega (arith, sum_of-zero h.sql_inv, ap g (analyze_host-host_id texts.host h e));
  }

  pub sql_keys-Measure :
      (g : String → String → ℕ)
      → Measure texts
          (λ rep. sum_of (λ sr. g sr.host_id sr.instance_key) rep.sql_instances)
          (λ h. sum_of (λ p. g h.host_id p.1.instance_key) h.sql_inv)
  unfolding with_host with_sql add_details
  sql_keys-Measure g = record {
    per_host = λ hr. 0;
    per_sql = λ h inv. g h.host_id inv.instance_key;
    per_details = λ h. 0;
    host = λ hr rep. omega arith;
    sql = λ h inv hr sr rep e.
        let (of_host, of_instance) = analyze_sql_instance-keys texts.job h inv hr e in
        let more =
          sum_of-append (λ (sr : SqlReport F). g sr.host_id sr.instance_key) rep.sql_instances
            (sr ∷ []) in
        omega (arith, more, ap (λ n. g n sr.instance_key) of_host, ap (g h.host_id) of_instance);
    details = λ h hr rep. omega arith;
    total = λ h hr e. omega arith;
  }
