-- ===== src/Analyzer/Recommend/Completeness.antt =====
-- The ladder decides every case.
use cost_optimization.Prelude.{
  ◌≡◌, ◌≢◌, String, true, Option, none, some, List, arith, Bool-cases, inl, inr,
}
use cost_optimization.Float64.{Float64, ◌<F◌, lit}
use cost_optimization.Analyzer.Report.{
  Category, likely_rightsizing, possible_rightsizing, optimize_workload, insufficient_data,
  monitor_longer, sql_memory_config, multi_instance_risk, insufficient_headroom, ha_dr_constraint,
  no_change, HostReport,
}
use cost_optimization.Analyzer.Recommend.{
  local_ha_role, load_ladder, ladder, downgrade, steal_check, classify_host, confidence_from,
}

downgrade-ne-none : (c : Option Category) → c ≢ none → downgrade c ≢ none
unfolding downgrade
downgrade-ne-none none h e = h e
downgrade-ne-none (some likely_rightsizing) h e = cc
downgrade-ne-none (some possible_rightsizing) h e = cc
downgrade-ne-none (some optimize_workload) h e = cc
downgrade-ne-none (some sql_memory_config) h e = cc
downgrade-ne-none (some multi_instance_risk) h e = cc
downgrade-ne-none (some insufficient_headroom) h e = cc
downgrade-ne-none (some ha_dr_constraint) h e = cc
downgrade-ne-none (some no_change) h e = cc
downgrade-ne-none (some insufficient_data) h e = cc
downgrade-ne-none (some monitor_longer) h e = cc

module _ {F : Type 0} ⦃f : Float64 F⦄ where
  -- Decided, for a person to confirm.
  pub record IsDecided (r : HostReport F) : Type 0 where
    pub category : r.category ≢ none
    pub recommendation : r.recommendation ≢ none
    pub validated : r.validation_required ≡ true

  -- What a step of the ladder keeps or reaches.
  abbrev Decides : HostReport F → HostReport F → Type 0
  Decides r q =
      (q.category ≢ none)
      × (q.recommendation ≢ none)
      × (q.validation_required ≡ r.validation_required)

  load_ladder-Decides : (conf : F) (r : HostReport F) → Decides r (load_ladder conf r)
  unfolding load_ladder
  load_ladder-Decides conf r = (ground arith, ground arith, ground arith)

  ladder-Decides : (conf : F) (role : String) (r : HostReport F) → Decides r (ladder conf role r)
  unfolding ladder
  ladder-Decides conf role r =
      let rest = load_ladder-Decides conf r in
      (ground (arith, rest), ground (arith, rest), ground (arith, rest))

  steal_check-Decides : (r q : HostReport F) → Decides r q → Decides r (steal_check q)
  unfolding steal_check
  steal_check-Decides r q (c, a, v) = elim (Bool-cases (lit 5 1 <F q.cpu_steal)) [
    | inl high ↦ rw (high, steal_check) (downgrade-ne-none q.category c, a, v)
    | inr low ↦ rw (low, steal_check) (c, a, v)
  ]

  pub classify_host-IsDecided :
      (sql_inv : List (List String)) (r : HostReport F) → IsDecided (classify_host sql_inv r)
  unfolding classify_host
  classify_host-IsDecided sql_inv r =
      let conf = confidence_from r.observed_days r.coverage_pct in
      let q : HostReport F = record r { validation_required = true; confidence = conf } in
      let d = steal_check-Decides q _ (ladder-Decides conf (local_ha_role sql_inv) q) in
      record { category = d.0; recommendation = d.1; validated = d.2 }
