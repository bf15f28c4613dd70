-- ===== src/Analyzer/Build/Categories.antt =====
-- The categories that the summary of `Build` of internal/analyzer/analyzer.go counts.
use cost_optimization.Prelude.{
  ℕ, ◌+◌, ◌≡◌, refl, sym, ap, ◌∙◌, if◌then◌else◌, Bool-cases, inl, inr, sum_of-append, String,
  Option, none, some, [], ◌∷◌, sum_of, arith,
}
use cost_optimization.Prelude.Assoc.{string_eq, lookup, lookup-insert}
use cost_optimization.Float64.{Float64}
use cost_optimization.Analyzer.Host.Analysis.{count_of}
use cost_optimization.Analyzer.Report.{
  Category, likely_rightsizing, possible_rightsizing, optimize_workload, sql_memory_config,
  multi_instance_risk, insufficient_headroom, ha_dr_constraint, no_change, insufficient_data,
  monitor_longer, HostReport,
}
use cost_optimization.Analyzer.Build.{Report}
use cost_optimization.Analyzer.Build.Fleet.{
  BuildTexts, category_name, with_host, with_sql, count_host, add_details,
}
use cost_optimization.Analyzer.Build.Tally.{Kept}
use text.Mathlib.Text.{◌==◌ as str_eq}
use text.Mathlib.TextEquality.{eq_iff}

-- The category that a name stands for.
abbrev category_of : String → Option Category
category_of name =
    if str_eq name "likely_rightsizing_candidate"
    then some likely_rightsizing
    else if str_eq name "possible_rightsizing_candidate"
    then some possible_rightsizing
    else if str_eq name "optimize_recurring_workload_before_rightsizing"
    then some optimize_workload
    else if str_eq name "sql_memory_configuration_issue"
    then some sql_memory_config
    else if str_eq name "multi_instance_memory_allocation_risk"
    then some multi_instance_risk
    else if str_eq name "insufficient_os_headroom"
    then some insufficient_headroom
    else if str_eq name "ha_dr_constraint"
    then some ha_dr_constraint
    else if str_eq name "no_change_recommended"
    then some no_change
    else if str_eq name "insufficient_data"
    then some insufficient_data
    else if str_eq name "monitor_for_longer"
    then some monitor_longer
    else none

category_of-category_name : (c : Option Category) → category_of (category_name c) ≡ c
category_of-category_name none = refl
category_of-category_name (some likely_rightsizing) = refl
category_of-category_name (some possible_rightsizing) = refl
category_of-category_name (some optimize_workload) = refl
category_of-category_name (some sql_memory_config) = refl
category_of-category_name (some multi_instance_risk) = refl
category_of-category_name (some insufficient_headroom) = refl
category_of-category_name (some ha_dr_constraint) = refl
category_of-category_name (some no_change) = refl
category_of-category_name (some insufficient_data) = refl
category_of-category_name (some monitor_longer) = refl

pub category_name-injective : (a b : Option Category) → category_name a ≡ category_name b → a ≡ b
category_name-injective a b e =
    sym (category_of-category_name a) ∙ ap category_of e ∙ category_of-category_name b

module _ {F : Type 0} ⦃f : Float64 F⦄ where
  -- The summary has as many hosts under a name as the report lists hosts of a category of that name.
  abbrev pub in_category : String → Report F → ℕ
  in_category name rep =
      sum_of (λ (hr : HostReport F). if str_eq (category_name hr.category) name then 1 else 0)
        rep.hosts

module _ {F : Type 0} ⦃f : Float64 F⦄ (texts : BuildTexts F) where
  pub CategoryCounts-Kept :
      Kept texts (λ rep.
        (name : String) → count_of (lookup name rep.fleet.categories) ≡ in_category name rep)
  unfolding with_host with_sql add_details count_host
  CategoryCounts-Kept = record {
    host = λ h hr rep e p name.
        let this = category_name hr.category in
        let more =
          sum_of-append
            (λ (hr : HostReport F). if str_eq (category_name hr.category) name then 1 else 0)
            rep.hosts (hr ∷ []) in
        let found =
          lookup-insert this name (count_of (lookup this rep.fleet.categories) + 1)
            rep.fleet.categories in
        elim (Bool-cases (str_eq this name)) [
          | inl hit ↦
              let same : this ≡ name = (eq_iff this name).0 hit in
              let old = ap (λ n. count_of (lookup n rep.fleet.categories)) same in
              let one : ◌≡◌ {A = ℕ} (if str_eq this name then 1 else 0) 1 = rw hit refl in
              rw (found, hit) (omega (arith, p name, more, one, old))
          | inr miss ↦
              let none_more : ◌≡◌ {A = ℕ} (if str_eq this name then 1 else 0) 0 = rw miss refl in
              rw (found, miss) (omega (arith, p name, more, none_more))
        ];
    sql = λ sr rep p. p;
    details = λ h hr rep p. p;
  }
