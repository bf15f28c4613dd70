-- ===== src/Analyzer/Recommend/Candidates.antt =====
-- Exactly which hosts are strong candidates.
use cost_optimization.Prelude.{
  ◌≡◌, ◌≢◌, inl, inr, refl, sym, ap, ◌∙◌, subst, ◌↔◌, String, true, false, ◌||◌, Option, none, some,
  List, length, ltb, arith, Bool-cases,
}
use cost_optimization.Float64.{Float64, ◌<F◌, lit}
use cost_optimization.Analyzer.Report.{
  Category, no_change, likely_rightsizing, possible_rightsizing, optimize_workload,
  insufficient_data, monitor_longer, sql_memory_config, multi_instance_risk, insufficient_headroom,
  ha_dr_constraint, HostReport,
}
use cost_optimization.Analyzer.Recommend.{
  local_ha_role, dominated_by_recurring_spikes, mem_high, cpu_is_high, load_ladder, ladder,
  downgrade, steal_check, classify_host, confidence_from,
}
use cost_optimization.Analyzer.Recommend.Decisions.{IsClear, ladder-cases}

downgrade-ne : (c : Option Category) → downgrade c ≢ some likely_rightsizing
unfolding downgrade
downgrade-ne none h = cc
downgrade-ne (some likely_rightsizing) h = cc
downgrade-ne (some possible_rightsizing) h = cc
downgrade-ne (some optimize_workload) h = cc
downgrade-ne (some sql_memory_config) h = cc
downgrade-ne (some multi_instance_risk) h = cc
downgrade-ne (some insufficient_headroom) h = cc
downgrade-ne (some ha_dr_constraint) h = cc
downgrade-ne (some no_change) h = cc
downgrade-ne (some insufficient_data) h = cc
downgrade-ne (some monitor_longer) h = cc

module _ {F : Type 0} ⦃f : Float64 F⦄ where
  -- What the other cases see besides, where the ladder finds a strong candidate.
  pub record IsFarBelow (r : HostReport F) : Type 0 where
    pub not_dominated : dominated_by_recurring_spikes r ≡ false
    pub cpu_fits : cpu_is_high r ≡ false
    pub cpu_low : (r.cpu.p95 <F lit 40 1) ≡ true
    pub mem_low : (r.mem.p95 <F lit 60 1) ≡ true
    pub no_paging : r.paging_evidence ≡ false

  load_ladder-IsFarBelow :
      (conf : F) (r : HostReport F)
      → (load_ladder conf r).category ≡ some likely_rightsizing
      → IsFarBelow r
  unfolding load_ladder
  load_ladder-IsFarBelow conf r h = record {
    not_dominated = ground arith;
    cpu_fits = ground arith;
    cpu_low = ground arith;
    mem_low = ground arith;
    no_paging = ground arith;
  }

  IsFarBelow-load_ladder :
      (conf : F) (r : HostReport F)
      → IsFarBelow r
      → (load_ladder conf r).category ≡ some likely_rightsizing
  unfolding load_ladder
  IsFarBelow-load_ladder conf r b =
      rw (b.not_dominated, b.cpu_fits, b.cpu_low, b.mem_low, b.no_paging) refl

  IsFarBelow-fields :
      (r : HostReport F) (conf : F)
      → IsFarBelow (record r { validation_required = true; confidence = conf }) ↔ IsFarBelow r
  unfolding dominated_by_recurring_spikes
  IsFarBelow-fields r conf = (
    λ b. record {
      not_dominated = b.not_dominated;
      cpu_fits = b.cpu_fits;
      cpu_low = b.cpu_low;
      mem_low = b.mem_low;
      no_paging = b.no_paging;
    },
    λ b. record {
      not_dominated = b.not_dominated;
      cpu_fits = b.cpu_fits;
      cpu_low = b.cpu_low;
      mem_low = b.mem_low;
      no_paging = b.no_paging;
    },
  )

  steal_check-likely :
      (r : HostReport F)
      → ((steal_check r).category ≡ some likely_rightsizing)
        ↔ ((r.category ≡ some likely_rightsizing) × ((lit 5 1 <F r.cpu_steal) ≡ false))
  unfolding steal_check downgrade
  steal_check-likely r = (
    λ h. elim (Bool-cases (lit 5 1 <F r.cpu_steal)) [
      | inl steal ↦ absurd (downgrade-ne r.category (ground (arith, steal, h)))
      | inr quiet ↦ (ground (arith, quiet, h), quiet)
    ],
    λ (h, quiet). rw (quiet, h) refl,
  )

  mem_high_clear : (role : String) (r : HostReport F) → IsClear role r → mem_high r ≡ false
  mem_high_clear role r c =
      let empty : ltb 0 (length r.mem_pressure) ≡ false =
        ap (λ (l : List String). ltb 0 (length l)) c.no_pressure in
      ground (arith, c.memory_fits, empty)

  IsClear-ladder :
      (conf : F) (role : String) (r : HostReport F)
      → IsClear role r
      → ladder conf role r ≡ load_ladder conf r
  unfolding ladder
  IsClear-ladder conf role r c =
      let a : (ltb r.observed_days 3 || (r.coverage_pct <F lit 50 1)) ≡ false =
        ground (arith, c.week, c.covered) in
      let b : ltb r.observed_days 7 ≡ false = ground (arith, c.week) in
      rw (a, b, c.not_secondary, mem_high_clear role r c) refl

  ladder-likely :
      (conf : F) (role : String) (r : HostReport F)
      → ((ladder conf role r).category ≡ some likely_rightsizing) ↔ (IsClear role r × IsFarBelow r)
  ladder-likely conf role r = (
    λ h. elim (ladder-cases conf role r) [
      | inl (same, other) ↦ absurd (other h)
      | inr (same, c) ↦
          (c, load_ladder-IsFarBelow conf r (ap (λ (z : HostReport F). z.category) (sym same) ∙ h))
    ],
    λ (c, b).
        ap (λ (z : HostReport F). z.category) (IsClear-ladder conf role r c)
        ∙ IsFarBelow-load_ladder conf r b,
  )

  IsClear-fields :
      (role : String) (r : HostReport F) (conf : F)
      → IsClear role (record r { validation_required = true; confidence = conf }) ↔ IsClear role r
  IsClear-fields role r conf = (
    λ c. record {
      week = c.week;
      covered = c.covered;
      not_secondary = c.not_secondary;
      memory_fits = c.memory_fits;
      no_pressure = c.no_pressure;
    },
    λ c. record {
      week = c.week;
      covered = c.covered;
      not_secondary = c.not_secondary;
      memory_fits = c.memory_fits;
      no_pressure = c.no_pressure;
    },
  )

  load_ladder-cpu_steal :
      (conf : F) (r : HostReport F) → (load_ladder conf r).cpu_steal ≡ r.cpu_steal
  unfolding load_ladder
  load_ladder-cpu_steal conf r = ground arith

  ladder-cpu_steal :
      (conf : F) (role : String) (r : HostReport F) → (ladder conf role r).cpu_steal ≡ r.cpu_steal
  unfolding ladder
  ladder-cpu_steal conf role r = ground (arith, load_ladder-cpu_steal conf r)

  -- `classifyHost` calls a host a likely rightsizing candidate exactly where the report is clear, as a
  -- suggestion needs, its CPU and memory are far below the allocation, with no paging and no recurring
  -- workload that explains its peaks, and the CPU steal is not above 5%.
  pub candidate_iff :
      (sql_inv : List (List String)) (r : HostReport F)
      → ((classify_host sql_inv r).category ≡ some likely_rightsizing)
        ↔ (IsClear (local_ha_role sql_inv) r × IsFarBelow r × ((lit 5 1 <F r.cpu_steal) ≡ false))
  unfolding classify_host
  candidate_iff sql_inv r =
      let conf = confidence_from r.observed_days r.coverage_pct in
      let role = local_ha_role sql_inv in
      let q = record r { validation_required = true; confidence = conf } in
      let kept : (ladder conf role q).cpu_steal ≡ r.cpu_steal = ladder-cpu_steal conf role q in
      (
        λ h.
            let (l, quiet) = (steal_check-likely (ladder conf role q)).0 h in
            let (c, b) = (ladder-likely conf role q).0 l in
            (
              (IsClear-fields role r conf).0 c,
              (IsFarBelow-fields r conf).0 b,
              subst (λ (z : F). (lit 5 1 <F z) ≡ false) kept quiet,
            ),
        λ (c, b, quiet). (steal_check-likely (ladder conf role q)).1 (
          (ladder-likely conf role q).1
              ((IsClear-fields role r conf).1 c, (IsFarBelow-fields r conf).1 b),
          subst (λ (z : F). (lit 5 1 <F z) ≡ false) (sym kept) quiet,
        ),
      )
