-- ===== src/Analyzer/Recommend/Decisions.antt =====
-- What the ladder may and may not recommend.
use cost_optimization.Prelude.{
  ℕ, ◌<◌, ◌≤◌, ◌≡◌, ◌≢◌, ◌⊎◌, inl, inr, refl, sym, ap, ◌∙◌, String, true, false, ◌||◌, Option, none,
  some, List, [], ◌∷◌, length, ltb, arith, Bool-cases, Option-cases,
}
use cost_optimization.Prelude.Int.{pos_part}
use cost_optimization.Float64.{Float64, ◌<F◌, ◌≤F◌, lit}
use cost_optimization.Analyzer.Report.{likely_rightsizing, HostReport, CapacityRange}
use cost_optimization.Analyzer.Recommend.{
  local_ha_role, dominated_by_recurring_spikes, note_optimization, suggest_capacity, mem_high,
  load_ladder, ladder, steal_check, classify_host, confidence_from,
}
use text.Mathlib.Text.{◌==◌ as equals}

-- A range of CPUs that is worth suggesting for an allocation: at least two, a proper range that
-- starts below the allocation and does not pass it.
pub record IsReduction (alloc lo hi : ℕ) : Type 0 where
  pub minimum : 2 ≤ lo
  pub proper : lo < hi
  pub reduces : lo < alloc
  pub within : hi ≤ alloc

no_elements {ℓ} : {A : Type ℓ} (l : List A) → ltb 0 (length l) ≡ false → l ≡ []
no_elements [] h = refl
no_elements (x ∷ l) h = absurd (ground (arith, h))

module _ {F : Type 0} ⦃f : Float64 F⦄ where
  suggest_capacity-IsReduction :
      (r : HostReport F) {s : CapacityRange F}
      → suggest_capacity r ≡ some s
      → IsReduction (pos_part r.alloc_vcpu) s.min_vcpu s.max_vcpu
  unfolding suggest_capacity
  suggest_capacity-IsReduction r h = record {
    minimum = ground arith;
    proper = ground arith;
    reduces = ground arith;
    within = ground arith;
  }

  note-IsReduction :
      (r : HostReport F) {s : CapacityRange F}
      → note_optimization (suggest_capacity r) ≡ some s
      → IsReduction (pos_part r.alloc_vcpu) s.min_vcpu s.max_vcpu
  unfolding note_optimization
  note-IsReduction r {s = s} h = elim (Option-cases (suggest_capacity r)) [
    | inl e ↦ absurd (ground (arith, e, h))
    | inr (t, e) ↦ ground (arith, suggest_capacity-IsReduction r {s = t} e, e, h)
  ]

  -- What the report holds wherever the ladder sets a suggestion.
  pub record IsClear (role : String) (r : HostReport F) : Type 0 where
    pub week : 7 ≤ r.observed_days
    pub covered : (r.coverage_pct <F lit 50 1) ≡ false
    pub not_secondary : equals role "SECONDARY" ≡ false
    pub memory_fits : (lit 80 1 ≤F r.mem.p95) ≡ false
    pub no_pressure : r.mem_pressure ≡ []

  IsClear-of_tests :
      (role : String) (r : HostReport F)
      → (ltb r.observed_days 3 || (r.coverage_pct <F lit 50 1)) ≡ false
      → ltb r.observed_days 7 ≡ false
      → equals role "SECONDARY" ≡ false
      → mem_high r ≡ false
      → IsClear role r
  IsClear-of_tests role r a b c d = record {
    week = ground arith;
    covered = ground arith;
    not_secondary = c;
    memory_fits = ground arith;
    no_pressure = no_elements r.mem_pressure (ground arith);
  }

  -- The first four cases decide without a suggestion; the others see a clear report.
  pub ladder-cases :
      (conf : F) (role : String) (r : HostReport F)
      → (((ladder conf role r).suggested ≡ r.suggested)
          × ((ladder conf role r).category ≢ some likely_rightsizing))
        ⊎ ((ladder conf role r ≡ load_ladder conf r) × IsClear role r)
  unfolding ladder
  ladder-cases conf role r =
      elim (Bool-cases (ltb r.observed_days 3 || (r.coverage_pct <F lit 50 1))) [
        | inl a ↦ inl (rw a (refl, λ e. absurd (cc)))
        | inr a ↦ elim (Bool-cases (ltb r.observed_days 7)) [
          | inl b ↦ inl (ground arith, ground arith)
          | inr b ↦ elim (Bool-cases (equals role "SECONDARY")) [
            | inl c ↦ inl (ground arith, ground arith)
            | inr c ↦ elim (Bool-cases (mem_high r)) [
              | inl d ↦ inl (ground arith, ground arith)
              | inr d ↦ inr (rw (a, b, c, d) refl, IsClear-of_tests role r a b c d)
            ]
          ]
        ]
      ]

  load_ladder-IsReduction :
      (conf : F) (r : HostReport F) {s : CapacityRange F}
      → r.suggested ≡ none
      → (load_ladder conf r).suggested ≡ some s
      → IsReduction (pos_part r.alloc_vcpu) s.min_vcpu s.max_vcpu
  unfolding load_ladder
  load_ladder-IsReduction conf r {s = s} e h = elim (Bool-cases (dominated_by_recurring_spikes r)) [
    | inl d ↦ note-IsReduction r {s = s} (ground (arith, d, h))
    | inr d ↦ suggest_capacity-IsReduction r {s = s} (ground (arith, d, e, h))
  ]

  steal_check-suggested : (r : HostReport F) → (steal_check r).suggested ≡ r.suggested
  unfolding steal_check
  steal_check-suggested r = ground arith

  -- Where a report has no suggestion before, one that `classifyHost` makes is a reduction of the
  -- allocated CPUs: at least two, a proper range that starts below the allocation and ends within it.
  pub suggested-IsReduction :
      (sql_inv : List (List String)) (r : HostReport F) {s : CapacityRange F}
      → r.suggested ≡ none
      → (classify_host sql_inv r).suggested ≡ some s
      → IsReduction (pos_part r.alloc_vcpu) s.min_vcpu s.max_vcpu
  unfolding classify_host
  suggested-IsReduction sql_inv r {s = s} e h =
      let conf = confidence_from r.observed_days r.coverage_pct in
      let q = record r { validation_required = true; confidence = conf } in
      let g = sym (steal_check-suggested (ladder conf (local_ha_role sql_inv) q)) ∙ h in
      elim (ladder-cases conf (local_ha_role sql_inv) q) [
        | inl (same, c) ↦ absurd (
            let bad : ◌≡◌ {A = Option (CapacityRange F)} none (some s) = sym e ∙ sym same ∙ g in cc)
        | inr (same, c) ↦
            load_ladder-IsReduction conf q {s = s} e
              (ap (λ (z : HostReport F). z.suggested) (sym same) ∙ g)
      ]

  -- Where a report has no suggestion before, `classifyHost` makes one only after a week of days, at a
  -- coverage that is not below 50%, on a host where the first role of a primary or of a secondary among
  -- its availability groups is not that of a secondary, and where memory is not at 80% or above at P95
  -- and the report lists no sign of memory pressure.
  pub suggested-IsClear :
      (sql_inv : List (List String)) (r : HostReport F)
      → r.suggested ≡ none
      → (classify_host sql_inv r).suggested ≢ none
      → IsClear (local_ha_role sql_inv) r
  unfolding classify_host
  suggested-IsClear sql_inv r e h =
      let conf = confidence_from r.observed_days r.coverage_pct in
      let q = record r { validation_required = true; confidence = conf } in
      elim (ladder-cases conf (local_ha_role sql_inv) q) [
        | inl (same, c) ↦
            absurd (h (steal_check-suggested (ladder conf (local_ha_role sql_inv) q) ∙ same ∙ e))
        | inr (same, c) ↦ record {
          week = c.week;
          covered = c.covered;
          not_secondary = c.not_secondary;
          memory_fits = c.memory_fits;
          no_pressure = c.no_pressure;
        }
      ]
