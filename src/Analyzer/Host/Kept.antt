-- ===== src/Analyzer/Host/Kept.antt =====
-- What `classifyHost` of internal/analyzer/recommend.go leaves as it is: the allocation and the count of
-- spikes.
use cost_optimization.Prelude.{
  ℕ, ◌≡◌, refl, sym, ap, ◌∙◌, subst, String, true, Bool-cases, inl, inr, Option, none, some, List,
  [], ◌∷◌, length, arith, >>=-eq-some,
}
use cost_optimization.Prelude.Int.{ℤ, pos_part}
use cost_optimization.Float64.{Float64, ◌<F◌, lit}
use cost_optimization.Model.Host.{Inventory, HostMinute}
use cost_optimization.Analyzer.Dataset.{HostData}
use cost_optimization.Analyzer.Report.{HostReport, CapacityRange}
use cost_optimization.Analyzer.Recommend.{
  load_ladder, ladder, steal_check, classify_host, confidence_from, local_ha_role,
}
use cost_optimization.Analyzer.Recommend.Decisions.{IsReduction, suggested-IsReduction}
use cost_optimization.Analyzer.Host.{Gathered, gather}
use cost_optimization.Analyzer.Host.Analysis.{
  Texts, roles_of, new_report, with_inventory, observe_span, summarize_minutes, describe,
  analyze_minutes, analyze_from, analyze_host,
}
use cost_optimization.Analyzer.Host.Assessment.{start-suggested, summarize_minutes-keeps}
use mathlib.Core.Option.{some-injective}

-- The spikes that the report on a host counts: none where it has no minutes.
abbrev pub counted_spikes {ℓ} : {F : Type 0} {M : Type ℓ} → HostData F → List M → ℕ
counted_spikes h [] = 0
counted_spikes h (m ∷ ms) = length h.spikes

module _ {F : Type 0} ⦃f : Float64 F⦄ where
  abbrev Keeps : HostReport F → HostReport F → Type 0
  Keeps r q =
      (q.spike_count ≡ r.spike_count) × (q.alloc_vcpu ≡ r.alloc_vcpu) × (q.host_id ≡ r.host_id)

  load_ladder-Keeps : (conf : F) (r : HostReport F) → Keeps r (load_ladder conf r)
  unfolding load_ladder
  load_ladder-Keeps conf r = (ground arith, ground arith, ground arith)

  ladder-Keeps : (conf : F) (role : String) (r : HostReport F) → Keeps r (ladder conf role r)
  unfolding ladder
  ladder-Keeps conf role r =
      let rest = load_ladder-Keeps conf r in
      (ground (arith, rest), ground (arith, rest), ground (arith, rest))

  steal_check-Keeps : (r q : HostReport F) → Keeps r q → Keeps r (steal_check q)
  unfolding steal_check
  steal_check-Keeps r q (c, a, i) = elim (Bool-cases (lit 5 1 <F q.cpu_steal)) [
    | inl high ↦ rw (high, steal_check) (c, a, i)
    | inr low ↦ rw (low, steal_check) (c, a, i)
  ]

  classify_host-Keeps :
      (sql_inv : List (List String)) (r : HostReport F) → Keeps r (classify_host sql_inv r)
  unfolding classify_host
  classify_host-Keeps sql_inv r =
      let conf = confidence_from r.observed_days r.coverage_pct in
      let q : HostReport F = record r { validation_required = true; confidence = conf } in
      steal_check-Keeps q _ (ladder-Keeps conf (local_ha_role sql_inv) q)

  start-spike_count :
      (h : HostData F) (o : Option Inventory) → (with_inventory o (new_report h)).spike_count ≡ 0
  unfolding with_inventory
  start-spike_count h none = refl
  start-spike_count h (some inv) = refl

  pub analyze_host-spike_count :
      (texts : Texts F) (h : HostData F) {r : HostReport F}
      → analyze_host texts h ≡ some r
      → r.spike_count ≡ counted_spikes h h.minutes
  unfolding analyze_host analyze_minutes describe
  analyze_host-spike_count texts h {r = r} e = from h.minutes e
    where
      from :
          (ms : List (HostMinute F))
          → analyze_from texts h ms (with_inventory h.inventory (new_report h)) ≡ some r
          → r.spike_count ≡ counted_spikes h ms
      from [] e =
          sym (ap (λ (z : HostReport F). z.spike_count) (some-injective _ _ e))
          ∙ start-spike_count h h.inventory
      from (m ∷ ms) e =
          let start = with_inventory h.inventory (new_report h) in
          let (q, e1, e2) =
            >>=-eq-some (summarize_minutes (gather (m ∷ ms)) (observe_span m ms start)) _ e in
          sym (ap (λ (z : HostReport F). z.spike_count) (some-injective _ _ e2))
          ∙ (classify_host-Keeps (roles_of h) (describe texts h q)).0

  start-host_id :
      (h : HostData F) (o : Option Inventory)
      → (with_inventory o (new_report h)).host_id ≡ h.host_id
  unfolding with_inventory
  start-host_id h none = refl
  start-host_id h (some inv) = refl

  summarize_minutes-host_id :
      (g : Gathered F) (r : HostReport F) {q : HostReport F}
      → summarize_minutes g r ≡ some q
      → q.host_id ≡ r.host_id
  unfolding summarize_minutes
  summarize_minutes-host_id g r e = ground arith

  -- A report bears the identifier of its host.
  pub analyze_host-host_id :
      (texts : Texts F) (h : HostData F) {r : HostReport F}
      → analyze_host texts h ≡ some r
      → r.host_id ≡ h.host_id
  unfolding analyze_host analyze_minutes describe observe_span
  analyze_host-host_id texts h {r = r} e = from h.minutes e
    where
      from :
          (ms : List (HostMinute F))
          → analyze_from texts h ms (with_inventory h.inventory (new_report h)) ≡ some r
          → r.host_id ≡ h.host_id
      from [] e =
          sym (ap (λ (z : HostReport F). z.host_id) (some-injective _ _ e))
          ∙ start-host_id h h.inventory
      from (m ∷ ms) e =
          let start = with_inventory h.inventory (new_report h) in
          let (q, e1, e2) =
            >>=-eq-some (summarize_minutes (gather (m ∷ ms)) (observe_span m ms start)) _ e in
          sym (ap (λ (z : HostReport F). z.host_id) (some-injective _ _ e2))
          ∙ (classify_host-Keeps (roles_of h) (describe texts h q)).2
          ∙ summarize_minutes-host_id (gather (m ∷ ms)) (observe_span m ms start) e1
          ∙ start-host_id h h.inventory

  -- What an assessed host has as its suggestion is a reduction of what it has as its allocation.
  pub analyze_host-IsReduction :
      (texts : Texts F) (h : HostData F) {r : HostReport F} {s : CapacityRange F}
      → analyze_host texts h ≡ some r
      → r.suggested ≡ some s
      → IsReduction (pos_part r.alloc_vcpu) s.min_vcpu s.max_vcpu
  unfolding analyze_host analyze_minutes describe observe_span
  analyze_host-IsReduction texts h {r = r} {s = s} e sug = from h.minutes e
    where
      from :
          (ms : List (HostMinute F))
          → analyze_from texts h ms (with_inventory h.inventory (new_report h)) ≡ some r
          → IsReduction (pos_part r.alloc_vcpu) s.min_vcpu s.max_vcpu
      from [] e =
          let no_range : ◌≡◌ {A = Option (CapacityRange F)} none (some s) =
            sym (start-suggested h h.inventory)
            ∙ ap (λ (z : HostReport F). z.suggested) (some-injective _ _ e)
            ∙ sug in
          absurd (cc)
      from (m ∷ ms) e =
          let start = with_inventory h.inventory (new_report h) in
          let (q, e1, e2) =
            >>=-eq-some (summarize_minutes (gather (m ∷ ms)) (observe_span m ms start)) _ e in
          let (alloc, empty) =
            summarize_minutes-keeps (gather (m ∷ ms)) (observe_span m ms start) e1 in
          let made = ap (λ (z : HostReport F). z.suggested) (some-injective _ _ e2) ∙ sug in
          let red =
            suggested-IsReduction (roles_of h) (describe texts h q) {s = s}
              (empty ∙ start-suggested h h.inventory) made in
          subst (λ (n : ℤ). IsReduction (pos_part n) s.min_vcpu s.max_vcpu)
            (sym (classify_host-Keeps (roles_of h) (describe texts h q)).1
              ∙ ap (λ (z : HostReport F). z.alloc_vcpu) (some-injective _ _ e2))
            red
