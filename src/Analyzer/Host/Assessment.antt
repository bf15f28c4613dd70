-- ===== src/Analyzer/Host/Assessment.antt =====
-- What `analyzeHost` of internal/analyzer/recommend.go reports of a host.
use cost_optimization.Prelude.{
  ℕ, ◌≡◌, ◌≢◌, refl, sym, ap, ◌∙◌, subst, String, Bool, true, false, Option, none, some, List, [],
  ◌∷◌, map, All, length, arith, >>=-eq-some, sort_by, length-sort_by, Bool-cases, inl, inr,
}
use cost_optimization.Prelude.Int.{ℤ, pos_part}
use cost_optimization.Float64.{Float64, lit}
use cost_optimization.Model.Host.{Inventory, HostMinute}
use cost_optimization.Quantile.{RanksInRange}
use cost_optimization.Analyzer.Stats.{summarize_total}
use cost_optimization.Analyzer.Recurrence.{has_id}
use cost_optimization.Analyzer.Dataset.{HostData}
use cost_optimization.Analyzer.Report.{HostReport, CapacityRange}
use cost_optimization.Analyzer.Recommend.{local_ha_role}
use cost_optimization.Analyzer.Recommend.Decisions.{
  IsReduction, suggested-IsReduction, suggested-IsClear,
}
use cost_optimization.Analyzer.Recommend.Completeness.{IsDecided, classify_host-IsDecided}
use cost_optimization.Analyzer.Host.{Gathered, gather}
use cost_optimization.Analyzer.Host.Gathering.{IsQuiet, gather-IsQuiet}
use cost_optimization.Analyzer.Host.Analysis.{
  Texts, distinct, roles_of, new_report, with_inventory, observe_span, set_measures, no_minutes,
  summarize_minutes, describe, assess, analyze_minutes, analyze_from, analyze_host,
}
use mathlib.Core.Option.{some-injective}
use text.Mathlib.Text.{◌==◌ as equals}

-- The quantiles that the summaries ask for have their ranks in range.
pub record HasRanks (F : Type 0) ⦃f : Float64 F⦄ : Type 0 where
  pub r50 : RanksInRange {F = F} (lit 50 100)
  pub r95 : RanksInRange {F = F} (lit 95 100)
  pub r99 : RanksInRange {F = F} (lit 99 100)

distinct-nil : (x : String) (xs : List String) → distinct (x ∷ xs) ≢ []
unfolding distinct
distinct-nil x xs h = elim (Bool-cases (has_id x (distinct xs))) [
  | inl seen ↦
      let e : distinct xs ≡ [] = rw seen at h in
      let no_id : has_id x [] ≡ true = rw e at seen in unfold has_id in cc
  | inr fresh ↦ let e = rw fresh at h in cc
]

map-nil {ℓ} : {A B : Type ℓ} (g : A → B) (xs : List A) → map g xs ≡ [] → xs ≡ []
map-nil g [] h = refl
map-nil g (x ∷ xs) h = cc

sort-nil :
    (less : String → String → Bool) (xs : List String) → sort_by less (distinct xs) ≡ [] → xs ≡ []
sort-nil less [] h = refl
sort-nil less (x ∷ xs) h = absurd (
    let e : length (distinct (x ∷ xs)) ≡ 0 =
      sym (length-sort_by less (distinct (x ∷ xs))) ∙ ap length h in
    distinct-nil x xs (nil_of_length (distinct (x ∷ xs)) e))
  where
    nil_of_length : (ys : List String) → length ys ≡ 0 → ys ≡ []
    nil_of_length [] e = refl
    nil_of_length (y ∷ ys) e = absurd (omega (arith, e))

module _ {F : Type 0} ⦃f : Float64 F⦄ where
  summarize_minutes_total :
      HasRanks F
      → (g : Gathered F) (r : HostReport F) → (q : HostReport F) × (summarize_minutes g r ≡ some q)
  unfolding summarize_minutes
  summarize_minutes_total k g r =
      let total = λ (vs : List F). summarize_total vs k.r50 k.r95 k.r99 in
      let (a, ea, ca) = total g.cpu_avg in
      let (b, eb, cb) = total g.cpu_max in
      let (c, ec, c3) = total g.steal in
      let (d, ed, c4) = total g.mem_pct in
      let (e, ee, c5) = total g.mem_used_bytes in
      let (x, ex, c6) = total g.latencies in
      let (y, ey, c7) = total g.busies in
      let (u, eu, c8) = total g.rx in
      let (v, ev, c9) = total g.tx in
      (set_measures g r a b c d e x y u v, rw (ea, eb, ec, ed, ee, ex, ey, eu, ev) refl)

  analyze_from_total :
      HasRanks F
      → (texts : Texts F) (h : HostData F) (ms : List (HostMinute F)) (r : HostReport F)
      → (q : HostReport F) × (analyze_from texts h ms r ≡ some q) × IsDecided q
  unfolding analyze_minutes
  analyze_from_total k texts h [] r = (
    no_minutes r,
    refl,
    record { category = λ e. cc; recommendation = λ e. cc; validated = refl },
  )
  analyze_from_total k texts h (m ∷ ms) r =
      let (q, e) = summarize_minutes_total k (gather (m ∷ ms)) (observe_span m ms r) in
      (assess texts h q, rw e refl, classify_host-IsDecided (roles_of h) (describe texts h q))

  -- Where the ranks of the quantiles are in range, `analyzeHost` reports on every host, whatever was
  -- imported of it, without a panic. The report has a category and an advice, and asks for
  -- validation.
  pub analyze_host_total :
      HasRanks F
      → (texts : Texts F) (h : HostData F)
      → (r : HostReport F) × (analyze_host texts h ≡ some r) × IsDecided r
  unfolding analyze_host
  analyze_host_total k texts h = analyze_from_total k texts h h.minutes _

  pub summarize_minutes-keeps :
      (g : Gathered F) (r : HostReport F) {q : HostReport F}
      → summarize_minutes g r ≡ some q
      → (q.alloc_vcpu ≡ r.alloc_vcpu) × (q.suggested ≡ r.suggested)
  unfolding summarize_minutes
  summarize_minutes-keeps g r e = (ground arith, ground arith)

  -- What a suggestion rests on.
  pub record IsSupported (h : HostData F) (s : CapacityRange F) : Type 0 where
    pub telemetry : h.minutes ≢ []
    pub inventory :
        (inv : Inventory) × (h.inventory ≡ some inv)
        × IsReduction (pos_part inv.allocated_vcpu) s.min_vcpu s.max_vcpu
    pub not_secondary : equals (local_ha_role (roles_of h)) "SECONDARY" ≡ false
    pub quiet : All IsQuiet h.minutes

  inventory_of :
      (h : HostData F) (o : Option Inventory) (alloc : ℤ) (lo hi : ℕ)
      → alloc ≡ (with_inventory o (new_report h)).alloc_vcpu
      → IsReduction (pos_part alloc) lo hi
      → (inv : Inventory) × (o ≡ some inv) × IsReduction (pos_part inv.allocated_vcpu) lo hi
  unfolding with_inventory
  inventory_of h none alloc lo hi e red = absurd (omega (arith, ap pos_part e, red.reduces))
  inventory_of h (some inv) alloc lo hi e red =
      (inv, refl, subst (λ (n : ℤ). IsReduction (pos_part n) lo hi) e red)

  assess-IsSupported :
      (texts : Texts F) (h : HostData F) (q : HostReport F) {s : CapacityRange F}
      → h.minutes ≢ []
      → q.suggested ≡ none
      → q.alloc_vcpu ≡ (with_inventory h.inventory (new_report h)).alloc_vcpu
      → (assess texts h q).suggested ≡ some s
      → IsSupported h s
  unfolding describe
  assess-IsSupported texts h q {s = s} some_minutes empty alloc e =
      let clear = suggested-IsClear (roles_of h) (describe texts h q) empty (λ n. absurd (cc)) in
      let no_evidence =
        map-nil texts.evidence (gather h.minutes).pressure
          (sort-nil texts.less _ clear.no_pressure) in
      record {
        telemetry = some_minutes;
        inventory =
            inventory_of h h.inventory q.alloc_vcpu s.min_vcpu s.max_vcpu alloc
              (suggested-IsReduction (roles_of h) (describe texts h q) {s = s} empty e);
        not_secondary = clear.not_secondary;
        quiet = gather-IsQuiet h.minutes no_evidence;
      }

  pub start-suggested :
      (h : HostData F) (o : Option Inventory) → (with_inventory o (new_report h)).suggested ≡ none
  unfolding with_inventory
  start-suggested h none = refl
  start-suggested h (some inv) = refl

  analyze_from-IsSupported :
      (texts : Texts F) (h : HostData F) (ms : List (HostMinute F)) {r : HostReport F}
      {s : CapacityRange F}
      → h.minutes ≡ ms
      → analyze_from texts h ms (with_inventory h.inventory (new_report h)) ≡ some r
      → r.suggested ≡ some s
      → IsSupported h s
  unfolding analyze_minutes observe_span
  analyze_from-IsSupported texts h [] {s = s} same e sug =
      let no_range : ◌≡◌ {A = Option (CapacityRange F)} none (some s) =
        sym (start-suggested h h.inventory)
        ∙ ap (λ (z : HostReport F). z.suggested) (some-injective _ _ e)
        ∙ sug in
      absurd (cc)
  analyze_from-IsSupported texts h (m ∷ ms) {s = s} same e sug =
      let start = with_inventory h.inventory (new_report h) in
      let (q, e1, e2) =
        >>=-eq-some (summarize_minutes (gather (m ∷ ms)) (observe_span m ms start)) _ e in
      let (alloc, empty) = summarize_minutes-keeps (gather (m ∷ ms)) (observe_span m ms start) e1 in
      assess-IsSupported texts h q {s = s} (λ n. absurd (cc))
        (empty ∙ start-suggested h h.inventory) alloc
        (ap (λ (z : HostReport F). z.suggested) (some-injective _ _ e2) ∙ sug)

  -- Where `analyzeHost` suggests a capacity, the host has minutes and an inventory, the range of CPUs
  -- is a reduction of those that the inventory states, the first role of a primary or of a secondary
  -- among its availability groups, in the order of its instances, is not that of a secondary, and no
  -- minute has more than 100 major faults or 500 pages out a second, or a share of time above 5% in
  -- which some task waits for memory, above 1% in which all do, or above 10% in which some task waits
  -- for I/O.
  pub analyze_host-IsSupported :
      (texts : Texts F) (h : HostData F) {r : HostReport F} {s : CapacityRange F}
      → analyze_host texts h ≡ some r
      → r.suggested ≡ some s
      → IsSupported h s
  unfolding analyze_host
  analyze_host-IsSupported texts h e sug = analyze_from-IsSupported texts h h.minutes refl e sug
