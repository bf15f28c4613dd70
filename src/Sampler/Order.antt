-- ===== src/Sampler/Order.antt =====
-- The order of the minutes that internal/sampler/sampler.go emits.
use cost_optimization.Prelude.{
  ℕ, ◌≤◌, ◌<◌, ◌≡◌, refl, sym, ap, ◌∙◌, subst, List, [], ◌∷◌, All, map, arith, ◌==◌, Bool-cases,
  inl, inr,
}
use cost_optimization.Prelude.Order.{IsAscending, IsIncreasing, All-lt_of_le}
use cost_optimization.Float64.{Float64}
use cost_optimization.Model.{Time}
use cost_optimization.Model.Host.{HostMinute}
use cost_optimization.Sampler.{HighRes}
use cost_optimization.Sampler.Minutes.{MinuteAgg, truncate_minute, emit}
use cost_optimization.Sampler.Grouping.{
  IsDated, no_minute, single, before, by_minute, aggregates, aggregates-by_minute,
}

truncate_minute-le : (t u : Time) → t ≤ u → truncate_minute t ≤ truncate_minute u
truncate_minute-le t u h = omega arith

module _ {F : Type 0} where
  abbrev pub minutes : List (MinuteAgg F) → List Time
  minutes gs = map (λ g. g.minute) gs

  before-IsIncreasing :
      (m : MinuteAgg F) (gs : List (MinuteAgg F))
      → All (λ u. m.minute ≤ u) (minutes gs)
      → IsIncreasing (minutes gs)
      → IsIncreasing (minutes (before m gs))
  unfolding before
  before-IsIncreasing m [] p q = (tt, tt)
  before-IsIncreasing m (g ∷ gs) (p, ps) (q, qs) = elim (Bool-cases (g.minute == m.minute)) [
    | inl same ↦
        let e : g.minute ≡ m.minute = ground arith in
        rw (same, before) (All-lt_of_le m.minute g.minute (minutes gs) (omega arith) q, qs)
    | inr other ↦
        let h : m.minute < g.minute = ground arith in
        rw (other, before)
          ((h, All-lt_of_le m.minute g.minute (minutes gs) (omega arith) q), (q, qs))
  ]

  All-before :
      (t : ℕ) (m : MinuteAgg F) (gs : List (MinuteAgg F))
      → t ≤ m.minute
      → All (λ u. t ≤ u) (minutes gs)
      → All (λ u. t ≤ u) (minutes (before m gs))
  unfolding before
  All-before t m [] h p = (h, tt)
  All-before t m (g ∷ gs) h (p, ps) = elim (Bool-cases (g.minute == m.minute)) [
    | inl same ↦ rw (same, before) (h, ps)
    | inr other ↦ rw (other, before) (h, (p, ps))
  ]

  abbrev pub times : List (HighRes F) → List Time
  times ss = map (λ s. s.ts) ss

  All-by_minute :
      (t : Time) (ss : List (HighRes F))
      → All (λ u. t ≤ u) (times ss)
      → All (λ u. truncate_minute t ≤ u) (minutes (by_minute ss))
  unfolding by_minute
  All-by_minute t [] p = tt
  All-by_minute t (s ∷ ss) (p, ps) =
      All-before _ (single s) (by_minute ss) (truncate_minute-le t s.ts p) (All-by_minute t ss ps)

  by_minute-IsIncreasing :
      (ss : List (HighRes F)) → IsAscending (times ss) → IsIncreasing (minutes (by_minute ss))
  unfolding by_minute
  by_minute-IsIncreasing [] p = tt
  by_minute-IsIncreasing (s ∷ ss) (p, ps) =
      before-IsIncreasing (single s) (by_minute ss) (All-by_minute s.ts ss p)
        (by_minute-IsIncreasing ss ps)

module _ {F : Type 0} ⦃f : Float64 F⦄ where
  abbrev pub stamps : List (HostMinute F) → List Time
  stamps ms = map (λ m. m.meta.ts) ms

  stamps-emit : (gs : List (MinuteAgg F)) → stamps (map emit gs) ≡ minutes gs
  unfolding emit
  stamps-emit [] = refl
  stamps-emit (g ∷ gs) = ap (λ ts. g.minute ∷ ts) (stamps-emit gs)

  -- While the clock does not go back, the minutes that a run emits have strictly increasing times:
  -- no minute of dated samples is emitted twice.
  pub aggregates-IsIncreasing :
      (ss : List (HighRes F))
      → All IsDated ss
      → IsAscending (times ss)
      → IsIncreasing (stamps (aggregates ss no_minute))
  aggregates-IsIncreasing ss d p =
      subst IsIncreasing (sym (ap stamps (aggregates-by_minute ss d) ∙ stamps-emit (by_minute ss)))
        (by_minute-IsIncreasing ss p)
