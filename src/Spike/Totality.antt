-- ===== src/Spike/Totality.antt =====
-- A step never panics: every index that it computes is in range. That an index computed in float64
-- is in range is a law of float64, named here.
use cost_optimization.Prelude.{ℕ, ◌<◌}
use cost_optimization.Float64.{Float64, ◌*F◌, ◌/F◌, of_nat, lit}
use cost_optimization.Quantile.{RanksInRange}

-- `i * (n / t)` truncates to an index of n elements, for i < t < n; and the ranks of a median are
-- in range.
pub record IsIndexing (F : Type 0) ⦃f : Float64 F⦄ : Type 0 where
  pub picks_in_range :
      (i t n : ℕ) → i < t → t < n → f.trunc (of_nat i *F (of_nat n /F of_nat t)) < n
  pub median_ranks : RanksInRange {F = F} (lit 1 2)
