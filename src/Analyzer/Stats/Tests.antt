-- ===== src/Analyzer/Stats/Tests.antt =====
-- The statistics at the inputs of stats_test.go, in ten-thousandths.
use cost_optimization.Prelude.{ℕ, ◌*◌, ◌≤◌, ◌≡◌, refl, List, [], ◌∷◌, ◌++◌, arith}
use cost_optimization.Float64.{fixed_float64, fixed-IsStrictOrder}
use cost_optimization.Model.{minute}
use cost_optimization.Quantile.{quantile, RanksInRange}
use cost_optimization.Analyzer.Stats.{
  TimedValue, keep_longest, sum, summarize, start_run, extend_run, above, observe, observe_all,
  sustained, count_above, time_above_pct,
}
use cost_optimization.Analyzer.Stats.Runs.{single, grow, Run-le-sustained}
use cost_optimization.Analyzer.Stats.Described.{Told, sustained-Told}

abbrev at : ℕ → ℕ → TimedValue ℕ
at m v = record { ts = m * minute; v = v * 10000 }

program : Unit {0}
unfolding keep_longest above observe observe_all sustained count_above sum quantile summarize
    time_above_pct
program = tt

abbrev before : List (TimedValue ℕ)
before = at 100 95 ∷ at 101 20 ∷ []

abbrev hot : List (TimedValue ℕ)
hot = at 110 91 ∷ at 111 95 ∷ []

abbrev after : List (TimedValue ℕ)
after = at 130 95 ∷ at 131 10 ∷ []

abbrev values : List (TimedValue ℕ)
values = before ++ hot ++ after

gap_breaks_run : (sustained values 900000 (2 * minute)).0.minutes ≡ 2
unfolding program
gap_breaks_run = refl

total_counts_all : (sustained values 900000 (2 * minute)).1 ≡ 4
unfolding program
total_counts_all = refl

two_of_four : ◌≡◌ {A = ℕ} (time_above_pct (100000 ∷ 900000 ∷ 950000 ∷ 200000 ∷ []) 850000) 5000
unfolding program
two_of_four = refl

Run-le-sustained_example : 2 ≤ (sustained values 900000 (2 * minute)).0.minutes
Run-le-sustained_example =
    Run-le-sustained 900000 (2 * minute) before hot after
      (extend_run (start_run (at 110 91)) (at 111 95)) (grow (single refl) refl (omega arith))

sustained-Told_example : Told 900000 (2 * minute) values (sustained values 900000 (2 * minute)).0
sustained-Told_example = sustained-Told 900000 (2 * minute) fixed-IsStrictOrder values

half-RanksInRange : RanksInRange {F = ℕ} 5000
half-RanksInRange n = (omega arith, omega arith)

p95-RanksInRange : RanksInRange {F = ℕ} 9500
p95-RanksInRange n = (omega arith, omega arith)

p99-RanksInRange : RanksInRange {F = ℕ} 9900
p99-RanksInRange n = (omega arith, omega arith)

abbrev three : List ℕ
three = 30000 ∷ 10000 ∷ 20000 ∷ []
