-- ===== src/Analyzer/Build/Savings.antt =====
-- The indicative reduction of CPUs that `Build` of internal/analyzer/analyzer.go adds up.
use cost_optimization.Prelude.{ℕ, ◌≤◌, ◌≡◌, Option, sum_of}
use cost_optimization.Prelude.Int.{ℤ, pos, pos_part}
use cost_optimization.Float64.{Float64}
use cost_optimization.Analyzer.Dataset.{Dataset}
use cost_optimization.Analyzer.Report.{HostReport}
use cost_optimization.Analyzer.Build.{Report}
use cost_optimization.Analyzer.Build.Tally.{Kept}

-- The number that an integer which is not negative is, of at most the given size.
abbrev pub IsWithin : ℤ → ℕ → Type 0
IsWithin z top = (n : ℕ) × (z ≡ pos n) × (n ≤ top)

module _ {F : Type 0} ⦃f : Float64 F⦄ where
  -- The CPUs that are allocated to the hosts of a report. An inventory with a negative number of them
  -- counts for none.
  abbrev pub allocated_in_all : Report F → ℕ
  allocated_in_all rep = sum_of (λ (hr : HostReport F). pos_part hr.alloc_vcpu) rep.hosts

  abbrev IsSaving : Report F → Type 0
  IsSaving rep = IsWithin rep.fleet.potential_vcpu (allocated_in_all rep)
