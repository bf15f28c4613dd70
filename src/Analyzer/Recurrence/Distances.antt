-- ===== src/Analyzer/Recurrence/Distances.antt =====
-- The distance of two times of day.
use cost_optimization.Prelude.{ℕ, ◌+◌, ◌%◌, ◌<◌, ◌≤◌, ◌≡◌, ◌⊎◌, arith}
use cost_optimization.Analyzer.Recurrence.{minute_dist}

-- From one minute of the day, a number of minutes leads to the other, one way round or the other.
abbrev pub Leads : ℕ → ℕ → ℕ → Type 0
Leads a b k = ((a + k) % 1440 ≡ b) ⊎ ((b + k) % 1440 ≡ a)

minute_dist-Leads : (a b : ℕ) → a < 1440 → b < 1440 → Leads a b (minute_dist a b)
minute_dist-Leads a b p q = ground arith

minute_dist-least : (a b k : ℕ) → a < 1440 → b < 1440 → Leads a b k → minute_dist a b ≤ k
minute_dist-least a b k p q h = ground arith

-- Of two minutes of the day, `minuteDist` is the least number of minutes that leads from one to the
-- other, one way round the clock or the other way, and at most half a day.
pub minute_dist_lem :
    (a b : ℕ)
    → a < 1440
    → b < 1440
    → Leads a b (minute_dist a b)
      × (minute_dist a b ≤ 720)
      × ((k : ℕ) → Leads a b k → minute_dist a b ≤ k)
minute_dist_lem a b p q =
    (minute_dist-Leads a b p q, ground arith, λ k h. minute_dist-least a b k p q h)
