-- ===== src/Analyzer/Recurrence/Patterns.antt =====
-- Clusters and patterns.
use cost_optimization.Prelude.{
  ℕ, map, zero, suc, ◌+◌, ◌≤◌, ◌≡◌, inl, inr, List, [], ◌∷◌, length, leb, arith, sum_of, All,
  Bool-cases,
}
use cost_optimization.Float64.{Float64}
use cost_optimization.Model.{SpikeEvent}
use cost_optimization.Analyzer.Recurrence.Days.{AreDistinct, has_day, starts_on}
use cost_optimization.Analyzer.Recurrence.{
  Pattern, recurrence_tol_min, minute_of_day, minute_dist, near, far, clusters_of, clusters,
}

module _ {F : Type 0} where
  length-near-far :
      (base : ℕ) (events : List (SpikeEvent F))
      → length (near base events) + length (far base events) ≡ length events
  unfolding near far
  length-near-far base [] = omega arith
  length-near-far base (e ∷ events) = ground (arith, length-near-far base events)

  clusters_of-length :
      (fuel : ℕ) (events : List (SpikeEvent F))
      → length events ≤ fuel
      → sum_of length (clusters_of fuel events) ≡ length events
  unfolding clusters_of
  clusters_of-length zero [] h = omega arith
  clusters_of-length zero (e ∷ events) h = absurd (omega (arith, h))
  clusters_of-length (suc fuel) [] h = omega arith
  clusters_of-length (suc fuel) (e ∷ events) h =
      let base = minute_of_day e.start_ts in
      let split = length-near-far base events in
      let rest = clusters_of-length fuel (far base events) (omega (arith, h, split)) in
      omega (arith, rest, split)

  -- A cluster: a first event and others that are at most 20 minutes from it in time of day.
  abbrev pub IsCluster : List (SpikeEvent F) → Type 0
  IsCluster [] = 1 ≤ 0
  IsCluster (e ∷ rest) =
      All
        (λ (d : SpikeEvent F).
          minute_dist (minute_of_day e.start_ts) (minute_of_day d.start_ts) ≤ recurrence_tol_min)
        rest

  All-near :
      (base : ℕ) (events : List (SpikeEvent F))
      → All
          (λ (d : SpikeEvent F). minute_dist base (minute_of_day d.start_ts) ≤ recurrence_tol_min)
          (near base events)
  unfolding near
  All-near base [] = tt
  All-near base (e ∷ events) =
      elim (Bool-cases (leb (minute_dist base (minute_of_day e.start_ts)) recurrence_tol_min)) [
        | inl close ↦ rw close (ground (arith, close), All-near base events)
        | inr other ↦ rw other (All-near base events)
      ]

  clusters_of-IsCluster :
      (fuel : ℕ) (events : List (SpikeEvent F)) → All IsCluster (clusters_of fuel events)
  unfolding clusters_of
  clusters_of-IsCluster zero events = tt
  clusters_of-IsCluster (suc fuel) [] = tt
  clusters_of-IsCluster (suc fuel) (e ∷ events) = (
    All-near (minute_of_day e.start_ts) events,
    clusters_of-IsCluster fuel (far (minute_of_day e.start_ts) events),
  )

  -- The clusters of a group have as many events as the group, and each holds a first event and others
  -- at most 20 minutes from it in time of day.
  pub clusters_lem :
      (events : List (SpikeEvent F))
      → (sum_of length (clusters events) ≡ length events) × All IsCluster (clusters events)
  clusters_lem events = (
    clusters_of-length (length events) events (omega arith),
    clusters_of-IsCluster (length events) events,
  )

-- What a pattern rests on: three events or more that lie close in time of day, one id for each, and
-- their days, each once, of which there are three or more.
pub record IsPattern {F : Type 0} (p : Pattern F) : Type 0 where
  pub events : List (SpikeEvent F)
  pub close : IsCluster events
  pub ids : p.event_ids ≡ map (λ (e : SpikeEvent F). e.event_id) events
  pub occurrences : p.occurrences ≡ length events
  pub days : List ℕ
  pub once : AreDistinct days
  pub of_events : (x : ℕ) → has_day x days ≡ starts_on x events
  pub count : p.distinct_days ≡ length days
  pub enough : 3 ≤ p.distinct_days
