-- ===== src/Analyzer/Recurrence/Days.antt =====
-- The distinct days of a cluster.
use cost_optimization.Prelude.{
  ℕ, ◌≡◌, ◌≢◌, refl, Bool, false, ◌||◌, List, [], ◌∷◌, ◌==◌, All, arith, Bool-cases, inl, inr,
}
use cost_optimization.Model.{SpikeEvent}
use cost_optimization.Analyzer.Recurrence.{day_of, add_day, days_of}

abbrev pub AreDistinct : List ℕ → Type 0
AreDistinct [] = Unit
AreDistinct (d ∷ days) = All (λ e. e ≢ d) days × AreDistinct days

-- Whether a day is one of the list.
abbrev pub has_day : ℕ → List ℕ → Bool
has_day x [] = false
has_day x (d ∷ days) = d == x || has_day x days

-- Whether one of the events starts on a day.
abbrev pub starts_on : {F : Type 0} → ℕ → List (SpikeEvent F) → Bool
starts_on x [] = false
starts_on x (e ∷ events) = day_of e.start_ts == x || starts_on x events

All-add_day : (P : ℕ → Type 0) (d : ℕ) (days : List ℕ) → P d → All P days → All P (add_day d days)
unfolding add_day
All-add_day P d [] p ps = (p, tt)
All-add_day P d (e ∷ days) p (q, ps) = elim (Bool-cases (d == e)) [
  | inl same ↦ rw (same, add_day) (q, ps)
  | inr other ↦ rw (other, add_day) (q, All-add_day P d days p ps)
]

AreDistinct-add_day : (d : ℕ) (days : List ℕ) → AreDistinct days → AreDistinct (add_day d days)
unfolding add_day
AreDistinct-add_day d [] ps = (tt, tt)
AreDistinct-add_day d (e ∷ days) (p, ps) = elim (Bool-cases (d == e)) [
  | inl same ↦ rw (same, add_day) (p, ps)
  | inr other ↦
      rw (other, add_day)
        (
          All-add_day (λ x. x ≢ e) d days (λ at. absurd (ground (arith, at, other))) p,
          AreDistinct-add_day d days ps,
        )
]

has_day-add_day :
    (x d : ℕ) (days : List ℕ) → has_day x (add_day d days) ≡ (d == x || has_day x days)
unfolding add_day
has_day-add_day x d [] = refl
has_day-add_day x d (e ∷ days) = ground (arith, has_day-add_day x d days)

-- The days of the events of a cluster: no day stands twice, and a day is among them exactly where one
-- of the events starts on it.
pub AreDistinct-days_of : {F : Type 0} (events : List (SpikeEvent F)) → AreDistinct (days_of events)
unfolding days_of
AreDistinct-days_of [] = tt
AreDistinct-days_of (e ∷ events) =
    AreDistinct-add_day (day_of e.start_ts) (days_of events) (AreDistinct-days_of events)

pub has_day-days_of :
    {F : Type 0} (x : ℕ) (events : List (SpikeEvent F))
    → has_day x (days_of events) ≡ starts_on x events
unfolding days_of
has_day-days_of x [] = refl
has_day-days_of x (e ∷ events) =
    ground (arith, has_day-add_day x (day_of e.start_ts) (days_of events), has_day-days_of x events)
