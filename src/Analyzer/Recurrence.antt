-- ===== src/Analyzer/Recurrence.antt =====
-- internal/analyzer/recurrence.go: repetitive spikes. A time is a number of nanoseconds since Monday,
-- 1 January of the year 1, at midnight UTC, so its day is told by division; a day stands for the date
-- that the source formats. An event that is used is taken out of the list instead of being flagged. The
-- description of a pattern and its time of day are formatted from the other fields.
mod Distances
mod Days
mod Patterns
mod Tests
use cost_optimization.Prelude.{
  ℕ, zero, suc, ◌+◌, ◌-◌, ◌*◌, ◌/◌, ◌%◌, String, Bool, true, false, not, ◌&&◌, ◌||◌, Option, none,
  some, List, [], ◌∷◌, ◌++◌, map, length, if◌then◌else◌, ltb, leb, ◌==◌, sort_by, sum_of,
}
use cost_optimization.Prelude.Assoc.{Eq, Map, lookup, insert}
use cost_optimization.Float64.{Float64, ◌+F◌, ◌/F◌, ◌≤F◌, of_nat, lit}
use cost_optimization.Model.{Time, minute, SpikeEvent}
use cost_optimization.Spike.{Key, key_eq}
use text.Mathlib.Text.{◌==◌ as str_eq}

pub data Cadence : Type 0 where
  daily weekdays weekly irregular_recurring : Cadence

-- `time_of_day_utc` in minutes.
pub record Pattern (F : Type 0) : Type 0 where
  pub resource : String
  pub device : String
  pub time_of_day_utc : ℕ
  pub occurrences : ℕ
  pub distinct_days : ℕ
  pub observed_days : ℕ
  pub mean_duration_s : F
  pub mean_peak : F
  pub cadence : Cadence
  pub event_ids : List String

abbrev pub recurrence_tol_min : ℕ
recurrence_tol_min = 20

abbrev pub minute_of_day : Time → ℕ
minute_of_day t = (t / minute) % 1440

-- The difference of two ints, made positive, and then the shorter way round the clock.
abbrev pub minute_dist : ℕ → ℕ → ℕ
minute_dist a b = let d = if ltb a b then b - a else a - b in if ltb 720 d then 1440 - d else d

abbrev pub day_of : Time → ℕ
day_of t = t / (1440 * minute)

-- Sunday is 0.
abbrev pub weekday : Time → ℕ
weekday t = (day_of t + 1) % 7

abbrev pub is_weekend : Time → Bool
is_weekend t = weekday t == 6 || weekday t == 0

-- Writing a day into a set of days.
unfoldable pub add_day : ℕ → List ℕ → List ℕ
add_day d [] = d ∷ []
add_day d (e ∷ days) = let rest = add_day d days in if d == e then e ∷ days else e ∷ rest

unfoldable pub has_id : String → List String → Bool
has_id id [] = false
has_id id (i ∷ ids) = str_eq i id || has_id id ids

module _ {F : Type 0} where
  -- The events that are close enough to the first one in time of day, and the others.
  unfoldable pub near : ℕ → List (SpikeEvent F) → List (SpikeEvent F)
  near base [] = []
  near base (e ∷ events) =
      let rest = near base events in
      if leb (minute_dist base (minute_of_day e.start_ts)) recurrence_tol_min
      then e ∷ rest
      else rest

  unfoldable pub far : ℕ → List (SpikeEvent F) → List (SpikeEvent F)
  far base [] = []
  far base (e ∷ events) =
      let rest = far base events in
      if leb (minute_dist base (minute_of_day e.start_ts)) recurrence_tol_min
      then rest
      else e ∷ rest

  -- The clusters of a group, on fuel: the number of its events.
  unfoldable pub clusters_of : ℕ → List (SpikeEvent F) → List (List (SpikeEvent F))
  unfolding near far
  clusters_of zero events = []
  clusters_of (suc fuel) [] = []
  clusters_of (suc fuel) (e ∷ events) =
      (e ∷ near (minute_of_day e.start_ts) events)
      ∷ clusters_of fuel (far (minute_of_day e.start_ts) events)

  abbrev pub clusters : List (SpikeEvent F) → List (List (SpikeEvent F))
  clusters events = clusters_of (length events) events

  unfoldable pub days_of : List (SpikeEvent F) → List ℕ
  unfolding add_day
  days_of [] = []
  days_of (e ∷ events) = add_day (day_of e.start_ts) (days_of events)

  unfoldable pub weekdays_only : List (SpikeEvent F) → Bool
  weekdays_only [] = true
  weekdays_only (e ∷ events) = not (is_weekend e.start_ts) && weekdays_only events

  -- groups[k] = append(groups[k], s), the events in the order of the list.
  unfoldable pub add_to_group :
      SpikeEvent F → Map Key (List (SpikeEvent F)) → Map Key (List (SpikeEvent F))
  add_to_group s groups =
      let k : Key = record { resource = s.resource; device = s.device } in
      insert k ((elim (lookup k groups) [ none ↦ [] | some events ↦ events ]) ++ (s ∷ [])) groups

  unfoldable pub group :
      List (SpikeEvent F) → Map Key (List (SpikeEvent F)) → Map Key (List (SpikeEvent F))
  unfolding add_to_group
  group [] groups = groups
  group (s ∷ spikes) groups = group spikes (add_to_group s groups)

  unfoldable pub pattern_for : List (Pattern F) → String → Option (Pattern F)
  unfolding has_id
  pattern_for [] id = none
  pattern_for (p ∷ patterns) id = if has_id id p.event_ids then some p else pattern_for patterns id

module _ {F : Type 0} ⦃f : Float64 F⦄ where
  unfoldable pub sum_by : (SpikeEvent F → F) → F → List (SpikeEvent F) → F
  sum_by g acc [] = acc
  sum_by g acc (e ∷ events) = sum_by g (acc +F g e) events

  -- The share is that of the days with an event among the observed days.
  abbrev pub cadence_of : F → ℕ → ℕ → Bool → Cadence
  cadence_of share days observed only_weekdays =
      if ltb 0 observed && (lit 8 10 ≤F share)
      then daily
      else if only_weekdays && leb 7 observed
      then weekdays
      else if leb 14 observed && leb (observed / 7) days
      then weekly
      else irregular_recurring

  abbrev pub new_pattern : Key → ℕ → List (SpikeEvent F) → Pattern F
  new_pattern k observed cluster = record {
    resource = k.resource;
    device = k.device;
    time_of_day_utc =
        sum_of (λ (e : SpikeEvent F). minute_of_day e.start_ts) cluster / length cluster;
    occurrences = length cluster;
    distinct_days = length (days_of cluster);
    observed_days = observed;
    mean_duration_s = sum_by (λ e. e.duration_s) (lit 0 1) cluster /F of_nat (length cluster);
    mean_peak = sum_by (λ e. e.peak) (lit 0 1) cluster /F of_nat (length cluster);
    cadence =
        cadence_of (of_nat (length (days_of cluster)) /F of_nat observed) (length (days_of cluster))
          observed (weekdays_only cluster);
    event_ids = map (λ (e : SpikeEvent F). e.event_id) cluster;
  }

  -- The patterns of the clusters of one group.
  unfoldable pub patterns_of : Key → ℕ → List (List (SpikeEvent F)) → List (Pattern F)
  unfolding sum_by days_of weekdays_only
  patterns_of k observed [] = []
  patterns_of k observed (cluster ∷ rest) =
      let more = patterns_of k observed rest in
      if ltb (length cluster) 3 || ltb (length (days_of cluster)) 3
      then more
      else new_pattern k observed cluster ∷ more

  unfoldable pub patterns_of_groups : ℕ → Map Key (List (SpikeEvent F)) → List (Pattern F)
  unfolding patterns_of clusters_of
  patterns_of_groups observed [] = []
  patterns_of_groups observed ((k, events) ∷ groups) =
      patterns_of k observed
        (clusters (sort_by (λ (a b : SpikeEvent F). ltb a.start_ts b.start_ts) events))
      ++ patterns_of_groups observed groups

  unfoldable pub detect_patterns : List (SpikeEvent F) → ℕ → List (Pattern F)
  unfolding patterns_of_groups group
  detect_patterns spikes observed =
      sort_by (λ (a b : Pattern F). ltb b.occurrences a.occurrences)
        (patterns_of_groups observed (group spikes []))
