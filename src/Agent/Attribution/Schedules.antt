-- ===== src/Agent/Attribution/Schedules.antt =====
-- `matchSchedule` and `sameTimeOfDay` of internal/agent/attribution.go. Every time is in UTC, as the
-- agent writes it.
use cost_optimization.Prelude.{
  ℕ, ◌-◌, ◌*◌, ◌/◌, ◌%◌, String, Bool, not, ◌&&◌, ◌||◌, List, [], ◌∷◌, ltb, leb, if◌then◌else◌,
}
use cost_optimization.Model.{Time, minute, is_zero, SchedEntry}
use cost_optimization.Sched.{Calendar, matches_time}
use text.Mathlib.Text.{◌==◌ as equals}
use Prim.Native.String.{◌++◌ as ◌<>◌}

abbrev pub tolerance : ℕ
tolerance = 10 * minute

abbrev pub utc_minute : Time → ℕ
utc_minute t = t / minute % 1440

-- The absolute difference.
abbrev pub abs_diff : ℕ → ℕ → ℕ
abs_diff a b = if ltb a b then b - a else a - b

unfoldable pub same_time_of_day : Time → Time → ℕ → Bool
same_time_of_day a b tol =
    let d = abs_diff (utc_minute a) (utc_minute b) in
    leb ((if ltb 720 d then 1440 - d else d) * minute) tol

-- Whether one of the three cases takes an entry.
unfoldable pub is_match : Calendar → Time → SchedEntry → Bool
unfolding matches_time same_time_of_day
is_match cal start e =
    not (equals e.schedule "") && matches_time cal e.schedule start tolerance
    || not (is_zero e.next_run) && same_time_of_day e.next_run start tolerance
    || not (is_zero e.last_run) && leb (abs_diff start e.last_run) tolerance

-- The loop over the entries.
unfoldable pub match_schedule : Calendar → List SchedEntry → Time → String
unfolding is_match
match_schedule cal [] start = ""
match_schedule cal (e ∷ entries) start =
    let rest = match_schedule cal entries start in
    if is_match cal start e then e.source <> ":" <> e.name else rest
