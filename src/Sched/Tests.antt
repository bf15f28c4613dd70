-- ===== src/Sched/Tests.antt =====
-- Cron expressions at concrete times, in a calendar whose every day is the first Sunday of January.
use cost_optimization.Prelude.{ℕ, ◌*◌, ◌/◌, ◌%◌, ◌≡◌, ◌↔◌, refl, true, false, []}
use cost_optimization.Prelude.Int.{◌-ℤ◌}
use cost_optimization.Model.{minute}
use cost_optimization.Sched.{
  Calendar, codes, split_on, cut, fields_from, digits, atoi, part_match, any_part, cron_field_match,
  fires, fires_from, matches_time,
}
use cost_optimization.Sched.Firing.{Firing, matches_time_iff}

program : Unit {0}
unfolding codes split_on cut fields_from digits atoi ◌-ℤ◌ part_match any_part cron_field_match fires
    fires_from matches_time
program = tt

abbrev sundays : Calendar
sundays = record {
  minute_of = λ t. t / minute % 60;
  hour_of = λ t. t / minute / 60 % 24;
  day_of = λ t. 1;
  month_of = λ t. 1;
  weekday_of = λ t. 0;
}

abbrev half_past_two : ℕ
half_past_two = 150 * minute

near_by : matches_time sundays "35 2 * * *" half_past_two (10 * minute) ≡ true
unfolding program
near_by = refl

too_far : matches_time sundays "45 2 * * *" half_past_two (10 * minute) ≡ false
unfolding program
too_far = refl

every_quarter : matches_time sundays "*/15 1-3 1,15 * 0-5" half_past_two 0 ≡ true
unfolding program
every_quarter = refl

four_fields : matches_time sundays "30 2 * *" half_past_two 0 ≡ false
unfolding program
four_fields = refl

-- Sunday as 7, which cron allows beside 0.
sunday_as_seven : matches_time sundays "30 2 * * 7" half_past_two 0 ≡ false
unfolding program
sunday_as_seven = refl

matches_time_iff_example :
    (matches_time sundays "35 2 * * *" half_past_two (10 * minute) ≡ true)
    ↔ Firing sundays (fields_from [] (codes "35 2 * * *")) half_past_two (10 * minute) 0
matches_time_iff_example = matches_time_iff sundays "35 2 * * *" half_past_two (10 * minute)
