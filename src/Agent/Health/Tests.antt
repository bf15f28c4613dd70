-- ===== src/Agent/Health/Tests.antt =====
-- The tracker at concrete issues. The collector is "a", and the error "x Denied".
use cost_optimization.Prelude.{◌≡◌, refl, [], ◌∷◌, ◌++◌, map}
use cost_optimization.Prelude.Assoc.{lookup, insert}
use cost_optimization.Agent.Health.{
  Text, HealthTracker, degraded, permission, matches_fold, index_fold, any_word,
  is_permission_error, new_issue, issue, ok, mark_unavailable, new_health_tracker, add_samples,
}

program : Unit {0}
unfolding lookup insert matches_fold index_fold any_word is_permission_error new_issue issue ok
    mark_unavailable
program = tt

abbrev disk : Text
disk = 97 ∷ []

abbrev denied : Text
denied = 100 ∷ 101 ∷ 110 ∷ 105 ∷ 101 ∷ 100 ∷ []

abbrev x_denied : Text
x_denied = 120 ∷ 32 ∷ 68 ∷ 101 ∷ 110 ∷ 105 ∷ 101 ∷ 100 ∷ []

abbrev fresh : HealthTracker
fresh = record {
  start = 1;
  collected = 0;
  statuses = [];
  perm_issues = [];
  errs = [];
  err_seen = [];
}

troubled : HealthTracker
unfolding program
troubled = issue 5 disk x_denied fresh

denied_is_permission : map (λ p. p.1) troubled.statuses ≡ (degraded ++ permission) ∷ []
unfolding program troubled
denied_is_permission = refl

-- A cycle that succeeds afterwards leaves the status as it is.
ok_keeps_degraded : ok disk troubled ≡ troubled
unfolding program troubled
ok_keeps_degraded = refl

new_is_fresh : new_health_tracker 1 ≡ fresh
new_is_fresh = refl

samples_wrap : (add_samples 2 (record fresh { collected = 18446744073709551615 })).collected ≡ 1
samples_wrap = refl
