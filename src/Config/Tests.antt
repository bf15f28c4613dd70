-- ===== src/Config/Tests.antt =====
-- The configuration at concrete inputs.
use cost_optimization.Prelude.{◌≡◌, ◌↔◌, refl, none, some, ℕ}
use cost_optimization.Prelude.Int.{pos}
use cost_optimization.Float64.{fixed_float64}
use cost_optimization.Config.{
  Config, default, validate, bad_resource, check_rules, recipient_required, duration_days_range,
}
use cost_optimization.Config.Validation.{IsUsable, validate_iff}

program : Unit {0}
unfolding default bad_resource check_rules validate
program = tt

fresh : Config ℕ
unfolding program
fresh = default "/var/lib/agent" "sqllogin"

ready : Config ℕ
unfolding program fresh
ready = record fresh { agent = record fresh.agent { recipient = "age1" } }

fresh_refused : (validate fresh).1 ≡ some recipient_required
unfolding program fresh
fresh_refused = refl

long_refused :
    (validate (record ready { agent = record ready.agent { duration_days = pos 366 } })).1
    ≡ some duration_days_range
unfolding program fresh ready
long_refused = refl

ready_accepted : (validate ready).1 ≡ none
unfolding program fresh ready
ready_accepted = refl

ready_directory : (validate ready).0.export.export_dir ≡ "/var/lib/agent/export"
unfolding program fresh ready
ready_directory = refl

ready-IsUsable : IsUsable ready
ready-IsUsable = (validate_iff ready).0 ready_accepted

validate_iff_example : ((validate ready).1 ≡ none) ↔ IsUsable ready
validate_iff_example = validate_iff ready
