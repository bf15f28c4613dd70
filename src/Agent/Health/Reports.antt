-- ===== src/Agent/Health/Reports.antt =====
-- What the tracker keeps of the issues.
use cost_optimization.Prelude.{
  ◌≤◌, ◌≡◌, refl, inl, inr, none, some, [], ◌∷◌, length, length-append, arith, Option-cases,
}
use cost_optimization.Prelude.Assoc.{lookup, lookup-insert_self}
use cost_optimization.Model.{Time}
use cost_optimization.Agent.Health.{
  Text, bytes_eq, HealthTracker, CollectorError, max_recent_errors, error_key, new_issue, issue,
  truncate,
}

seen_after :
    (now : Time) (collector err : Text) (h : HealthTracker)
    → lookup (error_key collector err) h.err_seen ≡ none
    → lookup (error_key collector err) (issue now collector err h).err_seen ≡ some tt
unfolding issue new_issue
seen_after now collector err h e =
    rw (e, issue) (lookup-insert_self (error_key collector err) tt h.err_seen)

issue_seen :
    (now : Time) (collector err : Text) (h : HealthTracker) {u : Unit {0}}
    → lookup (error_key collector err) h.err_seen ≡ some u
    → issue now collector err h ≡ h
unfolding issue
issue_seen now collector err h e = rw (e, issue) refl

-- An issue that is reported again, whenever that is, changes nothing.
pub issue_twice :
    (now later : Time) (collector err : Text) (h : HealthTracker)
    → issue later collector err (issue now collector err h) ≡ issue now collector err h
issue_twice now later collector err h =
    elim (Option-cases (lookup (error_key collector err) h.err_seen)) [
      | inl new ↦
          issue_seen later collector err (issue now collector err h)
            (seen_after now collector err h new)
      | inr (u, seen) ↦
          rw (issue_seen now collector err h seen) (issue_seen later collector err h seen)
    ]

-- An issue keeps the number of recent errors at 50 at most.
pub issue-IsBounded :
    (now : Time) (collector err : Text) (h : HealthTracker)
    → length h.errs ≤ max_recent_errors
    → length (issue now collector err h).errs ≤ max_recent_errors
unfolding issue new_issue
issue-IsBounded now collector err h b =
    let e : CollectorError = record { ts = now; collector = collector; error = truncate err 300 } in
    let longer = length-append h.errs (e ∷ []) in ground (arith, b, longer)
