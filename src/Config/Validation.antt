-- ===== src/Config/Validation.antt =====
-- What `Validate` accepts.
use cost_optimization.Prelude.{
  ◌≡◌, ◌≢◌, ◌↔◌, ◌⊎◌, refl, ap, ◌∙◌, inl, inr, true, false, not, ◌&&◌, ◌||◌, none, List, [], ◌∷◌,
  All, arith, Bool-cases, then_of_true, else_of_false,
}
use cost_optimization.Prelude.Int.{pos, ◌≤ℤ◌, ltb_ℤ}
use cost_optimization.Model.{second}
use cost_optimization.Config.{
  SpikeRule, Config, is_resource, bad_resource, with_export_dir, check_rules, validate,
}
use text.Mathlib.Text.{◌==◌}
use text.Mathlib.TextEquality.{eq_iff}

module _ {F : Type 0} where
  -- What the agent may start with, said without the tests of `Validate`.
  pub record IsUsable (c : Config F) : Type 0 where
    pub has_data_dir : c.agent.data_dir ≢ ""
    pub days_lo : pos 1 ≤ℤ c.agent.duration_days
    pub days_hi : c.agent.duration_days ≤ℤ pos 365
    pub has_recipient : c.agent.recipient ≢ ""
    pub interval : pos second ≤ℤ c.sampling.host_interval
    pub top_lo : pos 1 ≤ℤ c.sampling.proc_top_n
    pub top_hi : c.sampling.proc_top_n ≤ℤ pos 100
    pub spool : pos 64 ≤ℤ c.retention.max_spool_mb
    pub auth_known : (c.sql.auth ≡ "integrated") ⊎ (c.sql.auth ≡ "sqllogin")
    pub resources_known : All (λ (r : SpikeRule F). is_resource r.resource ≡ true) c.spikes.rules

  bad_resource-none :
      (rules : List (SpikeRule F))
      → All (λ (r : SpikeRule F). is_resource r.resource ≡ true) rules
      → bad_resource rules ≡ none
  unfolding bad_resource
  bad_resource-none [] a = refl
  bad_resource-none (r ∷ rules) a = rw a.0 (bad_resource-none rules a.1)

  none-bad_resource :
      (rules : List (SpikeRule F))
      → bad_resource rules ≡ none
      → All (λ (r : SpikeRule F). is_resource r.resource ≡ true) rules
  unfolding bad_resource
  none-bad_resource [] h = tt
  none-bad_resource (r ∷ rules) h = elim (Bool-cases (is_resource r.resource)) [
    | inl known ↦ (known, none-bad_resource rules (then_of_true _ _ known h))
    | inr other ↦ absurd (let e = else_of_false _ _ other h in cc)
  ]

  -- The checks before the rules are read.
  record IsChecked (c : Config F) : Type 0 where
    has_data_dir : (c.agent.data_dir == "") ≡ false
    days : (ltb_ℤ c.agent.duration_days (pos 1) || ltb_ℤ (pos 365) c.agent.duration_days) ≡ false
    has_recipient : (c.agent.recipient == "") ≡ false
    interval : ltb_ℤ c.sampling.host_interval (pos second) ≡ false
    top : (ltb_ℤ c.sampling.proc_top_n (pos 1) || ltb_ℤ (pos 100) c.sampling.proc_top_n) ≡ false
    spool : ltb_ℤ c.retention.max_spool_mb (pos 64) ≡ false
    auth : (not (c.sql.auth == "integrated") && not (c.sql.auth == "sqllogin")) ≡ false
    rules : bad_resource c.spikes.rules ≡ none

  IsChecked-IsUsable : (c : Config F) → IsChecked c → IsUsable c
  IsChecked-IsUsable c k = record {
    has_data_dir = ground (arith, k.has_data_dir, eq_iff c.agent.data_dir "");
    days_lo = ground (arith, k.days);
    days_hi = ground (arith, k.days);
    has_recipient = ground (arith, k.has_recipient, eq_iff c.agent.recipient "");
    interval = ground (arith, k.interval);
    top_lo = ground (arith, k.top);
    top_hi = ground (arith, k.top);
    spool = ground (arith, k.spool);
    auth_known =
        ground (arith, k.auth, eq_iff c.sql.auth "integrated", eq_iff c.sql.auth "sqllogin");
    resources_known = none-bad_resource c.spikes.rules k.rules;
  }

  IsUsable-IsChecked : (c : Config F) → IsUsable c → IsChecked c
  IsUsable-IsChecked c u = record {
    has_data_dir = ground (arith, u.has_data_dir, eq_iff c.agent.data_dir "");
    days = ground (arith, u.days_lo, u.days_hi);
    has_recipient = ground (arith, u.has_recipient, eq_iff c.agent.recipient "");
    interval = ground (arith, u.interval);
    top = ground (arith, u.top_lo, u.top_hi);
    spool = ground (arith, u.spool);
    auth =
        ground (arith, u.auth_known, eq_iff c.sql.auth "integrated", eq_iff c.sql.auth "sqllogin");
    rules = bad_resource-none c.spikes.rules u.resources_known;
  }

  rules_accepted : (c : Config F) → (check_rules c).1 ≡ none → bad_resource c.spikes.rules ≡ none
  unfolding check_rules
  rules_accepted c h = ground arith

  accepted_IsChecked : (c : Config F) → (validate c).1 ≡ none → IsChecked c
  unfolding validate
  accepted_IsChecked c h = ground (arith, rules_accepted (with_export_dir c))

  check_rules_accepted :
      (c : Config F) → bad_resource c.spikes.rules ≡ none → check_rules c ≡ (c, none)
  unfolding check_rules
  check_rules_accepted c h = rw (h, check_rules) refl

  rules-with_export_dir : (c : Config F) → (with_export_dir c).spikes.rules ≡ c.spikes.rules
  rules-with_export_dir c = elim (Bool-cases (c.export.export_dir == "")) [
    | inl empty ↦ rw empty refl
    | inr given ↦ rw given refl
  ]

  IsChecked-accepted : (c : Config F) → IsChecked c → validate c ≡ (with_export_dir c, none)
  unfolding validate
  IsChecked-accepted c k =
      rw (k.has_data_dir, k.days, k.has_recipient, k.interval, k.top, k.spool, k.auth)
        (check_rules_accepted (with_export_dir c)
          (ap bad_resource (rules-with_export_dir c) ∙ k.rules))

  -- `Validate` returns no error exactly for a usable configuration: a data directory and a
  -- recipient, 1 to 365 days, a host interval of at least a second, 1 to 100 processes, a spool of
  -- at least 64 MB, a known SQL login and only known resources in the rules.
  pub validate_iff : (c : Config F) → ((validate c).1 ≡ none) ↔ IsUsable c
  validate_iff c = (
    λ h. IsChecked-IsUsable c (accepted_IsChecked c h),
    λ u. rw (IsChecked-accepted c (IsUsable-IsChecked c u)) refl,
  )

  -- On a usable configuration, all that `Validate` may change is an export directory that is not
  -- set, and it sets that below the data directory.
  pub usable_accepted : (c : Config F) → IsUsable c → validate c ≡ (with_export_dir c, none)
  usable_accepted c u = IsChecked-accepted c (IsUsable-IsChecked c u)
