-- ===== src/Sched/Firing.antt =====
-- When `MatchesTime` finds a time at which the expression fires.
use cost_optimization.Prelude.{
  ℕ, zero, suc, ◌+◌, ◌-◌, ◌*◌, ◌/◌, ◌<◌, ◌≤◌, ◌≡◌, ◌↔◌, refl, ap, ◌∙◌, String, true, List, [], leb,
  leb→le, arith, Bool-cases, inl, inr,
}
use cost_optimization.Model.{Time, minute}
use cost_optimization.Sched.{Calendar, codes, fields_from, fires, fires_from, matches_time}

module _ (cal : Calendar) (fields : List (List ℕ)) (t : Time) (tolerance : ℕ) where
  -- An offset of whole minutes above the given one, within the tolerance, at which the fields fire.
  abbrev pub Firing : ℕ → Type 0
  Firing passed =
      (k : ℕ) × (passed + k * minute ≤ 2 * tolerance)
      × (fires cal fields (t + (passed + k * minute) - tolerance) ≡ true)

  fires_from-Firing :
      (passed rounds : ℕ) → fires_from cal fields t tolerance passed rounds ≡ true → Firing passed
  unfolding fires_from
  fires_from-Firing passed zero h = absurd (cc)
  fires_from-Firing passed (suc rounds) h = elim (Bool-cases (leb passed (2 * tolerance))) [
    | inl inside ↦ elim (Bool-cases (fires cal fields (t + passed - tolerance))) [
      | inl now ↦ (
        0,
        omega (arith, leb→le passed (2 * tolerance) inside),
        ap (λ (u : ℕ). fires cal fields (t + u - tolerance)) (omega arith) ∙ now,
      )
      | inr later ↦
          let (k, l, e) =
            fires_from-Firing (passed + minute) rounds (rw (inside, later, fires_from) at h) in
          (
            suc k,
            omega (arith, l),
            ap (λ (u : ℕ). fires cal fields (t + u - tolerance)) (omega arith) ∙ e,
          )
    ]
    | inr outside ↦ absurd (let no = rw (outside, fires_from) at h in cc)
  ]

  Firing-fires_from :
      (passed rounds k : ℕ)
      → k < rounds
      → passed + k * minute ≤ 2 * tolerance
      → fires cal fields (t + (passed + k * minute) - tolerance) ≡ true
      → fires_from cal fields t tolerance passed rounds ≡ true
  unfolding fires_from
  Firing-fires_from passed zero k r l e = absurd (omega (arith, r))
  Firing-fires_from passed (suc rounds) zero r l e =
      let inside : leb passed (2 * tolerance) ≡ true = ground (arith, l) in
      let now : fires cal fields (t + passed - tolerance) ≡ true =
        ap (λ (u : ℕ). fires cal fields (t + u - tolerance)) (omega arith) ∙ e in
      rw (inside, fires_from, now) refl
  Firing-fires_from passed (suc rounds) (suc k) r l e =
      let inside : leb passed (2 * tolerance) ≡ true = ground (arith, l) in
      let later =
        Firing-fires_from (passed + minute) rounds k (omega (arith, r)) (omega (arith, l))
          (ap (λ (u : ℕ). fires cal fields (t + u - tolerance)) (omega arith) ∙ e) in
      ground (arith, inside, later)

-- `MatchesTime` finds an expression to fire near a time exactly where its five fields fire at some time
-- that lies a whole number of minutes above the start of the window, and within it: the loop leaves no
-- minute of the window out and looks at none beyond it.
pub matches_time_iff :
    (cal : Calendar) (expr : String) (t : Time) (tolerance : ℕ)
    → (matches_time cal expr t tolerance ≡ true)
      ↔ Firing cal (fields_from [] (codes expr)) t tolerance 0
unfolding matches_time
matches_time_iff cal expr t tolerance =
    let fields = fields_from [] (codes expr) in
    (
      fires_from-Firing cal fields t tolerance 0 (2 * tolerance / minute + 1),
      λ (k, l, e).
          Firing-fires_from cal fields t tolerance 0 (2 * tolerance / minute + 1) k
            (omega (arith, l)) l e,
    )
