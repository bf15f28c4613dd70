-- ===== src/Analyzer/Stats/Runs.antt =====
-- `Sustained`: its longest run is a longest run, and its total counts every minute above.
use cost_optimization.Prelude.{
  ℕ, ◌+◌, ◌-◌, ◌≤◌, ◌≡◌, refl, sym, ap, ◌∙◌, subst, true, some, List, [], ◌∷◌, ◌++◌, map, length,
  length-append, if◌then◌else◌, leb, arith, inl, inr, Bool-cases, Option-cases,
}
use cost_optimization.Float64.{Float64, ◌≤F◌}
use cost_optimization.Analyzer.Stats.{
  TimedValue, SustainedRun, Scan, keep_longest, extend_run, start_run, above, observe, observe_all,
  initial, sustained, count_above,
}

module _ {F : Type 0} ⦃f : Float64 F⦄ (threshold : F) (tolerance : ℕ) where
  -- A run and what is to be told of it: values at or above the threshold, each close enough to the
  -- time of the one before it.
  pub data Run : List (TimedValue F) → SustainedRun F → Type 0 where
    single : {tv : TimedValue F} → (threshold ≤F tv.v) ≡ true → Run (tv ∷ []) (start_run tv)
    grow :
        {l : List (TimedValue F)} {c : SustainedRun F} {tv : TimedValue F}
        → Run l c
        → (threshold ≤F tv.v) ≡ true
        → tv.ts - c.end ≤ tolerance
        → Run (l ++ (tv ∷ [])) (extend_run c tv)

  -- The minutes of the longest run, were the values to end here.
  abbrev reach : Scan F → ℕ
  reach s = (keep_longest s.cur s.longest).minutes

  observe-reach :
      (s : Scan F) (tv : TimedValue F) → reach s ≤ reach (observe threshold tolerance s tv)
  unfolding observe above keep_longest
  observe-reach s tv = ground arith

  observe_all-reach :
      (s : Scan F) (values : List (TimedValue F))
      → reach s ≤ reach (observe_all threshold tolerance s values)
  unfolding observe_all
  observe_all-reach s [] = omega arith
  observe_all-reach s (tv ∷ values) =
      omega (arith, observe-reach s tv, observe_all-reach (observe threshold tolerance s tv) values)

  observe_all-append :
      (s : Scan F) (xs ys : List (TimedValue F))
      → observe_all threshold tolerance s (xs ++ ys)
        ≡ observe_all threshold tolerance (observe_all threshold tolerance s xs) ys
  unfolding observe_all
  observe_all-append s [] ys = refl
  observe_all-append s (x ∷ xs) ys = observe_all-append (observe threshold tolerance s x) xs ys

  -- Where a run ends, the loop is in a run at least as long.
  abbrev IsIn : Scan F → SustainedRun F → Type 0
  IsIn s c = (d : SustainedRun F) × (s.cur ≡ some d) × (c.minutes ≤ d.minutes) × (s.last_ts ≡ c.end)

  observe_single :
      (s : Scan F) (tv : TimedValue F)
      → (threshold ≤F tv.v) ≡ true
      → IsIn (observe threshold tolerance s tv) (start_run tv)
  unfolding observe above keep_longest
  observe_single s tv h = elim (Option-cases s.cur) [
    | inl e ↦ (start_run tv, ground (arith, h, e), omega arith, ground (arith, h, e))
    | inr (d, e) ↦ elim (Bool-cases (leb (tv.ts - s.last_ts) tolerance)) [
      | inl near ↦
          (extend_run d tv, ground (arith, h, e, near), omega arith, ground (arith, h, e, near))
      | inr far ↦ (start_run tv, ground (arith, h, e, far), omega arith, ground (arith, h, e, far))
    ]
  ]

  observe_grow :
      (s : Scan F) (tv : TimedValue F) (c : SustainedRun F)
      → IsIn s c
      → (threshold ≤F tv.v) ≡ true
      → tv.ts - c.end ≤ tolerance
      → IsIn (observe threshold tolerance s tv) (extend_run c tv)
  unfolding observe above keep_longest
  observe_grow s tv c (d, e, m, t) h g =
      (extend_run d tv, ground (arith, h, e, t, g), omega (arith, m), ground (arith, h, e, t, g))

  Run-reached :
      {l : List (TimedValue F)} {c : SustainedRun F}
      → Run l c
      → (s : Scan F) → IsIn (observe_all threshold tolerance s l) c
  unfolding observe_all
  Run-reached (single {tv = tv} h) s = observe_single s tv h
  Run-reached (grow {l = l} {c = c} {tv = tv} r h g) s =
      subst (λ z. IsIn z (extend_run c tv)) (sym (observe_all-append s l (tv ∷ [])))
        (observe_grow (observe_all threshold tolerance s l) tv c (Run-reached r s) h g)

  IsIn-reach : (s : Scan F) (c : SustainedRun F) → IsIn s c → c.minutes ≤ reach s
  unfolding keep_longest
  IsIn-reach s c (d, e, m, t) = ground (arith, e, m)

  -- No run among the values is longer than the one that `Sustained` returns.
  pub Run-le-sustained :
      (before : List (TimedValue F)) (l : List (TimedValue F)) (after : List (TimedValue F))
      (c : SustainedRun F)
      → Run l c
      → c.minutes ≤ (sustained (before ++ l ++ after) threshold tolerance).0.minutes
  unfolding sustained
  Run-le-sustained before l after c r =
      let s = observe_all threshold tolerance initial before in
      let t = observe_all threshold tolerance s l in
      let e =
        observe_all-append initial (before ++ l) after
        ∙ ap (λ z. observe_all threshold tolerance z after) (observe_all-append initial before l) in
      let le = IsIn-reach t c (Run-reached r s) in
      subst (λ z. c.minutes ≤ reach z) (sym e) (omega (arith, le, observe_all-reach t after))

  pub minutes-length :
      {l : List (TimedValue F)} {c : SustainedRun F} → Run l c → c.minutes ≡ length l
  minutes-length (single h) = refl
  minutes-length (grow {l = l} {tv = tv} r h g) =
      omega (arith, minutes-length r, length-append l (tv ∷ []))

  observe-total :
      (s : Scan F) (tv : TimedValue F)
      → (observe threshold tolerance s tv).total
        ≡ (if threshold ≤F tv.v then s.total + 1 else s.total)
  unfolding observe above
  observe-total s tv = ground arith

  observe_all-total :
      (s : Scan F) (values : List (TimedValue F))
      → (observe_all threshold tolerance s values).total
        ≡ s.total + count_above threshold (map (λ (tv : TimedValue F). tv.v) values)
  unfolding observe_all count_above
  observe_all-total s [] = omega arith
  observe_all-total s (tv ∷ values) =
      let rest = observe_all-total (observe threshold tolerance s tv) values in
      let one : (observe threshold tolerance s tv).total
          ≡ (if threshold ≤F tv.v then s.total + 1 else s.total) =
        observe-total s tv in
      ground (arith, rest, one)

  -- The total of `Sustained` is the number of the values at or above the threshold, gaps or not.
  pub sustained-total :
      (values : List (TimedValue F))
      → (sustained values threshold tolerance).1
        ≡ count_above threshold (map (λ (tv : TimedValue F). tv.v) values)
  unfolding sustained
  sustained-total values = omega (arith, observe_all-total initial values)
