-- ===== src/Analyzer/Stats/Longest.antt =====
-- `Sustained`: the run that it returns stands among the values.
use cost_optimization.Prelude.{
  ℕ, ◌-◌, ◌≤◌, ◌≡◌, refl, sym, ap, ◌∙◌, subst, true, some, List, [], ◌∷◌, ◌++◌, ltb, leb, leb→le,
  arith, ◌⊎◌, inl, inr, Bool-cases, Option-cases,
}
use mathlib.Core.List.{append_assoc, append-nil}
use cost_optimization.Float64.{Float64, ◌≤F◌}
use cost_optimization.Analyzer.Stats.Runs.{Run, single, grow}
use cost_optimization.Analyzer.Stats.{
  TimedValue, SustainedRun, Scan, keep_longest, zero_run, extend_run, start_run, above, observe,
  observe_all, initial, sustained,
}

module _ {F : Type 0} ⦃f : Float64 F⦄ (threshold : F) (tolerance : ℕ) where
  -- The values hold a run that is told as it is, or nothing is told.
  abbrev Holds : List (TimedValue F) → SustainedRun F → Type 0
  Holds values c =
      (before : List (TimedValue F)) × (l : List (TimedValue F)) × (after : List (TimedValue F))
      × (values ≡ before ++ l ++ after)
      × Run threshold tolerance l c

  abbrev pub Found : List (TimedValue F) → SustainedRun F → Type 0
  Found values c = (c ≡ zero_run) ⊎ Holds values c

  -- The loop is in a run that ends with the values so far.
  abbrev Ends : List (TimedValue F) → Scan F → SustainedRun F → Type 0
  Ends seen s d =
      (s.last_ts ≡ d.end)
      × ((before : List (TimedValue F)) × (l : List (TimedValue F)) × (seen ≡ before ++ l)
          × Run threshold tolerance l d)

  record IsTold (seen : List (TimedValue F)) (s : Scan F) : Type 0 where
    cur_told : (d : SustainedRun F) → s.cur ≡ some d → Ends seen s d
    longest_told : Found seen s.longest

  Found-append :
      (seen ys : List (TimedValue F)) (c : SustainedRun F) → Found seen c → Found (seen ++ ys) c
  Found-append seen ys c (inl e) = inl e
  Found-append seen ys c (inr (before, l, after, e, r)) =
      inr (before, l, after ++ ys, ap (λ z. z ++ ys) e ∙ append_assoc (before ++ l) after ys, r)

  keep_longest-cases :
      (s : Scan F)
      → (keep_longest s.cur s.longest ≡ s.longest)
        ⊎ ((d : SustainedRun F) × (s.cur ≡ some d) × (keep_longest s.cur s.longest ≡ d))
  unfolding keep_longest
  keep_longest-cases s = elim (Option-cases s.cur) [
    | inl e ↦ inl (rw (e, keep_longest) refl)
    | inr (d, e) ↦ elim (Bool-cases (ltb s.longest.minutes d.minutes)) [
      | inl p ↦ inr (d, e, ground (arith, e, p))
      | inr p ↦ inl (ground (arith, e, p))
    ]
  ]

  Ends-Found :
      (seen : List (TimedValue F)) (s : Scan F) (d : SustainedRun F) → Ends seen s d → Found seen d
  Ends-Found seen s d (t, (before, l, e, r)) =
      inr (before, l, [], e ∙ sym (append-nil (before ++ l)), r)

  keep_longest-Found :
      (seen : List (TimedValue F)) (s : Scan F)
      → IsTold seen s
      → Found seen (keep_longest s.cur s.longest)
  keep_longest-Found seen s k = elim (keep_longest-cases s) [
    | inl e ↦ subst (Found seen) (sym e) k.longest_told
    | inr (d, e, g) ↦ subst (Found seen) (sym g) (Ends-Found seen s d (k.cur_told d e))
  ]

  -- It is enough to tell the run that the loop is in.
  IsTold-some :
      (seen : List (TimedValue F)) (s : Scan F) (d : SustainedRun F)
      → s.cur ≡ some d
      → Ends seen s d
      → Found seen s.longest
      → IsTold seen s
  IsTold-some seen s d e h k = record {
    cur_told = λ c g. let same : d ≡ c = cc in subst (Ends seen s) same h;
    longest_told = k;
  }

  Ends-start :
      (seen : List (TimedValue F)) (s : Scan F) (tv : TimedValue F)
      → s.last_ts ≡ tv.ts
      → (threshold ≤F tv.v) ≡ true
      → Ends (seen ++ (tv ∷ [])) s (start_run tv)
  Ends-start seen s tv t h = (t, (seen, tv ∷ [], refl, single h))

  Ends-grow :
      (seen : List (TimedValue F)) (s : Scan F) (t : Scan F) (tv : TimedValue F)
      (d : SustainedRun F)
      → Ends seen s d
      → t.last_ts ≡ tv.ts
      → (threshold ≤F tv.v) ≡ true
      → tv.ts - s.last_ts ≤ tolerance
      → Ends (seen ++ (tv ∷ [])) t (extend_run d tv)
  Ends-grow seen s t tv d (last, (before, l, e, r)) h a g = (
    h,
    (
      before,
      l ++ (tv ∷ []),
      ap (λ z. z ++ (tv ∷ [])) e ∙ append_assoc before l (tv ∷ []),
      grow r a (omega (arith, last, g)),
    ),
  )

  observe-IsTold :
      (seen : List (TimedValue F)) (s : Scan F) (tv : TimedValue F)
      → IsTold seen s
      → IsTold (seen ++ (tv ∷ [])) (observe threshold tolerance s tv)
  unfolding observe above
  observe-IsTold seen s tv k =
      let t = observe threshold tolerance s tv in
      let kept = Found-append seen (tv ∷ []) s.longest k.longest_told in
      let ended =
        Found-append seen (tv ∷ []) (keep_longest s.cur s.longest) (keep_longest-Found seen s k) in
      elim (Bool-cases (threshold ≤F tv.v)) [
        | inr below ↦
            let same : t.longest ≡ keep_longest s.cur s.longest = ground (arith, below) in
            record {
              cur_told = λ d e. absurd (ground (arith, below, e));
              longest_told = subst (Found (seen ++ (tv ∷ []))) (sym same) ended;
            }
        | inl a ↦ elim (Option-cases s.cur) [
          | inl e ↦
              let same : t.longest ≡ s.longest = ground (arith, a, e) in
              IsTold-some (seen ++ (tv ∷ [])) t (start_run tv) (ground (arith, a, e))
                (Ends-start seen t tv (ground (arith, a, e)) a)
                (subst (Found (seen ++ (tv ∷ []))) (sym same) kept)
          | inr (d, e) ↦ elim (Bool-cases (leb (tv.ts - s.last_ts) tolerance)) [
            | inl near ↦
                let same : t.longest ≡ s.longest = ground (arith, a, e, near) in
                IsTold-some (seen ++ (tv ∷ [])) t (extend_run d tv) (ground (arith, a, e, near))
                  (Ends-grow seen s t tv d (k.cur_told d e) (ground (arith, a, e, near)) a
                    (leb→le _ _ near))
                  (subst (Found (seen ++ (tv ∷ []))) (sym same) kept)
            | inr far ↦
                let same : t.longest ≡ keep_longest s.cur s.longest = ground (arith, a, e, far) in
                IsTold-some (seen ++ (tv ∷ [])) t (start_run tv) (ground (arith, a, e, far))
                  (Ends-start seen t tv (ground (arith, a, e, far)) a)
                  (subst (Found (seen ++ (tv ∷ []))) (sym same) ended)
          ]
        ]
      ]

  observe_all-IsTold :
      (seen : List (TimedValue F)) (s : Scan F) (values : List (TimedValue F))
      → IsTold seen s
      → IsTold (seen ++ values) (observe_all threshold tolerance s values)
  unfolding observe_all
  observe_all-IsTold seen s [] k = subst (λ z. IsTold z s) (sym (append-nil seen)) k
  observe_all-IsTold seen s (tv ∷ values) k =
      let t = observe threshold tolerance s tv in
      subst (λ z. IsTold z (observe_all threshold tolerance t values))
        (append_assoc seen (tv ∷ []) values)
        (observe_all-IsTold (seen ++ (tv ∷ [])) t values (observe-IsTold seen s tv k))

  -- The run that `Sustained` returns stands among the values, with its own first and last time, its
  -- length and its highest value, or it is the empty one.
  pub sustained-Found :
      (values : List (TimedValue F)) → Found values (sustained values threshold tolerance).0
  unfolding sustained
  sustained-Found values =
      keep_longest-Found values (observe_all threshold tolerance initial values) (
        observe_all-IsTold [] initial values
          record { cur_told = λ d e. absurd (cc); longest_told = inl refl })
