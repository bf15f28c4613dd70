-- ===== src/Analyzer/Stats/Described.antt =====
-- What the run that `Sustained` returns says of its values.
use cost_optimization.Prelude.{
  ℕ, ◌≡◌, refl, ap, ◌∙◌, true, false, List, [], ◌∷◌, ◌++◌, length, length-append, All, All-append,
  arith, ◌⊎◌, inl, inr, Bool-cases,
}
use mathlib.Core.List.{append_assoc}
use cost_optimization.Float64.{Float64, IsStrictOrder, ◌<F◌}
use cost_optimization.Analyzer.Stats.Runs.{Run, single, grow}
use cost_optimization.Analyzer.Stats.Longest.{sustained-Found}
use cost_optimization.Analyzer.Stats.{TimedValue, SustainedRun, zero_run, extend_run, sustained}

module _ {F : Type 0} ⦃f : Float64 F⦄ where
  -- A run told by the values that it consists of: it starts at the first, ends at the last and counts
  -- each of them, none is above its peak, and one of them is the peak.
  pub record Describes (l : List (TimedValue F)) (c : SustainedRun F) : Type 0 where
    pub from :
        (tv : TimedValue F) × (rest : List (TimedValue F)) × (l ≡ tv ∷ rest) × (c.start ≡ tv.ts)
    pub to :
        (before : List (TimedValue F)) × (tv : TimedValue F) × (l ≡ before ++ tv ∷ [])
        × (c.end ≡ tv.ts)
    pub count : c.minutes ≡ length l
    pub top : All (λ tv. (c.peak_v <F tv.v) ≡ false) l
    pub reached :
        (before : List (TimedValue F)) × (tv : TimedValue F) × (after : List (TimedValue F)) × (l
          ≡ before ++ tv ∷ after)
        × (c.peak_v ≡ tv.v)

  -- The peak once a value is added is not below any that the peak before was not below.
  All-raised :
      IsStrictOrder F
      → (p v : F) (l : List (TimedValue F)) → (p <F v) ≡ true
      → All (λ tv. (p <F tv.v) ≡ false) l
      → All (λ tv. (v <F tv.v) ≡ false) l
  All-raised o p v [] above hs = tt
  All-raised o p v (tv ∷ l) above (h, hs) = (
    (elim (Bool-cases (v <F tv.v)) [
      | inl more ↦ absurd (let up = o.lt_trans p v tv.v above more in cc)
      | inr less ↦ less
    ]),
    All-raised o p v l above hs,
  )

  grow-Describes :
      IsStrictOrder F
      → (l : List (TimedValue F)) (c : SustainedRun F) (tv : TimedValue F) → Describes l c
      → Describes (l ++ tv ∷ []) (extend_run c tv)
  grow-Describes o l c tv d =
      let (first, rest, e, s) = d.from in
      let (before, high, after, e', p) = d.reached in
      record {
        from = (first, rest ++ tv ∷ [], ap (λ z. z ++ tv ∷ []) e, s);
        to = (l, tv, refl, refl);
        count = omega (arith, d.count, length-append l (tv ∷ []));
        top = elim (Bool-cases (c.peak_v <F tv.v)) [
          | inl above ↦ rw above (
              All-append _ l (tv ∷ []) (All-raised o c.peak_v tv.v l above d.top)
                (o.lt_irrefl tv.v, tt))
          | inr below ↦ rw below (All-append _ l (tv ∷ []) d.top (below, tt))
        ];
        reached = elim (Bool-cases (c.peak_v <F tv.v)) [
          | inl above ↦ (l, tv, [], refl, rw above refl)
          | inr below ↦ (
            before,
            high,
            after ++ tv ∷ [],
            ap (λ z. z ++ tv ∷ []) e' ∙ append_assoc before (high ∷ after) (tv ∷ []),
            rw below p,
          )
        ];
      }

  module _ (threshold : F) (tolerance : ℕ) where
    Run-Describes :
        IsStrictOrder F
        → {l : List (TimedValue F)} {c : SustainedRun F} → Run threshold tolerance l c
        → Describes l c
    Run-Describes o (single {tv = tv} a) = record {
      from = (tv, [], refl, refl);
      to = ([], tv, refl, refl);
      count = refl;
      top = (o.lt_irrefl tv.v, tt);
      reached = ([], tv, [], refl, refl);
    }
    Run-Describes o (grow {l = l} {c = c} {tv = tv} r a g) =
        grow-Describes o l c tv (Run-Describes o r)

    -- A run of the values that is told as it is, or the empty one.
    abbrev pub Told : List (TimedValue F) → SustainedRun F → Type 0
    Told values c =
        (c ≡ zero_run)
        ⊎ ((before : List (TimedValue F)) × (l : List (TimedValue F)) × (after : List
              (TimedValue F))
            × (values ≡ before ++ l ++ after)
            × Run threshold tolerance l c
            × Describes l c)

    -- Where the comparison of values is a strict order: the run that `Sustained` returns stands among the
    -- values, all of them at or above the threshold and none further from the one before than
    -- tolerated. It starts at the first of them, ends at the last and counts each; its peak is one of
    -- them and none is above it. Otherwise it is the empty run.
    pub sustained-Told :
        IsStrictOrder F
        → (values : List (TimedValue F)) → Told values (sustained values threshold tolerance).0
    sustained-Told o values = elim (sustained-Found threshold tolerance values) [
      | inl e ↦ inl e
      | inr (before, l, after, e, r) ↦ inr (before, l, after, e, r, Run-Describes o r)
    ]
