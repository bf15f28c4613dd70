-- ===== src/Sampler/Grouping.antt =====
-- Runs of `MinuteAgg`: what a sequence of samples is aggregated to.
use cost_optimization.Prelude.{
  ◌<◌, ◌≡◌, refl, sym, ap, ◌∙◌, false, Option, none, some, List, [], ◌∷◌, ◌++◌, length,
  length-append, All, map, arith, ◌==◌, if◌then◌else◌, Bool-cases, inl, inr,
}
use cost_optimization.Float64.{Float64}
use cost_optimization.Model.Host.{HostMinute}
use cost_optimization.Sampler.{HighRes}
use cost_optimization.Sampler.Minutes.{MinuteAgg, truncate_minute, emit, add, flush_partial}
use mathlib.Core.List.{append_assoc}

-- A sample after the minute of Go's zero time, which stands for "no minute yet".
abbrev pub IsDated : {F : Type 0} → HighRes F → Type 0
IsDated s = 0 < truncate_minute s.ts

abbrev pub option_list : {A : Type 0} → Option A → List A
option_list none = []
option_list (some a) = a ∷ []

module _ {F : Type 0} where
  abbrev pub no_minute : MinuteAgg F
  no_minute = record { minute = 0; samples = [] }

  abbrev pub single : HighRes F → MinuteAgg F
  single s = record { minute = truncate_minute s.ts; samples = s ∷ [] }

  -- A group before others: it joins the first one if they are of one minute.
  unfoldable pub before : MinuteAgg F → List (MinuteAgg F) → List (MinuteAgg F)
  before m [] = m ∷ []
  before m (g ∷ gs) =
      if g.minute == m.minute
      then record m { samples = m.samples ++ g.samples } ∷ gs
      else m ∷ g ∷ gs

  -- The runs of consecutive samples of one minute.
  unfoldable pub by_minute : List (HighRes F) → List (MinuteAgg F)
  unfolding before
  by_minute [] = []
  by_minute (s ∷ ss) = before (single s) (by_minute ss)

  -- A sample of the same minute joins the group, whatever follows.
  before-same :
      (m : MinuteAgg F) (s : HighRes F) (gs : List (MinuteAgg F))
      → truncate_minute s.ts ≡ m.minute
      → before m (before (single s) gs) ≡ before (record m { samples = m.samples ++ s ∷ [] }) gs
  unfolding before
  before-same m s [] h = ground arith
  before-same m s (g ∷ gs) h = ground (arith, append_assoc m.samples (s ∷ []) g.samples)

  before-other :
      (m : MinuteAgg F) (s : HighRes F) (gs : List (MinuteAgg F))
      → ((truncate_minute s.ts == m.minute) ≡ false)
      → before m (before (single s) gs) ≡ m ∷ before (single s) gs
  unfolding before
  before-other m s [] h = ground arith
  before-other m s (g ∷ gs) h = ground arith

module _ {F : Type 0} ⦃f : Float64 F⦄ where
  -- `Add` on every sample, and what it returns.
  unfoldable pub add_all : List (HighRes F) → MinuteAgg F → MinuteAgg F × List (HostMinute F)
  add_all [] m = (m, [])
  add_all (s ∷ ss) m =
      let (m', out) = add s m in let (m'', rest) = add_all ss m' in (m'', option_list out ++ rest)

  add_same :
      (s : HighRes F) (m : MinuteAgg F)
      → 0 < m.minute
      → truncate_minute s.ts ≡ m.minute
      → add s m ≡ (record m { samples = m.samples ++ s ∷ [] }, none)
  unfolding add
  add_same s m p h = ground arith

  add_other :
      (s : HighRes F) (m : MinuteAgg F)
      → 0 < m.minute
      → 0 < length m.samples
      → ((truncate_minute s.ts == m.minute) ≡ false)
      → add s m ≡ (single s, some (emit m))
  unfolding add
  add_other s m p q h = ground arith

  -- What a run returns: the minutes that `Add` completes, and the one that FlushPartial emits.
  unfoldable pub aggregates : List (HighRes F) → MinuteAgg F → List (HostMinute F)
  unfolding add_all
  aggregates ss m = let (m', out) = add_all ss m in out ++ option_list (flush_partial m').1

  flush_partial-some :
      (m : MinuteAgg F) → 0 < length m.samples → (flush_partial m).1 ≡ some (emit m)
  unfolding flush_partial
  flush_partial-some m q = ground arith

  aggregates-same :
      (s : HighRes F) (ss : List (HighRes F)) (m : MinuteAgg F)
      → 0 < m.minute
      → truncate_minute s.ts ≡ m.minute
      → aggregates (s ∷ ss) m ≡ aggregates ss (record m { samples = m.samples ++ s ∷ [] })
  unfolding aggregates
  aggregates-same s ss m p h = rw (add_same s m p h) refl

  aggregates-other :
      (s : HighRes F) (ss : List (HighRes F)) (m : MinuteAgg F)
      → 0 < m.minute
      → 0 < length m.samples
      → ((truncate_minute s.ts == m.minute) ≡ false)
      → aggregates (s ∷ ss) m ≡ emit m ∷ aggregates ss (single s)
  unfolding aggregates
  aggregates-other s ss m p q h = rw (add_other s m p q h) refl

  aggregates-before :
      (ss : List (HighRes F)) (m : MinuteAgg F)
      → 0 < m.minute
      → 0 < length m.samples
      → All IsDated ss
      → aggregates ss m ≡ map emit (before m (by_minute ss))
  unfolding by_minute
  aggregates-before [] m p q d = unfold aggregates before in rw (flush_partial-some m q) refl
  aggregates-before (s ∷ ss) m p q (d, ds) = elim (Bool-cases (truncate_minute s.ts == m.minute)) [
    | inl same ↦
        let e : truncate_minute s.ts ≡ m.minute = ground arith in
        aggregates-same s ss m p e
        ∙ aggregates-before ss _ p (omega (arith, length-append m.samples (s ∷ []))) ds
        ∙ ap (map emit) (sym (before-same m s (by_minute ss) e))
    | inr other ↦
        aggregates-other s ss m p q other
        ∙ ap (λ rest. emit m ∷ rest) (aggregates-before ss (single s) d (omega arith) ds)
        ∙ ap (map emit) (sym (before-other m s (by_minute ss) other))
  ]

  add_start : (s : HighRes F) → IsDated s → add s no_minute ≡ (single s, none)
  unfolding add
  add_start s d = ground arith

  -- A run of Add and FlushPartial over dated samples, from the start, emits exactly the aggregates
  -- of the maximal runs of consecutive samples of one UTC minute, in order: no sample is lost or
  -- counted twice, and none is mixed into another minute.
  pub aggregates-by_minute :
      (ss : List (HighRes F)) → All IsDated ss → aggregates ss no_minute ≡ map emit (by_minute ss)
  unfolding aggregates by_minute
  aggregates-by_minute [] d = unfold flush_partial in refl
  aggregates-by_minute (s ∷ ss) (d, ds) =
      rw (add_start s d) (aggregates-before ss (single s) d (omega arith) ds)
