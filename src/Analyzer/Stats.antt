-- ===== src/Analyzer/Stats.antt =====
-- internal/analyzer/stats/stats.go. `Quantile` is in the module of that name. A `time.Duration` that
-- bounds a gap is not negative, and a difference of times that is negative counts as 0, which is
-- within every such bound as the negative one is.
mod Runs
mod Longest
mod Described
mod Tests
use cost_optimization.Prelude.{
  ℕ, ◌+◌, ◌-◌, ◌<◌, ◌≤◌, ◌≡◌, refl, Bool, true, false, ◌&&◌, Option, none, some, List, [], ◌∷◌,
  length, get_elem?, get_elem?_lt, if◌then◌else◌, ltb, leb, ◌>>=◌, arith, sort_by, length-sort_by,
}
use cost_optimization.Float64.{Float64, ◌+F◌, ◌/F◌, ◌<F◌, ◌≤F◌, of_nat, lit, round2, float_less}
use cost_optimization.Model.{Time}
use cost_optimization.Quantile.{quantile, quantile_total, RanksInRange}

pub record Summary (F : Type 0) : Type 0 where
  pub p50 : F
  pub p95 : F
  pub p99 : F
  pub max : F
  pub avg : F
  pub count : ℕ

pub record TimedValue (F : Type 0) : Type 0 where
  pub ts : Time
  pub v : F

pub record SustainedRun (F : Type 0) : Type 0 where
  pub start : Time
  pub end : Time
  pub minutes : ℕ
  pub peak_v : F

-- What `Sustained` keeps while it reads the values. `last_ts` is read only beside a run.
pub record Scan (F : Type 0) : Type 0 where
  pub cur : Option (SustainedRun F)
  pub last_ts : Time
  pub longest : SustainedRun F
  pub total : ℕ

module _ {F : Type 0} where
  -- The longer of the run that ends and the longest so far.
  unfoldable pub keep_longest : Option (SustainedRun F) → SustainedRun F → SustainedRun F
  keep_longest none longest = longest
  keep_longest (some c) longest = if ltb longest.minutes c.minutes then c else longest

module _ {F : Type 0} ⦃f : Float64 F⦄ where
  unfoldable pub sum : List F → F → F
  sum [] acc = acc
  sum (x ∷ xs) acc = sum xs (acc +F x)

  abbrev summary_of : List F → F → F → F → F → Summary F
  summary_of s p50 p95 p99 top = record {
    p50 = round2 p50;
    p95 = round2 p95;
    p99 = round2 p99;
    max = round2 top;
    avg = round2 (sum s (lit 0 1) /F of_nat (length s));
    count = length s;
  }

  -- `none` where a quantile panics.
  unfoldable pub summarize : List F → Option (Summary F)
  unfolding sum
  summarize [] = some record {
    p50 = lit 0 1;
    p95 = lit 0 1;
    p99 = lit 0 1;
    max = lit 0 1;
    avg = lit 0 1;
    count = 0;
  }
  summarize (x ∷ xs) = do
    let s = sort_by float_less (x ∷ xs)
    p50 ← quantile s (lit 50 100)
    p95 ← quantile s (lit 95 100)
    p99 ← quantile s (lit 99 100)
    top ← get_elem? s (length s - 1)
    some (summary_of s p50 p95 p99 top)

  -- Where the ranks of its three quantiles are in range, `Summarize` returns a summary, without a
  -- panic, and it counts every value.
  pub summarize_total :
      (values : List F)
      → RanksInRange {F = F} (lit 50 100)
      → RanksInRange {F = F} (lit 95 100)
      → RanksInRange {F = F} (lit 99 100)
      → (s : Summary F) × (summarize values ≡ some s) × (s.count ≡ length values)
  unfolding summarize
  summarize_total [] r50 r95 r99 = (
    record { p50 = lit 0 1; p95 = lit 0 1; p99 = lit 0 1; max = lit 0 1; avg = lit 0 1; count = 0 },
    refl,
    refl,
  )
  summarize_total (x ∷ xs) r50 r95 r99 =
      let s = sort_by float_less (x ∷ xs) in
      let counted = length-sort_by float_less (x ∷ xs) in
      let (p50, e50) = quantile_total s (lit 50 100) r50 in
      let (p95, e95) = quantile_total s (lit 95 100) r95 in
      let (p99, e99) = quantile_total s (lit 99 100) r99 in
      let (top, e) = get_elem?_lt s (length s - 1) (omega (arith, counted)) in
      (summary_of s p50 p95 p99 top, rw (e50, e95, e99, e) refl, counted)

  abbrev pub zero_run : SustainedRun F
  zero_run = record { start = 0; end = 0; minutes = 0; peak_v = lit 0 1 }

  -- The run that goes on at a value, and the one that starts there.
  abbrev pub extend_run : SustainedRun F → TimedValue F → SustainedRun F
  extend_run c tv = record {
    start = c.start;
    end = tv.ts;
    minutes = c.minutes + 1;
    peak_v = if c.peak_v <F tv.v then tv.v else c.peak_v;
  }

  abbrev pub start_run : TimedValue F → SustainedRun F
  start_run tv = record { start = tv.ts; end = tv.ts; minutes = 1; peak_v = tv.v }

  -- One turn of the loop of `Sustained` at a value at or above the threshold.
  unfoldable pub above : ℕ → Scan F → TimedValue F → Scan F
  unfolding keep_longest
  above tolerance s tv = elim s.cur [
    | none ↦ record s { cur = some (start_run tv); last_ts = tv.ts; total = s.total + 1 }
    | some c ↦
        if leb (tv.ts - s.last_ts) tolerance
        then record s { cur = some (extend_run c tv); last_ts = tv.ts; total = s.total + 1 }
        else record {
          cur = some (start_run tv);
          last_ts = tv.ts;
          longest = keep_longest (some c) s.longest;
          total = s.total + 1;
        }
  ]

  -- One turn of the loop.
  unfoldable pub observe : F → ℕ → Scan F → TimedValue F → Scan F
  unfolding above keep_longest
  observe threshold tolerance s tv =
      if threshold ≤F tv.v
      then above tolerance s tv
      else record s { cur = none; longest = keep_longest s.cur s.longest }

  unfoldable pub observe_all : F → ℕ → Scan F → List (TimedValue F) → Scan F
  unfolding observe
  observe_all threshold tolerance s [] = s
  observe_all threshold tolerance s (tv ∷ values) =
      observe_all threshold tolerance (observe threshold tolerance s tv) values

  abbrev pub initial : Scan F
  initial = record { cur = none; last_ts = 0; longest = zero_run; total = 0 }

  unfoldable pub sustained : List (TimedValue F) → F → ℕ → SustainedRun F × ℕ
  unfolding observe_all keep_longest
  sustained values threshold tolerance =
      let s = observe_all threshold tolerance initial values in
      (keep_longest s.cur s.longest, s.total)

  -- How many of the values are at or above a threshold.
  unfoldable pub count_above : F → List F → ℕ
  count_above threshold [] = 0
  count_above threshold (v ∷ vs) =
      let rest = count_above threshold vs in if threshold ≤F v then rest + 1 else rest

  unfoldable pub time_above_pct : List F → F → F
  unfolding count_above
  time_above_pct [] threshold = lit 0 1
  time_above_pct (v ∷ vs) threshold =
      of_nat (count_above threshold (v ∷ vs)) /F of_nat (length (v ∷ vs))
