-- ===== src/Quantile.antt =====
-- `Quantile` of internal/analyzer/stats/stats.go, which internal/spike/spike.go repeats as
-- `quantileSorted`. An index out of range panics.
use cost_optimization.Prelude.{
  ℕ, ◌-◌, ◌≤◌, ◌≡◌, refl, Option, some, List, [], ◌∷◌, length, get_elem?, get_elem?_lt,
  if◌then◌else◌, ◌==◌, ◌>>=◌, arith, Bool-cases, inl, inr,
}
use cost_optimization.Float64.{Float64, ◌+F◌, ◌-F◌, ◌*F◌, of_nat, lit}

module _ {F : Type 0} ⦃f : Float64 F⦄ where
  -- The two ranks that the position q · n falls between.
  abbrev pub rank_lo : F → ℕ → ℕ
  rank_lo q n = f.trunc (f.floor (q *F of_nat n))

  abbrev pub rank_hi : F → ℕ → ℕ
  rank_hi q n = f.trunc (f.ceil (q *F of_nat n))

  abbrev interpolate : List F → F → ℕ → ℕ → Option F
  interpolate sorted pos lo hi = do
    a ← get_elem? sorted lo
    b ← get_elem? sorted hi
    let frac = pos -F of_nat lo
    some (a *F (lit 1 1 -F frac) +F b *F frac)

  unfoldable pub quantile : List F → F → Option F
  quantile [] q = some (lit 0 1)
  quantile (x ∷ xs) q =
      let n = length (x ∷ xs) - 1 in
      let lo = rank_lo q n in
      let hi = rank_hi q n in
      if lo == hi then get_elem? (x ∷ xs) lo else interpolate (x ∷ xs) (q *F of_nat n) lo hi

  -- The rank of a quantile q between 0 and 1 of n + 1 values is at most n.
  abbrev pub RanksInRange : F → Type 0
  RanksInRange q = (n : ℕ) → (rank_lo q n ≤ n) × (rank_hi q n ≤ n)

  -- A quantile of which every rank is in range never panics.
  pub quantile_total : (l : List F) (q : F) → RanksInRange q → (v : F) × (quantile l q ≡ some v)
  unfolding quantile
  quantile_total [] q h = (lit 0 1, refl)
  quantile_total (x ∷ xs) q h =
      let n = length (x ∷ xs) - 1 in
      let (a, p) = get_elem?_lt (x ∷ xs) (rank_lo q n) (omega (arith, h n)) in
      let (b, r) = get_elem?_lt (x ∷ xs) (rank_hi q n) (omega (arith, h n)) in
      elim (Bool-cases (rank_lo q n == rank_hi q n)) [
        | inl same ↦ (a, rw same p)
        | inr other ↦ (
          a *F (lit 1 1 -F (q *F of_nat n -F of_nat (rank_lo q n)))
              +F b *F (q *F of_nat n -F of_nat (rank_lo q n)),
          rw (other, p, r) refl,
        )
      ]
