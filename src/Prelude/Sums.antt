-- ===== src/Prelude/Sums.antt =====
-- Sums of a number over a list.
use Prim.Native.Nat.{ℕ, ◌+◌}
use mathlib.Core.Path.{◌≡◌}
use mathlib.Core.List.{List, [], ◌∷◌, ◌++◌}
use mathlib.Core.Bool.{Bool}
use mathlib.Core.Logic.{inl, inr}
use native.Mathlib.Omega.{arith}
use cost_optimization.Prelude.Tests.{Bool-cases}
use cost_optimization.Prelude.Lists.{length, insert_by, sort_by}

module _ {ℓ} {A : Type ℓ} where
  abbrev pub sum_of : (A → ℕ) → List A → ℕ
  sum_of f [] = 0
  sum_of f (x ∷ xs) = f x + sum_of f xs

  pub sum_of-append : (f : A → ℕ) (xs ys : List A) → sum_of f (xs ++ ys) ≡ sum_of f xs + sum_of f ys
  sum_of-append f [] ys = omega arith
  sum_of-append f (x ∷ xs) ys = omega (arith, sum_of-append f xs ys)

  sum_of-insert_by :
      (f : A → ℕ) (less : A → A → Bool) (a : A) (xs : List A)
      → sum_of f (insert_by less a xs) ≡ f a + sum_of f xs
  unfolding insert_by
  sum_of-insert_by f less a [] = omega arith
  sum_of-insert_by f less a (x ∷ xs) = elim (Bool-cases (less a x)) [
    | inl before ↦ rw (before, insert_by) (omega arith)
    | inr after ↦ rw (after, insert_by) (omega (arith, sum_of-insert_by f less a xs))
  ]

  pub sum_of-sort_by :
      (f : A → ℕ) (less : A → A → Bool) (xs : List A) → sum_of f (sort_by less xs) ≡ sum_of f xs
  unfolding sort_by
  sum_of-sort_by f less [] = omega arith
  sum_of-sort_by f less (x ∷ xs) =
      omega (arith, sum_of-insert_by f less x (sort_by less xs), sum_of-sort_by f less xs)

  pub sum_of-one : (xs : List A) → sum_of (λ x. 1) xs ≡ length xs
  sum_of-one [] = omega arith
  sum_of-one (x ∷ xs) = omega (arith, sum_of-one xs)

  pub sum_of-zero : (xs : List A) → sum_of (λ x. 0) xs ≡ 0
  sum_of-zero [] = omega arith
  sum_of-zero (x ∷ xs) = omega (arith, sum_of-zero xs)
