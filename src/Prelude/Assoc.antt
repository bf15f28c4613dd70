-- ===== src/Prelude/Assoc.antt =====
-- A map as an association list: the first entry of a key counts. Iteration in Go runs over a map
-- in an unspecified order; here in the order of the list, which a theorem leaves open.
use cost_optimization.Prelude.{
  ℕ, ◌+◌, ◌≤◌, ◌≡◌, refl, ◌↔◌, Bool, true, Option, none, some, List, [], ◌∷◌, arith, if◌then◌else◌,
  String, sum_of, All, Bool-cases, inl, inr,
}
use text.Mathlib.Text.{◌==◌ as str_eq}
use text.Mathlib.TextEquality.{eq_iff}

pub record Eq {ℓ} (A : Type ℓ) : Type ℓ where
  pub beq : A → A → Bool
  pub beq_iff : (a b : A) → (beq a b ≡ true) ↔ (a ≡ b)

instance abbrev pub string_eq : Eq String
string_eq = record { beq = str_eq; beq_iff = eq_iff }

abbrev pub Map {ℓ κ} : Type ℓ → Type κ → Type (ℓ ⊔ κ)
Map K V = List (K × V)

pub beq_refl {ℓ} : {K : Type ℓ} ⦃e : Eq K⦄ (k : K) → e.beq k k ≡ true
beq_refl ⦃e⦄ k = (e.beq_iff k k).1 refl

-- The weight of the value that a key holds, 0 if it holds none.
abbrev pub weight {ℓ} : {V : Type ℓ} → (V → ℕ) → Option V → ℕ
weight f none = 0
weight f (some v) = f v

module _ {ℓ κ} {K : Type ℓ} {V : Type κ} ⦃e : Eq K⦄ where
  unfoldable pub lookup : K → List (K × V) → Option V
  lookup k [] = none
  lookup k ((j, v) ∷ m) = if e.beq j k then some v else lookup k m

  unfoldable pub insert : K → V → List (K × V) → List (K × V)
  insert k v [] = (k, v) ∷ []
  insert k v ((j, w) ∷ m) = if e.beq j k then (k, v) ∷ m else (j, w) ∷ insert k v m

  unfoldable pub remove : K → List (K × V) → List (K × V)
  remove k [] = []
  remove k ((j, w) ∷ m) = if e.beq j k then remove k m else (j, w) ∷ remove k m

  pub lookup-insert :
      (k j : K) (v : V) (m : List (K × V))
      → lookup j (insert k v m) ≡ (if e.beq k j then some v else lookup j m)
  unfolding lookup insert
  lookup-insert k j v [] = refl
  lookup-insert k j v ((i, w) ∷ m) =
      ground (arith, e.beq_iff k j, e.beq_iff i k, e.beq_iff i j, lookup-insert k j v m)

  pub lookup-insert_self : (k : K) (v : V) (m : List (K × V)) → lookup k (insert k v m) ≡ some v
  lookup-insert_self k v m = simp (lookup-insert, beq_refl)

  pub lookup-remove :
      (k j : K) (m : List (K × V))
      → lookup j (remove k m) ≡ (if e.beq k j then none else lookup j m)
  unfolding lookup remove
  lookup-remove k j [] = ground arith
  lookup-remove k j ((i, w) ∷ m) =
      ground (arith, e.beq_iff k j, e.beq_iff i k, e.beq_iff i j, lookup-remove k j m)

  -- Writing a key exchanges the weight of its old value for that of the new one.
  pub sum_of-insert :
      (f : V → ℕ) (k : K) (v : V) (m : List (K × V))
      → sum_of (λ p. f p.1) (insert k v m) + weight f (lookup k m) ≡ sum_of (λ p. f p.1) m + f v
  unfolding lookup insert
  sum_of-insert f k v [] = omega arith
  sum_of-insert f k v ((j, w) ∷ m) = elim (Bool-cases (e.beq j k)) [
    | inl hit ↦ rw (hit, insert, lookup) (omega arith)
    | inr miss ↦ rw (miss, insert, lookup) (omega (arith, sum_of-insert f k v m))
  ]

  pub weight-le-sum_of :
      (f : V → ℕ) (k : K) (m : List (K × V)) → weight f (lookup k m) ≤ sum_of (λ p. f p.1) m
  unfolding lookup
  weight-le-sum_of f k [] = omega arith
  weight-le-sum_of f k ((j, w) ∷ m) = elim (Bool-cases (e.beq j k)) [
    | inl hit ↦ rw (hit, lookup) (omega arith)
    | inr miss ↦ rw (miss, lookup) (omega (arith, weight-le-sum_of f k m))
  ]

  pub All-insert {ι} :
      (P : K × V → Type ι) (k : K) (v : V) (m : List (K × V))
      → P (k, v)
      → All P m
      → All P (insert k v m)
  unfolding insert
  All-insert P k v [] p ps = (p, tt)
  All-insert P k v ((j, w) ∷ m) p (q, ps) = elim (Bool-cases (e.beq j k)) [
    | inl hit ↦ rw (hit, insert) (p, ps)
    | inr miss ↦ rw (miss, insert) (q, All-insert P k v m p ps)
  ]
