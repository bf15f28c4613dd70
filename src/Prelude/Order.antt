-- ===== src/Prelude/Order.antt =====
-- Lists of numbers in order, and what sorting by a number does.
use cost_optimization.Prelude.{
  ℕ, ◌≤◌, ◌<◌, ◌≡◌, refl, ap, ◌∙◌, Bool, false, ◌||◌, List, [], ◌∷◌, All, map, arith, ltb, ◌==◌,
  insert_by, sort_by, Bool-cases, inl, inr,
}

abbrev pub IsAscending : List ℕ → Type 0
IsAscending [] = Unit
IsAscending (t ∷ ts) = All (λ u. t ≤ u) ts × IsAscending ts

abbrev pub IsIncreasing : List ℕ → Type 0
IsIncreasing [] = Unit
IsIncreasing (t ∷ ts) = All (λ u. t < u) ts × IsIncreasing ts

pub All-lt_of_le : (a b : ℕ) (ts : List ℕ) → a ≤ b → All (λ u. b < u) ts → All (λ u. a < u) ts
All-lt_of_le a b [] h p = tt
All-lt_of_le a b (t ∷ ts) h (p, ps) = (omega arith, All-lt_of_le a b ts h ps)

pub All-le_of_le : (a b : ℕ) (ts : List ℕ) → a ≤ b → All (λ u. b ≤ u) ts → All (λ u. a ≤ u) ts
All-le_of_le a b [] h p = tt
All-le_of_le a b (t ∷ ts) h (p, ps) = (omega arith, All-le_of_le a b ts h ps)

module _ {ℓ} {A : Type ℓ} (key : A → ℕ) where
  abbrev pub by_key : A → A → Bool
  by_key a b = ltb (key a) (key b)

  abbrev pub keys : List A → List ℕ
  keys xs = map key xs

  -- Whether an element has the key.
  abbrev pub has_key : ℕ → List A → Bool
  has_key t [] = false
  has_key t (x ∷ xs) = key x == t || has_key t xs

  All-keys-insert_by :
      (t : ℕ) (a : A) (xs : List A)
      → t ≤ key a
      → All (λ u. t ≤ u) (keys xs)
      → All (λ u. t ≤ u) (keys (insert_by by_key a xs))
  unfolding insert_by
  All-keys-insert_by t a [] h p = (h, tt)
  All-keys-insert_by t a (x ∷ xs) h (p, ps) = elim (Bool-cases (ltb (key a) (key x))) [
    | inl less ↦ rw (less, insert_by) (h, (p, ps))
    | inr more ↦ rw (more, insert_by) (p, All-keys-insert_by t a xs h ps)
  ]

  insert_by-IsAscending :
      (a : A) (xs : List A) → IsAscending (keys xs) → IsAscending (keys (insert_by by_key a xs))
  unfolding insert_by
  insert_by-IsAscending a [] p = (tt, tt)
  insert_by-IsAscending a (x ∷ xs) (p, ps) = elim (Bool-cases (ltb (key a) (key x))) [
    | inl less ↦
        let h : key a ≤ key x = ground arith in
        rw (less, insert_by) ((h, All-le_of_le (key a) (key x) (keys xs) h p), (p, ps))
    | inr more ↦
        let h : key x ≤ key a = ground arith in
        rw (more, insert_by) (All-keys-insert_by (key x) a xs h p, insert_by-IsAscending a xs ps)
  ]

  pub sort_by-IsAscending : (xs : List A) → IsAscending (keys (sort_by by_key xs))
  unfolding sort_by
  sort_by-IsAscending [] = tt
  sort_by-IsAscending (x ∷ xs) =
      insert_by-IsAscending x (sort_by by_key xs) (sort_by-IsAscending xs)

  has_key-insert_by :
      (t : ℕ) (a : A) (xs : List A)
      → has_key t (insert_by by_key a xs) ≡ (key a == t || has_key t xs)
  unfolding insert_by
  has_key-insert_by t a [] = refl
  has_key-insert_by t a (x ∷ xs) = ground (arith, has_key-insert_by t a xs)

  pub has_key-sort_by : (t : ℕ) (xs : List A) → has_key t (sort_by by_key xs) ≡ has_key t xs
  unfolding sort_by
  has_key-sort_by t [] = refl
  has_key-sort_by t (x ∷ xs) =
      has_key-insert_by t x (sort_by by_key xs) ∙ ap (λ b. key x == t || b) (has_key-sort_by t xs)
