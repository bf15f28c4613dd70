-- ===== src/Sched/Fields.antt =====
-- The lists of a cron field.
use cost_optimization.Prelude.{
  ℕ, ◌≡◌, refl, ap, ◌∙◌, true, ◌||◌, List, [], ◌∷◌, ◌++◌, ◌==◌, arith, Bool-cases, inl, inr,
}
use cost_optimization.Sched.{comma, push_code, split_on, any_part, cron_field_match}

push_code-append :
    (x : ℕ) (ps qs : List (List ℕ)) (p : List ℕ)
    → push_code x ((p ∷ ps) ++ qs) ≡ push_code x (p ∷ ps) ++ qs
push_code-append x ps qs p = refl

split_on-cons :
    (c : ℕ) (xs : List ℕ) → (p : List ℕ) × (ps : List (List ℕ)) × (split_on c xs ≡ p ∷ ps)
unfolding split_on
split_on-cons c [] = ([], [], refl)
split_on-cons c (x ∷ xs) = elim (Bool-cases (x == c)) [
  | inl hit ↦ ([], split_on c xs, rw (hit, split_on) refl)
  | inr miss ↦ let (p, ps, e) = split_on-cons c xs in (x ∷ p, ps, rw (miss, split_on, e) refl)
]

split_on-append :
    (c : ℕ) (xs ys : List ℕ) → split_on c (xs ++ c ∷ ys) ≡ split_on c xs ++ split_on c ys
unfolding split_on
split_on-append c [] ys = let same : (c == c) ≡ true = ground arith in rw (same, split_on) refl
split_on-append c (x ∷ xs) ys = elim (Bool-cases (x == c)) [
  | inl hit ↦ rw (hit, split_on) (ap (λ ps. [] ∷ ps) (split_on-append c xs ys))
  | inr miss ↦
      let (p, ps, e) = split_on-cons c xs in rw (miss, split_on, split_on-append c xs ys, e) refl
]

any_part-append :
    (v min max : ℕ) (ps qs : List (List ℕ))
    → any_part v min max (ps ++ qs) ≡ (any_part v min max ps || any_part v min max qs)
unfolding any_part
any_part-append v min max [] qs = refl
any_part-append v min max (p ∷ ps) qs = ground (arith, any_part-append v min max ps qs)

-- A cron field that is a list of two fields matches exactly where one of the two does, whatever they
-- hold.
pub cron_field_match-append :
    (xs ys : List ℕ) (v min max : ℕ)
    → cron_field_match (xs ++ comma ∷ ys) v min max
      ≡ (cron_field_match xs v min max || cron_field_match ys v min max)
unfolding cron_field_match
cron_field_match-append xs ys v min max =
    ap (any_part v min max) (split_on-append comma xs ys)
    ∙ any_part-append v min max (split_on comma xs) (split_on comma ys)
