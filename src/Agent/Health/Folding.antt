-- ===== src/Agent/Health/Folding.antt =====
-- The search without regard to case.
use cost_optimization.Prelude.{
  ◌≤◌, ◌≡◌, ◌≢◌, ◌↔◌, refl, sym, ap, ◌∙◌, subst, inl, inr, true, none, [], ◌∷◌, ◌++◌, map, length,
  length-append, length-map, arith, Bool-cases,
}
use cost_optimization.Agent.Health.{Text, fold_byte, matches_fold, index_fold, contains_fold}

-- The text holds another but for the case of letters.
abbrev pub Holds : Text → Text → Type 0
Holds s sub =
    (before : Text) × (mid : Text) × (after : Text) × (s ≡ before ++ (mid ++ after))
    × (map fold_byte mid ≡ map fold_byte sub)

matches_fold-Holds :
    (s sub : Text)
    → matches_fold s sub ≡ true
    → (mid : Text) × (after : Text) × (s ≡ mid ++ after) × (map fold_byte mid ≡ map fold_byte sub)
unfolding matches_fold
matches_fold-Holds s [] h = ([], s, refl, refl)
matches_fold-Holds [] (b ∷ sub) h = absurd cc
matches_fold-Holds (a ∷ s) (b ∷ sub) h =
    let (mid, after, e, g) = matches_fold-Holds s sub (ground (arith, h)) in
    let same : fold_byte a ≡ fold_byte b = ground (arith, h) in (a ∷ mid, after, cc, cc)

Holds-matches_fold :
    (mid after sub : Text)
    → map fold_byte mid ≡ map fold_byte sub
    → matches_fold (mid ++ after) sub ≡ true
unfolding matches_fold
Holds-matches_fold mid after [] h = refl
Holds-matches_fold [] after (b ∷ sub) h = absurd cc
Holds-matches_fold (a ∷ mid) after (b ∷ sub) h =
    let same : fold_byte a ≡ fold_byte b = cc in
    let rest : map fold_byte mid ≡ map fold_byte sub = cc in
    ground (arith, same, Holds-matches_fold mid after sub rest)

index_fold-Holds : (s sub : Text) → index_fold s sub ≢ none → Holds s sub
unfolding index_fold
index_fold-Holds [] sub h = elim (Bool-cases (matches_fold [] sub)) [
  | inl m ↦ let (mid, after, e, g) = matches_fold-Holds [] sub m in ([], mid, after, e, g)
  | inr other ↦ absurd (h (rw other refl))
]
index_fold-Holds (a ∷ s) sub h = elim (Bool-cases (matches_fold (a ∷ s) sub)) [
  | inl m ↦ let (mid, after, e, g) = matches_fold-Holds (a ∷ s) sub m in ([], mid, after, e, g)
  | inr other ↦
      let rest : index_fold s sub ≢ none = λ e. h (rw (other, e) refl) in
      let (before, mid, after, e, g) = index_fold-Holds s sub rest in
      (a ∷ before, mid, after, ap (λ z. a ∷ z) e, g)
]

Holds-index_fold :
    (before mid after sub : Text)
    → map fold_byte mid ≡ map fold_byte sub
    → index_fold (before ++ (mid ++ after)) sub ≢ none
unfolding index_fold
Holds-index_fold [] [] [] sub h n = ground (arith, n, Holds-matches_fold [] [] sub h)
Holds-index_fold [] [] (c ∷ after) sub h n =
    ground (arith, n, Holds-matches_fold [] (c ∷ after) sub h)
Holds-index_fold [] (m ∷ mid) after sub h n =
    ground (arith, n, Holds-matches_fold (m ∷ mid) after sub h)
Holds-index_fold (a ∷ before) mid after sub h n =
    let rest = Holds-index_fold before mid after sub h in ground (arith, n, rest)

Holds-length : (s sub : Text) → Holds s sub → length sub ≤ length s
Holds-length s sub (before, mid, after, e, h) =
    let same : length mid ≡ length sub =
      sym (length-map fold_byte mid) ∙ ap length h ∙ length-map fold_byte sub in
    subst (λ (z : Text). length sub ≤ length z) (sym e)
      (omega (arith, same, length-append before (mid ++ after), length-append mid after))

-- `containsFold` finds a text exactly where the other holds it, but for the case of ASCII letters.
pub contains_fold_iff : (s sub : Text) → (contains_fold s sub ≡ true) ↔ Holds s sub
contains_fold_iff s sub = (
  λ h. index_fold-Holds s sub (λ e. ground (arith, h, e)),
  λ k.
      let fits = Holds-length s sub k in
      let (before, mid, after, e, g) = k in
      let found : index_fold s sub ≢ none =
        subst (λ (z : Text). index_fold z sub ≢ none) (sym e)
          (Holds-index_fold before mid after sub g) in
      ground (arith, fits, found),
)
