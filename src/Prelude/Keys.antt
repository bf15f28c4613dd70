-- ===== src/Prelude/Keys.antt =====
-- Association lists that hold no key twice.
use cost_optimization.Prelude.{
  ◌⊎◌, ◌∙◌, ◌≢◌, ◌≡◌, refl, sym, subst, true, false, none, some, List, [], ◌∷◌, All, Bool-cases,
  inl, inr,
}
use mathlib.Core.Option.{some-injective}
use cost_optimization.Prelude.Assoc.{Eq, lookup, insert, lookup-insert, beq_refl}

beq_comm_false {ℓ} : {K : Type ℓ} ⦃e : Eq K⦄ (j k : K) → e.beq j k ≡ false → e.beq k j ≡ false
beq_comm_false ⦃e⦄ j k h = elim (Bool-cases (e.beq k j)) [
  | inl same ↦
      let back : e.beq j k ≡ true = (e.beq_iff j k).1 (sym ((e.beq_iff k j).0 same)) in absurd (cc)
  | inr other ↦ other
]

module _ {ℓ κ} {K : Type ℓ} {V : Type κ} ⦃e : Eq K⦄ where
  abbrev pub HasDistinctKeys : List (K × V) → Type κ
  HasDistinctKeys [] = Unit
  HasDistinctKeys ((k, v) ∷ m) = (lookup k m ≡ none) × HasDistinctKeys m

  lookup-insert_other :
      (k j : K) (v : V) (m : List (K × V))
      → e.beq k j ≡ false
      → lookup j m ≡ none
      → lookup j (insert k v m) ≡ none
  lookup-insert_other k j v m other absent = rw (lookup-insert k j v m, other) absent

  pub HasDistinctKeys-insert :
      (k : K) (v : V) (m : List (K × V)) → HasDistinctKeys m → HasDistinctKeys (insert k v m)
  unfolding insert lookup
  HasDistinctKeys-insert k v [] d = (refl, tt)
  HasDistinctKeys-insert k v ((j, w) ∷ m) (a, d) = elim (Bool-cases (e.beq j k)) [
    | inl hit ↦ rw (hit, insert) (subst (λ i. lookup i m ≡ none) ((e.beq_iff j k).0 hit) a, d)
    | inr miss ↦
        rw (miss, insert)
          (lookup-insert_other k j v m (beq_comm_false j k miss) a, HasDistinctKeys-insert k v m d)
  ]

  -- What holds of every entry that a lookup finds holds of all of them.
  pub All-lookup {ι} :
      (P : K × V → Type ι) (m : List (K × V))
      → HasDistinctKeys m
      → ((k : K) (v : V) → lookup k m ≡ some v → P (k, v))
      → All P m
  unfolding lookup
  All-lookup P [] d h = tt
  All-lookup P ((k, v) ∷ m) (a, d) h = (
    h k v (rw (beq_refl k) refl),
    All-lookup P m d (λ j w found. h j w (elim (Bool-cases (e.beq k j)) [
      | inl same ↦
          let gone : lookup j m ≡ none =
            subst (λ i. lookup i m ≡ none) ((e.beq_iff k j).0 same) a in
          absurd (cc)
      | inr other ↦ rw (other, lookup) found
    ])),
  )

  -- What is found after an insertion is what was inserted or what was found before.
  pub lookup-insert-eq-some :
      (k j : K) (v : V) (m : List (K × V)) {w : V}
      → lookup j (insert k v m) ≡ some w
      → ((k ≡ j) × (v ≡ w)) ⊎ (lookup j m ≡ some w)
  lookup-insert-eq-some k j v m {w = w} found = elim (Bool-cases (e.beq k j)) [
    | inl same ↦ inl (
      (e.beq_iff k j).0 same,
      some-injective _ _ (sym (rw same at (lookup-insert k j v m)) ∙ found),
    )
    | inr other ↦ inr (sym (rw other at (lookup-insert k j v m)) ∙ found)
  ]

  pub All-lookup-none : (k : K) (m : List (K × V)) → lookup k m ≡ none → All (λ p. p.0 ≢ k) m
  unfolding lookup
  All-lookup-none k [] h = tt
  All-lookup-none k ((j, w) ∷ m) h = elim (Bool-cases (e.beq j k)) [
    | inl same ↦ absurd (let no : some w ≡ none = rw (same, lookup) at h in cc)
    | inr other ↦ (
      λ at. absurd (let yes = (e.beq_iff j k).1 at in cc),
      All-lookup-none k m (rw (other, lookup) at h),
    )
  ]
