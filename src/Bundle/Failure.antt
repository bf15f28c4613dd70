-- ===== src/Bundle/Failure.antt =====
-- What an export of internal/bundle/bundle.go leaves in the spool.
use cost_optimization.Prelude.{
  ◌≡◌, ◌≢◌, refl, Bool, true, false, ◌||◌, ◌⊎◌, Option, none, some, List, [], ◌∷◌, arith,
  Bool-cases, inl, inr,
}
use cost_optimization.Store.{SegmentName, SegmentInfo, ClosedFile, Store, StoreError}
use cost_optimization.Store.Segments.{name_beq, exists}
use cost_optimization.Store.Retention.{list_closed, remove_closed}
use cost_optimization.Bundle.{Codec, Tar}
use cost_optimization.Bundle.Export.{
  ExportError, give_up, World, ExportInput, Exported, remove_all, finish, export_segments,
  export_rotated, read_closed_dir,
}
use cost_optimization.Store.Naming.{name_beq_sym}
use text.Mathlib.TextEquality.{eq_iff}

-- Whether one of the segments has the name.
abbrev pub has_name : SegmentName → List SegmentInfo → Bool
has_name n [] = false
has_name n (seg ∷ segs) = name_beq seg.name n || has_name n segs

name_beq-eq : (a b : SegmentName) → name_beq a b ≡ true → a ≡ b
name_beq-eq a b h = ground (arith, eq_iff a.kind b.kind, eq_iff a.date b.date)

-- A file goes only by its own name.
exists-remove_closed :
    (deleted : Bool) (m n : SegmentName) (closed : List ClosedFile)
    → exists n closed ≡ true
    → (exists n (remove_closed deleted m closed) ≡ true) ⊎ (name_beq m n ≡ true)
unfolding exists remove_closed
exists-remove_closed deleted m n [] h = absurd (cc)
exists-remove_closed deleted m n (c ∷ closed) h = elim (Bool-cases (name_beq c.name n)) [
  | inl hit ↦
      let e : c.name ≡ n = name_beq-eq c.name n hit in
      elim (Bool-cases (name_beq m n)) [
        | inl gone ↦ inr gone
        | inr kept ↦
            let other : name_beq c.name m ≡ false = ground (arith, name_beq_sym m n kept) in
            inl (rw (other, remove_closed, exists, hit) refl)
      ]
  | inr miss ↦
      let rest : exists n closed ≡ true = ground arith in
      elim (exists-remove_closed deleted m n closed rest) [
        | inr gone ↦ inr gone
        | inl kept ↦ inl (ground arith)
      ]
]

module _ (c : Codec) (w : World c.Bytes) (i : ExportInput) where
  exists-remove_all :
      (segs : List SegmentInfo) (n : SegmentName) (s : Store)
      → exists n s.closed ≡ true
      → (exists n (remove_all c w i segs s).closed ≡ true) ⊎ (has_name n segs ≡ true)
  unfolding remove_all
  exists-remove_all [] n s h = inl h
  exists-remove_all (seg ∷ segs) n s h =
      elim (exists-remove_closed (w.deletes seg.name) seg.name n s.closed h) [
        | inr own ↦ inr (ground arith)
        | inl kept ↦ elim (exists-remove_all segs n _ kept) [
          | inl still ↦ inl still
          | inr later ↦ inr (ground arith)
        ]
      ]

  -- What a failed export leaves, and what a successful one may have taken.
  abbrev pub IsSafe : Store → List SegmentInfo → Exported c.Bytes → Type 0
  IsSafe s segs r =
      (r.error ≢ none → (r.bundle ≡ none) × (r.store ≡ s))
      × (r.error ≡ none → r.bundle ≢ none)
      × ((n : SegmentName)
          → exists n s.closed ≡ true
          → (exists n r.store.closed ≡ true) ⊎ (has_name n segs ≡ true))

  give_up-IsSafe :
      (e : ExportError) (s : Store) (segs : List SegmentInfo) → IsSafe s segs (give_up c w i e s)
  give_up-IsSafe e s segs = (λ h. (refl, refl), λ h. absurd (cc), λ n h. inl h)

  finish-IsSafe :
      (segs : List SegmentInfo) (s : Store) (o : Option (Tar c.Bytes))
      → IsSafe s segs (finish c w i segs s o)
  unfolding remove_all
  finish-IsSafe segs s none = give_up-IsSafe _ s segs
  finish-IsSafe segs s (some t) = (
    λ h. absurd (h refl),
    λ h p. cc,
    λ n h. elim (Bool-cases i.remove_after) [
      | inl removed ↦ rw removed (exists-remove_all segs n s h)
      | inr kept ↦ rw kept (inl h)
    ],
  )

  export_segments-IsSafe :
      (segs : List SegmentInfo) (s : Store) → IsSafe s segs (export_segments c w i segs s)
  export_segments-IsSafe [] s = give_up-IsSafe _ s []
  export_segments-IsSafe (seg ∷ segs) s = finish-IsSafe (seg ∷ segs) s _

  -- An export that fails in any way writes no bundle and leaves the spool as rotation left it; one
  -- that does not fail has a bundle. Whatever happens, a closed file that is gone afterwards has the
  -- name of a segment that was listed for the bundle.
  pub export_rotated-IsSafe :
      (r : Store × Option StoreError) → IsSafe r.0 (list_closed w.less r.0) (export_rotated c w i r)
  unfolding export_rotated
  export_rotated-IsSafe (s, some e) = give_up-IsSafe _ s _
  export_rotated-IsSafe (s, none) = elim (Bool-cases (w.succeeds read_closed_dir)) [
    | inl listed ↦ rw (listed, export_rotated) (export_segments-IsSafe (list_closed w.less s) s)
    | inr unread ↦ rw (unread, export_rotated) (give_up-IsSafe _ s _)
  ]
