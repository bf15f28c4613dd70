-- ===== src/Store/Retention/Effects.antt =====
-- What retention achieves.
use cost_optimization.Prelude.{
  ℕ, ◌-◌, ◌<◌, ◌≤◌, ◌≡◌, ◌⊎◌, refl, inl, inr, Bool, true, false, not, ◌&&◌, List, [], ◌∷◌, All,
  arith, Bool-cases,
}
use cost_optimization.Store.{SegmentName, SegmentInfo, ClosedFile, Store}
use cost_optimization.Store.Segments.{exists}
use cost_optimization.Store.Retention.{
  Sweep, Limits, too_old, over_cap, list_closed, remove_closed, sweep_one, sweep, enforce_retention,
}

exists-remove_closed :
    (n : SegmentName) (closed : List ClosedFile) → exists n (remove_closed true n closed) ≡ false
unfolding exists remove_closed
exists-remove_closed n [] = refl
exists-remove_closed n (c ∷ closed) = ground (arith, exists-remove_closed n closed)

exists-remove_closed_other :
    (deleted : Bool) (n m : SegmentName) (closed : List ClosedFile)
    → exists m closed ≡ false
    → exists m (remove_closed deleted n closed) ≡ false
unfolding exists remove_closed
exists-remove_closed_other deleted n m [] h = refl
exists-remove_closed_other deleted n m (c ∷ closed) h =
    ground (arith, exists-remove_closed_other deleted n m closed, h)

module _ (deletes : SegmentName → Bool) where
  sweep_one-total :
      (l : Limits) (seg : SegmentInfo) (w : Sweep) → (sweep_one deletes l seg w).total ≤ w.total
  unfolding sweep_one
  sweep_one-total l seg w = ground arith

  sweep-total :
      (l : Limits) (segs : List SegmentInfo) (w : Sweep) → (sweep deletes l segs w).total ≤ w.total
  unfolding sweep
  sweep-total l [] w = omega arith
  sweep-total l (seg ∷ segs) w =
      omega (arith, sweep_one-total l seg w, sweep-total l segs (sweep_one deletes l seg w))

  -- No file of closed/ has the name of the segment any more.
  abbrev pub IsGone : Store → SegmentInfo → Type 0
  IsGone s seg = exists seg.name s.closed ≡ false

  sweep_one-IsGone :
      (l : Limits) (seg other : SegmentInfo) (w : Sweep)
      → IsGone w.store other
      → IsGone (sweep_one deletes l seg w).store other
  unfolding sweep_one
  sweep_one-IsGone l seg other w g =
      elim (Bool-cases (not (too_old l seg) && not (over_cap l w.total))) [
        | inl stays ↦ rw (stays, sweep_one) g
        | inr goes ↦ elim (Bool-cases (deletes seg.name)) [
          | inl can ↦
              rw (goes, can, sweep_one)
                (exists-remove_closed_other true seg.name other.name w.store.closed g)
          | inr cannot ↦
              rw (goes, cannot, sweep_one)
                (exists-remove_closed_other false seg.name other.name w.store.closed g)
        ]
      ]

  sweep-IsGone :
      (l : Limits) (segs : List SegmentInfo) (other : SegmentInfo) (w : Sweep)
      → IsGone w.store other
      → IsGone (sweep deletes l segs w).store other
  unfolding sweep
  sweep-IsGone l [] other w g = g
  sweep-IsGone l (seg ∷ segs) other w g =
      sweep-IsGone l segs other (sweep_one deletes l seg w) (sweep_one-IsGone l seg other w g)

  -- A segment that stays is not too old, and the total was within the cap.
  sweep_one-fits :
      (l : Limits) (seg : SegmentInfo) (w : Sweep)
      → deletes seg.name ≡ true
      → 0 < l.max_bytes
      → ((too_old l seg ≡ false) × ((sweep_one deletes l seg w).total ≤ l.max_bytes))
        ⊎ IsGone (sweep_one deletes l seg w).store seg
  unfolding sweep_one
  sweep_one-fits l seg w d p = elim (Bool-cases (not (too_old l seg) && not (over_cap l w.total))) [
    | inl stays ↦ inl (ground (arith, stays), ground (arith, stays, p))
    | inr goes ↦ inr (rw (goes, d, sweep_one) (exists-remove_closed seg.name w.store.closed))
  ]

  -- What is left of a segment: nothing, or it is not too old and the spool is within its cap.
  abbrev pub IsSettled : Limits → Sweep → SegmentInfo → Type 0
  IsSettled l w seg = ((too_old l seg ≡ false) × (w.total ≤ l.max_bytes)) ⊎ IsGone w.store seg

  sweep-settles :
      (l : Limits) (segs : List SegmentInfo) (w : Sweep)
      → All (λ (seg : SegmentInfo). deletes seg.name ≡ true) segs
      → 0 < l.max_bytes
      → All (IsSettled l (sweep deletes l segs w)) segs
  unfolding sweep
  sweep-settles l [] w d p = tt
  sweep-settles l (seg ∷ segs) w (d, ds) p =
      let next = sweep_one deletes l seg w in
      let less = sweep-total l segs next in
      (
        (elim (sweep_one-fits l seg w d p) [
          | inl (young, fits) ↦ inl (young, omega (arith, fits, less))
          | inr gone ↦ inr (sweep-IsGone l segs seg next gone)
        ]),
        sweep-settles l segs next ds p,
      )

  -- The total is what was there, less the bytes that are reported as deleted.
  abbrev pub IsBalanced : ℕ → Sweep → Type 0
  IsBalanced spool_bytes w = w.total ≡ spool_bytes - w.deleted_bytes

  sweep_one-IsBalanced :
      (l : Limits) (seg : SegmentInfo) (spool_bytes : ℕ) (w : Sweep)
      → IsBalanced spool_bytes w
      → IsBalanced spool_bytes (sweep_one deletes l seg w)
  unfolding sweep_one
  sweep_one-IsBalanced l seg spool_bytes w b = ground (arith, b)

  sweep-IsBalanced :
      (l : Limits) (segs : List SegmentInfo) (spool_bytes : ℕ) (w : Sweep)
      → IsBalanced spool_bytes w
      → IsBalanced spool_bytes (sweep deletes l segs w)
  unfolding sweep
  sweep-IsBalanced l [] spool_bytes w b = b
  sweep-IsBalanced l (seg ∷ segs) spool_bytes w b =
      sweep-IsBalanced l segs spool_bytes (sweep_one deletes l seg w)
        (sweep_one-IsBalanced l seg spool_bytes w b)

  -- Where there is a cap and every closed segment can be deleted: once `EnforceRetention` has run, a
  -- closed segment is gone from the store, or it is not too old and the total that is left is within
  -- the cap. That total is the size of the spool before, less the bytes that are reported as deleted.
  pub retention-settles :
      (less : SegmentName → SegmentName → Bool) (l : Limits) (spool_bytes : ℕ) (s : Store)
      → All (λ (seg : SegmentInfo). deletes seg.name ≡ true) (list_closed less s)
      → 0 < l.max_bytes
      → All (IsSettled l (enforce_retention deletes less l spool_bytes s)) (list_closed less s)
        × IsBalanced spool_bytes (enforce_retention deletes less l spool_bytes s)
  unfolding enforce_retention
  retention-settles less l spool_bytes s d p = (
    sweep-settles l (list_closed less s) _ d p,
    sweep-IsBalanced l (list_closed less s) spool_bytes _ (omega arith),
  )

  sweep-quiet :
      (l : Limits) (segs : List SegmentInfo) (w : Sweep)
      → All (λ (seg : SegmentInfo). too_old l seg ≡ false) segs
      → over_cap l w.total ≡ false
      → sweep deletes l segs w ≡ w
  unfolding sweep sweep_one
  sweep-quiet l [] w old cap = refl
  sweep-quiet l (seg ∷ segs) w (o, os) cap = rw (o, cap) (sweep-quiet l segs w os cap)

  -- Where no closed segment is too old and the spool is within its cap, or has none,
  -- `EnforceRetention` deletes nothing.
  pub retention-quiet :
      (less : SegmentName → SegmentName → Bool) (l : Limits) (spool_bytes : ℕ) (s : Store)
      → All (λ (seg : SegmentInfo). too_old l seg ≡ false) (list_closed less s)
      → over_cap l spool_bytes ≡ false
      → enforce_retention deletes less l spool_bytes s
        ≡ record { store = s; deleted_segments = 0; deleted_bytes = 0; total = spool_bytes }
  unfolding enforce_retention
  retention-quiet less l spool_bytes s old cap = sweep-quiet l (list_closed less s) _ old cap
