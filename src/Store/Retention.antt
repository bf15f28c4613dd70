-- ===== src/Store/Retention.antt =====
-- `ListClosed`, `Remove` and `EnforceRetention`. Whether os.Remove deletes a segment is an input, and
-- so is the order of the names as Go strings. Limits that are not positive are 0, and the total, an
-- int64, may stop at 0 where the source goes below: it is only compared with a positive limit.
mod Effects
mod Tests
use cost_optimization.Prelude.{
  ℕ, ◌+◌, ◌-◌, Bool, true, false, not, ◌&&◌, ◌||◌, Option, none, some, List, [], ◌∷◌, if◌then◌else◌,
  ltb, sort_by,
}
use cost_optimization.Model.{Time, is_zero}
use cost_optimization.Store.{SegmentName, SegmentInfo, ClosedFile, Store}
use cost_optimization.Store.Segments.{name_beq}

-- The sidecars of the files in closed/.
unfoldable pub sidecars : List ClosedFile → List SegmentInfo
sidecars [] = []
sidecars (c ∷ closed) = elim c.sidecar [ none ↦ sidecars closed | some i ↦ i ∷ sidecars closed ]

unfoldable pub list_closed : (SegmentName → SegmentName → Bool) → Store → List SegmentInfo
unfolding sidecars
list_closed less s = sort_by (λ (a b : SegmentInfo). less a.name b.name) (sidecars s.closed)

-- The file goes, or stays where it cannot be deleted; its sidecar goes in either case.
unfoldable pub remove_closed : Bool → SegmentName → List ClosedFile → List ClosedFile
remove_closed deleted n [] = []
remove_closed deleted n (c ∷ closed) =
    let rest = remove_closed deleted n closed in
    if name_beq c.name n
    then (if deleted then rest else record c { sidecar = none } ∷ rest)
    else c ∷ rest

abbrev pub remove_segment : Bool → SegmentName → Store → Store
remove_segment deleted n s = record s { closed = remove_closed deleted n s.closed }

-- What `EnforceRetention` keeps while it goes through the segments.
pub record Sweep : Type 0 where
  pub store : Store
  pub deleted_segments : ℕ
  pub deleted_bytes : ℕ
  pub total : ℕ

pub record Limits : Type 0 where
  pub max_bytes : ℕ
  pub max_age_days : ℕ
  pub cutoff : Time

abbrev pub too_old : Limits → SegmentInfo → Bool
too_old l seg = ltb 0 l.max_age_days && not (is_zero seg.max_ts) && ltb seg.max_ts l.cutoff

abbrev pub over_cap : Limits → ℕ → Bool
over_cap l total = ltb 0 l.max_bytes && ltb l.max_bytes total

module _ (deletes : SegmentName → Bool) where
  unfoldable pub sweep_one : Limits → SegmentInfo → Sweep → Sweep
  unfolding remove_closed
  sweep_one l seg w =
      if not (too_old l seg) && not (over_cap l w.total)
      then w
      else if deletes seg.name
      then record {
        store = remove_segment true seg.name w.store;
        deleted_segments = w.deleted_segments + 1;
        deleted_bytes = w.deleted_bytes + seg.size_bytes;
        total = w.total - seg.size_bytes;
      }
      else record w { store = remove_segment false seg.name w.store }

  unfoldable pub sweep : Limits → List SegmentInfo → Sweep → Sweep
  unfolding sweep_one
  sweep l [] w = w
  sweep l (seg ∷ segs) w = sweep l segs (sweep_one l seg w)

  -- The bytes of the spool are what a walk through its files finds.
  unfoldable pub enforce_retention : (SegmentName → SegmentName → Bool) → Limits → ℕ → Store → Sweep
  unfolding list_closed sweep
  enforce_retention less l spool_bytes s =
      sweep l (list_closed less s)
        record { store = s; deleted_segments = 0; deleted_bytes = 0; total = spool_bytes }
