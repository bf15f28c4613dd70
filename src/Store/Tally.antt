-- ===== src/Store/Tally.antt =====
-- The records that the store accounts for, and what adding one does to them.
use cost_optimization.Prelude.{
  ℕ, ◌+◌, ◌-◌, ◌^◌, ◌<◌, ◌≤◌, ◌≡◌, refl, inl, inr, String, Option, none, some, [], ◌∷◌,
  if◌then◌else◌, arith, Bool-cases, length, length-append, sum_of, leb,
}
use cost_optimization.Prelude.Assoc.{string_eq, lookup, insert, lookup-insert_self, weight}
use cost_optimization.Store.{
  Record, SegmentInfo, ActiveSeg, ClosedFile, Store, FlushOutcome, flushed, failed_before,
  torn_member, failed_after, auto_flush_records,
}
use cost_optimization.Store.Segments.{flush_member}
use cost_optimization.Store.Appending.{append_to, buffer, settle}
use cost_optimization.Store.Spooling.{append_to-short, append_to-full}
use text.Mathlib.Text.{◌==◌ as str_eq}

abbrev pub count_of : String → Option SegmentInfo → ℕ
count_of kind none = 0
count_of kind (some i) = if str_eq i.kind kind then i.records else 0

-- The records of a kind that the store accounts for: those of its active segment, those of the
-- sidecars of that kind, and all that were dropped.
abbrev pub tally : String → Store → ℕ
tally kind s =
    weight (λ (a : ActiveSeg). a.records) (lookup kind s.active)
    + sum_of (λ (c : ClosedFile). count_of kind c.sidecar) s.closed
    + s.dropped

pub tally_of_active :
    (kind : String) (s : Store) (a : ActiveSeg)
    → lookup kind s.active ≡ some a
    → tally kind s
      ≡ a.records + sum_of (λ (c : ClosedFile). count_of kind c.sidecar) s.closed + s.dropped
tally_of_active kind s a e = rw e refl

-- The counter of dropped records, a uint64, does not wrap around at the next batch.
abbrev pub HasRoom : Store → Type 0
HasRoom s = s.dropped + auto_flush_records < 2 ^ 64

settle-tally :
    (fo : FlushOutcome) (kind : String) (a : ActiveSeg) (s : Store)
    → length a.buf ≤ a.records
    → length a.buf ≤ auto_flush_records
    → HasRoom s
    → tally kind
        (settle kind a (flush_member fo kind a (record s { active = insert kind a s.active }))).0
      ≡ a.records + sum_of (λ (c : ClosedFile). count_of kind c.sidecar) s.closed + s.dropped
unfolding flush_member
settle-tally (flushed len) kind a s lo hi room =
    let b = record a { size = a.size + len; buf = []; raw_buffered = 0 } in
    rw (lookup-insert_self kind b (insert kind a s.active)) refl
settle-tally failed_before kind a s lo hi room =
    let b = record a { records = a.records - length a.buf; buf = [] } in
    rw (lookup-insert_self kind b (insert kind a s.active)) (omega (arith, lo, hi, room))
settle-tally torn_member kind a s lo hi room =
    let b = record a { records = a.records - length a.buf; buf = [] } in
    rw (lookup-insert_self kind b (insert kind a s.active)) (omega (arith, lo, hi, room))
settle-tally failed_after kind a s lo hi room =
    let b = record a { records = a.records - length a.buf; buf = [] } in
    rw (lookup-insert_self kind b (insert kind a s.active)) (omega (arith, lo, hi, room))

pub append_to-tally :
    (fo : FlushOutcome) (kind : String) (rec : Record) (a : ActiveSeg) (s : Store)
    → weight (λ (a : ActiveSeg). a.records) (lookup kind s.active) ≡ a.records
    → length a.buf ≤ a.records
    → length a.buf < auto_flush_records
    → HasRoom s
    → tally kind (append_to fo kind rec a s).0 ≡ tally kind s + 1
append_to-tally fo kind rec a s w lo hi room =
    let a1 = buffer rec a in
    let longer = length-append a.buf (rec ∷ []) in
    elim (Bool-cases (leb auto_flush_records (length a1.buf))) [
      | inr short ↦
          rw (append_to-short fo kind rec a s short, lookup-insert_self kind a1 s.active)
            (omega (arith, w))
      | inl full ↦ rw (append_to-full fo kind rec a s full) (
          omega (
            arith,
            settle-tally fo kind a1 s (omega (arith, lo, longer)) (omega (arith, hi, longer)) room,
            w,
          ))
    ]
