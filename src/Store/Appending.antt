-- ===== src/Store/Appending.antt =====
-- `Append`.
use cost_optimization.Prelude.{
  ◌+◌, ◌-◌, ◌%◌, ◌^◌, String, Bool, not, ◌||◌, Option, none, some, [], ◌∷◌, ◌++◌, length,
  if◌then◌else◌, ltb, leb, ◌>>=◌,
}
use cost_optimization.Prelude.Assoc.{string_eq, lookup, insert}
use cost_optimization.Model.{Time, is_zero}
use cost_optimization.Store.{
  Record, ActiveSeg, Store, FlushOutcome, CloseOutcome, StoreError, not_a_record,
  auto_flush_records, max_segment_bytes,
}
use cost_optimization.Store.Segments.{flush_locked, rotate_locked}
use text.Mathlib.Text.{◌==◌ as str_eq}

-- How the calls of one `Append` end: the flush and the close of a rotation, and its own flush.
pub record AppendOutcomes : Type 0 where
  pub rotate_flush : FlushOutcome
  pub rotate_close : CloseOutcome
  pub own_flush : FlushOutcome

abbrev pub new_seg : String → ActiveSeg
new_seg date = record {
  date = date;
  buf = [];
  records = 0;
  min_ts = 0;
  max_ts = 0;
  size = 0;
  raw_buffered = 0;
}

abbrev pub buffer : Record → ActiveSeg → ActiveSeg
buffer rec a = record a {
  buf = a.buf ++ (rec ∷ []);
  raw_buffered = a.raw_buffered + rec.bytes;
  records = a.records + 1;
  min_ts = if is_zero a.min_ts || ltb rec.ts a.min_ts then rec.ts else a.min_ts;
  max_ts = if ltb a.max_ts rec.ts then rec.ts else a.max_ts;
}

-- What follows a flush of the full buffer that failed: the batch is dropped. The buffer holds no more
-- records than the segment counts, so the difference of two ints is not negative.
abbrev pub drop_batch : String → ActiveSeg → Store → Store
drop_batch kind a s = record s {
  dropped = (s.dropped + length a.buf) % 2 ^ 64;
  active = insert kind (record a { records = a.records - length a.buf; buf = [] }) s.active;
}

-- What `Append` makes of its own flush.
abbrev pub settle : String → ActiveSeg → Store × Option StoreError → Store × Option StoreError
settle kind a (s, none) = (s, none)
settle kind a (s, some e) = (drop_batch kind a s, some e)

-- The record goes into the segment.
unfoldable pub append_to :
    FlushOutcome → String → Record → ActiveSeg → Store → Store × Option StoreError
unfolding flush_locked
append_to fo kind rec a s =
    let a1 = buffer rec a in
    let s1 = record s { active = insert kind a1 s.active } in
    if leb auto_flush_records (length a1.buf)
    then settle kind a1 (flush_locked fo kind s1)
    else (s1, none)

module _ (utc_date : Time → String) where
  abbrev pub must_rotate : ActiveSeg → Record → Bool
  must_rotate a rec =
      not (str_eq a.date (utc_date rec.ts)) || ltb max_segment_bytes (a.size + a.raw_buffered)

  -- After a rotation, unless it failed, the record goes into a new segment.
  abbrev pub append_rotated :
      FlushOutcome → String → Record → Store × Option StoreError → Store × Option StoreError
  append_rotated fo kind rec (s, some e) = (s, some e)
  append_rotated fo kind rec (s, none) = append_to fo kind rec (new_seg (utc_date rec.ts)) s

  -- A record that does not marshal is no input. `none` where the search of a rotation for a free
  -- number does not end.
  unfoldable pub append :
      Time → AppendOutcomes → String → Record → Store → Option (Store × Option StoreError)
  unfolding append_to rotate_locked
  append now o kind rec s =
      if is_zero rec.ts then some (s, some not_a_record) else elim (lookup kind s.active) [
        | none ↦ some (append_to o.own_flush kind rec (new_seg (utc_date rec.ts)) s)
        | some a ↦
            if must_rotate a rec
            then (do
              r ← rotate_locked utc_date now o.rotate_flush o.rotate_close kind s
              some (append_rotated o.own_flush kind rec r))
            else some (append_to o.own_flush kind rec a s)
      ]
