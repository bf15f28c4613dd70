-- ===== src/Store/Segments.antt =====
-- `flushLocked`, `rotateLocked` and `closeFile`.
use cost_optimization.Prelude.{
  ℕ, zero, suc, ◌+◌, max, String, Bool, true, false, ◌&&◌, ◌||◌, Option, none, some, List, [], ◌∷◌,
  ◌++◌, length, if◌then◌else◌, ◌==◌,
}
use cost_optimization.Prelude.Assoc.{string_eq, lookup, insert, remove}
use cost_optimization.Model.{Time, is_zero}
use cost_optimization.Store.{
  Record, SegmentName, SegmentInfo, ActiveSeg, ClosedFile, Store, FlushOutcome, flushed,
  failed_before, torn_member, failed_after, CloseOutcome, closed_with, not_moved, no_sidecar,
  stat_denied, StoreError, flush_failed, close_failed,
}
use text.Mathlib.Text.{◌==◌ as str_eq}

-- What the active file of a kind holds.
abbrev pub contents : Option (List Record) → List Record
contents none = []
contents (some records) = records

abbrev pub file_of : Store → String → List Record
file_of s kind = contents (lookup kind s.files)

-- Whether the active file of a kind holds a torn member.
abbrev pub is_torn : Option Bool → Bool
is_torn none = false
is_torn (some b) = b

-- The member goes to the end of the file.
abbrev pub write_member : Store → String → List Record → Store
write_member s kind recs = record s { files = insert kind (file_of s kind ++ recs) s.files }

-- The calls of a flush of a buffer that is not empty.
unfoldable pub flush_member : FlushOutcome → String → ActiveSeg → Store → Store × Option StoreError
flush_member (flushed len) kind a s = (
  record (write_member s kind a.buf) {
    active = insert kind (record a { size = a.size + len; buf = []; raw_buffered = 0 }) s.active;
  },
  none,
)
flush_member failed_before kind a s = (s, some flush_failed)
flush_member torn_member kind a s =
    (record s { torn_files = insert kind true s.torn_files }, some flush_failed)
flush_member failed_after kind a s = (write_member s kind a.buf, some flush_failed)

unfoldable pub flush_locked : FlushOutcome → String → Store → Store × Option StoreError
unfolding flush_member
flush_locked o kind s = elim (lookup kind s.active) [
  | none ↦ (s, none)
  | some a ↦ if length a.buf == 0 then (s, none) else flush_member o kind a s
]

abbrev pub name_beq : SegmentName → SegmentName → Bool
name_beq a b = str_eq a.kind b.kind && str_eq a.date b.date && a.seq == b.seq

-- Whether os.Stat finds a file of that name in closed/.
unfoldable pub exists : SegmentName → List ClosedFile → Bool
exists n [] = false
exists n (c ∷ closed) = name_beq c.name n || exists n closed

-- A bound on the sequence numbers in use.
unfoldable pub seq_bound : List ClosedFile → ℕ
seq_bound [] = 0
seq_bound (c ∷ closed) = max (suc c.name.seq) (seq_bound closed)

-- The loop over `seq`, on fuel.
unfoldable pub free_seq : ℕ → ℕ → String → String → List ClosedFile → Option ℕ
free_seq zero seq kind date closed = none
free_seq (suc fuel) seq kind date closed =
    let rest = free_seq fuel (suc seq) kind date closed in
    if exists record { kind = kind; date = date; seq = seq } closed then rest else some seq

-- The fuel is one more than the numbers in use.
unfoldable pub unused_seq : String → String → List ClosedFile → Option ℕ
unfolding free_seq seq_bound
unused_seq kind date closed = free_seq (suc (seq_bound closed)) 0 kind date closed

-- The search, as the calls of Stat end. Where each of them is denied, the source goes on without end.
unfoldable pub search_seq : CloseOutcome → String → String → List ClosedFile → Option ℕ
unfolding unused_seq
search_seq (closed_with size) kind date closed = unused_seq kind date closed
search_seq not_moved kind date closed = unused_seq kind date closed
search_seq no_sidecar kind date closed = unused_seq kind date closed
search_seq stat_denied kind date closed = none

abbrev pub add_closed : ClosedFile → Store → String → Store
add_closed c s kind = record s {
  files = remove kind s.files;
  torn_files = remove kind s.torn_files;
  closed = s.closed ++ (c ∷ []);
}

-- The calls after the name is chosen, which needs a call of Stat that is not denied.
unfoldable pub move_closed :
    CloseOutcome → SegmentName → String → SegmentInfo → Store → Store × Option StoreError
move_closed (closed_with size) name kind info s = (
  add_closed
      record {
        name = name;
        content = file_of s kind;
        torn = is_torn (lookup kind s.torn_files);
        sidecar = some (record info { name = name; size_bytes = size });
      }
      s kind,
  none,
)
move_closed not_moved name kind info s = (s, some close_failed)
move_closed no_sidecar name kind info s = (
  add_closed
      record {
        name = name;
        content = file_of s kind;
        torn = is_torn (lookup kind s.torn_files);
        sidecar = none;
      }
      s kind,
  some close_failed,
)
move_closed stat_denied name kind info s = (s, some close_failed)

-- What os.Remove of the active file leaves. Its error is ignored.
unfoldable pub discard : CloseOutcome → String → Store → Store
discard (closed_with size) kind s = record s {
  files = remove kind s.files;
  torn_files = remove kind s.torn_files;
}
discard not_moved kind s = s
discard no_sidecar kind s = record s {
  files = remove kind s.files;
  torn_files = remove kind s.torn_files;
}
discard stat_denied kind s = record s {
  files = remove kind s.files;
  torn_files = remove kind s.torn_files;
}

-- The file of a record that has no time is named by the current date. `none` where the search
-- does not end.
module _ (utc_date : Time → String) where
  unfoldable pub close_file :
      Time → CloseOutcome → String → SegmentInfo → Store → Option (Store × Option StoreError)
  unfolding search_seq move_closed
  close_file now o kind info s =
      let date = if is_zero info.min_ts then utc_date now else utc_date info.min_ts in
      elim (search_seq o kind date s.closed) [
        | none ↦ none
        | some seq ↦ some (move_closed o record { kind = kind; date = date; seq = seq } kind info s)
      ]

  abbrev pub info_of : String → ActiveSeg → SegmentInfo
  info_of kind a = record {
    name = record { kind = ""; date = ""; seq = 0 };
    kind = kind;
    records = a.records;
    min_ts = a.min_ts;
    max_ts = a.max_ts;
    size_bytes = 0;
    recovered = false;
  }

  -- `rotateLocked` from `delete(s.active, kind)` on.
  unfoldable pub retire :
      Time → CloseOutcome → String → ActiveSeg → Store → Option (Store × Option StoreError)
  unfolding close_file discard
  retire now o kind a s =
      let s1 = record s { active = remove kind s.active } in
      if a.records == 0
      then some (discard o kind s1, none)
      else close_file now o kind (info_of kind a) s1

  unfoldable pub rotate_locked :
      Time → FlushOutcome → CloseOutcome → String → Store → Option (Store × Option StoreError)
  unfolding flush_locked retire
  rotate_locked now fo co kind s = elim (lookup kind s.active) [
    | none ↦ some (s, none)
    | some a ↦ elim (flush_locked fo kind s).1 [
      | some e ↦ some ((flush_locked fo kind s).0, some e)
      | none ↦ retire now co kind a (flush_locked fo kind s).0
    ]
  ]
