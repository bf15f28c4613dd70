-- ===== src/Store/Tests.antt =====
-- The spool at concrete inputs: two days of one record each.
use cost_optimization.Prelude.{
  ◌<◌, ◌+◌, ◌^◌, ◌≡◌, ◌≢◌, ◌⊎◌, refl, String, false, Option, none, some, List, [], ◌∷◌, length,
  if◌then◌else◌, ltb, arith,
}
use cost_optimization.Prelude.Assoc.{lookup, insert, remove}
use cost_optimization.Model.{Time}
use cost_optimization.Store.{
  Record, Store, StoreError, flush_failed, close_failed, flushed, failed_before, torn_member,
  closed_with,
}
use cost_optimization.Store.Segments.{
  flush_member, flush_locked, exists, seq_bound, free_seq, unused_seq, search_seq, move_closed,
  discard, close_file, retire, rotate_locked,
}
use cost_optimization.Store.Appending.{AppendOutcomes, append_to, append}
use cost_optimization.Store.Naming.{HasDistinctNames, append-HasDistinctNames}
use cost_optimization.Store.Soundness.{IsSound, append-IsSound}
use cost_optimization.Store.Elsewhere.{IsUntouched}
use cost_optimization.Store.Tally.{tally}
use text.Mathlib.Text.{◌==◌ as str_eq}
use cost_optimization.Store.Accounting.{append-tally}

abbrev date_at : Time → String
date_at t = if ltb t 100 then "20260701" else "20260702"

program : Unit {0}
unfolding lookup insert remove flush_member flush_locked exists seq_bound free_seq unused_seq
    search_seq move_closed discard close_file retire rotate_locked append_to append
program = tt

abbrev fine : AppendOutcomes
fine = record { rotate_flush = flushed 40; rotate_close = closed_with 40; own_flush = flushed 40 }

abbrev full_disk : AppendOutcomes
full_disk = record {
  rotate_flush = torn_member;
  rotate_close = closed_with 40;
  own_flush = failed_before;
}

abbrev empty : Store
empty = record { active = []; dropped = 0; files = []; torn_files = []; closed = [] }

abbrev at : Time → Record
at t = record { bytes = 100; ts = t }

after : Option (Store × Option StoreError) → Store
after none = empty
after (some r) = r.0

error_of : Option (Store × Option StoreError) → Option StoreError
error_of none = none
error_of (some r) = r.1

first_run : Option (Store × Option StoreError)
unfolding program
first_run = append date_at 500 fine "host_minute" (at 10) empty

one : Store
unfolding program first_run after
one = after first_run

second_run : Option (Store × Option StoreError)
unfolding program one
second_run = append date_at 500 fine "host_minute" (at 200) one

two : Store
unfolding program one second_run after
two = after second_run

rotates_by_date : length two.closed ≡ 1
unfolding program first_run one second_run two after
rotates_by_date = refl

full_disk_fails :
    error_of (append date_at 500 full_disk "host_minute" (at 200) one) ≡ some flush_failed
unfolding program first_run one after error_of
full_disk_fails = refl

empty-IsSound : IsSound empty
unfolding program
empty-IsSound = record { segments = λ j. tt; sidecars = tt }

first_some : append date_at 500 fine "host_minute" (at 10) empty ≡ some (one, none)
unfolding program first_run one after
first_some = refl

second_some : append date_at 500 fine "host_minute" (at 200) one ≡ some (two, none)
unfolding program first_run one second_run two after
second_some = refl

one-IsSound : IsSound one
one-IsSound =
    append-IsSound date_at 500 fine "host_minute" (at 10) empty (one, none) empty-IsSound first_some

append-IsSound_example : IsSound two
append-IsSound_example =
    append-IsSound date_at 500 fine "host_minute" (at 200) one (two, none) one-IsSound second_some

one-HasDistinctNames : HasDistinctNames one.closed
unfolding program first_run one after HasDistinctNames
one-HasDistinctNames = tt

append-HasDistinctNames_example : HasDistinctNames two.closed
append-HasDistinctNames_example =
    append-HasDistinctNames date_at 500 fine "host_minute" (at 200) one (two, none)
      one-HasDistinctNames second_some

one_room : one.dropped + 512 < 2 ^ 64
unfolding program first_run one after
one_room = omega arith

no_error : ◌≢◌ {A = Option StoreError} none (some close_failed)
no_error h = cc

append-tally_example :
    ((tally "host_minute" two ≡ tally "host_minute" one + 1)
      ⊎ ((tally "host_minute" two ≡ tally "host_minute" one)
          × ◌≢◌ {A = Option StoreError} none none))
    × ((j : String) → str_eq "host_minute" j ≡ false → IsUntouched j one two)
append-tally_example =
    append-tally date_at 500 fine "host_minute" (at 200) one (two, none) one-IsSound.segments
      one_room second_some no_error

all_kinds : List String
all_kinds = "host_minute" ∷ "proc_top" ∷ []
