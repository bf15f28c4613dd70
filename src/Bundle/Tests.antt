-- ===== src/Bundle/Tests.antt =====
-- Runs of internal/bundle/bundle.go over a codec in which encryption marks its text, and its theorems
-- at concrete data.
use cost_optimization.Prelude.{
  ℕ, ◌≡◌, refl, String, true, false, Option, none, some, List, [], ◌∷◌, map, ltb, if◌then◌else◌,
  sort_by,
}
use cost_optimization.Prelude.Int.{pos}
use cost_optimization.Prelude.Assoc.{string_eq, lookup, insert}
use cost_optimization.Model.Bundle.{Manifest, SegmentMeta}
use cost_optimization.Store.{SegmentName, ClosedFile, Store}
use cost_optimization.Store.Segments.{name_beq, exists}
use cost_optimization.Store.Retention.{sidecars, list_closed, remove_closed}
use cost_optimization.Bundle.{
  Gunzip, scanned, torn_header, Codec, Entry, Tar, Status, imported, hash_mismatch,
  truncated_records, missing, ImportResult, manifest_name,
}
use cost_optimization.Bundle.Reader.{read_lines, read_segment}
use cost_optimization.Bundle.Import.{
  read_entries, keep_entry, import_segment, import_tar, import_bundle, is_ok, any_usable,
}
use cost_optimization.Bundle.Export.{
  new_manifest, World, ExportInput, Exported, seal, seal_all, write_entries, assemble, pack,
  archive, periods, remove_all, export_rotated,
}
use cost_optimization.Bundle.Authentic.{IsAccounted, import_bundle-IsAccounted}
use cost_optimization.Bundle.Failure.{IsSafe, export_rotated-IsSafe}
use Prim.Native.String.{◌++◌ as ◌<>◌}

-- A line is a number, a torn one is 0.
data Text : Type 0 where
  manifest_text : Manifest → Text
  segment_text : List ℕ → Text
  sealed_text : Text → Text

abbrev open_text : Text → Option Text
open_text (sealed_text t) = some t
open_text _ = none

abbrev manifest_in : Text → Option Manifest
manifest_in (manifest_text m) = some m
manifest_in _ = none

abbrev lines_in : Text → Gunzip ℕ
lines_in (segment_text ls) = scanned ls false
lines_in _ = torn_header

abbrev digest : Text → String
digest (sealed_text (segment_text (m ∷ n ∷ []))) = "a"
digest _ = "b"

abbrev codec : Codec
codec = record {
  Bytes = Text;
  Line = ℕ;
  Identities = Unit {0};
  encrypt = λ n r t. some (sealed_text t);
  decrypt = λ ids t. open_text t;
  sha256 = digest;
  size = λ t. 1;
  marshal = manifest_text;
  unmarshal = manifest_in;
  gunzip = lines_in;
  trim = λ l. l;
  is_blank = λ l. false;
  is_json = λ l. ltb 0 l;
  clean = λ n. n;
}

abbrev seg_name : String → SegmentName
seg_name kind = record { kind = kind; date = "20240101"; seq = 0 }

abbrev closed_file : String → ClosedFile
closed_file kind = record {
  name = seg_name kind;
  content = [];
  torn = false;
  sidecar = some record {
    name = seg_name kind;
    kind = kind;
    records = 2;
    min_ts = 5;
    max_ts = 9;
    size_bytes = 1;
    recovered = false;
  };
}

abbrev spool : Store
spool = record {
  active = [];
  dropped = 0;
  files = [];
  torn_files = [];
  closed = closed_file "health" ∷ closed_file "spike" ∷ [];
}

abbrev spool_text : SegmentName → Option Text
spool_text n = some (
    if name_beq n (seg_name "spike")
    then segment_text (3 ∷ 4 ∷ [])
    else segment_text (5 ∷ 0 ∷ 6 ∷ []))

abbrev world : World Text
world = record {
  succeeds = λ call. true;
  spool_file = spool_text;
  file_name = λ n. n.kind;
  less = λ a b. false;
  deletes = λ n. true;
  now = 100;
  bundle_id = "f00d";
}

abbrev input : ExportInput
input = record {
  recipient = "age1";
  host_id = "h1";
  hostname = "db1";
  timezone = "UTC";
  config_hash = "c";
  health = record {
    expected_minutes = pos 0;
    collected_minutes = pos 0;
    gaps = [];
    permission_issues = [];
  };
  remove_after = true;
}

program : Unit {0}
unfolding lookup insert sidecars list_closed remove_closed exists read_lines read_segment keep_entry
    read_entries import_segment import_tar import_bundle any_usable is_ok seal seal_all
    write_entries assemble pack archive periods remove_all export_rotated sort_by
program = tt

exported : Exported Text
unfolding program
exported = export_rotated codec world input (spool, none)

-- Both segments are gone from the spool, and none is lost.
spool_emptied : exported.store.closed ≡ []
unfolding exported
spool_emptied = refl

abbrev statuses : ImportResult ℕ → List (Status × List ℕ)
statuses r = map (λ s. (s.status, s.records)) r.segments

abbrev import_of : Option (Tar Text) → ImportResult ℕ
import_of = import_bundle codec tt

-- The torn line is reported, and the records around it are kept.
import_whole :
    statuses (import_of exported.bundle)
    ≡ (imported, 3 ∷ 4 ∷ []) ∷ (truncated_records, 5 ∷ 6 ∷ []) ∷ []
unfolding exported
import_whole = refl

abbrev line_of : String → String → SegmentMeta
line_of kind hash = record {
  name = "segments/" <> kind <> ".age";
  kind = kind;
  sha256 = hash;
  size_bytes = pos 1;
  records = pos 2;
  min_ts = 5;
  max_ts = 9;
}

abbrev manifest : Manifest
manifest = record (new_manifest world input) {
  period_start = 5;
  period_end = 9;
  segments = line_of "spike" "a" ∷ line_of "health" "b" ∷ [];
}

abbrev entry : String → Text → Entry Text
entry name t = record { name = name; content = some (sealed_text t) }

abbrev bundle : Tar Text
bundle = record {
  entries =
      entry manifest_name (manifest_text manifest)
      ∷ entry "segments/spike.age" (segment_text (3 ∷ 4 ∷ []))
      ∷ entry "segments/health.age" (segment_text (5 ∷ 0 ∷ 6 ∷ []))
      ∷ [];
  corrupt = false;
}

-- A segment under the name of another is refused, and the other one imported.
abbrev swapped : Tar Text
swapped = record {
  entries =
      entry manifest_name (manifest_text manifest)
      ∷ entry "segments/spike.age" (segment_text (7 ∷ []))
      ∷ entry "segments/../health.age" (segment_text (5 ∷ []))
      ∷ [];
  corrupt = false;
}

import_swapped : statuses (import_of (some swapped)) ≡ (hash_mismatch, []) ∷ (missing, []) ∷ []
unfolding program
import_swapped = refl

-- An archive with an error at its end is fatal, though its segments are read.
import_cut :
    let r = import_of (some (record bundle { corrupt = true })) in
    (is_ok codec r ≡ false)
    × (statuses r ≡ (imported, 3 ∷ 4 ∷ []) ∷ (truncated_records, 5 ∷ 6 ∷ []) ∷ [])
unfolding program
import_cut = (refl, refl)

import_bundle-IsAccounted_example : IsAccounted codec tt (import_of (some swapped))
import_bundle-IsAccounted_example = import_bundle-IsAccounted codec tt (some swapped)

export_rotated-IsSafe_example :
    IsSafe codec world input spool
      (list_closed world.less spool)
      (export_rotated codec world input (spool, none))
export_rotated-IsSafe_example = export_rotated-IsSafe codec world input (spool, none)
