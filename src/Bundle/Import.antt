-- ===== src/Bundle/Import.antt =====
-- `Import` of internal/bundle/bundle.go.
use cost_optimization.Prelude.{
  String, Bool, true, false, not, ◌||◌, Option, none, some, is_some, List, [], ◌∷◌, map,
  if◌then◌else◌,
}
use cost_optimization.Prelude.Assoc.{Map, string_eq, lookup, insert}
use cost_optimization.Model.Bundle.{Manifest, SegmentMeta}
use cost_optimization.Bundle.{
  Codec, Entry, Tar, Status, imported, hash_mismatch, decrypt_failed, truncated_records, missing,
  SegmentResult, Fatal, open_failed, bad_tar, manifest_missing, manifest_decrypt_failed,
  manifest_parse_failed, ImportResult, manifest_name,
}
use cost_optimization.Bundle.Reader.{read_segment}
use text.Mathlib.Text.{◌==◌ as str_eq, find?}

-- strings.Contains(name, "..")
abbrev pub has_dots : String → Bool
has_dots name = is_some (find? name "..")

module _ (c : Codec) where
  -- One entry of the archive: left out where its name may leave the directory, or it cannot be read.
  unfoldable pub keep_entry : String → Option c.Bytes → Map String c.Bytes → Map String c.Bytes
  keep_entry name none files = files
  keep_entry name (some b) files = if has_dots name then files else insert name b files

  unfoldable pub read_entries : List (Entry c.Bytes) → Map String c.Bytes → Map String c.Bytes
  unfolding keep_entry
  read_entries [] files = files
  read_entries (e ∷ es) files = read_entries es (keep_entry (c.clean e.name) e.content files)

  abbrev pub result : SegmentMeta → Status → List c.Line → SegmentResult c.Line
  result sm status records = record { meta = sm; status = status; records = records }

  abbrev pub usable : SegmentMeta → List c.Line → Bool → SegmentResult c.Line
  usable sm records truncated =
      result sm (if truncated then truncated_records else imported) records

  -- What decryption gives.
  abbrev pub import_plain : SegmentMeta → Option c.Bytes → SegmentResult c.Line
  import_plain sm none = result sm decrypt_failed []
  import_plain sm (some seg) = usable sm (read_segment c seg).0 (read_segment c seg).1

  -- What the archive holds under the segment's name.
  abbrev pub import_cipher : c.Identities → SegmentMeta → Option c.Bytes → SegmentResult c.Line
  import_cipher ids sm none = result sm missing []
  import_cipher ids sm (some ct) =
      if not (str_eq (c.sha256 ct) sm.sha256)
      then result sm hash_mismatch []
      else import_plain sm (c.decrypt ids ct)

  unfoldable pub import_segment :
      c.Identities → Map String c.Bytes → SegmentMeta → SegmentResult c.Line
  import_segment ids files sm = import_cipher ids sm (lookup sm.name files)

  abbrev pub failed_import : Fatal → ImportResult c.Line
  failed_import fatal = record { manifest = none; segments = []; fatal = some fatal }

  abbrev pub import_manifest :
      c.Identities → Map String c.Bytes → Option Fatal → Option Manifest → ImportResult c.Line
  import_manifest ids files fatal none = failed_import manifest_parse_failed
  import_manifest ids files fatal (some m) = record {
    manifest = some m;
    segments = map (import_segment ids files) m.segments;
    fatal = fatal;
  }

  abbrev pub open_manifest :
      c.Identities → Map String c.Bytes → Option Fatal → Option c.Bytes → ImportResult c.Line
  open_manifest ids files fatal none = failed_import manifest_decrypt_failed
  open_manifest ids files fatal (some plain) = import_manifest ids files fatal (c.unmarshal plain)

  abbrev pub find_manifest :
      c.Identities → Map String c.Bytes → Option Fatal → Option c.Bytes → ImportResult c.Line
  find_manifest ids files fatal none = failed_import manifest_missing
  find_manifest ids files fatal (some mb) = open_manifest ids files fatal (c.decrypt ids mb)

  -- An error of the archive is kept as fatal, and the import goes on with the entries before it.
  unfoldable pub import_tar : c.Identities → Tar c.Bytes → ImportResult c.Line
  unfolding import_segment
  import_tar ids t =
      let files = read_entries t.entries [] in
      let fatal = if t.corrupt then some bad_tar else none in
      find_manifest ids files fatal (lookup manifest_name files)

  -- A bundle file, or none where os.Open fails.
  unfoldable pub import_bundle : c.Identities → Option (Tar c.Bytes) → ImportResult c.Line
  unfolding import_tar
  import_bundle ids none = failed_import open_failed
  import_bundle ids (some t) = import_tar ids t

  abbrev pub is_usable : Status → Bool
  is_usable imported = true
  is_usable truncated_records = true
  is_usable _ = false

  unfoldable pub any_usable : List (SegmentResult c.Line) → Bool
  any_usable [] = false
  any_usable (s ∷ ss) = is_usable s.status || any_usable ss

  -- `Ok`.
  unfoldable pub is_ok : ImportResult c.Line → Bool
  unfolding any_usable
  is_ok r = if is_some r.fatal then false else any_usable r.segments
