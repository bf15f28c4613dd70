-- ===== src/Bundle/Export.antt =====
-- `Export` of internal/bundle/bundle.go. Whether a call of the operating system succeeds is an input,
-- and so are the bytes of a closed segment. An error of closing a file that is given up is ignored, as
-- in the source. The manifest is in memory, so marshalling it cannot fail.
use cost_optimization.Prelude.{
  ℕ, ◌+◌, ◌≡◌, String, Bool, true, false, not, ◌&&◌, ◌||◌, Option, none, some, List, [], ◌∷◌, ltb,
  if◌then◌else◌, ◌>>=◌, map,
}
use cost_optimization.Prelude.Int.{pos}
use cost_optimization.Model.{Time, is_zero, schema_version, agent_version}
use cost_optimization.Model.Bundle.{Manifest, SegmentMeta, HealthSummary}
use cost_optimization.Store.{
  SegmentName, SegmentInfo, Store, FlushOutcome, CloseOutcome, StoreError,
}
use cost_optimization.Store.Retention.{list_closed, remove_segment}
use cost_optimization.Store.Everything.{rotate_all}
use cost_optimization.Bundle.{Codec, Entry, Tar, manifest_name}
use Prim.Native.String.{◌++◌ as ◌<>◌}

pub record ExportInput : Type 0 where
  pub recipient : String
  pub host_id : String
  pub hostname : String
  pub timezone : String
  pub config_hash : String
  pub health : HealthSummary
  pub remove_after : Bool

pub data ExportError : Type 0 where
  rotate_failed list_failed nothing_to_export io_failed : ExportError

-- The calls that may fail, besides encryption and the reading of a segment.
pub data Call : Type 0 where
  read_closed_dir make_out_dir create_file make_temp_dir write_manifest : Call
  close_tar sync_file close_out rename_file : Call
  write_cipher hash_cipher reread_cipher write_entry : SegmentName → Call

-- The environment of an export.
pub record World (B : Type 0) : Type 0 where
  pub succeeds : Call → Bool
  pub spool_file : SegmentName → Option B
  pub file_name : SegmentName → String
  pub less : SegmentName → SegmentName → Bool
  pub deletes : SegmentName → Bool
  pub now : Time
  pub bundle_id : String

pub record Exported (B : Type 0) : Type 0 where
  pub store : Store
  pub bundle : Option (Tar B)
  pub error : Option ExportError

-- The steps go on only where a call succeeds.
abbrev pub proceed : {A : Type 0} → Bool → Option A → Option A
proceed true next = next
proceed false next = none

pub proceed-eq-some :
    {A : Type 0} (b : Bool) (next : Option A) {a : A} → proceed b next ≡ some a → next ≡ some a
proceed-eq-some true next h = h
proceed-eq-some false next h = absurd (cc)

-- A ciphertext with its line of the manifest.
pub record Sealed (B : Type 0) : Type 0 where
  pub meta : SegmentMeta
  pub name : SegmentName
  pub cipher : B

abbrev pub new_manifest : {B : Type 0} → World B → ExportInput → Manifest
new_manifest w i = record {
  schema_version = schema_version;
  agent_version = agent_version;
  bundle_id = w.bundle_id;
  host_id = i.host_id;
  hostname = i.hostname;
  timezone = i.timezone;
  created_at = w.now;
  period_start = 0;
  period_end = 0;
  config_hash = i.config_hash;
  segments = [];
  health = i.health;
}

-- The two tests on the period.
abbrev pub widen : SegmentInfo → Manifest → Manifest
widen seg m = record m {
  period_start =
      if is_zero m.period_start || not (is_zero seg.min_ts) && ltb seg.min_ts m.period_start
      then seg.min_ts
      else m.period_start;
  period_end = if ltb m.period_end seg.max_ts then seg.max_ts else m.period_end;
}

unfoldable pub periods : List SegmentInfo → Manifest → Manifest
periods [] m = m
periods (seg ∷ segs) m = periods segs (widen seg m)

abbrev pub entry_name : {B : Type 0} → World B → SegmentName → String
entry_name w n = "segments/" <> w.file_name n <> ".age"

module _ (c : Codec) (w : World c.Bytes) (i : ExportInput) where
  abbrev pub sealed_of : SegmentInfo → c.Bytes → Sealed c.Bytes
  sealed_of seg ct = record {
    meta = record {
      name = entry_name w seg.name;
      kind = seg.kind;
      sha256 = c.sha256 ct;
      size_bytes = pos (c.size ct);
      records = pos seg.records;
      min_ts = seg.min_ts;
      max_ts = seg.max_ts;
    };
    name = seg.name;
    cipher = ct;
  }

  -- One round of the loop that encrypts, for the n-th call.
  unfoldable pub seal : ℕ → SegmentInfo → Option (Sealed c.Bytes)
  seal n seg = do
    plain ← w.spool_file seg.name
    ct ← c.encrypt n i.recipient plain
    proceed (w.succeeds (write_cipher seg.name) && w.succeeds (hash_cipher seg.name))
        (some (sealed_of seg ct))

  unfoldable pub seal_all : ℕ → List SegmentInfo → Option (List (Sealed c.Bytes))
  unfolding seal
  seal_all n [] = some []
  seal_all n (seg ∷ segs) = do x ← seal n seg; xs ← seal_all (n + 1) segs; some (x ∷ xs)

  -- The loop that writes the entries.
  unfoldable pub write_entries : List (Sealed c.Bytes) → Option (List (Entry c.Bytes))
  write_entries [] = some []
  write_entries (x ∷ xs) = do
    es ← write_entries xs
    proceed (w.succeeds (reread_cipher x.name) && w.succeeds (write_entry x.name))
        (some (record { name = x.meta.name; content = some x.cipher } ∷ es))

  abbrev pub manifest_of : List SegmentInfo → List (Sealed c.Bytes) → Manifest
  manifest_of segs xs = record (periods segs (new_manifest w i)) { segments = map (λ x. x.meta) xs }

  -- The calls besides those for a segment.
  abbrev pub all_calls : Bool
  all_calls =
      w.succeeds make_out_dir
      && w.succeeds create_file
      && w.succeeds make_temp_dir
      && w.succeeds write_manifest
      && w.succeeds close_tar
      && w.succeeds sync_file
      && w.succeeds close_out
      && w.succeeds rename_file

  abbrev pub tar_of : c.Bytes → List (Entry c.Bytes) → Tar c.Bytes
  tar_of mb es = record {
    entries = record { name = manifest_name; content = some mb } ∷ es;
    corrupt = false;
  }

  -- The entries, the manifest first.
  unfoldable pub assemble : List (Sealed c.Bytes) → c.Bytes → Option (Tar c.Bytes)
  unfolding write_entries
  assemble xs mb = do es ← write_entries xs; proceed all_calls (some (tar_of mb es))

  -- The manifest is encrypted by call 0.
  unfoldable pub pack : List SegmentInfo → List (Sealed c.Bytes) → Option (Tar c.Bytes)
  unfolding assemble periods
  pack segs xs = do mb ← c.encrypt 0 i.recipient (c.marshal (manifest_of segs xs)); assemble xs mb

  -- The file that is renamed into place, if no call fails.
  unfoldable pub archive : List SegmentInfo → Option (Tar c.Bytes)
  unfolding seal_all pack
  archive segs = do xs ← seal_all 1 segs; pack segs xs

  -- The last loop.
  unfoldable pub remove_all : List SegmentInfo → Store → Store
  remove_all [] s = s
  remove_all (seg ∷ segs) s = remove_all segs (remove_segment (w.deletes seg.name) seg.name s)

  abbrev pub give_up : ExportError → Store → Exported c.Bytes
  give_up e s = record { store = s; bundle = none; error = some e }

  abbrev pub finish : List SegmentInfo → Store → Option (Tar c.Bytes) → Exported c.Bytes
  finish segs s none = give_up io_failed s
  finish segs s (some t) = record {
    store = if i.remove_after then remove_all segs s else s;
    bundle = some t;
    error = none;
  }

  abbrev pub export_segments : List SegmentInfo → Store → Exported c.Bytes
  export_segments [] s = give_up nothing_to_export s
  export_segments segs s = finish segs s (archive segs)

  -- What follows `in.Store.Rotate()`.
  unfoldable pub export_rotated : Store × Option StoreError → Exported c.Bytes
  unfolding archive remove_all
  export_rotated (s, some e) = give_up rotate_failed s
  export_rotated (s, none) =
      if w.succeeds read_closed_dir
      then export_segments (list_closed w.less s) s
      else give_up list_failed s

  -- Rotate comes to an end where os.Stat is not denied (`rotate_all-IsSound`): there is a result then.
  unfoldable pub export :
      (Time → String)
      → (String → FlushOutcome × CloseOutcome)
      → List String
      → Store
      → Option (Exported c.Bytes)
  unfolding export_rotated
  export utc_date outcomes kinds s = do
    r ← rotate_all utc_date w.now outcomes kinds s
    some (export_rotated r)
