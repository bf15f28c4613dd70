-- ===== src/Analyzer/Dataset.antt =====
-- internal/analyzer/dataset.go: what is imported for each host. Decoding a record, which is JSON's, is a
-- parameter: it gives what the record holds by its kind, or nothing where it does not decode. The
-- texts of problems and warnings are data.
pub mod Normalize
mod Counts
mod Uniqueness
pub mod Tests
use cost_optimization.Prelude.{
  ℕ, ◌+◌, String, Bool, true, false, not, ◌||◌, Option, none, some, List, [], ◌∷◌, ◌++◌, ltb,
  if◌then◌else◌, ◌>>=◌,
}
use cost_optimization.Prelude.Assoc.{Map, string_eq, lookup, insert}
use cost_optimization.Model.{Time, Meta, ProcTop, SpikeEvent}
use cost_optimization.Model.Host.{Inventory, HostMinute}
use cost_optimization.Model.Sql.{SqlInstanceInventory, SqlSample, SqlSpikeContext}
use cost_optimization.Model.Bundle.{Manifest, SegmentMeta}
use cost_optimization.Model.Health.{SchedSnapshot, Health}
use cost_optimization.Bundle.{
  Status, imported, truncated_records, hash_mismatch, decrypt_failed, missing, SegmentResult, Fatal,
  ImportResult,
}

-- A segment that was damaged, with its status.
pub record Problem : Type 0 where
  pub segment : SegmentMeta
  pub status : Status

pub data Warning : Type 0 where
  rejected : Fatal → Warning
  damaged : String → Warning

-- A record by its kind.
pub data Decoded (F : Type 0) : Type 0 where
  an_inventory : Inventory → Decoded F
  a_minute : HostMinute F → Decoded F
  a_spike : SpikeEvent F → Decoded F
  a_proc_top : ProcTop F → Decoded F
  a_sched : SchedSnapshot → Decoded F
  a_sql_inventory : SqlInstanceInventory F → Decoded F
  a_sql_sample : SqlSample F → Decoded F
  a_sql_spike : SqlSpikeContext F → Decoded F
  a_health : Health F → Decoded F

pub record HostData (F : Type 0) : Type 0 where
  pub host_id : String
  pub inventory : Option Inventory
  pub minutes : List (HostMinute F)
  pub spikes : List (SpikeEvent F)
  pub proc_tops : List (ProcTop F)
  pub sched : List SchedSnapshot
  pub sql_inv : Map String (SqlInstanceInventory F)
  pub sql_samples : Map String (List (SqlSample F))
  pub sql_spikes : List (SqlSpikeContext F)
  pub health : List (Health F)
  pub manifests : List Manifest
  pub problems : List Problem

pub record Dataset (F : Type 0) : Type 0 where
  pub hosts : Map String (HostData F)
  pub warnings : List Warning
  pub bundles : ℕ
  pub ok_bundles : ℕ
  pub partial_bundles : ℕ
  pub rejected_bundles : ℕ

-- The element of a map that holds slices: nil where the key is missing.
abbrev pub slice_of : {A : Type 0} → Option (List A) → List A
slice_of none = []
slice_of (some xs) = xs

-- `v.TS.After(cur.TS)`, or nothing to compare with.
abbrev pub is_newer : {A : Type 0} → (A → Meta) → A → Option A → Bool
is_newer meta v none = true
is_newer meta v (some cur) = ltb (meta cur).ts (meta v).ts

module _ {F : Type 0} where
  abbrev pub new_host : String → HostData F
  new_host host_id = record {
    host_id = host_id;
    inventory = none;
    minutes = [];
    spikes = [];
    proc_tops = [];
    sched = [];
    sql_inv = [];
    sql_samples = [];
    sql_spikes = [];
    health = [];
    manifests = [];
    problems = [];
  }

  abbrev pub new_dataset : Dataset F
  new_dataset = record {
    hosts = [];
    warnings = [];
    bundles = 0;
    ok_bundles = 0;
    partial_bundles = 0;
    rejected_bundles = 0;
  }

  -- The switch of `decodeInto`.
  unfoldable pub decode_into : Option (Decoded F) → HostData F → HostData F
  decode_into none h = h
  decode_into (some (an_inventory v)) h =
      if is_newer (λ i. i.meta) v h.inventory then record h { inventory = some v } else h
  decode_into (some (a_minute v)) h = record h { minutes = h.minutes ++ v ∷ [] }
  decode_into (some (a_spike v)) h = record h { spikes = h.spikes ++ v ∷ [] }
  decode_into (some (a_proc_top v)) h = record h { proc_tops = h.proc_tops ++ v ∷ [] }
  decode_into (some (a_sched v)) h = record h { sched = h.sched ++ v ∷ [] }
  decode_into (some (a_sql_inventory v)) h =
      if is_newer (λ i. i.meta) v (lookup v.instance_key h.sql_inv)
      then record h { sql_inv = insert v.instance_key v h.sql_inv }
      else h
  decode_into (some (a_sql_sample v)) h =
      let key = v.instance_key in
      let old = slice_of (lookup key h.sql_samples) in
      record h { sql_samples = insert key (old ++ v ∷ []) h.sql_samples }
  decode_into (some (a_sql_spike v)) h = record h { sql_spikes = h.sql_spikes ++ v ∷ [] }
  decode_into (some (a_health v)) h = record h { health = h.health ++ v ∷ [] }

  abbrev pub host_of : String → Option (HostData F) → HostData F
  host_of host_id none = new_host host_id
  host_of host_id (some h) = h

  abbrev pub settle : String → HostData F × Bool → Dataset F → Dataset F
  settle id (h, true) ds = record ds {
    hosts = insert id h ds.hosts;
    partial_bundles = ds.partial_bundles + 1;
    warnings = ds.warnings ++ damaged id ∷ [];
  }
  settle id (h, false) ds = record ds {
    hosts = insert id h ds.hosts;
    ok_bundles = ds.ok_bundles + 1;
  }

  abbrev pub reject : Fatal → Dataset F → Dataset F
  reject e ds = record ds {
    rejected_bundles = ds.rejected_bundles + 1;
    warnings = ds.warnings ++ rejected e ∷ [];
  }

module _ {F L : Type 0} (decode : L → Option (Decoded F)) where
  unfoldable pub decode_all : List L → HostData F → HostData F
  unfolding decode_into
  decode_all [] h = h
  decode_all (raw ∷ raws) h = decode_all raws (decode_into (decode raw) h)

  -- The problem that a segment adds.
  abbrev pub report : SegmentResult L → HostData F → HostData F
  report seg h = record h {
    problems = h.problems ++ record { segment = seg.meta; status = seg.status } ∷ [];
  }

  -- The switch on the status; the flag is `partial`.
  abbrev pub take_segment : Status → SegmentResult L → HostData F → HostData F × Bool
  take_segment imported seg h = (decode_all seg.records h, false)
  take_segment truncated_records seg h = (decode_all seg.records (report seg h), true)
  take_segment _ seg h = (report seg h, true)

  unfoldable pub take_segments : List (SegmentResult L) → HostData F → HostData F × Bool
  unfolding decode_all
  take_segments [] h = (h, false)
  take_segments (seg ∷ segs) h =
      let (h1, torn) = take_segment seg.status seg h in
      let (h2, rest) = take_segments segs h1 in (h2, torn || rest)

  -- A bundle with a manifest.
  unfoldable pub load_manifest : Manifest → List (SegmentResult L) → Dataset F → Dataset F
  unfolding take_segments
  load_manifest m segs ds =
      let h = host_of m.host_id (lookup m.host_id ds.hosts) in
      settle m.host_id (take_segments segs (record h { manifests = h.manifests ++ m ∷ [] })) ds

  -- `none` where the manifest is nil, which panics.
  abbrev pub load_result :
      Option Fatal → Option Manifest → List (SegmentResult L) → Dataset F → Option (Dataset F)
  load_result (some e) m segs ds = some (reject e ds)
  load_result none none segs ds = none
  load_result none (some m) segs ds = some (load_manifest m segs ds)

  -- The loop over the paths, in their order, over what `bundle.Import` gives for each.
  unfoldable pub load_all : List (ImportResult L) → Dataset F → Option (Dataset F)
  unfolding load_manifest
  load_all [] ds = some ds
  load_all (r ∷ rs) ds = do
    ds1 ← load_result r.fatal r.manifest r.segments (record ds { bundles = ds.bundles + 1 })
    load_all rs ds1
