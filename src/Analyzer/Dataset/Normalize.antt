-- ===== src/Analyzer/Dataset/Normalize.antt =====
-- `normalize` and `LoadBundles` of internal/analyzer/dataset.go. The slices are filtered in place, by
-- writes that never overtake the reads, so here they are new lists.
use cost_optimization.Prelude.{
  String, not, ◌&&◌, Option, some, is_some, List, [], ◌∷◌, map, ◌==◌, if◌then◌else◌, ◌>>=◌, sort_by,
}
use cost_optimization.Prelude.Assoc.{Map, string_eq, lookup, insert}
use cost_optimization.Prelude.Order.{by_key}
use cost_optimization.Model.{Time, SpikeEvent}
use cost_optimization.Model.Host.{HostMinute}
use cost_optimization.Model.Sql.{SqlSample}
use cost_optimization.Bundle.{Codec, Tar}
use cost_optimization.Bundle.Import.{import_bundle}
use cost_optimization.Analyzer.Dataset.{Decoded, HostData, Dataset, new_dataset, load_all}
use text.Mathlib.Text.{◌==◌ as str_eq}

-- The error of a directory without bundles, or the dataset.
pub data Loaded (F : Type 0) : Type 0 where
  no_bundles : Loaded F
  loaded : Dataset F → Loaded F

module _ {F : Type 0} where
  -- The minutes that do not have the time of the one before them.
  unfoldable pub dedup_after : Time → List (HostMinute F) → List (HostMinute F)
  dedup_after prev [] = []
  dedup_after prev (m ∷ ms) =
      let rest = dedup_after m.meta.ts ms in if m.meta.ts == prev then rest else m ∷ rest

  unfoldable pub dedup_minutes : List (HostMinute F) → List (HostMinute F)
  unfolding dedup_after
  dedup_minutes [] = []
  dedup_minutes (m ∷ ms) = m ∷ dedup_after m.meta.ts ms

  -- The loop over the spikes with the ids seen so far.
  unfoldable pub dedup_spikes : Map String (Unit {0}) → List (SpikeEvent F) → List (SpikeEvent F)
  dedup_spikes seen [] = []
  dedup_spikes seen (s ∷ ss) =
      let skipped = dedup_spikes seen ss in
      let kept = s ∷ dedup_spikes (insert s.event_id tt seen) ss in
      if not (str_eq s.event_id "") && is_some (lookup s.event_id seen) then skipped else kept

  abbrev pub sort_samples : List (SqlSample F) → List (SqlSample F)
  sort_samples ss = sort_by (by_key (λ s. s.meta.ts)) ss

  unfoldable pub normalize : HostData F → HostData F
  unfolding dedup_minutes dedup_spikes
  normalize h = record h {
    minutes = dedup_minutes (sort_by (by_key (λ m. m.meta.ts)) h.minutes);
    spikes = dedup_spikes [] (sort_by (by_key (λ s. s.start_ts)) h.spikes);
    sql_samples = map (λ p. (p.0, sort_samples p.1)) h.sql_samples;
    health = sort_by (by_key (λ x. x.meta.ts)) h.health;
  }

  abbrev pub normalize_all : Dataset F → Dataset F
  normalize_all ds = record ds { hosts = map (λ p. (p.0, normalize p.1)) ds.hosts }

module _ {F : Type 0} (c : Codec) (ids : c.Identities) (decode : c.Line → Option (Decoded F)) where
  abbrev pub load_paths : List (Option (Tar c.Bytes)) → Option (Dataset F)
  load_paths paths = load_all decode (map (import_bundle c ids) paths) new_dataset

  -- The bundle files under the directory, in the order of their paths; `none` where a manifest is nil.
  unfoldable pub load_bundles : List (Option (Tar c.Bytes)) → Option (Loaded F)
  unfolding normalize
  load_bundles [] = some no_bundles
  load_bundles (p ∷ paths) = do ds ← load_paths (p ∷ paths); some (loaded (normalize_all ds))
