-- ===== src/Bundle/Restored.antt =====
-- The round trip through a bundle file of internal/bundle/bundle.go, and through the spool.
use cost_optimization.Prelude.{◌≡◌, ◌≢◌, String, Option, none, List, All, map}
use cost_optimization.Prelude.Assoc.{string_eq}
use cost_optimization.Store.{SegmentInfo, Store}
use cost_optimization.Bundle.{Codec, IsLawful, ImportResult, manifest_name}
use cost_optimization.Bundle.Export.{World, ExportInput, entry_name}
use cost_optimization.Bundle.RoundTrip.{Pairs, IsDistinct, IsPlain, IsRestored}

module _ (c : Codec) (w : World c.Bytes) where
  abbrev pub entry_names : List SegmentInfo → List String
  entry_names segs = map (λ seg. entry_name w seg.name) segs

  -- The names of the entries are different ones that the import keeps, and none is the manifest's.
  pub record HasEntryNames (segs : List SegmentInfo) : Type 0 where
    pub manifest : IsPlain c manifest_name
    pub plain : All (IsPlain c) (entry_names segs)
    pub other : All (λ n. manifest_name ≢ n) (entry_names segs)
    pub distinct : IsDistinct (entry_names segs)

  module _ (i : ExportInput) (ids : c.Identities) (law : IsLawful c i.recipient ids) where
    -- The import ends well, with what the files of the segments hold.
    abbrev pub IsComplete : List SegmentInfo → ImportResult c.Line → Type 0
    IsComplete segs r = (r.fatal ≡ none) × Pairs (IsRestored c w i) segs r.segments
