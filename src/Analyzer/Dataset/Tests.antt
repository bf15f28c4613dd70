-- ===== src/Analyzer/Dataset/Tests.antt =====
-- Loads of internal/analyzer/dataset.go over bundles whose lines are records, and its theorems at
-- concrete data.
use cost_optimization.Prelude.{
  ℕ, ◌≡◌, refl, String, Bool, false, Option, none, some, List, [], ◌∷◌, map, length, sort_by,
}
use cost_optimization.Prelude.Int.{pos}
use cost_optimization.Prelude.Assoc.{string_eq, lookup, insert}
use cost_optimization.Prelude.Order.{IsIncreasing, keys, has_key}
use cost_optimization.Float64.{fixed_float64}
use cost_optimization.Model.{SpikeEvent, new_meta, static}
use cost_optimization.Model.Host.{HostMinute}
use cost_optimization.Model.Bundle.{Manifest, SegmentMeta}
use cost_optimization.Bundle.{Gunzip, scanned, torn_header, Codec, Tar, manifest_name}
use cost_optimization.Bundle.Reader.{read_lines, read_segment}
use cost_optimization.Bundle.Import.{
  keep_entry, read_entries, import_segment, import_tar, import_bundle,
}
use cost_optimization.Sampler.Minutes.{emit}
use cost_optimization.Analyzer.Dataset.{
  Decoded, a_minute, a_spike, HostData, Dataset, new_host, decode_into, decode_all, take_segments,
  load_manifest, load_all,
}
use cost_optimization.Analyzer.Dataset.Normalize.{
  dedup_after, dedup_minutes, dedup_spikes, normalize, Loaded, loaded, load_bundles,
}
use cost_optimization.Analyzer.Dataset.Counts.{IsTallied, load_bundles-IsTallied}
use cost_optimization.Analyzer.Dataset.Uniqueness.{
  stamp, normalize-minutes, HasUniqueIds, normalize-HasUniqueIds,
}

-- A line is a record, and nothing is encrypted.
data Text : Type 0 where
  manifest_text : Manifest → Text
  segment_text : List (Decoded ℕ) → Text

abbrev manifest_in : Text → Option Manifest
manifest_in (manifest_text m) = some m
manifest_in (segment_text ls) = none

abbrev lines_in : Text → Gunzip (Decoded ℕ)
lines_in (segment_text ls) = scanned ls false
lines_in (manifest_text m) = torn_header

abbrev codec : Codec
codec = record {
  Bytes = Text;
  Line = Decoded ℕ;
  Identities = Unit {0};
  encrypt = λ n r t. some t;
  decrypt = λ ids t. some t;
  sha256 = λ t. "h";
  size = λ t. 1;
  marshal = manifest_text;
  unmarshal = manifest_in;
  gunzip = lines_in;
  trim = λ l. l;
  is_blank = λ l. false;
  is_json = λ l. Bool.true;
  clean = λ n. n;
}

abbrev minute_at : ℕ → HostMinute ℕ
minute_at t = emit (record { minute = t; samples = [] })

abbrev pub spike_of : String → ℕ → SpikeEvent ℕ
spike_of id start = record {
  meta = new_meta "spike_event" start;
  event_id = id;
  resource = "cpu";
  device = "";
  start_ts = start;
  end_ts = start;
  duration_s = 0;
  baseline = 0;
  peak = 0;
  threshold = 0;
  trigger = static;
  pre_samples = [];
  during_samples = [];
  post_samples = [];
  top_procs = [];
  core_seconds_by_proc = [];
  probable_cause = "";
  correlated_process = "";
  correlated_service_or_job = "";
  attribution_confidence = 0;
  attribution_evidence = [];
  validation_required = false;
  sql_correlated = false;
  sql_instance = "";
}

abbrev line_of : String → SegmentMeta
line_of hash = record {
  name = "segments/a.age";
  kind = "host_minute";
  sha256 = hash;
  size_bytes = pos 1;
  records = pos 2;
  min_ts = 5;
  max_ts = 9;
}

abbrev manifest_with : String → Manifest
manifest_with hash = record {
  schema_version = "1.0.0";
  agent_version = "0.1.0";
  bundle_id = "b";
  host_id = "h1";
  hostname = "db1";
  timezone = "UTC";
  created_at = 9;
  period_start = 5;
  period_end = 9;
  config_hash = "c";
  segments = line_of hash ∷ [];
  health = record {
    expected_minutes = pos 0;
    collected_minutes = pos 0;
    gaps = [];
    permission_issues = [];
  };
}

abbrev bundle_with : String → List (Decoded ℕ) → Option (Tar Text)
bundle_with hash ls = some record {
  entries =
      record { name = manifest_name; content = some (manifest_text (manifest_with hash)) }
      ∷ record { name = "segments/a.age"; content = some (segment_text ls) }
      ∷ [];
  corrupt = false;
}

-- Two daily exports that overlap in a minute and in a spike.
abbrev first_day : List (Decoded ℕ)
first_day = a_minute (minute_at 180) ∷ a_minute (minute_at 120) ∷ a_spike (spike_of "e1" 130) ∷ []

abbrev second_day : List (Decoded ℕ)
second_day = a_minute (minute_at 240) ∷ a_minute (minute_at 180) ∷ a_spike (spike_of "e1" 130) ∷ []

abbrev rest_of : List (Option (Tar Text))
rest_of = bundle_with "h" second_day ∷ bundle_with "other" [] ∷ none ∷ []

program : Unit {0}
unfolding lookup insert sort_by read_lines read_segment keep_entry read_entries import_segment
    import_tar import_bundle decode_into decode_all take_segments load_manifest load_all dedup_after
    dedup_minutes dedup_spikes normalize load_bundles emit
program = tt

abbrev counts_in : Option (Loaded ℕ) → List ℕ
counts_in (some (loaded ds)) =
    ds.bundles ∷ ds.ok_bundles ∷ ds.partial_bundles ∷ ds.rejected_bundles ∷ length ds.hosts ∷ []
counts_in _ = []

-- Two whole bundles, one whose segment was exchanged, and one that cannot be opened.
loaded_counts :
    counts_in (load_bundles codec tt some (bundle_with "h" first_day ∷ rest_of))
    ≡ 4 ∷ 2 ∷ 1 ∷ 1 ∷ 1 ∷ []
unfolding program
loaded_counts = refl

abbrev merged : HostData ℕ
merged = record (new_host "h1") {
  minutes = minute_at 180 ∷ minute_at 120 ∷ minute_at 240 ∷ minute_at 180 ∷ [];
  spikes = spike_of "e1" 130 ∷ spike_of "" 140 ∷ spike_of "e1" 130 ∷ spike_of "" 140 ∷ [];
}

merged_minutes : keys stamp (normalize merged).minutes ≡ 120 ∷ 180 ∷ 240 ∷ []
unfolding program
merged_minutes = refl

merged_spikes : map (λ s. s.event_id) (normalize merged).spikes ≡ "e1" ∷ "" ∷ "" ∷ []
unfolding program
merged_spikes = refl

load_bundles-IsTallied_example :
    (ds : Dataset ℕ) × (load_bundles codec tt some (bundle_with "h" first_day ∷ rest_of)
      ≡ some (loaded ds))
    × IsTallied (length (bundle_with "h" first_day ∷ rest_of)) ds
load_bundles-IsTallied_example =
    load_bundles-IsTallied codec tt some (bundle_with "h" first_day) rest_of

normalize-minutes_example :
    IsIncreasing (keys stamp (normalize merged).minutes)
    × ((t : ℕ) → has_key stamp t (normalize merged).minutes ≡ has_key stamp t merged.minutes)
normalize-minutes_example = normalize-minutes merged

normalize-HasUniqueIds_example : HasUniqueIds (normalize merged).spikes
normalize-HasUniqueIds_example = normalize-HasUniqueIds merged
