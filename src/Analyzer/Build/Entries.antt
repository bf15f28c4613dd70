-- ===== src/Analyzer/Build/Entries.antt =====
-- `spikeEntry`, `validationStep` and `vcpuImpact` of internal/analyzer/analyzer.go.
use cost_optimization.Prelude.{
  ℕ, ◌/◌, String, Bool, not, ◌&&◌, ◌||◌, Option, none, some, List, [], ◌∷◌, length, ltb,
  if◌then◌else◌,
}
use cost_optimization.Prelude.Int.{pos_part}
use cost_optimization.Prelude.Assoc.{Map}
use cost_optimization.Float64.{Float64, ◌+F◌, ◌*F◌, ◌/F◌, ◌≤F◌, of_nat, lit}
use cost_optimization.Model.{SpikeEvent}
use cost_optimization.Model.Sql.{SqlActiveRequest, SqlAgentJobRun, SqlSpikeContext}
use cost_optimization.Analyzer.Recurrence.{Pattern, pattern_for}
use cost_optimization.Analyzer.Dataset.{HostData}
use cost_optimization.Analyzer.Report.{HostReport}
use cost_optimization.Analyzer.Recommend.{min_vcpu}
use cost_optimization.Analyzer.Build.{
  NextStep, confirm_agent_schedule, review_query_hash, confirm_scheduled_run, identify_task,
  ask_owner, extend_monitoring, Impact, not_extended, extended, SpikeReportEntry,
}
use text.Mathlib.Text.{◌==◌ as equals}
use Prim.Native.String.{◌++◌ as ◌<>◌}

-- The texts that package fmt forms for a pattern and for an active request.
pub record EntryTexts (F : Type 0) : Type 0 where
  pub pattern : Pattern F → String
  pub request : SqlActiveRequest → String

abbrev pub is_set : String → Bool
is_set s = not (equals s "")

abbrev pub first_request_text :
    (SqlActiveRequest → String) → String → List SqlActiveRequest → String
first_request_text text evidence [] = evidence
first_request_text text evidence (ar ∷ rest) = text ar

-- The step reads the fields of the entry that `spikeEntry` has set before.
unfoldable pub validation_step :
    (sql_evidence recurrence service_or_job process : String) → NextStep
validation_step sql_evidence recurrence service_or_job process =
    if is_set sql_evidence && is_set recurrence
    then confirm_agent_schedule
    else if is_set sql_evidence
    then review_query_hash
    else if is_set recurrence && is_set service_or_job
    then confirm_scheduled_run service_or_job
    else if is_set recurrence
    then identify_task
    else if is_set process
    then ask_owner process
    else extend_monitoring

module _ {F : Type 0} where
  -- The loop over the jobs: the last one that runs stays.
  unfoldable pub job_evidence : String → List (SqlAgentJobRun F) → String
  job_evidence evidence [] = evidence
  job_evidence evidence (j ∷ jobs) =
      job_evidence (if j.running then "SQL Agent job running: " <> j.job_name else evidence) jobs

  abbrev pub context_evidence : (SqlActiveRequest → String) → String → SqlSpikeContext F → String
  context_evidence text evidence sc =
      if equals sc.correlation_level "agent_job"
      then job_evidence evidence sc.agent_jobs
      else if equals sc.correlation_level "active_request"
      then first_request_text text evidence sc.active_requests
      else evidence

  -- The loop over the contexts of the host.
  unfoldable pub sql_evidence_of :
      (SqlActiveRequest → String) → String → String → List (SqlSpikeContext F) → String
  unfolding job_evidence
  sql_evidence_of text id evidence [] = evidence
  sql_evidence_of text id evidence (sc ∷ scs) =
      sql_evidence_of text id
        (if not (equals sc.event_id id) then evidence else context_evidence text evidence sc) scs

  abbrev pub recurrence_text : (Pattern F → String) → Option (Pattern F) → String
  recurrence_text text none = ""
  recurrence_text text (some p) = text p

module _ {F : Type 0} ⦃f : Float64 F⦄ where
  unfoldable pub core_seconds_total : F → Map String F → F
  core_seconds_total total [] = total
  core_seconds_total total ((name, cs) ∷ rest) = core_seconds_total (total +F cs) rest

  -- What follows the first return.
  abbrev pub impact_of : F → F → ℕ → Option (Impact F)
  impact_of total duration_s alloc =
      let used = total /F duration_s in
      let new_alloc = alloc / 2 in
      if ltb new_alloc min_vcpu
      then none
      else if used ≤F of_nat new_alloc *F lit 8 10
      then some (not_extended used alloc new_alloc)
      else some (
          extended used alloc (f.trunc duration_s) new_alloc
            (f.trunc (total /F (of_nat new_alloc *F lit 9 10))))

  unfoldable pub vcpu_impact : SpikeEvent F → ℕ → Option (Impact F)
  unfolding core_seconds_total
  vcpu_impact s alloc =
      let total = core_seconds_total (lit 0 1) s.core_seconds_by_proc in
      if (total ≤F lit 0 1) || (s.duration_s ≤F lit 0 1)
      then none
      else impact_of total s.duration_s alloc

  unfoldable pub spike_entry :
      EntryTexts F
      → HostData F
      → HostReport F
      → List (Pattern F)
      → SpikeEvent F
      → SpikeReportEntry F
  unfolding sql_evidence_of validation_step vcpu_impact pattern_for
  spike_entry texts h hr patterns s =
      let recurrence = recurrence_text texts.pattern (pattern_for patterns s.event_id) in
      let evidence = sql_evidence_of texts.request s.event_id "" h.sql_spikes in
      record {
        host_id = h.host_id;
        hostname = hr.hostname;
        event_id = s.event_id;
        start_ts = s.start_ts;
        duration_s = s.duration_s;
        resource = s.resource;
        device = s.device;
        baseline = s.baseline;
        peak = s.peak;
        recurrence = recurrence;
        process = s.correlated_process;
        service_or_job = s.correlated_service_or_job;
        sql_instance = s.sql_instance;
        sql_evidence = evidence;
        probable_cause = s.probable_cause;
        confidence = s.attribution_confidence;
        evidence = s.attribution_evidence;
        next_validation_step =
            validation_step evidence recurrence s.correlated_service_or_job s.correlated_process;
        vcpu_impact_note =
            if equals s.resource "cpu"
              && ltb 0 (length s.core_seconds_by_proc)
              && ltb 0 (pos_part hr.alloc_vcpu)
            then vcpu_impact s (pos_part hr.alloc_vcpu)
            else none;
      }
