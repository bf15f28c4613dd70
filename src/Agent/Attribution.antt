-- ===== src/Agent/Attribution.antt =====
-- internal/agent/attribution.go: what a completed event is attributed to. `Ranking` is
-- `rankProcesses`, `Schedules` is `matchSchedule`. The two texts with formatted numbers are a parameter.
-- The argument numCPU, which the source does not read, is left out.
pub mod Ranking
pub mod Schedules
mod Ranked
mod Caution
mod Tests
use cost_optimization.Prelude.{
  ℕ, String, Bool, true, false, not, ◌&&◌, ◌||◌, Option, none, some, is_some, List, [], ◌∷◌, ◌++◌,
  length, ltb, leb, ◌==◌, if◌then◌else◌,
}
use cost_optimization.Prelude.Assoc.{Map, string_eq, lookup}
use cost_optimization.Float64.{Float64, ◌+F◌, ◌/F◌, ◌<F◌, lit}
use cost_optimization.Model.{ProcSample, ProcTop, SchedEntry, SpikeEvent}
use cost_optimization.Agent.Health.{bytes_beq, fold_byte}
use cost_optimization.Sched.{Calendar, codes}
use cost_optimization.Agent.Attribution.Ranking.{pid_eq, round2f, rank_processes}
use cost_optimization.Agent.Attribution.Schedules.{match_schedule}
use text.Mathlib.Text.{◌==◌ as equals}
use Prim.Native.String.{◌++◌ as ◌<>◌}

-- The texts of the top process, and of its share of the core-seconds.
pub record AttributionTexts (F : Type 0) : Type 0 where
  pub top_process : ProcSample F → String
  pub share : String → F → F → F → String

unfoldable pub lower : List ℕ → List ℕ
lower [] = []
lower (x ∷ xs) = fold_byte x ∷ lower xs

-- strings.TrimSuffix
unfoldable pub trim_suffix : List ℕ → List ℕ → List ℕ
trim_suffix suffix [] = []
trim_suffix suffix (x ∷ xs) =
    let rest = x ∷ trim_suffix suffix xs in if bytes_beq (x ∷ xs) suffix then [] else rest

-- ToLower turns no letter but an ASCII one into a letter of the word that is compared.
unfoldable pub is_sql_process : String → Bool
unfolding codes lower trim_suffix
is_sql_process name = bytes_beq (lower (trim_suffix (codes ".exe") (codes name))) (codes "sqlservr")

abbrev pub suffix_if : Bool → String → String
suffix_if b s = if b then s else ""

module _ {F : Type 0} where
  abbrev pub add_evidence : String → SpikeEvent F → SpikeEvent F
  add_evidence text ev = record ev { attribution_evidence = ev.attribution_evidence ++ text ∷ [] }

  -- The branch without any process.
  abbrev pub unattributed : SpikeEvent F → SpikeEvent F
  unattributed ev =
      add_evidence "no overlapping process snapshots"
        (record ev { probable_cause = "no process telemetry captured during event" })

  abbrev pub set_instance : Option String → SpikeEvent F → SpikeEvent F
  set_instance none ev = ev
  set_instance (some inst) ev = record ev { sql_instance = inst }

module _ {F : Type 0} ⦃f : Float64 F⦄ where
  -- The sum of the core-seconds, and what the process of the name has of them.
  unfoldable pub core_share : String → F → F → Map String F → F × F
  core_share name total top [] = (total, top)
  core_share name total top ((n, cs) ∷ rest) =
      core_share name (total +F cs) (if equals n name then cs else top) rest

  -- Each of the steps gives the event and the confidence.
  unfoldable pub note_share :
      AttributionTexts F → ProcSample F → SpikeEvent F × F → SpikeEvent F × F
  unfolding core_share
  note_share texts top (ev, conf) =
      let cs = core_share top.name (lit 0 1) (lit 0 1) ev.core_seconds_by_proc in
      if equals ev.resource "cpu"
        && ltb 0 (length ev.core_seconds_by_proc)
        && (lit 0 1 <F cs.0)
        && (lit 1 2 <F cs.1 /F cs.0)
      then (add_evidence (texts.share top.name (cs.1 /F cs.0) cs.1 cs.0) ev, conf +F lit 2 10)
      else (ev, conf)

  unfoldable pub note_service : ProcSample F → SpikeEvent F × F → SpikeEvent F × F
  note_service top (ev, conf) =
      if not (equals top.service_unit "")
      then (
        add_evidence ("process belongs to service/unit " <> top.service_unit)
            (record ev { correlated_service_or_job = top.service_unit }),
        conf +F lit 15 100,
      )
      else (ev, conf)

  unfoldable pub note_schedule : String → SpikeEvent F × F → SpikeEvent F × F
  note_schedule job (ev, conf) =
      if not (equals job "")
      then (
        add_evidence ("scheduled job matches event start time: " <> job) (record ev {
          correlated_service_or_job =
              if equals ev.correlated_service_or_job "" then job else ev.correlated_service_or_job;
        }),
        conf +F lit 2 10,
      )
      else (ev, conf)

  unfoldable pub note_sql : Map ℕ String → ProcSample F → SpikeEvent F × F → SpikeEvent F × F
  unfolding lookup is_sql_process
  note_sql sql_pids top (ev, conf) =
      let inst = lookup top.pid sql_pids in
      if is_some inst || is_sql_process top.name
      then (
        add_evidence "top process is a SQL Server engine process"
            (set_instance inst (record ev { sql_correlated = true })),
        conf,
      )
      else (ev, conf)

  -- The cap, and the phrase of the cause.
  unfoldable pub conclude : ProcSample F → SpikeEvent F × F → SpikeEvent F
  unfolding round2f
  conclude top (ev, conf) =
      let job = ev.correlated_service_or_job in
      record ev {
        attribution_confidence = round2f (if lit 9 10 <F conf then lit 9 10 else conf);
        probable_cause =
            "probably caused by "
            <> top.name
            <> suffix_if (not (equals job "")) (" via " <> job)
            <> " (temporal correlation; validate with owner)";
      }

  -- What follows the first return, for the processes from the given one on.
  unfoldable pub attribute_top :
      AttributionTexts F
      → String
      → Map ℕ String
      → ProcSample F
      → List (ProcSample F)
      → SpikeEvent F
      → SpikeEvent F
  unfolding note_share note_service note_schedule note_sql conclude
  attribute_top texts job sql_pids top procs ev =
      let start = record ev { top_procs = top ∷ procs; correlated_process = top.name } in
      conclude top (
        note_sql sql_pids top (
          note_schedule job (
            note_service top
              (note_share texts top (add_evidence (texts.top_process top) start, lit 3 10)))))

  abbrev pub attribute_ranked :
      AttributionTexts F → String → Map ℕ String → SpikeEvent F × List (ProcSample F) → SpikeEvent F
  attribute_ranked texts job sql_pids (ev, []) = unattributed ev
  attribute_ranked texts job sql_pids (ev, top ∷ procs) =
      attribute_top texts job sql_pids top procs ev

  unfoldable pub attribute :
      AttributionTexts F
      → Calendar
      → SpikeEvent F
      → List (ProcTop F)
      → List SchedEntry
      → Map ℕ String
      → SpikeEvent F
  unfolding attribute_top rank_processes match_schedule
  attribute texts cal ev snapshots entries sql_pids =
      attribute_ranked texts (match_schedule cal entries ev.start_ts) sql_pids (
        rank_processes snapshots
          (record ev { validation_required = true; attribution_confidence = lit 0 1 }))
