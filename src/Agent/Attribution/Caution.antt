-- ===== src/Agent/Attribution/Caution.antt =====
-- That `attribute` of internal/agent/attribution.go never presents a correlation as a certain cause.
use cost_optimization.Prelude.{
  ℕ, ◌≡◌, refl, ◌∙◌, String, true, false, Option, none, some, List, [], ◌∷◌, arith, if_cases,
}
use cost_optimization.Prelude.Assoc.{Map, string_eq, lookup}
use cost_optimization.Float64.{Float64, IsStrictOrder, ◌<F◌, lit}
use cost_optimization.Model.{ProcSample, ProcTop, SchedEntry, SpikeEvent}
use cost_optimization.Sched.{Calendar}
use cost_optimization.Agent.Attribution.{
  AttributionTexts, add_evidence, set_instance, note_share, note_service, note_schedule, note_sql,
  conclude, attribute_top, attribute_ranked, attribute,
}
use cost_optimization.Agent.Attribution.Ranking.{
  pid_eq, round2f, with_core_seconds, add_snapshots, core_seconds, rank_processes,
}
use cost_optimization.Agent.Attribution.Schedules.{match_schedule}

module _ {F : Type 0} ⦃f : Float64 F⦄ where
  -- What the steps after the choice of the top process leave as it is.
  record Keeps (ev r : SpikeEvent F) : Type 0 where
    validated : r.validation_required ≡ ev.validation_required
    process : r.correlated_process ≡ ev.correlated_process
    procs : r.top_procs ≡ ev.top_procs

  Keeps-refl : (ev : SpikeEvent F) → Keeps ev ev
  Keeps-refl ev = record { validated = refl; process = refl; procs = refl }

  Keeps-trans : {a b c : SpikeEvent F} → Keeps a b → Keeps b c → Keeps a c
  Keeps-trans p q = record {
    validated = q.validated ∙ p.validated;
    process = q.process ∙ p.process;
    procs = q.procs ∙ p.procs;
  }

  note_share-Keeps :
      (texts : AttributionTexts F) (top : ProcSample F) (s : SpikeEvent F × F)
      → Keeps s.0 (note_share texts top s).0
  unfolding note_share
  note_share-Keeps texts top (ev, conf) = record {
    validated = ground arith;
    process = ground arith;
    procs = ground arith;
  }

  note_service-Keeps :
      (top : ProcSample F) (s : SpikeEvent F × F) → Keeps s.0 (note_service top s).0
  unfolding note_service
  note_service-Keeps top (ev, conf) = record {
    validated = ground arith;
    process = ground arith;
    procs = ground arith;
  }

  note_schedule-Keeps : (job : String) (s : SpikeEvent F × F) → Keeps s.0 (note_schedule job s).0
  unfolding note_schedule
  note_schedule-Keeps job (ev, conf) = record {
    validated = ground arith;
    process = ground arith;
    procs = ground arith;
  }

  set_instance-Keeps : (o : Option String) (ev : SpikeEvent F) → Keeps ev (set_instance o ev)
  set_instance-Keeps none ev = Keeps-refl ev
  set_instance-Keeps (some i) ev = record { validated = refl; process = refl; procs = refl }

  note_sql-Keeps :
      (pids : Map ℕ String) (top : ProcSample F) (s : SpikeEvent F × F)
      → Keeps s.0 (note_sql pids top s).0
  unfolding note_sql
  note_sql-Keeps pids top (ev, conf) =
      let k = set_instance-Keeps (lookup top.pid pids) (record ev { sql_correlated = true }) in
      record {
        validated = ground (arith, k.validated);
        process = ground (arith, k.process);
        procs = ground (arith, k.procs);
      }

  -- At most 0.9 before it is rounded.
  abbrev pub IsCapped : F → Type 0
  IsCapped conf = (c : F) × (conf ≡ round2f c) × ((lit 9 10 <F c) ≡ false)

  -- An event that names the first of the ranked processes, at a confidence that is capped, or that
  -- names no process at no confidence.
  abbrev pub Attributed : SpikeEvent F → List (ProcSample F) → SpikeEvent F → Type 0
  Attributed ev [] r =
      (r.correlated_process ≡ ev.correlated_process) × (r.attribution_confidence ≡ lit 0 1)
  Attributed ev (top ∷ procs) r =
      (r.correlated_process ≡ top.name)
      × (r.top_procs ≡ top ∷ procs)
      × IsCapped r.attribution_confidence

  conclude-IsCapped :
      IsStrictOrder F
      → (top : ProcSample F) (s : SpikeEvent F × F)
      → IsCapped (conclude top s).attribution_confidence
  unfolding conclude
  conclude-IsCapped o top (ev, conf) = (
    _,
    refl,
    if_cases (λ c. (lit 9 10 <F c) ≡ false) (lit 9 10 <F conf) (lit 9 10) conf
        (λ above. o.lt_irrefl (lit 9 10)) (λ below. below),
  )

  attribute_top-Attributed :
      IsStrictOrder F
      → (texts : AttributionTexts F) (job : String) (pids : Map ℕ String) (top : ProcSample F)
        (procs : List (ProcSample F)) (ev : SpikeEvent F)
      → ((attribute_top texts job pids top procs ev).validation_required ≡ ev.validation_required)
        × Attributed ev (top ∷ procs) (attribute_top texts job pids top procs ev)
  unfolding attribute_top conclude
  attribute_top-Attributed o texts job pids top procs ev =
      let start = record ev { top_procs = top ∷ procs; correlated_process = top.name } in
      let s0 : SpikeEvent F × F = (add_evidence (texts.top_process top) start, lit 3 10) in
      let s1 = note_share texts top s0 in
      let s2 = note_service top s1 in
      let s3 = note_schedule job s2 in
      let k = Keeps-trans (note_share-Keeps texts top s0) (
        Keeps-trans (note_service-Keeps top s1)
          (Keeps-trans (note_schedule-Keeps job s2) (note_sql-Keeps pids top s3))) in
      (k.validated, (k.process, k.procs, conclude-IsCapped o top (note_sql pids top s3)))

  -- An event as `attribute` sets it up.
  record IsFresh (ev r : SpikeEvent F) : Type 0 where
    validated : r.validation_required ≡ true
    process : r.correlated_process ≡ ev.correlated_process
    confidence : r.attribution_confidence ≡ lit 0 1

  attribute_ranked-Attributed :
      IsStrictOrder F
      → (texts : AttributionTexts F) (job : String) (pids : Map ℕ String) (ev r : SpikeEvent F)
        (procs : List (ProcSample F))
      → IsFresh ev r
      → ((attribute_ranked texts job pids (r, procs)).validation_required ≡ true)
        × Attributed ev procs (attribute_ranked texts job pids (r, procs))
  attribute_ranked-Attributed o texts job pids ev r [] h = (h.validated, (h.process, h.confidence))
  attribute_ranked-Attributed o texts job pids ev r (top ∷ procs) h =
      let (v, a) = attribute_top-Attributed o texts job pids top procs r in (v ∙ h.validated, a)

  with_core_seconds-IsFresh :
      (seconds : Map String F) (ev r : SpikeEvent F)
      → IsFresh ev r
      → IsFresh ev (with_core_seconds seconds r)
  with_core_seconds-IsFresh seconds ev r h = record {
    validated = ground (arith, h.validated);
    process = ground (arith, h.process);
    confidence = ground (arith, h.confidence);
  }

  -- Where the comparison of float64 is a strict order: an event that `attribute` has filled always asks
  -- for validation. It names the first of the ranked processes, and lists them, at a confidence that
  -- is the rounding of at most 0.9; without any process it names no new one, at no confidence.
  pub attribute-Attributed :
      IsStrictOrder F
      → (texts : AttributionTexts F) (cal : Calendar) (ev : SpikeEvent F)
        (snapshots : List (ProcTop F)) (entries : List SchedEntry) (pids : Map ℕ String)
      → ((attribute texts cal ev snapshots entries pids).validation_required ≡ true)
        × Attributed ev
            (rank_processes snapshots
              (record ev { validation_required = true; attribution_confidence = lit 0 1 })).1
            (attribute texts cal ev snapshots entries pids)
  unfolding attribute rank_processes
  attribute-Attributed o texts cal ev snapshots entries pids =
      let ev0 = record ev { validation_required = true; attribution_confidence = lit 0 1 } in
      let seconds = core_seconds (add_snapshots snapshots []) [] in
      attribute_ranked-Attributed o texts (match_schedule cal entries ev.start_ts) pids ev
        (with_core_seconds seconds ev0) (rank_processes snapshots ev0).1
        (with_core_seconds-IsFresh seconds ev ev0
          (record { validated = refl; process = refl; confidence = refl }))
