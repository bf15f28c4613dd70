-- ===== src/Agent/Attribution/Ranking.antt =====
-- `rankProcesses` of internal/agent/attribution.go.
use cost_optimization.Prelude.{
  ℕ, ◌≡◌, ◌↔◌, String, Bool, true, not, ◌||◌, Option, none, some, List, [], ◌∷◌, map, length, take,
  ltb, ◌==◌, arith, if◌then◌else◌, sort_by,
}
use cost_optimization.Prelude.Assoc.{Eq, Map, string_eq, lookup, insert}
use cost_optimization.Float64.{Float64, ◌+F◌, ◌-F◌, ◌*F◌, ◌/F◌, ◌<F◌, of_nat, lit}
use cost_optimization.Model.{ProcSample, ProcTop, SpikeEvent}
use text.Mathlib.Text.{◌==◌ as equals}

pub eq_iff : (a b : ℕ) → ((a == b) ≡ true) ↔ (a ≡ b)
eq_iff a b = ground arith

instance abbrev pub pid_eq : Eq ℕ
pid_eq = record { beq = ◌==◌; beq_iff = eq_iff }

-- What the source keeps of a process over the snapshots.
pub record Acc (F : Type 0) : Type 0 where
  pub s : ProcSample F
  pub first_cpu_s : F
  pub last_cpu_s : F
  pub max_cpu_pct : F
  pub max_rss : ℕ
  pub max_iops : F

abbrev pub max_ranked : ℕ
max_ranked = 10

module _ {F : Type 0} ⦃f : Float64 F⦄ where
  -- float64(int(v*100)) / 100, of a value that is not negative.
  unfoldable pub round2f : F → F
  round2f v = of_nat (f.trunc (v *F lit 100 1)) /F lit 100 1

  abbrev pub acc_or_new : ProcSample F → Option (Acc F) → Acc F
  acc_or_new p none = record {
    s = p;
    first_cpu_s = p.cpu_time_s;
    last_cpu_s = lit 0 1;
    max_cpu_pct = lit 0 1;
    max_rss = 0;
    max_iops = lit 0 1;
  }
  acc_or_new p (some a) = a

  abbrev pub note_cpu : ProcSample F → Acc F → Acc F
  note_cpu p a =
      if a.max_cpu_pct <F p.cpu_pct
      then record a { max_cpu_pct = p.cpu_pct; s = record a.s { cpu_pct = p.cpu_pct } }
      else a

  abbrev pub note_rss : ProcSample F → Acc F → Acc F
  note_rss p a =
      if ltb a.max_rss p.rss_bytes
      then record a { max_rss = p.rss_bytes; s = record a.s { rss_bytes = p.rss_bytes } }
      else a

  abbrev pub note_io : ProcSample F → Acc F → Acc F
  note_io p a =
      let io = p.read_bytes_ps +F p.write_bytes_ps in
      if a.max_iops <F io
      then record a {
        max_iops = io;
        s = record a.s { read_bytes_ps = p.read_bytes_ps; write_bytes_ps = p.write_bytes_ps };
      }
      else a

  abbrev pub note_unit : ProcSample F → Acc F → Acc F
  note_unit p a =
      if not (equals p.service_unit "")
      then record a { s = record a.s { service_unit = p.service_unit } }
      else a

  unfoldable pub observe_proc : ProcSample F → Acc F → Acc F
  observe_proc p a =
      note_unit p (note_io p (note_rss p (note_cpu p (record a { last_cpu_s = p.cpu_time_s }))))

  unfoldable pub add_procs : List (ProcSample F) → Map ℕ (Acc F) → Map ℕ (Acc F)
  unfolding lookup insert observe_proc
  add_procs [] by_pid = by_pid
  add_procs (p ∷ procs) by_pid =
      add_procs procs (insert p.pid (observe_proc p (acc_or_new p (lookup p.pid by_pid))) by_pid)

  unfoldable pub add_snapshots : List (ProcTop F) → Map ℕ (Acc F) → Map ℕ (Acc F)
  unfolding add_procs
  add_snapshots [] by_pid = by_pid
  add_snapshots (snap ∷ snapshots) by_pid = add_snapshots snapshots (add_procs snap.procs by_pid)

  abbrev pub amount_of : Option F → F
  amount_of none = lit 0 1
  amount_of (some v) = v

  -- The core-seconds by the name of the process, for the loop over the processes.
  unfoldable pub core_seconds : Map ℕ (Acc F) → Map String F → Map String F
  unfolding round2f
  core_seconds [] acc = acc
  core_seconds ((pid, a) ∷ by_pid) acc =
      let cs = a.last_cpu_s -F a.first_cpu_s in
      core_seconds by_pid (
        if lit 0 1 <F cs
        then insert a.s.name (amount_of (lookup a.s.name acc) +F round2f cs) acc
        else acc)

  abbrev pub ranks_before : String → Map String F → ProcSample F → ProcSample F → Bool
  ranks_before resource seconds a b =
      if equals resource "memory" || equals resource "paging"
      then ltb b.rss_bytes a.rss_bytes
      else if equals resource "disk_io"
          || equals resource "disk_latency"
          || equals resource "disk_queue"
      then b.read_bytes_ps +F b.write_bytes_ps <F a.read_bytes_ps +F a.write_bytes_ps
      else amount_of (lookup b.name seconds) <F amount_of (lookup a.name seconds)

  abbrev pub with_core_seconds : Map String F → SpikeEvent F → SpikeEvent F
  with_core_seconds seconds ev =
      if ltb 0 (length seconds) then record ev { core_seconds_by_proc = seconds } else ev

  -- The event with its core-seconds, and the ranked processes.
  unfoldable pub rank_processes :
      List (ProcTop F) → SpikeEvent F → SpikeEvent F × List (ProcSample F)
  unfolding add_snapshots core_seconds
  rank_processes snapshots ev =
      let by_pid = add_snapshots snapshots [] in
      let seconds = core_seconds by_pid [] in
      (
        with_core_seconds seconds ev,
        take max_ranked
            (sort_by (ranks_before ev.resource seconds) (map (λ (p : ℕ × Acc F). p.1.s) by_pid)),
      )
