-- ===== src/Analyzer/Host.antt =====
-- internal/analyzer/recommend.go: `analyzeHost`. Here is what it gathers from the minutes of a host
-- before it summarizes it; `Analysis` is the rest. The set of texts with the evidence of memory pressure is the list of what the texts
-- say, in the order of the minutes, before they are made distinct and sorted.
pub mod Analysis
mod Gathering
pub mod Assessment
pub mod Kept
pub mod Reports
mod Tests
use cost_optimization.Prelude.{
  ℕ, Bool, true, false, ◌&&◌, ◌||◌, Option, none, some, List, [], ◌∷◌, ◌++◌, map, if◌then◌else◌,
}
use cost_optimization.Float64.{Float64, ◌/F◌, ◌<F◌, of_nat, lit}
use cost_optimization.Model.Host.{HostMinute, DiskAgg, NetAgg, PsiAgg, FsUsage}
use cost_optimization.Analyzer.Stats.{TimedValue}

pub data Evidence (F : Type 0) : Type 0 where
  paging_observed : Evidence F
  memory_psi io_psi : F → Evidence F

pub record Gathered (F : Type 0) : Type 0 where
  pub cpu_avg : List F
  pub cpu_max : List F
  pub steal : List F
  pub mem_pct : List F
  pub mem_used_bytes : List F
  pub cpu_timed : List (TimedValue F)
  pub latencies : List F
  pub busies : List F
  pub rx : List F
  pub tx : List F
  pub pressure : List (Evidence F)
  pub paging : Bool

module _ {F : Type 0} ⦃f : Float64 F⦄ where
  unfoldable pub is_paging : HostMinute F → Bool
  is_paging m = (lit 100 1 <F m.mem.major_fault_ps) || (lit 500 1 <F m.mem.page_out_ps)

  unfoldable pub psi_evidence : Option (PsiAgg F) → List (Evidence F)
  psi_evidence none = []
  psi_evidence (some p) =
      (if (lit 5 1 <F p.mem_some_avg) || (lit 1 1 <F p.mem_full_avg)
        then memory_psi p.mem_some_avg ∷ []
        else [])
      ++ (if lit 10 1 <F p.io_some_avg then io_psi p.io_some_avg ∷ [] else [])

  unfoldable pub gather : List (HostMinute F) → Gathered F
  unfolding is_paging psi_evidence
  gather [] = record {
    cpu_avg = [];
    cpu_max = [];
    steal = [];
    mem_pct = [];
    mem_used_bytes = [];
    cpu_timed = [];
    latencies = [];
    busies = [];
    rx = [];
    tx = [];
    pressure = [];
    paging = false;
  }
  gather (m ∷ minutes) =
      let rest = gather minutes in
      record {
        cpu_avg = m.cpu.avg_pct ∷ rest.cpu_avg;
        cpu_max = m.cpu.max_pct ∷ rest.cpu_max;
        steal = m.cpu.steal_pct ∷ rest.steal;
        mem_pct = m.mem.used_pct_avg ∷ rest.mem_pct;
        mem_used_bytes = of_nat m.mem.used_bytes_avg ∷ rest.mem_used_bytes;
        cpu_timed = record { ts = m.meta.ts; v = m.cpu.avg_pct } ∷ rest.cpu_timed;
        latencies =
            map (λ (d : DiskAgg F). f.fmax d.read_lat_ms d.write_lat_ms) m.disks ++ rest.latencies;
        busies = map (λ (d : DiskAgg F). d.busy_pct) m.disks ++ rest.busies;
        rx = map (λ (n : NetAgg F). n.rx_bytes_ps /F lit 1000000 1) m.net ++ rest.rx;
        tx = map (λ (n : NetAgg F). n.tx_bytes_ps /F lit 1000000 1) m.net ++ rest.tx;
        pressure =
            (if is_paging m then paging_observed ∷ [] else [])
            ++ (psi_evidence m.psi ++ rest.pressure);
        paging = is_paging m || rest.paging;
      }

module _ {F : Type 0} where
  -- The file systems of the last minute that has any.
  unfoldable pub latest_fs : List (HostMinute F) → List FsUsage
  latest_fs [] = []
  latest_fs (m ∷ minutes) = elim (latest_fs minutes) [ [] ↦ m.fs | x ∷ xs ↦ x ∷ xs ]
