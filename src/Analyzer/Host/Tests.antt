-- ===== src/Analyzer/Host/Tests.antt =====
-- One minute with paging.
use cost_optimization.Prelude.{ℕ, ◌≡◌, refl, true, none, [], ◌∷◌}
use cost_optimization.Prelude.Int.{pos}
use cost_optimization.Float64.{fixed_float64}
use cost_optimization.Model.{new_meta}
use cost_optimization.Model.Host.{HostMinute}
use cost_optimization.Analyzer.Host.{is_paging, psi_evidence, gather, latest_fs}

program : Unit {0}
unfolding is_paging psi_evidence gather latest_fs
program = tt

abbrev paging_minute : HostMinute ℕ
paging_minute = record {
  meta = new_meta "host_minute" 60;
  samples = pos 4;
  cpu = record {
    avg_pct = 100000;
    max_pct = 200000;
    user_pct = 0;
    system_pct = 0;
    iowait_pct = 0;
    steal_pct = 0;
    per_core_max = [];
    load1 = 0;
    load5 = 0;
    run_queue = 0;
    ctx_switch_ps = 0;
  };
  mem = record {
    used_pct_avg = 500000;
    used_pct_max = 500000;
    used_bytes_avg = 1000;
    avail_bytes_min = 0;
    committed_bytes = 0;
    swap_used_bytes = 0;
    page_in_ps = 0;
    page_out_ps = 6000000;
    major_fault_ps = 0;
  };
  disks = [];
  fs = [];
  net = [];
  psi = none;
}

paging_seen : (gather (paging_minute ∷ [])).paging ≡ true
unfolding program
paging_seen = refl

no_file_systems : latest_fs (paging_minute ∷ []) ≡ []
unfolding program
no_file_systems = refl
