-- ===== src/Sampler/Rates.antt =====
-- The arithmetic of internal/sampler/sampler.go: rates of counters, percentages, and the names
-- that are left out.
use cost_optimization.Prelude.{
  ℕ, ◌+◌, ◌-◌, ◌%◌, ◌^◌, String, Bool, false, ◌||◌, ltb, if◌then◌else◌, ◌≡◌, arith, Bool-cases, inl,
  inr,
}
use cost_optimization.Float64.{
  Float64, IsStrictOrder, ◌+F◌, ◌-F◌, ◌*F◌, ◌/F◌, ◌<F◌, ◌≤F◌, of_nat, lit,
}
use cost_optimization.Sampler.{CpuTimes, DiskCounters, DiskRates, NicCounters, NetRates}
use text.Mathlib.Text.{starts_with, ◌==◌ as str_eq}

-- Addition and subtraction of uint64.
abbrev pub add_64 : ℕ → ℕ → ℕ
add_64 a b = (a + b) % 2 ^ 64

abbrev pub sub_64 : ℕ → ℕ → ℕ
sub_64 a b = (a + (2 ^ 64 - b)) % 2 ^ 64

unfoldable pub skip_device : String → Bool
skip_device dev =
    starts_with dev "loop"
    || starts_with dev "ram"
    || starts_with dev "zram"
    || starts_with dev "sr"

-- The test of the loop over the interfaces.
unfoldable pub is_loopback : String → Bool
is_loopback name = str_eq name "lo" || starts_with name "Loopback"

-- The five results of `cpuDeltaPct`.
pub record CpuPct (F : Type 0) : Type 0 where
  pub total : F
  pub user : F
  pub system : F
  pub iowait : F
  pub steal : F

-- What the theorems on percentages use of float64.
pub record HasPct (F : Type 0) ⦃f : Float64 F⦄ : Type 0 where
  pub order : IsStrictOrder F
  pub zero_100 : (lit {F = F} 100 1 <F lit 0 1) ≡ false

module _ {F : Type 0} ⦃f : Float64 F⦄ where
  abbrev pub no_cpu : CpuPct F
  no_cpu = record {
    total = lit 0 1;
    user = lit 0 1;
    system = lit 0 1;
    iowait = lit 0 1;
    steal = lit 0 1;
  }

  -- Instantiated at uint64. Under the guard the difference does not wrap.
  unfoldable pub rate : ℕ → ℕ → F → F
  rate cur prev elapsed =
      if ltb cur prev || elapsed ≤F lit 0 1 then lit 0 1 else of_nat (cur - prev) /F elapsed

  unfoldable pub clamp_pct : F → F
  clamp_pct v = if v <F lit 0 1 then lit 0 1 else if lit 100 1 <F v then lit 100 1 else v

  -- The time difference per operation, 0 without an operation.
  unfoldable pub latency : ℕ → ℕ → ℕ → ℕ → F
  latency count prev_count time prev_time =
      let dc = sub_64 count prev_count in
      if ltb 0 dc then of_nat (sub_64 time prev_time) /F of_nat dc else lit 0 1

  unfoldable pub disk_rates : DiskCounters → DiskCounters → F → DiskRates F
  unfolding rate clamp_pct latency
  disk_rates cur prev elapsed = record {
    read_iops = rate cur.read_count prev.read_count elapsed;
    write_iops = rate cur.write_count prev.write_count elapsed;
    read_bytes_ps = rate cur.read_bytes prev.read_bytes elapsed;
    write_bytes_ps = rate cur.write_bytes prev.write_bytes elapsed;
    busy_pct = clamp_pct (rate cur.io_time prev.io_time elapsed /F lit 10 1);
    queue_depth = rate cur.weighted_io prev.weighted_io elapsed /F lit 1000 1;
    read_lat_ms = latency cur.read_count prev.read_count cur.read_time prev.read_time;
    write_lat_ms = latency cur.write_count prev.write_count cur.write_time prev.write_time;
  }

  unfoldable pub net_rates : NicCounters → NicCounters → F → ℕ → NetRates F
  unfolding rate
  net_rates n prev elapsed sp = record {
    rx_bytes_ps = rate n.bytes_recv prev.bytes_recv elapsed;
    tx_bytes_ps = rate n.bytes_sent prev.bytes_sent elapsed;
    rx_pkts_ps = rate n.packets_recv prev.packets_recv elapsed;
    tx_pkts_ps = rate n.packets_sent prev.packets_sent elapsed;
    errs_ps = rate (add_64 n.errin n.errout) (add_64 prev.errin prev.errout) elapsed;
    drops_ps = rate (add_64 n.dropin n.dropout) (add_64 prev.dropin prev.dropout) elapsed;
    speed_mbps = sp;
  }

  -- The local function `pct`.
  abbrev share : F → F → F
  share all v = clamp_pct (v /F all *F lit 100 1)

  -- The test on `all` and the two results.
  unfoldable pub cpu_shares : F → F → F → F → F → F → CpuPct F
  unfolding clamp_pct
  cpu_shares all busy d_user d_sys d_iowait d_steal = if all ≤F lit 0 1 then no_cpu else record {
    total = share all busy;
    user = share all d_user;
    system = share all d_sys;
    iowait = share all d_iowait;
    steal = share all d_steal;
  }

  unfoldable pub cpu_delta_pct : CpuTimes F → CpuTimes F → CpuPct F
  unfolding cpu_shares
  cpu_delta_pct prev cur =
      let d_user = cur.user -F prev.user in
      let d_sys = cur.system -F prev.system in
      let d_idle = cur.idle -F prev.idle in
      let d_iowait = cur.iowait -F prev.iowait in
      let d_steal = cur.steal -F prev.steal in
      let d_other =
        (cur.nice -F prev.nice) +F (cur.irq -F prev.irq) +F (cur.softirq -F prev.softirq) in
      let busy = d_user +F d_sys +F d_steal +F d_other in
      let all = busy +F d_idle +F d_iowait in cpu_shares all busy d_user d_sys d_iowait d_steal

  -- Neither below 0 nor above 100; a NaN is neither.
  pub record IsPct (v : F) : Type 0 where
    pub from_0 : (v <F lit 0 1) ≡ false
    pub to_100 : (lit 100 1 <F v) ≡ false

  pub clamp_pct-IsPct : HasPct F → (v : F) → IsPct (clamp_pct v)
  unfolding clamp_pct
  clamp_pct-IsPct h v =
      ground (arith, h.zero_100, h.order.lt_irrefl (lit 0 1), h.order.lt_irrefl (lit 100 1))

  pub zero-IsPct : HasPct F → IsPct (lit {F = F} 0 1)
  zero-IsPct h = ground (arith, h.zero_100, h.order.lt_irrefl (lit 0 1))

  pub disk_rates-IsPct :
      HasPct F
      → (cur prev : DiskCounters) (elapsed : F) → IsPct (disk_rates cur prev elapsed).busy_pct
  unfolding disk_rates
  disk_rates-IsPct h cur prev elapsed = clamp_pct-IsPct h _

  -- All five shares of the processor time are percentages.
  pub record IsCpuPct (c : CpuPct F) : Type 0 where
    pub total : IsPct c.total
    pub user : IsPct c.user
    pub system : IsPct c.system
    pub iowait : IsPct c.iowait
    pub steal : IsPct c.steal

  pub no_cpu-IsCpuPct : HasPct F → IsCpuPct (no_cpu)
  no_cpu-IsCpuPct h =
      let z = zero-IsPct h in record { total = z; user = z; system = z; iowait = z; steal = z }

  cpu_shares-IsCpuPct :
      HasPct F
      → (all busy d_user d_sys d_iowait d_steal : F)
      → IsCpuPct (cpu_shares all busy d_user d_sys d_iowait d_steal)
  unfolding cpu_shares
  cpu_shares-IsCpuPct h all busy d_user d_sys d_iowait d_steal =
      elim (Bool-cases (all ≤F lit 0 1)) [
        | inl idle ↦ rw idle (no_cpu-IsCpuPct h)
        | inr busy ↦ rw busy (record {
          total = clamp_pct-IsPct h _;
          user = clamp_pct-IsPct h _;
          system = clamp_pct-IsPct h _;
          iowait = clamp_pct-IsPct h _;
          steal = clamp_pct-IsPct h _;
        })
      ]

  pub cpu_delta_pct-IsCpuPct :
      HasPct F → (prev cur : CpuTimes F) → IsCpuPct (cpu_delta_pct prev cur)
  unfolding cpu_delta_pct
  cpu_delta_pct-IsCpuPct h prev cur = cpu_shares-IsCpuPct h _ _ _ _ _ _
