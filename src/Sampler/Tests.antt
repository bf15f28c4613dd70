-- ===== src/Sampler/Tests.antt =====
-- Runs of internal/sampler/sampler.go, and its theorems at concrete data.
use cost_optimization.Prelude.{
  ℕ, ◌≡◌, refl, String, false, none, some, List, [], ◌∷◌, All, arith, map, ◌+◌,
}
use cost_optimization.Float64.{fixed_float64, fixed-IsStrictOrder, lit, seconds_since}
use cost_optimization.Prelude.Assoc.{string_eq, lookup, insert}
use cost_optimization.Model.{minute, second}
use cost_optimization.Sampler.{
  HighRes, CpuTimes, DiskCounters, read, failed, unsupported, Readings, Sampler,
}
use cost_optimization.Sampler.Rates.{
  HasPct, rate, clamp_pct, latency, disk_rates, net_rates, cpu_shares, cpu_delta_pct, skip_device,
  is_loopback,
}
use cost_optimization.Sampler.Network.{nic_loop}
use cost_optimization.Sampler.Reading.{
  empty_vm, new_high_res, new_sampler, sample_cpu, core_pcts, sample_cores, sample_load,
  sample_memory, sample_swap, sample_vm, disk_loop, sample_disks, sample_net, sample_psi, probes,
  probe_all, sample,
}
use cost_optimization.Sampler.Minutes.{emit}
use cost_optimization.Sampler.Grouping.{
  IsDated, before, by_minute, no_minute, aggregates, aggregates-by_minute,
}
use cost_optimization.Prelude.Order.{IsIncreasing}
use cost_optimization.Sampler.Order.{stamps, aggregates-IsIncreasing}
use cost_optimization.Sampler.Percentages.{IsInRange, sample-IsInRange}

abbrev times_at : ℕ → ℕ → CpuTimes ℕ
times_at busy idle = record {
  user = busy;
  system = 0;
  idle = idle;
  iowait = 0;
  steal = 0;
  nice = 0;
  irq = 0;
  softirq = 0;
}

abbrev disk_at : ℕ → DiskCounters
disk_at n = record {
  read_count = n;
  write_count = n;
  read_bytes = n;
  write_bytes = n;
  read_time = n;
  write_time = n;
  io_time = n;
  weighted_io = n;
}

abbrev reading : ℕ → ℕ → ℕ → ℕ → Readings ℕ
reading now busy idle n = record {
  now = now;
  cpu_total = read (times_at busy idle ∷ []);
  cpu_cores = read (times_at busy idle ∷ []);
  load_avg = unsupported;
  memory = failed "denied";
  swap_used = read 7;
  vm_counters = unsupported;
  disk_io = read (("sda", disk_at n) ∷ ("loop0", disk_at n) ∷ []);
  nics = read [];
  psi = unsupported;
}

abbrev no_speed : String → ℕ
no_speed name = 1000

program : Unit {0}
unfolding rate clamp_pct latency disk_rates net_rates cpu_shares cpu_delta_pct skip_device
    is_loopback nic_loop new_sampler sample_cpu core_pcts sample_cores sample_load sample_memory
    sample_swap sample_vm disk_loop sample_disks sample_net sample_psi probes probe_all sample
    before by_minute seconds_since lookup insert
program = tt

-- The sampler after a first call, which gives no sample.
abbrev primed : Sampler ℕ
primed = record {
  prev_ts = minute;
  prev_cpu = times_at 5000 15000 ∷ [];
  prev_cpu_cores = times_at 5000 15000 ∷ [];
  prev_disk = ("sda", disk_at 100) ∷ ("loop0", disk_at 100) ∷ [];
  prev_net = [];
  prev_vm = empty_vm;
  prev_vm_ok = false;
  nic_speeds = [];
}

primed_is : (sample no_speed (reading minute 5000 15000 100) new_sampler).0 ≡ primed
unfolding program
primed_is = refl

primes_first : (sample no_speed (reading minute 5000 15000 100) new_sampler).1 ≡ none
unfolding program
primes_first = refl

-- One second later: a fifth of the time was busy, and the loop device is left out.
abbrev later : Readings ℕ
later = reading (minute + second) 6000 19000 150

abbrev expected : HighRes ℕ
expected = record (new_high_res {F = ℕ} (minute + second)) {
  cpu_total_pct = lit 20 1;
  cpu_user_pct = lit 20 1;
  per_core_pct = lit 20 1 ∷ [];
  swap_used_bytes = 7;
  disks =
      (
        "sda",
        record {
          read_iops = lit 50 1;
          write_iops = lit 50 1;
          read_bytes_ps = lit 50 1;
          write_bytes_ps = lit 50 1;
          read_lat_ms = lit 1 1;
          write_lat_ms = lit 1 1;
          queue_depth = lit 5 100;
          busy_pct = lit 5 1;
        },
      )
      ∷ [];
}

second_sample : (sample no_speed later primed).1 ≡ some expected
unfolding program
second_sample = refl

issues_reported :
    (sample no_speed (reading minute 5000 15000 100) new_sampler).2 ≡ ("mem.virtual", "denied") ∷ []
unfolding program
issues_reported = refl

-- A counter that went back gives a rate of 0, but a latency of about one millisecond.
reset_rate : rate {F = ℕ} 1 5 (lit 1 1) ≡ 0
unfolding program
reset_rate = refl

reset_latency : latency {F = ℕ} 1 5 1 9 ≡ 9999
unfolding program
reset_latency = refl

abbrev fixed_HasPct : HasPct ℕ
fixed_HasPct = record { order = fixed-IsStrictOrder; zero_100 = refl }

sample-IsInRange_example : IsInRange expected
sample-IsInRange_example = sample-IsInRange fixed_HasPct no_speed later primed second_sample

abbrev sample_at : ℕ → HighRes ℕ
sample_at t = new_high_res t

-- Three samples of one minute, and one of a later minute.
abbrev four : List (HighRes ℕ)
four =
    sample_at 61000000000
    ∷ sample_at 70000000000
    ∷ sample_at 119999999999
    ∷ sample_at 200000000000
    ∷ []

groups_of_four : map (λ g. g.minute) (by_minute four) ≡ 60000000000 ∷ 180000000000 ∷ []
unfolding program
groups_of_four = refl

abbrev four-IsDated : All IsDated four
four-IsDated = (omega arith, (omega arith, (omega arith, (omega arith, tt))))

aggregates-by_minute_example : aggregates four no_minute ≡ map emit (by_minute four)
aggregates-by_minute_example = aggregates-by_minute four four-IsDated

aggregates-IsIncreasing_example : IsIncreasing (stamps (aggregates four no_minute))
aggregates-IsIncreasing_example = aggregates-IsIncreasing four four-IsDated (
  (omega arith, (omega arith, (omega arith, tt))),
  ((omega arith, (omega arith, tt)), ((omega arith, tt), (tt, tt))),
)
