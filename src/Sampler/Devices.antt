-- ===== src/Sampler/Devices.antt =====
-- The aggregation of disks and network interfaces in `emit` of internal/sampler/sampler.go.
use cost_optimization.Prelude.{String, Option, none, some, List, [], ◌∷◌, ltb, if◌then◌else◌}
use cost_optimization.Prelude.Assoc.{Map, string_eq, lookup, insert}
use cost_optimization.Float64.{Float64, ◌+F◌, ◌*F◌, ◌/F◌, of_nat, lit, round2}
use cost_optimization.Model.Host.{DiskAgg, NetAgg}
use cost_optimization.Sampler.{DiskRates, NetRates}
use cost_optimization.Sampler.Rates.{clamp_pct}

-- The maps `diskAcc` and `diskCount`, and likewise those of the network.
pub record DeviceAcc (F A : Type 0) : Type 0 where
  pub acc : Map String A
  pub count : Map String F

abbrev pub no_devices : {F A : Type 0} → DeviceAcc F A
no_devices = record { acc = []; count = [] }

abbrev pub or_new : {A : Type 0} → A → Option A → A
or_new a none = a
or_new a (some b) = b

module _ {F : Type 0} ⦃f : Float64 F⦄ where
  -- One round of a loop over devices: the entry is that of the map, or a new one.
  abbrev pub add_device : {A : Type 0} → String → A → (A → A) → DeviceAcc F A → DeviceAcc F A
  add_device k fresh add d = record {
    acc = insert k (add (or_new fresh (lookup k d.acc))) d.acc;
    count = insert k (or_new (lit 0 1) (lookup k d.count) +F lit 1 1) d.count;
  }

  abbrev pub new_disk_agg : String → DiskAgg F
  new_disk_agg dev = record {
    device = dev;
    read_iops = lit 0 1;
    write_iops = lit 0 1;
    read_bytes_ps = lit 0 1;
    write_bytes_ps = lit 0 1;
    read_lat_ms = lit 0 1;
    write_lat_ms = lit 0 1;
    queue_depth = lit 0 1;
    busy_pct = lit 0 1;
  }

  unfoldable pub add_disk_rates : DiskRates F → DiskAgg F → DiskAgg F
  add_disk_rates d a = record a {
    read_iops = a.read_iops +F d.read_iops;
    write_iops = a.write_iops +F d.write_iops;
    read_bytes_ps = a.read_bytes_ps +F d.read_bytes_ps;
    write_bytes_ps = a.write_bytes_ps +F d.write_bytes_ps;
    read_lat_ms = a.read_lat_ms +F d.read_lat_ms;
    write_lat_ms = a.write_lat_ms +F d.write_lat_ms;
    queue_depth = a.queue_depth +F d.queue_depth;
    busy_pct = a.busy_pct +F d.busy_pct;
  }

  unfoldable pub add_disks :
      Map String (DiskRates F) → DeviceAcc F (DiskAgg F) → DeviceAcc F (DiskAgg F)
  unfolding add_disk_rates
  add_disks [] acc = acc
  add_disks ((dev, d) ∷ disks) acc =
      add_disks disks (add_device dev (new_disk_agg dev) (add_disk_rates d) acc)

  abbrev pub new_net_agg : String → NetAgg F
  new_net_agg name = record {
    name = name;
    rx_bytes_ps = lit 0 1;
    tx_bytes_ps = lit 0 1;
    rx_pkts_ps = lit 0 1;
    tx_pkts_ps = lit 0 1;
    errs_ps = lit 0 1;
    drops_ps = lit 0 1;
    util_pct = lit 0 1;
  }

  -- (nn.RxBytesPS+nn.TxBytesPS)*8/1e6/float64(nn.SpeedMbps)*100, clamped.
  abbrev pub utilization : NetRates F → F
  utilization nn = clamp_pct (
      (nn.rx_bytes_ps +F nn.tx_bytes_ps)
      *F lit 8 1
      /F lit 1000000 1
      /F of_nat nn.speed_mbps
      *F lit 100 1)

  unfoldable pub add_net_rates : NetRates F → NetAgg F → NetAgg F
  add_net_rates nn a = record a {
    rx_bytes_ps = a.rx_bytes_ps +F nn.rx_bytes_ps;
    tx_bytes_ps = a.tx_bytes_ps +F nn.tx_bytes_ps;
    rx_pkts_ps = a.rx_pkts_ps +F nn.rx_pkts_ps;
    tx_pkts_ps = a.tx_pkts_ps +F nn.tx_pkts_ps;
    errs_ps = a.errs_ps +F nn.errs_ps;
    drops_ps = a.drops_ps +F nn.drops_ps;
    util_pct = if ltb 0 nn.speed_mbps then f.fmax a.util_pct (utilization nn) else a.util_pct;
  }

  unfoldable pub add_nics :
      Map String (NetRates F) → DeviceAcc F (NetAgg F) → DeviceAcc F (NetAgg F)
  unfolding add_net_rates
  add_nics [] acc = acc
  add_nics ((name, nn) ∷ nics) acc =
      add_nics nics (add_device name (new_net_agg name) (add_net_rates nn) acc)

  abbrev pub mean_disk : F → DiskAgg F → DiskAgg F
  mean_disk c a = record a {
    read_iops = round2 (a.read_iops /F c);
    write_iops = round2 (a.write_iops /F c);
    read_bytes_ps = round2 (a.read_bytes_ps /F c);
    write_bytes_ps = round2 (a.write_bytes_ps /F c);
    read_lat_ms = round2 (a.read_lat_ms /F c);
    write_lat_ms = round2 (a.write_lat_ms /F c);
    queue_depth = round2 (a.queue_depth /F c);
    busy_pct = round2 (a.busy_pct /F c);
  }

  abbrev pub mean_net : F → NetAgg F → NetAgg F
  mean_net c a = record a {
    rx_bytes_ps = round2 (a.rx_bytes_ps /F c);
    tx_bytes_ps = round2 (a.tx_bytes_ps /F c);
    rx_pkts_ps = round2 (a.rx_pkts_ps /F c);
    tx_pkts_ps = round2 (a.tx_pkts_ps /F c);
    errs_ps = round2 (a.errs_ps /F c);
    drops_ps = round2 (a.drops_ps /F c);
  }

  -- The loop over the accumulated devices, in the order of the map.
  unfoldable pub means : {A : Type 0} → (F → A → A) → Map String F → Map String A → List A
  means mean count [] = []
  means mean count ((k, a) ∷ acc) =
      mean (or_new (lit 0 1) (lookup k count)) a ∷ means mean count acc

  unfoldable pub disk_aggs : DeviceAcc F (DiskAgg F) → List (DiskAgg F)
  unfolding means
  disk_aggs d = means mean_disk d.count d.acc

  unfoldable pub net_aggs : DeviceAcc F (NetAgg F) → List (NetAgg F)
  unfolding means
  net_aggs d = means mean_net d.count d.acc
