-- ===== src/Sampler/Points.antt =====
-- `SpikePoint` and `AttachFS` of internal/sampler/sampler.go: what the detector is fed with, and the
-- file systems of a minute. What the system says of partitions is an input, and so is
-- strings.ToLower.
use cost_optimization.Prelude.{
  ℕ, String, Bool, false, Option, none, some, List, [], ◌∷◌, ◌++◌, ◌||◌, if◌then◌else◌,
}
use cost_optimization.Prelude.Assoc.{Map, insert}
use cost_optimization.Float64.{Float64, ◌+F◌}
use cost_optimization.Model.Host.{FsUsage, HostMinute}
use cost_optimization.Spike.{Key, Point, key_eq}
use cost_optimization.Sampler.{HighRes, DiskRates}
use text.Mathlib.Text.{◌==◌ as str_eq}

abbrev pub key_of : String → String → Key
key_of resource device = record { resource = resource; device = device }

module _ {F : Type 0} ⦃f : Float64 F⦄ where
  -- The loop over the disks.
  unfoldable pub disk_points : Map String (DiskRates F) → Map Key F → Map Key F
  disk_points [] vals = vals
  disk_points ((dev, d) ∷ disks) vals =
      let with_lat =
        insert (key_of "disk_latency" dev) (f.fmax d.read_lat_ms d.write_lat_ms) vals in
      let with_queue = insert (key_of "disk_queue" dev) d.queue_depth with_lat in
      disk_points disks (insert (key_of "disk_io" dev) d.busy_pct with_queue)

  abbrev pub host_points : HighRes F → Map Key F
  host_points hr =
      (key_of "cpu" "", hr.cpu_total_pct)
      ∷ (key_of "memory" "", hr.mem_used_pct)
      ∷ (key_of "paging" "", hr.page_in_ps +F hr.page_out_ps +F hr.major_fault_ps)
      ∷ []

  unfoldable pub spike_point : HighRes F → Point F
  unfolding disk_points
  spike_point hr = record { ts = hr.ts; values = disk_points hr.disks (host_points hr) }

-- A partition with its file system, and what disk.Usage says of it.
pub record Partition : Type 0 where
  pub mountpoint : String
  pub fstype : String
  pub usage : Option (ℕ × ℕ)

abbrev pub pseudo_fs : List String
pseudo_fs =
    "tmpfs" ∷ "devtmpfs" ∷ "proc" ∷ "sysfs" ∷ "cgroup" ∷ "cgroup2" ∷ "overlay" ∷ "squashfs"
    ∷ "ramfs" ∷ "devfs" ∷ "autofs" ∷ "debugfs" ∷ "tracefs" ∷ "fusectl" ∷ "configfs" ∷ "securityfs"
    ∷ "pstore" ∷ "bpf" ∷ "hugetlbfs" ∷ "mqueue" ∷ "efivarfs" ∷ []

unfoldable pub one_of : String → List String → Bool
one_of s [] = false
one_of s (t ∷ ts) = str_eq s t || one_of s ts

unfoldable pub is_pseudo_fs : (String → String) → String → Bool
unfolding one_of
is_pseudo_fs to_lower fstype = one_of (to_lower fstype) pseudo_fs

abbrev pub fs_usage : String → Option (ℕ × ℕ) → List FsUsage
fs_usage mount none = []
fs_usage mount (some (total, free)) =
    record { mount = mount; total_bytes = total; avail_bytes = free } ∷ []

-- The loop over the partitions.
unfoldable pub usages : (String → String) → List Partition → List FsUsage
unfolding is_pseudo_fs
usages to_lower [] = []
usages to_lower (p ∷ parts) =
    let rest = usages to_lower parts in
    if is_pseudo_fs to_lower p.fstype then rest else fs_usage p.mountpoint p.usage ++ rest

-- The minute afterwards; `none` where disk.Partitions fails.
unfoldable pub attach_fs :
    {F : Type 0} → (String → String) → Option (List Partition) → HostMinute F → HostMinute F
unfolding usages
attach_fs to_lower none hm = hm
attach_fs to_lower (some parts) hm = record hm { fs = hm.fs ++ usages to_lower parts }
