-- ===== src/Spike.antt =====
-- internal/spike/spike.go: the state of the spike detector. The children hold its operations and
-- what they prove: `Buffers` and `Baseline` the helpers, `Detector` the state machine, `Bounds`,
-- `Totality`, `Opening`, `Events` and `Counting` the theorems, `Tests` runs of it.
pub mod Buffers
pub mod Baseline
pub mod Detector
mod Bounds
mod Invariant
mod Totality
mod Opening
mod Events
mod Peak
mod Counting
mod Tests
use cost_optimization.Prelude.{ℕ, String, Bool, List, Option, ◌↔◌, true, ◌&&◌, ◌≡◌, arith}
use cost_optimization.Prelude.Assoc.{Map, Eq}
use cost_optimization.Model.{Time, MetricPoint, SpikeEvent}
use cost_optimization.Config.{SpikeRule, Config}
use text.Mathlib.Text.{◌==◌}
use text.Mathlib.TextEquality.{eq_iff}

pub record Key : Type 0 where
  pub resource : String
  pub device : String

-- One observation of several series; the map is listed in the order in which Go ranges over it.
pub record Point (F : Type 0) : Type 0 where
  pub ts : Time
  pub values : Map Key F

abbrev pub max_pre_points : ℕ
max_pre_points = 120

abbrev pub max_during_points : ℕ
max_during_points = 360

abbrev pub max_post_points : ℕ
max_post_points = 60

abbrev pub baseline_window : ℕ
baseline_window = 5760

abbrev pub baseline_min_samples : ℕ
baseline_min_samples = 240

pub record RingBuf (F : Type 0) : Type 0 where
  pub pts : List (MetricPoint F)
  pub cap : ℕ

pub record OpenEvent (F : Type 0) : Type 0 where
  pub ev : SpikeEvent F
  pub in_post : Bool
  pub post_until : Time

pub record SeriesState (F : Type 0) : Type 0 where
  pub rule : SpikeRule F
  pub key : Key
  pub pre : RingBuf F
  pub hist : List F
  pub hist_pos : ℕ
  pub hist_full : Bool
  pub baseline : F
  pub mad : F
  pub base_age : ℕ
  pub above_since : Time
  pub below_since : Time
  pub cooldown_till : Time
  pub open_event : Option (OpenEvent F)

pub record SpikeDetector (F : Type 0) : Type 0 where
  pub cfg : Config F
  pub series : Map Key (SeriesState F)
  pub open_count : ℕ

abbrev key_beq : Key → Key → Bool
key_beq a b = a.resource == b.resource && a.device == b.device

pub key_beq_iff : (a b : Key) → (key_beq a b ≡ true) ↔ (a ≡ b)
key_beq_iff a b = ground (arith, eq_iff a.resource b.resource, eq_iff a.device b.device)

instance abbrev pub key_eq : Eq Key
key_eq = record { beq = key_beq; beq_iff = key_beq_iff }
