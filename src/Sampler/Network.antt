-- ===== src/Sampler/Network.antt =====
-- The loop over the network interfaces in `Sample` of internal/sampler/sampler.go.
use cost_optimization.Prelude.{
  ℕ, String, Bool, not, ◌&&◌, Option, none, some, List, [], ◌∷◌, if◌then◌else◌,
}
use cost_optimization.Prelude.Assoc.{Map, string_eq, lookup, insert}
use cost_optimization.Float64.{Float64, ◌<F◌, lit}
use cost_optimization.Sampler.{NetRates, NicCounters}
use cost_optimization.Sampler.Rates.{net_rates, is_loopback}

-- The speed from the cache, or that of the platform, which then enters the cache.
abbrev pub cached_speed : (String → ℕ) → String → Option ℕ → Map String ℕ → ℕ × Map String ℕ
cached_speed speed name (some sp) speeds = (sp, speeds)
cached_speed speed name none speeds = (speed name, insert name (speed name) speeds)

-- What the loop over the interfaces changes.
pub record NetScan (F : Type 0) : Type 0 where
  pub cur : Map String NicCounters
  pub speeds : Map String ℕ
  pub rates : Map String (NetRates F)

module _ {F : Type 0} ⦃f : Float64 F⦄ where
  abbrev pub rate_nic : (String → ℕ) → F → NicCounters → Option NicCounters → NetScan F → NetScan F
  rate_nic speed elapsed n none s = s
  rate_nic speed elapsed n (some prev) s =
      let (sp, speeds) = cached_speed speed n.name (lookup n.name s.speeds) s.speeds in
      record s { speeds = speeds; rates = insert n.name (net_rates n prev elapsed sp) s.rates }

  abbrev pub add_nic :
      (String → ℕ) → Bool → F → Map String NicCounters → NicCounters → NetScan F → NetScan F
  add_nic speed first elapsed prevs n s =
      let seen : NetScan F = record s { cur = insert n.name n s.cur } in
      if not first && lit 0 1 <F elapsed
      then rate_nic speed elapsed n (lookup n.name prevs) seen
      else seen

  unfoldable pub nic_loop :
      (String → ℕ) → Bool → F → Map String NicCounters → List NicCounters → NetScan F → NetScan F
  nic_loop speed first elapsed prevs [] s = s
  nic_loop speed first elapsed prevs (n ∷ nics) s =
      nic_loop speed first elapsed prevs nics
        (if is_loopback n.name then s else add_nic speed first elapsed prevs n s)
