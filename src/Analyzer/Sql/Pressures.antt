-- ===== src/Analyzer/Sql/Pressures.antt =====
-- The signs of memory pressure of an instance of SQL Server.
use cost_optimization.Prelude.{◌≡◌, refl, Bool, true, false, ◌&&◌, ◌||◌, List, [], ◌∷◌, ◌++◌, arith}
use cost_optimization.Prelude.Int.{pos, ltb_ℤ}
use cost_optimization.Float64.{Float64, ◌<F◌, of_int}
use cost_optimization.Model.Sql.{SqlSample}
use cost_optimization.Analyzer.Report.{HostReport}
use cost_optimization.Analyzer.Sql.{
  Pressure, physical_memory_low, grants_pending, ple_below_floor, host_paging, SqlReport,
}
use cost_optimization.Analyzer.Sql.Instance.{signal, ple_floor, signals}

module _ {F : Type 0} where
  abbrev pub is_ple : Pressure F → Bool
  is_ple (ple_below_floor p g) = true
  is_ple _ = false

  abbrev pub is_grants : Pressure F → Bool
  is_grants (grants_pending n) = true
  is_grants _ = false

  abbrev pub any_signal : (Pressure F → Bool) → List (Pressure F) → Bool
  any_signal p [] = false
  any_signal p (x ∷ xs) = p x || any_signal p xs

module _ {F : Type 0} ⦃f : Float64 F⦄ where
  corroborated :
      (low pending short paging : Bool) (a b c d : Pressure F)
      → is_ple a ≡ false
      → is_ple b ≡ false
      → is_ple d ≡ false
      → is_grants b ≡ true
      → any_signal is_ple
          (signal low a ++ (signal pending b ++ (signal (short && pending) c ++ signal paging d)))
        ≡ true
      → any_signal is_grants
          (signal low a ++ (signal pending b ++ (signal (short && pending) c ++ signal paging d)))
        ≡ true
  corroborated low true short paging a b c d p q r s h = ground arith
  corroborated low false short paging a b c d p q r s h = ground arith

  -- A short page life expectancy never stands alone among the signs of memory pressure of an
  -- instance: wherever it is one of them, so are pending memory grants.
  pub signals-corroborated :
      (latest : SqlSample F) (hr : HostReport F) (r : SqlReport F)
      → any_signal is_ple (signals latest hr r) ≡ true
      → any_signal is_grants (signals latest hr r) ≡ true
  unfolding signals
  signals-corroborated latest hr r h =
      corroborated latest.process_physical_memory_low (ltb_ℤ (pos 0) r.grants_pending_max)
        (of_int r.ple_p5 <F ple_floor latest) hr.paging_evidence physical_memory_low
        (grants_pending r.grants_pending_max) (ple_below_floor r.ple_p5 (ple_floor latest))
        host_paging refl refl refl refl h
