-- ===== src/Analyzer/Dataset/Counts.antt =====
-- The counts of internal/analyzer/dataset.go: every bundle is counted once, and none stops the load.
use cost_optimization.Prelude.{
  ℕ, suc, All, ◌+◌, ◌≡◌, ◌≢◌, refl, ◌∙◌, subst, String, Bool, true, false, Option, none, some, List,
  [], ◌∷◌, map, length, length-append, length-map, arith,
}
use cost_optimization.Bundle.{Codec, Tar, SegmentResult, Fatal, ImportResult}
use cost_optimization.Bundle.Import.{import_bundle}
use cost_optimization.Bundle.Authentic.{IsAccounted, import_bundle-IsAccounted}
use cost_optimization.Model.Bundle.{Manifest}
use cost_optimization.Analyzer.Dataset.{
  Decoded, HostData, Dataset, new_dataset, reject, rejected, damaged, settle, load_manifest,
  load_result, load_all,
}
use cost_optimization.Analyzer.Dataset.Normalize.{normalize_all, loaded, load_bundles}

module _ {F : Type 0} where
  -- Every bundle is of one kind, and the rejected and damaged ones have a warning each.
  pub record IsTallied (n : ℕ) (ds : Dataset F) : Type 0 where
    pub counted : ds.bundles ≡ n
    pub kinds : ds.ok_bundles + ds.partial_bundles + ds.rejected_bundles ≡ n
    pub warned : length ds.warnings ≡ ds.partial_bundles + ds.rejected_bundles

  -- The state after the count goes up, before the bundle is of a kind.
  pub record IsPending (n : ℕ) (ds : Dataset F) : Type 0 where
    pub counted : ds.bundles ≡ suc n
    pub kinds : ds.ok_bundles + ds.partial_bundles + ds.rejected_bundles ≡ n
    pub warned : length ds.warnings ≡ ds.partial_bundles + ds.rejected_bundles

  settle-IsTallied :
      (n : ℕ) (id : String) (h : HostData F) (torn : Bool) (ds : Dataset F)
      → IsPending n ds
      → IsTallied (suc n) (settle id (h, torn) ds)
  settle-IsTallied n id h true ds p = record {
    counted = p.counted;
    kinds = omega (arith, p.kinds);
    warned = omega (arith, p.warned, length-append ds.warnings (damaged id ∷ []));
  }
  settle-IsTallied n id h false ds p = record {
    counted = p.counted;
    kinds = omega (arith, p.kinds);
    warned = p.warned;
  }

  reject-IsTallied :
      (n : ℕ) (e : Fatal) (ds : Dataset F) → IsPending n ds → IsTallied (suc n) (reject e ds)
  reject-IsTallied n e ds p = record {
    counted = p.counted;
    kinds = omega (arith, p.kinds);
    warned = omega (arith, p.warned, length-append ds.warnings (rejected e ∷ []));
  }

  module _ {L : Type 0} (decode : L → Option (Decoded F)) where
    -- A result with a manifest, or with a fatal error.
    load_result_total :
        (n : ℕ) (fatal : Option Fatal) (m : Option Manifest) (segs : List (SegmentResult L))
        (ds : Dataset F)
        → (m ≡ none → fatal ≢ none)
        → IsPending n ds
        → (ds1 : Dataset F) × (load_result decode fatal m segs ds ≡ some ds1)
          × IsTallied (suc n) ds1
    load_result_total n (some e) m segs ds h p = (reject e ds, refl, reject-IsTallied n e ds p)
    load_result_total n none none segs ds h p = absurd (h refl refl)
    load_result_total n none (some m) segs ds h p = (
      load_manifest decode m segs ds,
      refl,
      unfold load_manifest in settle-IsTallied n m.host_id _ _ ds p,
    )

    load_all_total :
        (n : ℕ) (rs : List (ImportResult L)) (ds : Dataset F)
        → All (λ r. r.manifest ≡ none → r.fatal ≢ none) rs
        → IsTallied n ds
        → (ds' : Dataset F) × (load_all decode rs ds ≡ some ds') × IsTallied (length rs + n) ds'
    unfolding load_all
    load_all_total n [] ds h t = (ds, refl, subst (λ k. IsTallied k ds) (omega arith) t)
    load_all_total n (r ∷ rs) ds (h, hs) t =
        let counted : IsPending n (record ds { bundles = ds.bundles + 1 }) = record {
          counted = omega (arith, t.counted);
          kinds = t.kinds;
          warned = t.warned;
        } in
        let (ds1, e1, t1) = load_result_total n r.fatal r.manifest r.segments _ h counted in
        let (ds2, e2, t2) = load_all_total (suc n) rs ds1 hs t1 in
        (ds2, rw (e1, e2) refl, subst (λ k. IsTallied k ds2) (omega arith) t2)

module _ {F : Type 0} (c : Codec) (ids : c.Identities) (decode : c.Line → Option (Decoded F)) where
  accounted :
      (paths : List (Option (Tar c.Bytes)))
      → All (λ r. r.manifest ≡ none → r.fatal ≢ none) (map (import_bundle c ids) paths)
  accounted [] = tt
  accounted (p ∷ paths) =
      (λ e. (IsAccounted.refused (import_bundle-IsAccounted c ids p) e).1, accounted paths)

  -- Whatever the bundle files hold, the load of one or more comes to an end with a dataset: no file
  -- makes it panic. The dataset counts every file once, as whole, damaged or rejected, and it has a
  -- warning for each that is damaged or rejected.
  pub load_bundles-IsTallied :
      (p : Option (Tar c.Bytes)) (paths : List (Option (Tar c.Bytes)))
      → (ds : Dataset F) × (load_bundles c ids decode (p ∷ paths) ≡ some (loaded ds))
        × IsTallied (length (p ∷ paths)) ds
  unfolding load_bundles
  load_bundles-IsTallied p paths =
      let start : IsTallied 0 (new_dataset {F = F}) = record {
        counted = refl;
        kinds = refl;
        warned = refl;
      } in
      let (ds, e, t) =
        load_all_total decode 0 (map (import_bundle c ids) (p ∷ paths)) new_dataset
          (accounted (p ∷ paths)) start in
      let n : length (map (import_bundle c ids) (p ∷ paths)) + 0 ≡ length (p ∷ paths) =
        omega (arith, length-map (import_bundle c ids) (p ∷ paths)) in
      (
        normalize_all ds,
        rw e refl,
        record { counted = t.counted ∙ n; kinds = t.kinds ∙ n; warned = t.warned },
      )
