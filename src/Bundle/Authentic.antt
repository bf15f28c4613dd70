-- ===== src/Bundle/Authentic.antt =====
-- What `Import` of internal/bundle/bundle.go takes from a bundle that may be tampered with.
use cost_optimization.Prelude.{
  ◌≡◌, ◌≢◌, refl, subst, String, Bool, true, false, Option, none, some, List, [], ◌∷◌, All, map,
  Bool-cases, Option-cases, inl, inr,
}
use cost_optimization.Prelude.Assoc.{Map, string_eq, lookup}
use cost_optimization.Model.Bundle.{Manifest, SegmentMeta}
use cost_optimization.Bundle.{
  Codec, Tar, Status, hash_mismatch, decrypt_failed, missing, SegmentResult, Fatal, ImportResult,
}
use cost_optimization.Bundle.Reader.{read_segment}
use cost_optimization.Bundle.Import.{
  result, usable, failed_import, import_cipher, import_segment, import_manifest, open_manifest,
  find_manifest, import_tar, import_bundle, is_usable,
}
use text.Mathlib.Text.{◌==◌ as str_eq}
use text.Mathlib.TextEquality.{eq_iff}
use mathlib.Core.Option.{some-injective}

module _ (c : Codec) (ids : c.Identities) where
  -- The records are those of a ciphertext that has the manifest's hash and opens with the identities.
  abbrev pub IsGenuine : SegmentResult c.Line → Type 0
  IsGenuine r =
      (ct : c.Bytes) × (plain : c.Bytes) × (c.sha256 ct ≡ r.meta.sha256)
      × (c.decrypt ids ct ≡ some plain)
      × (r.records ≡ (read_segment c plain).0)

  abbrev pub IsAuthentic : SegmentResult c.Line → Type 0
  IsAuthentic r =
      (is_usable c r.status ≡ true → IsGenuine r) × (is_usable c r.status ≡ false → r.records ≡ [])

  empty-IsAuthentic :
      (sm : SegmentMeta) (status : Status)
      → is_usable c status ≡ false
      → IsAuthentic (result c sm status [])
  empty-IsAuthentic sm status e = (λ h. absurd (cc), λ h. refl)

  usable-IsAuthentic :
      (sm : SegmentMeta) (ct plain : c.Bytes) (truncated : Bool)
      → c.sha256 ct ≡ sm.sha256
      → c.decrypt ids ct ≡ some plain
      → IsAuthentic (usable c sm (read_segment c plain).0 truncated)
  usable-IsAuthentic sm ct plain true same opened =
      (λ h. (ct, plain, same, opened, refl), λ h. absurd (cc))
  usable-IsAuthentic sm ct plain false same opened =
      (λ h. (ct, plain, same, opened, refl), λ h. absurd (cc))

  import_cipher-IsAuthentic :
      (sm : SegmentMeta) (o : Option c.Bytes) → IsAuthentic (import_cipher c ids sm o)
  import_cipher-IsAuthentic sm none = empty-IsAuthentic sm missing refl
  import_cipher-IsAuthentic sm (some ct) = elim (Bool-cases (str_eq (c.sha256 ct) sm.sha256)) [
    | inr other ↦ rw other (empty-IsAuthentic sm hash_mismatch refl)
    | inl same ↦ elim (Option-cases (c.decrypt ids ct)) [
      | inl shut ↦ rw (same, shut) (empty-IsAuthentic sm decrypt_failed refl)
      | inr (plain, opened) ↦
          rw (same, opened) (usable-IsAuthentic sm ct plain _ ((eq_iff _ _).0 same) opened)
    ]
  ]

  import_all-IsAuthentic :
      (files : Map String c.Bytes) (sms : List SegmentMeta)
      → All IsAuthentic (map (import_segment c ids files) sms)
  unfolding import_segment
  import_all-IsAuthentic files [] = tt
  import_all-IsAuthentic files (sm ∷ sms) =
      (import_cipher-IsAuthentic sm (lookup sm.name files), import_all-IsAuthentic files sms)

  -- A part of the result that every way through `Import` keeps: without a manifest there are no
  -- segments and there is a fatal error; with one, the segments are those that it lists.
  pub record IsAccounted (r : ImportResult c.Line) : Type 0 where
    pub authentic : All IsAuthentic r.segments
    pub refused : r.manifest ≡ none → (r.segments ≡ []) × (r.fatal ≢ none)
    pub listed : (m : Manifest) → r.manifest ≡ some m → map (λ s. s.meta) r.segments ≡ m.segments

  failed_import-IsAccounted : (e : Fatal) → IsAccounted (failed_import c e)
  failed_import-IsAccounted e = record {
    authentic = tt;
    refused = λ h. (refl, λ p. cc);
    listed = λ m h. absurd (cc);
  }

  metas-import_cipher :
      (sm : SegmentMeta) (o : Option c.Bytes) → (import_cipher c ids sm o).meta ≡ sm
  metas-import_cipher sm none = refl
  metas-import_cipher sm (some ct) = elim (Bool-cases (str_eq (c.sha256 ct) sm.sha256)) [
    | inr other ↦ rw other refl
    | inl same ↦ elim (Option-cases (c.decrypt ids ct)) [
      | inl shut ↦ rw (same, shut) refl
      | inr (plain, opened) ↦ rw (same, opened) refl
    ]
  ]

  metas-import_all :
      (files : Map String c.Bytes) (sms : List SegmentMeta)
      → map (λ s. s.meta) (map (import_segment c ids files) sms) ≡ sms
  unfolding import_segment
  metas-import_all files [] = refl
  metas-import_all files (sm ∷ sms) =
      cc (metas-import_cipher sm (lookup sm.name files), metas-import_all files sms)

  import_manifest-IsAccounted :
      (files : Map String c.Bytes) (fatal : Option Fatal) (o : Option Manifest)
      → IsAccounted (import_manifest c ids files fatal o)
  import_manifest-IsAccounted files fatal none = failed_import-IsAccounted _
  import_manifest-IsAccounted files fatal (some m) = record {
    authentic = import_all-IsAuthentic files m.segments;
    refused = λ h. absurd (cc);
    listed = λ m' h.
        subst (λ x. map (λ s. s.meta) (map (import_segment c ids files) m.segments) ≡ x.segments)
          (some-injective _ _ h) (metas-import_all files m.segments);
  }

  open_manifest-IsAccounted :
      (files : Map String c.Bytes) (fatal : Option Fatal) (o : Option c.Bytes)
      → IsAccounted (open_manifest c ids files fatal o)
  open_manifest-IsAccounted files fatal none = failed_import-IsAccounted _
  open_manifest-IsAccounted files fatal (some plain) =
      import_manifest-IsAccounted files fatal (c.unmarshal plain)

  find_manifest-IsAccounted :
      (files : Map String c.Bytes) (fatal : Option Fatal) (o : Option c.Bytes)
      → IsAccounted (find_manifest c ids files fatal o)
  find_manifest-IsAccounted files fatal none = failed_import-IsAccounted _
  find_manifest-IsAccounted files fatal (some mb) =
      open_manifest-IsAccounted files fatal (c.decrypt ids mb)

  -- Whatever the file holds, the import of a bundle accounts for every segment that its manifest
  -- lists, in order and once. Records come only from a ciphertext with the hash that the manifest
  -- states, which one of the identities opens; a segment of any other status gives none. Without a
  -- manifest there is a fatal error and no segment.
  pub import_bundle-IsAccounted :
      (file : Option (Tar c.Bytes)) → IsAccounted (import_bundle c ids file)
  unfolding import_bundle
  import_bundle-IsAccounted none = failed_import-IsAccounted _
  import_bundle-IsAccounted (some t) = unfold import_tar in find_manifest-IsAccounted _ _ _
