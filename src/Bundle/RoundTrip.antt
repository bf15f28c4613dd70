-- ===== src/Bundle/RoundTrip.antt =====
-- What `Export` of internal/bundle/bundle.go writes, `Import` reads back.
use cost_optimization.Prelude.{
  ℕ, ◌+◌, ◌≡◌, ◌≢◌, refl, sym, subst, ap, ◌∙◌, String, Bool, true, false, some, List, [], ◌∷◌, All,
  map, arith, >>=-eq-some,
}
use cost_optimization.Prelude.Assoc.{
  Map, string_eq, lookup, insert, lookup-insert, lookup-insert_self,
}
use cost_optimization.Store.{SegmentInfo}
use cost_optimization.Bundle.{Codec, IsLawful, Entry, SegmentResult}
use cost_optimization.Bundle.Reader.{read_segment}
use cost_optimization.Bundle.Import.{
  has_dots, usable, is_usable, keep_entry, read_entries, import_segment,
}
use cost_optimization.Bundle.Export.{
  World, ExportInput, Sealed, entry_name, seal, seal_all, write_entries, proceed-eq-some,
}
use text.Mathlib.Text.{◌==◌ as str_eq}
use text.Mathlib.TextEquality.{eq_iff}
use mathlib.Core.Option.{some-injective}

-- The pairs of two lists of one length.
abbrev pub Pairs : {A B : Type 0} → (A → B → Type 0) → List A → List B → Type 0
Pairs R [] [] = Unit
Pairs R (a ∷ as') (b ∷ bs) = R a b × Pairs R as' bs
Pairs R _ _ = ⊥

abbrev pub IsDistinct : List String → Type 0
IsDistinct [] = Unit
IsDistinct (x ∷ xs) = All (λ y. x ≢ y) xs × IsDistinct xs

lookup-insert_other :
    {A : Type 0} (k j : String) (v : A) (m : Map String A)
    → k ≢ j
    → lookup k (insert j v m) ≡ lookup k m
lookup-insert_other k j v m h = ground (arith, lookup-insert j k v m, eq_iff j k, h)

module _ (c : Codec) where
  -- A name that the import keeps as it is.
  abbrev pub IsPlain : String → Type 0
  IsPlain name = (c.clean name ≡ name) × (has_dots name ≡ false)

  abbrev pub entry_of : Sealed c.Bytes → Entry c.Bytes
  entry_of x = record { name = x.meta.name; content = some x.cipher }

  abbrev pub names : List (Sealed c.Bytes) → List String
  names xs = map (λ x. x.meta.name) xs

  keep_entry-plain :
      (name : String) (b : c.Bytes) (files : Map String c.Bytes)
      → IsPlain name
      → keep_entry c (c.clean name) (some b) files ≡ insert name b files
  unfolding keep_entry
  keep_entry-plain name b files (cleaned, dots) = rw (cleaned, dots) refl

  pub read_entries-cons :
      (name : String) (b : c.Bytes) (es : List (Entry c.Bytes)) (files : Map String c.Bytes)
      → IsPlain name
      → read_entries c (record { name = name; content = some b } ∷ es) files
        ≡ read_entries c es (insert name b files)
  unfolding read_entries
  read_entries-cons name b es files p = ap (read_entries c es) (keep_entry-plain name b files p)

  -- A name that no entry has keeps what the map holds.
  pub lookup-read_entries :
      (k : String) (xs : List (Sealed c.Bytes)) (files : Map String c.Bytes)
      → All IsPlain (names xs)
      → All (λ n. k ≢ n) (names xs)
      → lookup k (read_entries c (map entry_of xs) files) ≡ lookup k files
  lookup-read_entries k [] files p q = unfold read_entries in refl
  lookup-read_entries k (x ∷ xs) files (p, ps) (q, qs) =
      ap (lookup k) (read_entries-cons x.meta.name x.cipher (map entry_of xs) files p)
      ∙ lookup-read_entries k xs (insert x.meta.name x.cipher files) ps qs
      ∙ lookup-insert_other k x.meta.name x.cipher files q

  -- Every entry is found under its name.
  pub entries-found :
      (xs : List (Sealed c.Bytes)) (files : Map String c.Bytes)
      → All IsPlain (names xs)
      → IsDistinct (names xs)
      → All (λ x. lookup x.meta.name (read_entries c (map entry_of xs) files) ≡ some x.cipher) xs
  entries-found [] files p d = tt
  entries-found (x ∷ xs) files (p, ps) (d, ds) =
      let e = read_entries-cons x.meta.name x.cipher (map entry_of xs) files p in
      subst (λ m. All (λ y. lookup y.meta.name m ≡ some y.cipher) (x ∷ xs)) (sym e)
        (
          lookup-read_entries x.meta.name xs _ ps d ∙ lookup-insert_self x.meta.name x.cipher files,
          entries-found xs (insert x.meta.name x.cipher files) ps ds,
        )

  module _ (w : World c.Bytes) (i : ExportInput) where
    pub write_entries-some :
        (xs : List (Sealed c.Bytes)) {es : List (Entry c.Bytes)}
        → write_entries c w i xs ≡ some es
        → es ≡ map entry_of xs
    unfolding write_entries
    write_entries-some [] h = ground arith
    write_entries-some (x ∷ xs) h =
        let (es, e, h1) = >>=-eq-some _ _ h in
        let h2 = proceed-eq-some _ _ h1 in
        sym (some-injective _ _ h2) ∙ ap (λ rest. entry_of x ∷ rest) (write_entries-some xs e)

    -- The segment was encrypted from the bytes of its file, and its line names and hashes that.
    abbrev pub IsSealOf : SegmentInfo → Sealed c.Bytes → Type 0
    IsSealOf seg x =
        (n : ℕ) × (plain : c.Bytes) × (w.spool_file seg.name ≡ some plain)
        × (c.encrypt n i.recipient plain ≡ some x.cipher)
        × (x.meta.name ≡ entry_name w seg.name)
        × (x.meta.sha256 ≡ c.sha256 x.cipher)

    seal-IsSealOf :
        (n : ℕ) (seg : SegmentInfo) {x : Sealed c.Bytes}
        → seal c w i n seg ≡ some x
        → IsSealOf seg x
    unfolding seal
    seal-IsSealOf n seg h =
        let (plain, e1, h1) = >>=-eq-some _ _ h in
        let (ct, e2, h2) = >>=-eq-some _ _ h1 in
        subst (IsSealOf seg) (some-injective _ _ (proceed-eq-some _ _ h2))
          (n, plain, e1, e2, refl, refl)

    pub seal_all-IsSealOf :
        (n : ℕ) (segs : List SegmentInfo) {xs : List (Sealed c.Bytes)}
        → seal_all c w i n segs ≡ some xs
        → Pairs IsSealOf segs xs
    unfolding seal_all
    seal_all-IsSealOf n [] h = subst (Pairs IsSealOf []) (some-injective _ _ h) tt
    seal_all-IsSealOf n (seg ∷ segs) h =
        let (x, e1, h1) = >>=-eq-some _ _ h in
        let (xs, e2, h2) = >>=-eq-some _ _ h1 in
        let both : Pairs IsSealOf (seg ∷ segs) (x ∷ xs) =
          (seal-IsSealOf n seg e1, seal_all-IsSealOf (n + 1) segs e2) in
        subst (Pairs IsSealOf (seg ∷ segs)) (some-injective _ _ h2) both

    -- The outcome of the import of a segment: what reading its file in the spool gives.
    abbrev pub IsRestored : SegmentInfo → SegmentResult c.Line → Type 0
    IsRestored seg r =
        (plain : c.Bytes) × (w.spool_file seg.name ≡ some plain)
        × (r.meta.name ≡ entry_name w seg.name)
        × (is_usable c r.status ≡ true)
        × (r.records ≡ (read_segment c plain).0)

    pub names-seals :
        (segs : List SegmentInfo) (xs : List (Sealed c.Bytes))
        → Pairs IsSealOf segs xs
        → names xs ≡ map (λ seg. entry_name w seg.name) segs
    names-seals [] [] p = refl
    names-seals [] (x ∷ xs) p = absurd p
    names-seals (seg ∷ segs) [] p = absurd p
    names-seals (seg ∷ segs) (x ∷ xs) ((n, plain, e1, e2, named, hashed), ps) =
        cc (named, names-seals segs xs ps)

    module _ (ids : c.Identities) (law : IsLawful c i.recipient ids) where
      usable-IsRestored :
          (seg : SegmentInfo) (x : Sealed c.Bytes) (plain : c.Bytes) (truncated : Bool)
          → w.spool_file seg.name ≡ some plain
          → x.meta.name ≡ entry_name w seg.name
          → IsRestored seg (usable c x.meta (read_segment c plain).0 truncated)
      usable-IsRestored seg x plain true found named = (plain, found, named, refl, refl)
      usable-IsRestored seg x plain false found named = (plain, found, named, refl, refl)

      import_segment-IsRestored :
          (files : Map String c.Bytes) (seg : SegmentInfo) (x : Sealed c.Bytes)
          → IsSealOf seg x
          → lookup x.meta.name files ≡ some x.cipher
          → IsRestored seg (import_segment c ids files x.meta)
      unfolding import_segment
      import_segment-IsRestored files seg x (n, plain, found, sealed, named, hashed) entry =
          let same : str_eq (c.sha256 x.cipher) x.meta.sha256 ≡ true =
            (eq_iff _ _).1 (sym hashed) in
          let opened : c.decrypt ids x.cipher ≡ some plain = law.decrypt-encrypt n plain sealed in
          rw (entry, same, opened) (usable-IsRestored seg x plain _ found named)

      pub import_all-IsRestored :
          (files : Map String c.Bytes) (segs : List SegmentInfo) (xs : List (Sealed c.Bytes))
          → Pairs IsSealOf segs xs
          → All (λ x. lookup x.meta.name files ≡ some x.cipher) xs
          → Pairs IsRestored segs (map (import_segment c ids files) (map (λ x. x.meta) xs))
      import_all-IsRestored files [] [] p q = tt
      import_all-IsRestored files [] (x ∷ xs) p q = absurd p
      import_all-IsRestored files (seg ∷ segs) [] p q = absurd p
      import_all-IsRestored files (seg ∷ segs) (x ∷ xs) (p, ps) (q, qs) =
          (import_segment-IsRestored files seg x p q, import_all-IsRestored files segs xs ps qs)
