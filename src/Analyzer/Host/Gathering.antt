-- ===== src/Analyzer/Host/Gathering.antt =====
-- What the gathered lists hold.
use cost_optimization.Prelude.{
  ◌≤◌, ◌≡◌, refl, subst, inl, inr, Bool, true, false, Option, some, List, [], ◌∷◌, ◌++◌, length,
  length-append, arith, Bool-cases, All, ◌||◌, if◌then◌else◌,
}
use cost_optimization.Float64.{Float64, ◌<F◌, lit}
use cost_optimization.Model.Host.{HostMinute, PsiAgg}
use cost_optimization.Analyzer.Host.{
  paging_observed, memory_psi, io_psi, is_paging, psi_evidence, gather,
}

append-nil {ℓ} : {A : Type ℓ} (xs ys : List A) → xs ++ ys ≡ [] → (xs ≡ []) × (ys ≡ [])
append-nil [] ys h = (refl, h)
append-nil (x ∷ xs) ys h = absurd cc

untested {ℓ} : {A : Type ℓ} (b : Bool) (x : A) → (if b then x ∷ [] else []) ≡ [] → b ≡ false
untested true x h = absurd cc
untested false x h = refl

module _ {F : Type 0} ⦃f : Float64 F⦄ where
  pub paging-length :
      (minutes : List (HostMinute F))
      → (gather minutes).paging ≡ true
      → 1 ≤ length (gather minutes).pressure
  unfolding gather
  paging-length [] h = absurd cc
  paging-length (m ∷ minutes) h =
      let later = (gather minutes).pressure in
      let a = length-append (psi_evidence m.psi) later in
      elim (Bool-cases (is_paging m)) [
        | inl here ↦ rw here (omega arith)
        | inr other ↦
            let rest = paging-length minutes (rw other at h) in rw other (omega (arith, a, rest))
      ]

  -- A minute that shows no sign of memory pressure: at most 100 major faults and 500 pages out a second,
  -- and no share of time above 5% in which some task waits for memory, above 1% in which all do, or
  -- above 10% in which some task waits for I/O.
  pub record IsQuiet (m : HostMinute F) : Type 0 where
    pub faults : (lit 100 1 <F m.mem.major_fault_ps) ≡ false
    pub page_outs : (lit 500 1 <F m.mem.page_out_ps) ≡ false
    pub stalls :
        (p : PsiAgg F)
        → m.psi ≡ some p
        → ((lit 5 1 <F p.mem_some_avg) ≡ false)
          × ((lit 1 1 <F p.mem_full_avg) ≡ false)
          × ((lit 10 1 <F p.io_some_avg) ≡ false)

  no_stalls :
      (p : PsiAgg F)
      → psi_evidence (some p) ≡ []
      → ((lit 5 1 <F p.mem_some_avg) ≡ false)
        × ((lit 1 1 <F p.mem_full_avg) ≡ false)
        × ((lit 10 1 <F p.io_some_avg) ≡ false)
  unfolding psi_evidence
  no_stalls p h =
      let (memory, io) =
        append-nil
          (if (lit 5 1 <F p.mem_some_avg) || (lit 1 1 <F p.mem_full_avg)
            then memory_psi p.mem_some_avg ∷ []
            else [])
          (if lit 10 1 <F p.io_some_avg then io_psi p.io_some_avg ∷ [] else []) h in
      let both = untested _ (memory_psi p.mem_some_avg) memory in
      (ground (arith, both), ground (arith, both), untested _ (io_psi p.io_some_avg) io)

  pub gather-IsQuiet :
      (minutes : List (HostMinute F)) → (gather minutes).pressure ≡ [] → All IsQuiet minutes
  unfolding gather is_paging
  gather-IsQuiet [] h = tt
  gather-IsQuiet (m ∷ minutes) h =
      let (paging, rest) = append-nil (if is_paging m then paging_observed ∷ [] else []) _ h in
      let (psi, later) = append-nil (psi_evidence m.psi) _ rest in
      let still = untested (is_paging m) paging_observed paging in
      (
        record {
          faults = ground (arith, still);
          page_outs = ground (arith, still);
          stalls =
              λ p e. no_stalls p (subst (λ (o : Option (PsiAgg F)). psi_evidence o ≡ []) e psi);
        },
        gather-IsQuiet minutes later,
      )

  gathered_lengths :
      (minutes : List (HostMinute F))
      → (length (gather minutes).cpu_avg ≡ length minutes)
        × (length (gather minutes).cpu_timed ≡ length minutes)
        × (length (gather minutes).mem_pct ≡ length minutes)
  unfolding gather
  gathered_lengths [] = (refl, refl, refl)
  gathered_lengths (m ∷ minutes) =
      let (a, b, c) = gathered_lengths minutes in
      (omega (arith, a), omega (arith, b), omega (arith, c))

  -- Every minute gives one value of CPU, with its time, and one of memory. Where paging is
  -- found, there is also evidence of memory pressure.
  pub gather_lem :
      (minutes : List (HostMinute F))
      → (length (gather minutes).cpu_avg ≡ length minutes)
        × (length (gather minutes).cpu_timed ≡ length minutes)
        × (length (gather minutes).mem_pct ≡ length minutes)
        × ((gather minutes).paging ≡ true → 1 ≤ length (gather minutes).pressure)
  gather_lem minutes = let (a, b, c) = gathered_lengths minutes in (a, b, c, paging-length minutes)
