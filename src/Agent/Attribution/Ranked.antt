-- ===== src/Agent/Attribution/Ranked.antt =====
-- What `rankProcesses` of internal/agent/attribution.go returns.
use cost_optimization.Prelude.{
  ℕ, zero, suc, ◌≤◌, ◌≡◌, ◌≢◌, refl, sym, ◌∙◌, subst, String, Bool, Option, none, some, List, [],
  ◌∷◌, map, length, take, length-take, arith, insert_by, sort_by, All, All-sort_by, Bool-cases, inl,
  inr,
}
use cost_optimization.Prelude.Assoc.{Map, lookup, insert}
use cost_optimization.Prelude.Keys.{
  HasDistinctKeys, HasDistinctKeys-insert, All-lookup, All-lookup-none, lookup-insert-eq-some,
}
use cost_optimization.Float64.{Float64}
use cost_optimization.Model.{ProcSample, ProcTop, SpikeEvent}
use cost_optimization.Agent.Attribution.Ranking.{
  pid_eq, Acc, max_ranked, acc_or_new, observe_proc, add_procs, add_snapshots, core_seconds,
  ranks_before, rank_processes,
}

All-take {ℓ κ} : {A : Type ℓ} (P : A → Type κ) (n : ℕ) (xs : List A) → All P xs → All P (take n xs)
All-take P zero xs ps = tt
All-take P (suc n) [] ps = tt
All-take P (suc n) (x ∷ xs) (p, ps) = (p, All-take P n xs ps)

module _ {F : Type 0} where
  abbrev pub HasDistinctPids : List (ProcSample F) → Type 0
  HasDistinctPids [] = Unit
  HasDistinctPids (p ∷ ps) = All (λ q. q.pid ≢ p.pid) ps × HasDistinctPids ps

  HasDistinctPids-take :
      (n : ℕ) (ps : List (ProcSample F)) → HasDistinctPids ps → HasDistinctPids (take n ps)
  HasDistinctPids-take zero ps d = tt
  HasDistinctPids-take (suc n) [] d = tt
  HasDistinctPids-take (suc n) (p ∷ ps) (a, d) =
      (All-take (λ q. q.pid ≢ p.pid) n ps a, HasDistinctPids-take n ps d)

  module _ (less : ProcSample F → ProcSample F → Bool) where
    All-insert_by {κ} :
        (P : ProcSample F → Type κ) (p : ProcSample F) (ps : List (ProcSample F))
        → P p
        → All P ps
        → All P (insert_by less p ps)
    unfolding insert_by
    All-insert_by P p [] h hs = (h, tt)
    All-insert_by P p (q ∷ ps) h (i, hs) = elim (Bool-cases (less p q)) [
      | inl before ↦ rw (before, insert_by) (h, (i, hs))
      | inr after ↦ rw (after, insert_by) (i, All-insert_by P p ps h hs)
    ]

    HasDistinctPids-insert_by :
        (p : ProcSample F) (ps : List (ProcSample F))
        → All (λ q. q.pid ≢ p.pid) ps
        → HasDistinctPids ps
        → HasDistinctPids (insert_by less p ps)
    unfolding insert_by
    HasDistinctPids-insert_by p [] a d = (tt, tt)
    HasDistinctPids-insert_by p (q ∷ ps) (n, a) (b, d) = elim (Bool-cases (less p q)) [
      | inl before ↦ rw (before, insert_by) ((n, a), (b, d))
      | inr after ↦
          rw (after, insert_by)
            (
              All-insert_by (λ u. u.pid ≢ q.pid) p ps (λ e. n (sym e)) b,
              HasDistinctPids-insert_by p ps a d,
            )
    ]

    HasDistinctPids-sort_by :
        (ps : List (ProcSample F)) → HasDistinctPids ps → HasDistinctPids (sort_by less ps)
    unfolding sort_by
    HasDistinctPids-sort_by [] d = tt
    HasDistinctPids-sort_by (p ∷ ps) (a, d) =
        HasDistinctPids-insert_by p (sort_by less ps) (All-sort_by less (λ q. q.pid ≢ p.pid) ps a)
          (HasDistinctPids-sort_by ps d)

module _ {F : Type 0} ⦃f : Float64 F⦄ where
  observe_proc-pid : (p : ProcSample F) (a : Acc F) → (observe_proc p a).s.pid ≡ a.s.pid
  unfolding observe_proc
  observe_proc-pid p a = ground arith

  observe_proc-name : (p : ProcSample F) (a : Acc F) → (observe_proc p a).s.name ≡ a.s.name
  unfolding observe_proc
  observe_proc-name p a = ground arith

  -- What the accumulators hold: each under its own process id, which no other has.
  module _ (P : ℕ → String → Type 0) where
    abbrev Holds : ℕ → Acc F → Type 0
    Holds pid a = (a.s.pid ≡ pid) × P pid a.s.name

    abbrev IsKept : Map ℕ (Acc F) → Type 0
    IsKept by_pid =
        HasDistinctKeys by_pid × ((pid : ℕ) (a : Acc F) → lookup pid by_pid ≡ some a → Holds pid a)

    acc_or_new-Holds :
        (p : ProcSample F) (o : Option (Acc F))
        → P p.pid p.name
        → ((a : Acc F) → o ≡ some a → Holds p.pid a)
        → Holds p.pid (acc_or_new p o)
    acc_or_new-Holds p none h k = (refl, h)
    acc_or_new-Holds p (some a) h k = k a refl

    observe_proc-Holds :
        (p : ProcSample F) (a : Acc F) (pid : ℕ) → Holds pid a → Holds pid (observe_proc p a)
    observe_proc-Holds p a pid (e, h) =
        (observe_proc-pid p a ∙ e, subst (P pid) (sym (observe_proc-name p a)) h)

    insert-IsKept :
        (pid : ℕ) (b : Acc F) (by_pid : Map ℕ (Acc F))
        → Holds pid b
        → IsKept by_pid
        → IsKept (insert pid b by_pid)
    insert-IsKept pid b by_pid h (d, k) = (
      HasDistinctKeys-insert pid b by_pid d,
      λ j a found. elim (lookup-insert-eq-some pid j b by_pid found) [
        | inl (at, same) ↦ subst (Holds j) same (subst (λ i. Holds i b) at h)
        | inr before ↦ k j a before
      ],
    )

    add_procs-IsKept :
        (procs : List (ProcSample F)) (by_pid : Map ℕ (Acc F))
        → All (λ p. P p.pid p.name) procs
        → IsKept by_pid
        → IsKept (add_procs procs by_pid)
    unfolding add_procs
    add_procs-IsKept [] by_pid hs k = k
    add_procs-IsKept (p ∷ procs) by_pid (h, hs) k =
        let a = acc_or_new p (lookup p.pid by_pid) in
        add_procs-IsKept procs (insert p.pid (observe_proc p a) by_pid) hs (
          insert-IsKept p.pid (observe_proc p a) by_pid
            (observe_proc-Holds p a p.pid
              (acc_or_new-Holds p (lookup p.pid by_pid) h (λ o e. k.1 p.pid o e)))
            k)

    add_snapshots-IsKept :
        (snapshots : List (ProcTop F)) (by_pid : Map ℕ (Acc F))
        → All (λ snap. All (λ p. P p.pid p.name) snap.procs) snapshots
        → IsKept by_pid
        → IsKept (add_snapshots snapshots by_pid)
    unfolding add_snapshots
    add_snapshots-IsKept [] by_pid hs k = k
    add_snapshots-IsKept (snap ∷ snapshots) by_pid (h, hs) k =
        add_snapshots-IsKept snapshots (add_procs snap.procs by_pid) hs
          (add_procs-IsKept snap.procs by_pid h k)

    nothing-IsKept : IsKept []
    unfolding lookup
    nothing-IsKept = (tt, λ pid a e. absurd (cc))

    samples : Map ℕ (Acc F) → List (ProcSample F)
    samples by_pid = map (λ (p : ℕ × Acc F). p.1.s) by_pid

    All-samples :
        (by_pid : Map ℕ (Acc F))
        → All (λ e. Holds e.0 e.1) by_pid
        → All (λ p. P p.pid p.name) (samples by_pid)
    unfolding samples
    All-samples [] hs = tt
    All-samples ((pid, a) ∷ by_pid) ((at, h), hs) =
        (subst (λ i. P i a.s.name) (sym at) h, All-samples by_pid hs)

    All-samples-other :
        (pid : ℕ) (by_pid : Map ℕ (Acc F))
        → All (λ e. Holds e.0 e.1) by_pid
        → All (λ e. e.0 ≢ pid) by_pid
        → All (λ p. p.pid ≢ pid) (samples by_pid)
    unfolding samples
    All-samples-other pid [] hs ns = tt
    All-samples-other pid ((j, a) ∷ by_pid) ((at, h), hs) (n, ns) =
        (λ e. n (sym at ∙ e), All-samples-other pid by_pid hs ns)

    HasDistinctPids-samples :
        (by_pid : Map ℕ (Acc F))
        → HasDistinctKeys by_pid
        → All (λ e. Holds e.0 e.1) by_pid
        → HasDistinctPids (samples by_pid)
    unfolding samples
    HasDistinctPids-samples [] d hs = tt
    HasDistinctPids-samples ((pid, a) ∷ by_pid) (none_left, d) ((at, h), hs) = (
      subst (λ i. All (λ p. p.pid ≢ i) (samples by_pid)) (sym at)
          (All-samples-other pid by_pid hs (All-lookup-none pid by_pid none_left)),
      HasDistinctPids-samples by_pid d hs,
    )

  -- What a ranking is: short, without a process twice, and of sampled processes only.
  pub record IsRanking (P : ℕ → String → Type 0) (ranked : List (ProcSample F)) : Type 0 where
    pub few : length ranked ≤ 10
    pub distinct : HasDistinctPids ranked
    pub sampled : All (λ p. P p.pid p.name) ranked

  -- `rankProcesses` returns at most ten processes, none of them twice, and invents none: what holds of
  -- the process id and the name of every sample in the snapshots holds of every process returned.
  pub rank_processes-IsRanking :
      (P : ℕ → String → Type 0) (snapshots : List (ProcTop F)) (ev : SpikeEvent F)
      → All (λ snap. All (λ p. P p.pid p.name) snap.procs) snapshots
      → IsRanking P (rank_processes snapshots ev).1
  unfolding rank_processes samples
  rank_processes-IsRanking P snapshots ev hs =
      let by_pid = add_snapshots snapshots [] in
      let (d, k) = add_snapshots-IsKept P snapshots [] hs (nothing-IsKept P) in
      let all = All-lookup (λ e. Holds P e.0 e.1) by_pid d k in
      let less = ranks_before ev.resource (core_seconds by_pid []) in
      record {
        few = omega (arith, length-take max_ranked (sort_by less (samples P by_pid)));
        distinct =
            HasDistinctPids-take max_ranked _
              (HasDistinctPids-sort_by less _ (HasDistinctPids-samples P by_pid d all));
        sampled = All-take _ max_ranked _ (All-sort_by less _ _ (All-samples P by_pid all));
      }
