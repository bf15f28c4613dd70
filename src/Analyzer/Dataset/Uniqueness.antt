-- ===== src/Analyzer/Dataset/Uniqueness.antt =====
-- What `normalize` of internal/analyzer/dataset.go leaves: minutes and spikes without duplicates.
use cost_optimization.Prelude.{
  ◌≤◌, ◌<◌, ◌≡◌, ◌≢◌, refl, sym, ◌∙◌, String, false, not, ◌&&◌, ◌||◌, ◌⊎◌, Option, none, some,
  is_some, List, [], ◌∷◌, All, arith, ◌==◌, Bool-cases, inl, inr, sort_by,
}
use cost_optimization.Prelude.Assoc.{Map, string_eq, lookup, insert, lookup-insert}
use cost_optimization.Prelude.Order.{
  IsAscending, IsIncreasing, All-lt_of_le, keys, has_key, by_key, sort_by-IsAscending,
  has_key-sort_by,
}
use cost_optimization.Model.{Time, SpikeEvent}
use cost_optimization.Model.Host.{HostMinute}
use cost_optimization.Analyzer.Dataset.{HostData}
use cost_optimization.Analyzer.Dataset.Normalize.{
  dedup_after, dedup_minutes, dedup_spikes, normalize,
}
use text.Mathlib.Text.{◌==◌ as str_eq}
use text.Mathlib.TextEquality.{eq_iff}

unseen_of_kept :
    (id : String) (o : Option (Unit {0}))
    → (not (str_eq id "") && is_some o) ≡ false
    → (id ≡ "") ⊎ (o ≡ none)
unseen_of_kept id none h = inr refl
unseen_of_kept id (some u) h = inl (ground (arith, eq_iff id ""))

module _ {F : Type 0} where
  abbrev pub stamp : HostMinute F → Time
  stamp m = m.meta.ts

  All-dedup_after :
      (prev : Time) (ms : List (HostMinute F))
      → All (λ u. prev ≤ u) (keys stamp ms)
      → IsAscending (keys stamp ms)
      → All (λ u. prev < u) (keys stamp (dedup_after prev ms))
  unfolding dedup_after
  All-dedup_after prev [] p q = tt
  All-dedup_after prev (m ∷ ms) (p, ps) (q, qs) =
      let above = All-lt_of_le prev (stamp m) _ p (All-dedup_after (stamp m) ms q qs) in
      elim (Bool-cases (m.meta.ts == prev)) [
        | inl same ↦ rw (same, dedup_after) above
        | inr other ↦ rw (other, dedup_after) (ground arith, above)
      ]

  dedup_after-IsIncreasing :
      (prev : Time) (ms : List (HostMinute F))
      → IsAscending (keys stamp ms)
      → IsIncreasing (keys stamp (dedup_after prev ms))
  unfolding dedup_after
  dedup_after-IsIncreasing prev [] q = tt
  dedup_after-IsIncreasing prev (m ∷ ms) (q, qs) =
      let rest = dedup_after-IsIncreasing (stamp m) ms qs in
      elim (Bool-cases (m.meta.ts == prev)) [
        | inl same ↦ rw (same, dedup_after) rest
        | inr other ↦ rw (other, dedup_after) (All-dedup_after (stamp m) ms q qs, rest)
      ]

  dedup_minutes-IsIncreasing :
      (ms : List (HostMinute F))
      → IsAscending (keys stamp ms)
      → IsIncreasing (keys stamp (dedup_minutes ms))
  unfolding dedup_minutes
  dedup_minutes-IsIncreasing [] q = tt
  dedup_minutes-IsIncreasing (m ∷ ms) (q, qs) =
      (All-dedup_after (stamp m) ms q qs, dedup_after-IsIncreasing (stamp m) ms qs)

  has_key-dedup_after :
      (t prev : Time) (ms : List (HostMinute F))
      → (prev == t || has_key stamp t (dedup_after prev ms)) ≡ (prev == t || has_key stamp t ms)
  unfolding dedup_after
  has_key-dedup_after t prev [] = refl
  has_key-dedup_after t prev (m ∷ ms) = ground (arith, has_key-dedup_after t (stamp m) ms)

  has_key-dedup_minutes :
      (t : Time) (ms : List (HostMinute F))
      → has_key stamp t (dedup_minutes ms) ≡ has_key stamp t ms
  unfolding dedup_minutes
  has_key-dedup_minutes t [] = refl
  has_key-dedup_minutes t (m ∷ ms) = has_key-dedup_after t (stamp m) ms

  -- After the import of overlapping bundles, the minutes of a host have strictly increasing times, and
  -- exactly the times that they had before: no minute is doubled, and none is lost.
  pub normalize-minutes :
      (h : HostData F)
      → IsIncreasing (keys stamp (normalize h).minutes)
        × ((t : Time) → has_key stamp t (normalize h).minutes ≡ has_key stamp t h.minutes)
  unfolding normalize
  normalize-minutes h = (
    dedup_minutes-IsIncreasing _ (sort_by-IsAscending stamp h.minutes),
    λ t.
        has_key-dedup_minutes t (sort_by (by_key stamp) h.minutes)
        ∙ has_key-sort_by stamp t h.minutes,
  )

  -- No two spikes have the same id, but for the empty one.
  abbrev pub HasUniqueIds : List (SpikeEvent F) → Type 0
  HasUniqueIds [] = Unit
  HasUniqueIds (s ∷ ss) =
      ((s.event_id ≡ "") ⊎ All (λ (u : SpikeEvent F). u.event_id ≢ s.event_id) ss) × HasUniqueIds ss

  abbrev IsUnseen : Map String (Unit {0}) → SpikeEvent F → Type 0
  IsUnseen seen u = (u.event_id ≡ "") ⊎ (lookup u.event_id seen ≡ none)

  IsUnseen-insert :
      (id : String) (seen : Map String (Unit {0})) (u : SpikeEvent F)
      → IsUnseen (insert id tt seen) u
      → IsUnseen seen u × (id ≢ "" → u.event_id ≢ id)
  IsUnseen-insert id seen u (inl empty) = (inl empty, λ h e. h (sym e ∙ empty))
  IsUnseen-insert id seen u (inr unseen) =
      let at_u = sym (lookup-insert id u.event_id tt seen) ∙ unseen in
      elim (Bool-cases (str_eq id u.event_id)) [
        | inl same ↦ let e = rw same at at_u in cc
        | inr other ↦
            let e = rw other at at_u in (inr e, λ h q. ground (arith, eq_iff id u.event_id))
      ]

  All-IsUnseen :
      (id : String) (seen : Map String (Unit {0})) (us : List (SpikeEvent F))
      → All (IsUnseen (insert id tt seen)) us
      → All (IsUnseen seen) us × (id ≢ "" → All (λ (u : SpikeEvent F). u.event_id ≢ id) us)
  All-IsUnseen id seen [] p = (tt, λ h. tt)
  All-IsUnseen id seen (u ∷ us) (p, ps) =
      let (q, r) = IsUnseen-insert id seen u p in
      let (qs, rs) = All-IsUnseen id seen us ps in ((q, qs), λ h. (r h, rs h))

  abbrev IsFresh : Map String (Unit {0}) → List (SpikeEvent F) → Type 0
  IsFresh seen us = All (IsUnseen seen) us × HasUniqueIds us

  dedup_spikes-cons :
      (seen : Map String (Unit {0})) (s : SpikeEvent F) (rest : List (SpikeEvent F))
      → IsUnseen seen s
      → IsFresh (insert s.event_id tt seen) rest
      → IsFresh seen (s ∷ rest)
  dedup_spikes-cons seen s rest h (p, q) =
      let (ps, differ) = All-IsUnseen s.event_id seen rest p in
      elim (Bool-cases (str_eq s.event_id "")) [
        | inl empty ↦ ((h, ps), (inl ((eq_iff _ _).0 empty), q))
        | inr named ↦
            let other : s.event_id ≢ "" = (λ e. ground (arith, eq_iff s.event_id "")) in
            ((h, ps), (inr (differ other), q))
      ]

  dedup_spikes-IsFresh :
      (seen : Map String (Unit {0})) (ss : List (SpikeEvent F))
      → IsFresh seen (dedup_spikes seen ss)
  unfolding dedup_spikes
  dedup_spikes-IsFresh seen [] = (tt, tt)
  dedup_spikes-IsFresh seen (s ∷ ss) =
      elim (Bool-cases (not (str_eq s.event_id "") && is_some (lookup s.event_id seen))) [
        | inl skip ↦ rw (skip, dedup_spikes) (dedup_spikes-IsFresh seen ss)
        | inr kept ↦
            let h : IsUnseen seen s = unseen_of_kept s.event_id (lookup s.event_id seen) kept in
            rw (kept, dedup_spikes)
              (dedup_spikes-cons seen s _ h (dedup_spikes-IsFresh (insert s.event_id tt seen) ss))
      ]

  -- After the import of overlapping bundles, no two spikes of a host share an id that is not empty.
  pub normalize-HasUniqueIds : (h : HostData F) → HasUniqueIds (normalize h).spikes
  unfolding normalize
  normalize-HasUniqueIds h =
      (dedup_spikes-IsFresh [] (sort_by (by_key (λ s. s.start_ts)) h.spikes)).1
