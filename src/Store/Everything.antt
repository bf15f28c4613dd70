-- ===== src/Store/Everything.antt =====
-- `Flush` and `Rotate`: every kind, in the order in which Go ranges over the map, each with outcomes of
-- its own. A kind that is gone when its turn comes changes nothing.
use cost_optimization.Prelude.{
  ◌≡◌, ◌≢◌, refl, String, Option, none, some, List, [], ◌∷◌, ◌>>=◌, some_of_ne_none,
}
use cost_optimization.Model.{Time}
use cost_optimization.Store.{Store, FlushOutcome, CloseOutcome, stat_denied, StoreError}
use cost_optimization.Store.Segments.{flush_locked, rotate_locked}
use cost_optimization.Store.Naming.{
  HasDistinctNames, rotate_locked-ne-none, rotate_locked-HasDistinctNames,
}
use cost_optimization.Store.Soundness.{IsSound, flush_locked-IsSound, rotate_locked-IsSound}

-- The first error counts.
abbrev first_error : Option StoreError → Option StoreError → Option StoreError
first_error none later = later
first_error (some e) later = some e

unfoldable pub flush_all : (String → FlushOutcome) → List String → Store → Store × Option StoreError
flush_all outcomes [] s = (s, none)
flush_all outcomes (kind ∷ kinds) s =
    let r = flush_locked (outcomes kind) kind s in
    let rest = flush_all outcomes kinds r.0 in (rest.0, first_error r.1 rest.1)

pub flush_all-IsSound :
    (outcomes : String → FlushOutcome) (kinds : List String) (s : Store)
    → IsSound s
    → IsSound (flush_all outcomes kinds s).0
unfolding flush_all
flush_all-IsSound outcomes [] s k = k
flush_all-IsSound outcomes (kind ∷ kinds) s k =
    flush_all-IsSound outcomes kinds (flush_locked (outcomes kind) kind s).0
      (flush_locked-IsSound (outcomes kind) kind s k)

module _ (utc_date : Time → String) where
  unfoldable pub rotate_all :
      Time
      → (String → FlushOutcome × CloseOutcome)
      → List String
      → Store
      → Option (Store × Option StoreError)
  rotate_all now outcomes [] s = some (s, none)
  rotate_all now outcomes (kind ∷ kinds) s = do
    (s1, e1) ← rotate_locked utc_date now (outcomes kind).0 (outcomes kind).1 kind s
    (s2, e2) ← rotate_all now outcomes kinds s1
    some (s2, first_error e1 e2)

  -- Where os.Stat is not denied, `Rotate` comes to an end, and it keeps the store sound and the names of
  -- closed segments distinct, however the other file operations end.
  pub rotate_all-IsSound :
      (now : Time) (outcomes : String → FlushOutcome × CloseOutcome) (kinds : List String)
      (s : Store)
      → ((j : String) → (outcomes j).1 ≢ stat_denied)
      → IsSound s
      → HasDistinctNames s.closed
      → (r : Store × Option StoreError) × (rotate_all now outcomes kinds s ≡ some r)
        × IsSound r.0
        × HasDistinctNames r.0.closed
  unfolding rotate_all
  rotate_all-IsSound now outcomes [] s n k d = ((s, none), refl, k, d)
  rotate_all-IsSound now outcomes (kind ∷ kinds) s n k d =
      let fo = (outcomes kind).0 in
      let co = (outcomes kind).1 in
      let (q, e) =
        some_of_ne_none (rotate_locked utc_date now fo co kind s)
          (rotate_locked-ne-none utc_date now fo co kind s (n kind)) in
      let (r, e1, k1, d1) =
        rotate_all-IsSound now outcomes kinds q.0 n
          (rotate_locked-IsSound utc_date now fo co kind s {r = q} k e)
          (rotate_locked-HasDistinctNames utc_date now fo co kind s {r = q} d e) in
      ((r.0, first_error q.1 r.1), rw (e, e1) refl, k1, d1)
