-- ===== src/Store/Soundness.antt =====
-- Rotation and `Append` keep the counts sound.
use cost_optimization.Prelude.{
  ℕ, ◌+◌, ◌≤◌, ◌≡◌, refl, sym, ap, ◌∙◌, subst, inl, inr, String, Option, none, some, List, [], ◌++◌,
  if◌then◌else◌, ◌==◌, arith, Bool-cases, Option-cases, >>=-eq-some, length, length-append,
  else_of_false, All, All-append,
}
use cost_optimization.Prelude.Assoc.{
  string_eq, lookup, insert, remove, lookup-insert, lookup-remove, lookup-insert_self,
}
use cost_optimization.Model.{Time, is_zero}
use cost_optimization.Store.{
  Record, SegmentName, SegmentInfo, ActiveSeg, ClosedFile, Store, FlushOutcome, flushed,
  failed_before, torn_member, failed_after, CloseOutcome, closed_with, not_moved, no_sidecar,
  stat_denied, StoreError,
}
use cost_optimization.Store.Segments.{
  flush_member, flush_locked, contents, file_of, search_seq, move_closed, discard, close_file,
  retire, rotate_locked, info_of,
}
use cost_optimization.Store.Appending.{
  AppendOutcomes, append_to, must_rotate, append_rotated, append, new_seg,
}
use cost_optimization.Store.Spooling.{
  IsCounted, Counted, AllCounted, Changes-AllCounted, same_at, flush_locked-buffered,
  append_to-AllCounted,
}
use cost_optimization.Store.Naming.{append_to-closed, append-rotates}
use text.Mathlib.Text.{◌==◌ as str_eq}

-- A sidecar counts no more records than its file holds, and bears its name.
abbrev pub Fits : Option SegmentInfo → ClosedFile → Type 0
Fits none c = Unit {0}
Fits (some i) c = (i.records ≤ length c.content) × (i.name ≡ c.name) × (i.kind ≡ c.name.kind)

pub record IsSound (s : Store) : Type 0 where
  pub segments : AllCounted s
  pub sidecars : All (λ c. Fits c.sidecar c) s.closed

flush_member-IsSound :
    (o : FlushOutcome) (kind : String) (a : ActiveSeg) (s : Store)
    → lookup kind s.active ≡ some a
    → IsSound s
    → IsSound (flush_member o kind a s).0
unfolding flush_member
flush_member-IsSound (flushed len) kind a s e k =
    let recs = file_of s kind ++ a.buf in
    let b = record a { size = a.size + len; buf = []; raw_buffered = 0 } in
    let c : IsCounted a (length (file_of s kind)) =
      subst (λ (z : Option ActiveSeg). Counted z (length (file_of s kind))) e (k.segments kind) in
    record {
      segments =
          Changes-AllCounted s (flush_member (flushed len) kind a s).0 kind (some b) (some recs)
            (record {
              active_at = λ j. lookup-insert kind j b s.active;
              file_at = λ j. lookup-insert kind j recs s.files;
            })
            (record {
              bounded = omega arith;
              counted = omega arith;
              held_or_buffered =
                  omega (arith, c.held_or_buffered, length-append (file_of s kind) a.buf);
            })
            k.segments;
      sidecars = k.sidecars;
    }
flush_member-IsSound failed_before kind a s e k = k
flush_member-IsSound torn_member kind a s e k = record {
  segments = k.segments;
  sidecars = k.sidecars;
}
flush_member-IsSound failed_after kind a s e k =
    let recs = file_of s kind ++ a.buf in
    let c : IsCounted a (length (file_of s kind)) =
      subst (λ (z : Option ActiveSeg). Counted z (length (file_of s kind))) e (k.segments kind) in
    record {
      segments =
          Changes-AllCounted s (flush_member failed_after kind a s).0 kind (some a) (some recs)
            (record {
              active_at = λ j.
                  subst
                    (λ (z : Option ActiveSeg).
                      lookup j s.active ≡ (if str_eq kind j then z else lookup j s.active))
                    e (same_at kind j s.active);
              file_at = λ j. lookup-insert kind j recs s.files;
            })
            (record {
              bounded = c.bounded;
              counted = c.counted;
              held_or_buffered =
                  omega (arith, c.held_or_buffered, length-append (file_of s kind) a.buf);
            })
            k.segments;
      sidecars = k.sidecars;
    }

pub flush_locked-IsSound :
    (o : FlushOutcome) (kind : String) (s : Store) → IsSound s → IsSound (flush_locked o kind s).0
unfolding flush_locked
flush_locked-IsSound o kind s k = elim (Option-cases (lookup kind s.active)) [
  | inl e ↦ let same : s ≡ (flush_locked o kind s).0 = ground (arith, e) in subst IsSound same k
  | inr (a, e) ↦ elim (Bool-cases (length a.buf == 0)) [
    | inl empty ↦
        let same : s ≡ (flush_locked o kind s).0 = ground (arith, e, empty) in subst IsSound same k
    | inr buffered ↦
        subst (λ (z : Store × Option StoreError). IsSound z.0)
          (sym (flush_locked-buffered o kind a s e buffered)) (flush_member-IsSound o kind a s e k)
  ]
]

-- A segment that is removed from the store.
removed-AllCounted :
    (s t : Store) (kind : String) (f : Option (List Record))
    → t.active ≡ remove kind s.active
    → ((j : String) → lookup j t.files ≡ (if str_eq kind j then f else lookup j s.files))
    → AllCounted s
    → AllCounted t
removed-AllCounted s t kind f e g all =
    Changes-AllCounted s t kind none f
      (record { active_at = λ j. ap (lookup j) e ∙ lookup-remove kind j s.active; file_at = g }) tt
      all

move_closed-IsSound :
    (o : CloseOutcome) (n : SegmentName) (kind : String) (info : SegmentInfo) (s : Store)
    → info.records ≤ length (file_of s kind)
    → info.kind ≡ n.kind
    → IsSound s
    → IsSound (move_closed o n kind info (record s { active = remove kind s.active })).0
unfolding move_closed
move_closed-IsSound (closed_with size) n kind info s h g k = record {
  segments =
      removed-AllCounted s
        (move_closed (closed_with size) n kind info (record s { active = remove kind s.active })).0
        kind none refl (λ j. lookup-remove kind j s.files) k.segments;
  sidecars = All-append _ s.closed _ k.sidecars ((h, refl, g), tt);
}
move_closed-IsSound not_moved n kind info s h g k = record {
  segments =
      removed-AllCounted s
        (move_closed not_moved n kind info (record s { active = remove kind s.active })).0 kind
        (lookup kind s.files) refl (λ j. same_at kind j s.files) k.segments;
  sidecars = k.sidecars;
}
move_closed-IsSound stat_denied n kind info s h g k = record {
  segments =
      removed-AllCounted s
        (move_closed stat_denied n kind info (record s { active = remove kind s.active })).0 kind
        (lookup kind s.files) refl (λ j. same_at kind j s.files) k.segments;
  sidecars = k.sidecars;
}
move_closed-IsSound no_sidecar n kind info s h g k = record {
  segments =
      removed-AllCounted s
        (move_closed no_sidecar n kind info (record s { active = remove kind s.active })).0 kind
        none refl (λ j. lookup-remove kind j s.files) k.segments;
  sidecars = All-append _ s.closed _ k.sidecars (tt, tt);
}

-- After a flush that succeeds, the file holds all that the segment counts.
flush_member-held :
    (o : FlushOutcome) (kind : String) (a : ActiveSeg) (s : Store)
    → IsCounted a (length (file_of s kind))
    → (flush_member o kind a s).1 ≡ none
    → a.records ≤ length (file_of (flush_member o kind a s).0 kind)
unfolding flush_member
flush_member-held (flushed len) kind a s c h =
    let recs = file_of s kind ++ a.buf in
    let now : lookup kind (insert kind recs s.files) ≡ some recs =
      lookup-insert_self kind recs s.files in
    subst (λ (z : Option (List Record)). a.records ≤ length (contents z)) (sym now)
      (omega (arith, c.held_or_buffered, length-append (file_of s kind) a.buf))
flush_member-held failed_before kind a s c h = absurd cc
flush_member-held torn_member kind a s c h = absurd cc
flush_member-held failed_after kind a s c h = absurd cc

flush_locked-held :
    (o : FlushOutcome) (kind : String) (a : ActiveSeg) (s : Store)
    → lookup kind s.active ≡ some a
    → IsCounted a (length (file_of s kind))
    → (flush_locked o kind s).1 ≡ none
    → a.records ≤ length (file_of (flush_locked o kind s).0 kind)
unfolding flush_locked
flush_locked-held o kind a s e c h = elim (Bool-cases (length a.buf == 0)) [
  | inl empty ↦
      let same : s ≡ (flush_locked o kind s).0 = ground (arith, e, empty) in
      subst (λ (z : Store). a.records ≤ length (file_of z kind)) same
        (ground (arith, empty, c.held_or_buffered))
  | inr buffered ↦
      let same = flush_locked-buffered o kind a s e buffered in
      subst (λ (z : Store × Option StoreError). a.records ≤ length (file_of z.0 kind)) (sym same)
        (flush_member-held o kind a s c
          (ap (λ (z : Store × Option StoreError). z.1) (sym same) ∙ h))
]

module _ (utc_date : Time → String) where
  emptied-IsSound :
      (kind : String) (s : Store)
      → IsSound s
      → IsSound (record s {
        active = remove kind s.active;
        files = remove kind s.files;
        torn_files = remove kind s.torn_files;
      })
  emptied-IsSound kind s k = record {
    segments =
        removed-AllCounted s
          (record s {
            active = remove kind s.active;
            files = remove kind s.files;
            torn_files = remove kind s.torn_files;
          })
          kind none refl (λ j. lookup-remove kind j s.files) k.segments;
    sidecars = k.sidecars;
  }

  close_file-IsSound :
      (now : Time) (o : CloseOutcome) (kind : String) (a : ActiveSeg) (s : Store)
      {r : Store × Option StoreError}
      → a.records ≤ length (file_of s kind)
      → IsSound s
      → close_file utc_date now o kind
          (info_of utc_date kind a)
          (record s { active = remove kind s.active })
        ≡ some r
      → IsSound r.0
  unfolding close_file
  close_file-IsSound now o kind a s {r = r} held k h =
      let info = info_of utc_date kind a in
      let t = record s { active = remove kind s.active } in
      let date = if is_zero info.min_ts then utc_date now else utc_date info.min_ts in
      elim (Option-cases (search_seq o kind date s.closed)) [
        | inl e ↦ absurd (ground (arith, e, h))
        | inr (seq, e) ↦
            let n : SegmentName = record { kind = kind; date = date; seq = seq } in
            let same : move_closed o n kind info t ≡ r = ground (arith, e, h) in
            subst (λ (z : Store × Option StoreError). IsSound z.0) same
              (move_closed-IsSound o n kind info s held refl k)
      ]

  -- A segment without records leaves no file, or one that no segment counts.
  discard-IsSound :
      (co : CloseOutcome) (kind : String) (s : Store)
      → IsSound s
      → IsSound (discard co kind (record s { active = remove kind s.active }))
  unfolding discard
  discard-IsSound (closed_with size) kind s k = emptied-IsSound kind s k
  discard-IsSound not_moved kind s k = record {
    segments =
        removed-AllCounted s (record s { active = remove kind s.active }) kind (lookup kind s.files)
          refl (λ j. same_at kind j s.files) k.segments;
    sidecars = k.sidecars;
  }
  discard-IsSound no_sidecar kind s k = emptied-IsSound kind s k
  discard-IsSound stat_denied kind s k = emptied-IsSound kind s k

  retire-IsSound :
      (now : Time) (co : CloseOutcome) (kind : String) (a : ActiveSeg) (s : Store)
      {r : Store × Option StoreError}
      → a.records ≤ length (file_of s kind)
      → IsSound s
      → retire utc_date now co kind a s ≡ some r
      → IsSound r.0
  unfolding retire
  retire-IsSound now co kind a s {r = r} held k h = elim (Bool-cases (a.records == 0)) [
    | inl empty ↦
        let same : discard co kind (record s { active = remove kind s.active }) ≡ r.0 =
          ground (arith, empty, h) in
        subst IsSound same (discard-IsSound co kind s k)
    | inr some_records ↦
        close_file-IsSound now co kind a s {r = r} held k (else_of_false _ _ some_records h)
  ]

  pub rotate_locked-IsSound :
      (now : Time) (fo : FlushOutcome) (co : CloseOutcome) (kind : String) (s : Store)
      {r : Store × Option StoreError}
      → IsSound s
      → rotate_locked utc_date now fo co kind s ≡ some r
      → IsSound r.0
  unfolding rotate_locked
  rotate_locked-IsSound now fo co kind s {r = r} k h =
      let after = flush_locked-IsSound fo kind s k in
      elim (Option-cases (lookup kind s.active)) [
        | inl e ↦ let same : s ≡ r.0 = ground (arith, e, h) in subst IsSound same k
        | inr (a, e) ↦ elim (Option-cases (flush_locked fo kind s).1) [
          | inr (x, failed) ↦
              let same : (flush_locked fo kind s).0 ≡ r.0 = ground (arith, e, failed, h) in
              subst IsSound same after
          | inl ok ↦
              let c : IsCounted a (length (file_of s kind)) =
                subst (λ (z : Option ActiveSeg). Counted z (length (file_of s kind))) e
                  (k.segments kind) in
              retire-IsSound now co kind a (flush_locked fo kind s).0 {r = r}
                (flush_locked-held fo kind a s e c ok) after (ground (arith, e, ok, h))
        ]
      ]

  append_to-IsSound :
      (fo : FlushOutcome) (kind : String) (rec : Record) (a : ActiveSeg) (s : Store)
      → IsCounted a (length (file_of s kind))
      → IsSound s
      → IsSound (append_to fo kind rec a s).0
  append_to-IsSound fo kind rec a s c k = record {
    segments = append_to-AllCounted fo kind rec a s c k.segments;
    sidecars =
        subst (All (λ d. Fits d.sidecar d)) (sym (append_to-closed fo kind rec a s)) k.sidecars;
  }

  new_seg-IsCounted : (date : String) (held : ℕ) → IsCounted (new_seg date) held
  new_seg-IsCounted date held = record {
    bounded = omega arith;
    counted = omega arith;
    held_or_buffered = omega arith;
  }

  append_rotated-IsSound :
      (fo : FlushOutcome) (kind : String) (rec : Record) (r : Store × Option StoreError)
      → IsSound r.0
      → IsSound (append_rotated utc_date fo kind rec r).0
  append_rotated-IsSound fo kind rec (s, some e) k = k
  append_rotated-IsSound fo kind rec (s, none) k =
      append_to-IsSound fo kind rec (new_seg (utc_date rec.ts)) s
        (new_seg-IsCounted (utc_date rec.ts) _) k

  -- Where `Append` returns, it has kept the store sound, also where a flush left a torn member or a file
  -- was not moved or removed: every buffer holds fewer than 512 records, no segment counts more records
  -- than the whole members of its file and its buffer hold, and no sidecar counts more than the whole
  -- members of its file hold or bears another name.
  pub append-IsSound :
      (now : Time) (o : AppendOutcomes) (kind : String) (rec : Record) (s : Store)
      (r : Store × Option StoreError)
      → IsSound s
      → append utc_date now o kind rec s ≡ some r
      → IsSound r.0
  unfolding append
  append-IsSound now o kind rec s r k h = elim (Bool-cases (is_zero rec.ts)) [
    | inl zero_time ↦ let same : s ≡ r.0 = ground (arith, zero_time, h) in subst IsSound same k
    | inr timed ↦ elim (Option-cases (lookup kind s.active)) [
      | inl e ↦
          let same : (append_to o.own_flush kind rec (new_seg (utc_date rec.ts)) s).0 ≡ r.0 =
            ground (arith, timed, e, h) in
          subst IsSound same (
            append_to-IsSound o.own_flush kind rec (new_seg (utc_date rec.ts)) s
              (new_seg-IsCounted (utc_date rec.ts) _) k)
      | inr (a, e) ↦ elim (Bool-cases (must_rotate utc_date a rec)) [
        | inr stays ↦
            let c : IsCounted a (length (file_of s kind)) =
              subst (λ (z : Option ActiveSeg). Counted z (length (file_of s kind))) e
                (k.segments kind) in
            let same : (append_to o.own_flush kind rec a s).0 ≡ r.0 =
              ground (arith, timed, e, stays, h) in
            subst IsSound same (append_to-IsSound o.own_flush kind rec a s c k)
        | inl rotates ↦
            let whole = append-rotates utc_date now o kind rec s a r timed e rotates h in
            let (q, e1, e2) =
              >>=-eq-some (rotate_locked utc_date now o.rotate_flush o.rotate_close kind s) _
                whole in
            let same : (append_rotated utc_date o.own_flush kind rec q).0 ≡ r.0 =
              ground (arith, e2) in
            subst IsSound same (
              append_rotated-IsSound o.own_flush kind rec q
                (rotate_locked-IsSound now o.rotate_flush o.rotate_close kind s {r = q} k e1))
      ]
    ]
  ]
