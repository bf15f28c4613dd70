-- ===== src/Store/Accounting.antt =====
-- Every record that `Append` accepts is counted, in a segment, in a sidecar or as dropped.
use cost_optimization.Prelude.{
  ℕ, ◌+◌, ◌≡◌, ◌≢◌, refl, sym, ap, ◌∙◌, subst, ◌⊎◌, inl, inr, String, true, false, Option, none,
  some, List, [], ◌∷◌, if◌then◌else◌, ◌==◌, arith, Bool-cases, Option-cases, >>=-eq-some, length,
  sum_of, sum_of-append, else_of_false,
}
use cost_optimization.Prelude.Assoc.{
  string_eq, lookup, remove, lookup-remove, beq_refl, lookup-insert_self, weight,
}
use cost_optimization.Model.{Time, is_zero}
use cost_optimization.Store.{
  Record, SegmentName, SegmentInfo, ActiveSeg, ClosedFile, Store, FlushOutcome, flushed,
  failed_before, torn_member, failed_after, CloseOutcome, closed_with, not_moved, no_sidecar,
  stat_denied, StoreError, close_failed,
}
use cost_optimization.Store.Segments.{
  flush_member, flush_locked, file_of, is_torn, search_seq, move_closed, discard, close_file,
  retire, rotate_locked, info_of,
}
use cost_optimization.Store.Appending.{
  AppendOutcomes, append_to, must_rotate, append_rotated, append, new_seg,
}
use cost_optimization.Store.Spooling.{IsCounted, Counted, AllCounted, flush_locked-buffered}
use cost_optimization.Store.Naming.{append-rotates, flush_locked-closed}
use cost_optimization.Store.Elsewhere.{IsUntouched, append-IsUntouched}
use cost_optimization.Store.Tally.{count_of, tally, tally_of_active, HasRoom, append_to-tally}
use text.Mathlib.Text.{◌==◌ as str_eq}

-- What a rotation that closes its segment leaves: the segment's records are counted elsewhere.
record IsRetired (kind : String) (counted : ℕ) (s t : Store) : Type 0 where
  gone : lookup kind t.active ≡ none
  same_tally :
      tally kind t
      ≡ counted + sum_of (λ (c : ClosedFile). count_of kind c.sidecar) s.closed + s.dropped
  same_dropped : t.dropped ≡ s.dropped

removed_lookup :
    (kind : String) (m : List (String × ActiveSeg)) → lookup kind (remove kind m) ≡ none
removed_lookup kind m = rw (lookup-remove kind kind m, beq_refl kind) refl

move_closed-IsRetired :
    (o : CloseOutcome) (n : SegmentName) (kind : String) (info : SegmentInfo) (s : Store)
    → info.kind ≡ kind
    → (move_closed o n kind info (record s { active = remove kind s.active })).1 ≢ some close_failed
    → IsRetired kind info.records s
        (move_closed o n kind info (record s { active = remove kind s.active })).0
unfolding move_closed
move_closed-IsRetired (closed_with size) n kind info s k h =
    let c : ClosedFile = record {
      name = n;
      content = file_of s kind;
      torn = is_torn (lookup kind s.torn_files);
      sidecar = some (record info { name = n; size_bytes = size });
    } in
    let same : str_eq info.kind kind ≡ true = rw k (beq_refl kind) in
    let one : count_of kind c.sidecar ≡ info.records = rw same refl in
    record {
      gone = removed_lookup kind s.active;
      same_tally = rw (removed_lookup kind s.active) (
          omega (
            arith,
            one,
            sum_of-append (λ (c : ClosedFile). count_of kind c.sidecar) s.closed (c ∷ []),
          ));
      same_dropped = refl;
    }
move_closed-IsRetired not_moved n kind info s k h = absurd (h refl)
move_closed-IsRetired stat_denied n kind info s k h = absurd (h refl)
move_closed-IsRetired no_sidecar n kind info s k h = absurd (h refl)

flush_member-tally :
    (o : FlushOutcome) (kind : String) (a : ActiveSeg) (s : Store)
    → lookup kind s.active ≡ some a
    → tally kind (flush_member o kind a s).0 ≡ tally kind s
unfolding flush_member
flush_member-tally (flushed len) kind a s e =
    let b = record a { size = a.size + len; buf = []; raw_buffered = 0 } in
    rw (lookup-insert_self kind b s.active, e) refl
flush_member-tally failed_before kind a s e = refl
flush_member-tally torn_member kind a s e = refl
flush_member-tally failed_after kind a s e = refl

flush_member-dropped :
    (o : FlushOutcome) (kind : String) (a : ActiveSeg) (s : Store)
    → (flush_member o kind a s).0.dropped ≡ s.dropped
unfolding flush_member
flush_member-dropped (flushed len) kind a s = refl
flush_member-dropped failed_before kind a s = refl
flush_member-dropped torn_member kind a s = refl
flush_member-dropped failed_after kind a s = refl

record IsFlushed (kind : String) (s t : Store) : Type 0 where
  same_tally : tally kind t ≡ tally kind s
  same_dropped : t.dropped ≡ s.dropped

flush_locked-IsFlushed :
    (o : FlushOutcome) (kind : String) (s : Store) → IsFlushed kind s (flush_locked o kind s).0
unfolding flush_locked
flush_locked-IsFlushed o kind s = elim (Option-cases (lookup kind s.active)) [
  | inl e ↦
      let same : s ≡ (flush_locked o kind s).0 = ground (arith, e) in
      subst (IsFlushed kind s) same record { same_tally = refl; same_dropped = refl }
  | inr (a, e) ↦ elim (Bool-cases (length a.buf == 0)) [
    | inl empty ↦
        let same : s ≡ (flush_locked o kind s).0 = ground (arith, e, empty) in
        subst (IsFlushed kind s) same record { same_tally = refl; same_dropped = refl }
    | inr buffered ↦
        subst (λ (z : Store × Option StoreError). IsFlushed kind s z.0)
          (sym (flush_locked-buffered o kind a s e buffered))
          record {
            same_tally = flush_member-tally o kind a s e;
            same_dropped = flush_member-dropped o kind a s;
          }
  ]
]

module _ (utc_date : Time → String) where
  close_file-IsRetired :
      (now : Time) (o : CloseOutcome) (kind : String) (a : ActiveSeg) (s : Store)
      {r : Store × Option StoreError}
      → close_file utc_date now o kind
          (info_of utc_date kind a)
          (record s { active = remove kind s.active })
        ≡ some r
      → r.1 ≢ some close_failed
      → IsRetired kind a.records s r.0
  unfolding close_file
  close_file-IsRetired now o kind a s {r = r} h fine =
      let info = info_of utc_date kind a in
      let t = record s { active = remove kind s.active } in
      let date = if is_zero info.min_ts then utc_date now else utc_date info.min_ts in
      elim (Option-cases (search_seq o kind date s.closed)) [
        | inl e ↦ absurd (ground (arith, e, h))
        | inr (seq, e) ↦
            let n : SegmentName = record { kind = kind; date = date; seq = seq } in
            let same : move_closed o n kind info t ≡ r = ground (arith, e, h) in
            subst (λ (z : Store × Option StoreError). IsRetired kind a.records s z.0) same
              (move_closed-IsRetired o n kind info s refl
                (λ failed. fine (ap (λ (z : Store × Option StoreError). z.1) (sym same) ∙ failed)))
      ]

  discard-keeps :
      (co : CloseOutcome) (kind : String) (s : Store)
      → ((discard co kind s).active ≡ s.active)
        × ((discard co kind s).closed ≡ s.closed)
        × ((discard co kind s).dropped ≡ s.dropped)
  unfolding discard
  discard-keeps (closed_with size) kind s = (refl, refl, refl)
  discard-keeps not_moved kind s = (refl, refl, refl)
  discard-keeps no_sidecar kind s = (refl, refl, refl)
  discard-keeps stat_denied kind s = (refl, refl, refl)

  retire-IsRetired :
      (now : Time) (co : CloseOutcome) (kind : String) (a : ActiveSeg) (s : Store)
      {r : Store × Option StoreError}
      → retire utc_date now co kind a s ≡ some r
      → r.1 ≢ some close_failed
      → IsRetired kind a.records s r.0
  unfolding retire
  retire-IsRetired now co kind a s {r = r} h fine = elim (Bool-cases (a.records == 0)) [
    | inl empty ↦
        let t = record s { active = remove kind s.active } in
        let same : discard co kind t ≡ r.0 = ground (arith, empty, h) in
        let (active, closed, dropped) = discard-keeps co kind t in
        subst (IsRetired kind a.records s) same record {
          gone = rw active (removed_lookup kind s.active);
          same_tally =
              rw (active, closed, dropped, removed_lookup kind s.active) (ground (arith, empty));
          same_dropped = dropped;
        }
    | inr some_records ↦
        close_file-IsRetired now co kind a s {r = r} (else_of_false _ _ some_records h) fine
  ]

  -- A rotation moves what is counted, and does not change how much it is.
  rotate_locked-tally :
      (now : Time) (fo : FlushOutcome) (co : CloseOutcome) (kind : String) (s : Store)
      {r : Store × Option StoreError}
      → rotate_locked utc_date now fo co kind s ≡ some r
      → r.1 ≢ some close_failed
      → (tally kind r.0 ≡ tally kind s)
        × (r.0.dropped ≡ s.dropped)
        × (r.1 ≡ none → lookup kind r.0.active ≡ none)
  unfolding rotate_locked
  rotate_locked-tally now fo co kind s {r = r} h fine =
      let f = flush_locked-IsFlushed fo kind s in
      elim (Option-cases (lookup kind s.active)) [
        | inl e ↦
            let same : s ≡ r.0 = ground (arith, e, h) in
            (
              ap (tally kind) (sym same),
              ap (λ (z : Store). z.dropped) (sym same),
              λ ok. subst (λ (z : Store). lookup kind z.active ≡ none) same e,
            )
        | inr (a, e) ↦ elim (Option-cases (flush_locked fo kind s).1) [
          | inr (x, failed) ↦
              let same : (flush_locked fo kind s).0 ≡ r.0 = ground (arith, e, failed, h) in
              (
                ap (tally kind) (sym same) ∙ f.same_tally,
                ap (λ (z : Store). z.dropped) (sym same) ∙ f.same_dropped,
                λ ok. absurd (ground (arith, e, failed, h, ok)),
              )
          | inl ok ↦
              let k =
                retire-IsRetired now co kind a (flush_locked fo kind s).0 {r = r}
                  (ground (arith, e, ok, h)) fine in
              let closed_same = flush_locked-closed fo kind s in
              (
                k.same_tally
                    ∙ rw closed_same (omega (arith, f.same_dropped, tally_of_active kind s a e)),
                k.same_dropped ∙ f.same_dropped,
                λ fin. k.gone,
              )
        ]
      ]

  append_rotated-tally :
      (fo : FlushOutcome) (kind : String) (rec : Record) (r : Store × Option StoreError)
      → (r.1 ≡ none → lookup kind r.0.active ≡ none)
      → HasRoom r.0
      → (tally kind (append_rotated utc_date fo kind rec r).0 ≡ tally kind r.0 + 1)
        ⊎ ((tally kind (append_rotated utc_date fo kind rec r).0 ≡ tally kind r.0)
            × ((append_rotated utc_date fo kind rec r).1 ≢ none))
  append_rotated-tally fo kind rec (s, some x) gone room = inr (refl, λ e. cc)
  append_rotated-tally fo kind rec (s, none) gone room =
      let new = new_seg (utc_date rec.ts) in
      let w : weight (λ (a : ActiveSeg). a.records) (lookup kind s.active) ≡ 0 =
        rw (gone refl) refl in
      inl (append_to-tally fo kind rec new s w (omega arith) (omega arith) room)

  rotation_error :
      (fo : FlushOutcome) (kind : String) (rec : Record) (q : Store × Option StoreError)
      → (append_rotated utc_date fo kind rec q).1 ≢ some close_failed
      → q.1 ≢ some close_failed
  rotation_error fo kind rec (s, some x) fine e = fine e
  rotation_error fo kind rec (s, none) fine e = absurd cc

  rotated-tally :
      (fo : FlushOutcome) (kind : String) (rec : Record) (s : Store)
      (q r : Store × Option StoreError)
      → append_rotated utc_date fo kind rec q ≡ r
      → (tally kind q.0 ≡ tally kind s)
        × (q.0.dropped ≡ s.dropped)
        × (q.1 ≡ none → lookup kind q.0.active ≡ none)
      → HasRoom s
      → (tally kind r.0 ≡ tally kind s + 1) ⊎ ((tally kind r.0 ≡ tally kind s) × (r.1 ≢ none))
  rotated-tally fo kind rec s q r same (t, d, gone) room =
      subst
        (λ (z : Store × Option StoreError).
          (tally kind z.0 ≡ tally kind s + 1) ⊎ ((tally kind z.0 ≡ tally kind s) × (z.1 ≢ none)))
        same
        (elim (append_rotated-tally fo kind rec q gone (omega (arith, d, room))) [
          | inl more ↦ inl (more ∙ ap (λ n. n + 1) t)
          | inr (kept, failed) ↦ inr (kept ∙ t, failed)
        ])

  own-tally :
      (now : Time) (o : AppendOutcomes) (kind : String) (rec : Record) (s : Store)
      (r : Store × Option StoreError)
      → AllCounted s
      → HasRoom s
      → append utc_date now o kind rec s ≡ some r
      → r.1 ≢ some close_failed
      → (tally kind r.0 ≡ tally kind s + 1) ⊎ ((tally kind r.0 ≡ tally kind s) × (r.1 ≢ none))
  unfolding append
  own-tally now o kind rec s r all room h fine = elim (Bool-cases (is_zero rec.ts)) [
    | inl zero_time ↦
        let same : s ≡ r.0 = ground (arith, zero_time, h) in
        inr (ap (tally kind) (sym same), λ e. absurd (ground (arith, zero_time, h, e)))
    | inr timed ↦ elim (Option-cases (lookup kind s.active)) [
      | inl e ↦
          let new = new_seg (utc_date rec.ts) in
          let w : weight (λ (a : ActiveSeg). a.records) (lookup kind s.active) ≡ 0 = rw e refl in
          let same : (append_to o.own_flush kind rec new s).0 ≡ r.0 = ground (arith, timed, e, h) in
          inl (
            ap (tally kind) (sym same)
            ∙ append_to-tally o.own_flush kind rec new s w (omega arith) (omega arith) room)
      | inr (a, e) ↦ elim (Bool-cases (must_rotate utc_date a rec)) [
        | inr stays ↦
            let c : IsCounted a (length (file_of s kind)) =
              subst (λ (z : Option ActiveSeg). Counted z (length (file_of s kind))) e (all kind) in
            let w : weight (λ (a : ActiveSeg). a.records) (lookup kind s.active) ≡ a.records =
              rw e refl in
            let same : (append_to o.own_flush kind rec a s).0 ≡ r.0 =
              ground (arith, timed, e, stays, h) in
            inl (
              ap (tally kind) (sym same)
              ∙ append_to-tally o.own_flush kind rec a s w c.counted c.bounded room)
        | inl rotates ↦
            let whole = append-rotates utc_date now o kind rec s a r timed e rotates h in
            let (q, e1, e2) =
              >>=-eq-some (rotate_locked utc_date now o.rotate_flush o.rotate_close kind s) _
                whole in
            let same : append_rotated utc_date o.own_flush kind rec q ≡ r = ground (arith, e2) in
            let closes =
              rotation_error o.own_flush kind rec q
                (λ x. fine (ap (λ (z : Store × Option StoreError). z.1) (sym same) ∙ x)) in
            rotated-tally o.own_flush kind rec s q r same
              (rotate_locked-tally now o.rotate_flush o.rotate_close kind s {r = q} e1 closes) room
      ]
    ]
  ]

  -- Where every segment is counted, the counter of dropped records has room for a batch, and the
  -- closing of a segment does not fail: an `Append` that succeeds adds exactly one record to those
  -- that the store counts for its kind and to those it counts as dropped, together, whatever it rotates
  -- and flushes. One that fails adds one or none. The active segment and the active file of every other
  -- kind, and the records that the sidecars of that kind count, are as they were.
  pub append-tally :
      (now : Time) (o : AppendOutcomes) (kind : String) (rec : Record) (s : Store)
      (r : Store × Option StoreError)
      → AllCounted s
      → HasRoom s
      → append utc_date now o kind rec s ≡ some r
      → r.1 ≢ some close_failed
      → ((tally kind r.0 ≡ tally kind s + 1) ⊎ ((tally kind r.0 ≡ tally kind s) × (r.1 ≢ none)))
        × ((j : String) → str_eq kind j ≡ false → IsUntouched j s r.0)
  append-tally now o kind rec s r all room h fine = (
    own-tally now o kind rec s r all room h fine,
    λ j other. append-IsUntouched kind j other utc_date now o rec s r h,
  )
