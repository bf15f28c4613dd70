-- ===== src/Store/Naming.antt =====
-- The names of closed segments: a free one is found, and no file is overwritten.
use cost_optimization.Prelude.{
  ℕ, zero, suc, ◌+◌, ◌<◌, ◌≤◌, ◌≡◌, ◌≢◌, refl, sym, subst, inl, inr, String, true, false, Option,
  none, some, List, [], ◌∷◌, ◌++◌, if◌then◌else◌, ◌==◌, arith, Bool-cases, Option-cases,
  >>=-eq-some, ◌>>=◌, then_of_true, else_of_false,
}
use cost_optimization.Prelude.Assoc.{string_eq, lookup, insert, remove}
use cost_optimization.Model.{Time, is_zero}
use cost_optimization.Store.{
  Record, SegmentName, SegmentInfo, ActiveSeg, ClosedFile, Store, FlushOutcome, flushed,
  failed_before, torn_member, failed_after, CloseOutcome, closed_with, not_moved, no_sidecar,
  stat_denied, StoreError,
}
use cost_optimization.Store.Segments.{
  flush_member, flush_locked, name_beq, exists, seq_bound, free_seq, unused_seq, search_seq,
  move_closed, discard, close_file, retire, rotate_locked, info_of,
}
use cost_optimization.Store.Appending.{
  AppendOutcomes, append_to, must_rotate, append_rotated, append, new_seg, buffer,
}
use text.Mathlib.TextEquality.{eq_iff}

name_beq-seq : (a b : SegmentName) → b.seq < a.seq → name_beq b a ≡ false
name_beq-seq a b h = ground (arith, h)

exists-above :
    (n : SegmentName) (closed : List ClosedFile)
    → seq_bound closed ≤ n.seq
    → exists n closed ≡ false
unfolding exists seq_bound
exists-above n [] h = refl
exists-above n (c ∷ closed) h =
    rw (name_beq-seq n c.name (omega (arith, h)), exists-above n closed (omega (arith, h))) refl

free_seq-ne-none :
    (fuel seq : ℕ) (kind date : String) (closed : List ClosedFile)
    → seq ≤ seq_bound closed
    → seq_bound closed < seq + fuel
    → free_seq fuel seq kind date closed ≢ none
unfolding free_seq
free_seq-ne-none zero seq kind date closed lo hi h = absurd (omega (arith, lo, hi))
free_seq-ne-none (suc fuel) seq kind date closed lo hi h =
    let n : SegmentName = record { kind = kind; date = date; seq = seq } in
    elim (Bool-cases (exists n closed)) [
      | inr unused ↦ absurd (let e = else_of_false _ _ unused h in cc)
      | inl used ↦
          let below : seq < seq_bound closed = ground (arith, exists-above n closed, used) in
          free_seq-ne-none fuel (suc seq) kind date closed below (omega (arith, hi))
            (then_of_true _ _ used h)
    ]

free_seq-unused :
    (fuel seq : ℕ) (kind date : String) (closed : List ClosedFile) {k : ℕ}
    → free_seq fuel seq kind date closed ≡ some k
    → exists record { kind = kind; date = date; seq = k } closed ≡ false
unfolding free_seq
free_seq-unused zero seq kind date closed h = absurd cc
free_seq-unused (suc fuel) seq kind date closed {k = k} h =
    let n : SegmentName = record { kind = kind; date = date; seq = seq } in
    elim (Bool-cases (exists n closed)) [
      | inl used ↦ free_seq-unused fuel (suc seq) kind date closed {k = k} (then_of_true _ _ used h)
      | inr unused ↦
          let same : seq ≡ k = (let e = else_of_false _ _ unused h in cc) in
          subst (λ (z : ℕ). exists record { kind = kind; date = date; seq = z } closed ≡ false) same
            unused
    ]

unused_seq-ne-none :
    (kind date : String) (closed : List ClosedFile) → unused_seq kind date closed ≢ none
unfolding unused_seq
unused_seq-ne-none kind date closed =
    free_seq-ne-none (suc (seq_bound closed)) 0 kind date closed (omega arith) (omega arith)

search_seq-ne-none :
    (o : CloseOutcome) (kind date : String) (closed : List ClosedFile)
    → o ≢ stat_denied
    → search_seq o kind date closed ≢ none
unfolding search_seq
search_seq-ne-none (closed_with size) kind date closed n = unused_seq-ne-none kind date closed
search_seq-ne-none not_moved kind date closed n = unused_seq-ne-none kind date closed
search_seq-ne-none no_sidecar kind date closed n = unused_seq-ne-none kind date closed
search_seq-ne-none stat_denied kind date closed n = absurd (n refl)

search_seq-unused_seq :
    (o : CloseOutcome) (kind date : String) (closed : List ClosedFile) {k : ℕ}
    → search_seq o kind date closed ≡ some k
    → unused_seq kind date closed ≡ some k
unfolding search_seq
search_seq-unused_seq (closed_with size) kind date closed h = h
search_seq-unused_seq not_moved kind date closed h = h
search_seq-unused_seq no_sidecar kind date closed h = h
search_seq-unused_seq stat_denied kind date closed h = absurd cc

-- No two closed files have one name.
unfoldable pub HasDistinctNames : List ClosedFile → Type 0
HasDistinctNames [] = Unit
HasDistinctNames (c ∷ closed) = (exists c.name closed ≡ false) × HasDistinctNames closed

pub name_beq_sym : (a b : SegmentName) → name_beq a b ≡ false → name_beq b a ≡ false
name_beq_sym a b h = ground (
  arith,
  eq_iff a.kind b.kind,
  eq_iff b.kind a.kind,
  eq_iff a.date b.date,
  eq_iff b.date a.date,
  h,
)

exists-append :
    (n : SegmentName) (closed : List ClosedFile) (c : ClosedFile)
    → exists n closed ≡ false
    → name_beq c.name n ≡ false
    → exists n (closed ++ (c ∷ [])) ≡ false
unfolding exists
exists-append n [] c h e = rw e refl
exists-append n (d ∷ closed) c h e = ground (arith, exists-append n closed c, h, e)

HasDistinctNames-append :
    (closed : List ClosedFile) (c : ClosedFile)
    → HasDistinctNames closed
    → exists c.name closed ≡ false
    → HasDistinctNames (closed ++ (c ∷ []))
unfolding HasDistinctNames exists
HasDistinctNames-append [] c d h = (refl, tt)
HasDistinctNames-append (x ∷ closed) c (d, ds) h = (
  exists-append x.name closed c d (name_beq_sym x.name c.name (ground (arith, h))),
  HasDistinctNames-append closed c ds (ground (arith, h)),
)

move_closed-HasDistinctNames :
    (o : CloseOutcome) (n : SegmentName) (kind : String) (info : SegmentInfo) (s : Store)
    → HasDistinctNames s.closed
    → exists n s.closed ≡ false
    → HasDistinctNames (move_closed o n kind info s).0.closed
unfolding move_closed
move_closed-HasDistinctNames (closed_with size) n kind info s d h =
    HasDistinctNames-append s.closed _ d h
move_closed-HasDistinctNames not_moved n kind info s d h = d
move_closed-HasDistinctNames stat_denied n kind info s d h = d
move_closed-HasDistinctNames no_sidecar n kind info s d h = HasDistinctNames-append s.closed _ d h

flush_member-closed :
    (o : FlushOutcome) (kind : String) (a : ActiveSeg) (s : Store)
    → (flush_member o kind a s).0.closed ≡ s.closed
unfolding flush_member
flush_member-closed (flushed len) kind a s = refl
flush_member-closed failed_before kind a s = refl
flush_member-closed torn_member kind a s = refl
flush_member-closed failed_after kind a s = refl

pub flush_locked-closed :
    (o : FlushOutcome) (kind : String) (s : Store) → (flush_locked o kind s).0.closed ≡ s.closed
unfolding flush_locked
flush_locked-closed o kind s = elim (Option-cases (lookup kind s.active)) [
  | inl e ↦ ground (arith, e)
  | inr (a, e) ↦ ground (arith, e, flush_member-closed o kind a s)
]

discard-closed :
    (co : CloseOutcome) (kind : String) (s : Store) → (discard co kind s).closed ≡ s.closed
unfolding discard
discard-closed (closed_with size) kind s = refl
discard-closed not_moved kind s = refl
discard-closed no_sidecar kind s = refl
discard-closed stat_denied kind s = refl

pub append_to-closed :
    (fo : FlushOutcome) (kind : String) (rec : Record) (a : ActiveSeg) (s : Store)
    → (append_to fo kind rec a s).0.closed ≡ s.closed
unfolding append_to
append_to-closed fo kind rec a s =
    let s1 = record s { active = insert kind (buffer rec a) s.active } in
    ground (arith, flush_locked-closed fo kind s1)

module _ (utc_date : Time → String) where
  close_file-ne-none :
      (now : Time) (o : CloseOutcome) (kind : String) (info : SegmentInfo) (s : Store)
      → o ≢ stat_denied
      → close_file utc_date now o kind info s ≢ none
  unfolding close_file
  close_file-ne-none now o kind info s n h =
      let date = if is_zero info.min_ts then utc_date now else utc_date info.min_ts in
      ground (arith, h, search_seq-ne-none o kind date s.closed n)

  close_file-HasDistinctNames :
      (now : Time) (o : CloseOutcome) (kind : String) (info : SegmentInfo) (s : Store)
      {r : Store × Option StoreError}
      → HasDistinctNames s.closed
      → close_file utc_date now o kind info s ≡ some r
      → HasDistinctNames r.0.closed
  unfolding close_file unused_seq
  close_file-HasDistinctNames now o kind info s {r = r} d h =
      let date = if is_zero info.min_ts then utc_date now else utc_date info.min_ts in
      elim (Option-cases (search_seq o kind date s.closed)) [
        | inl e ↦ absurd (ground (arith, e, h))
        | inr (seq, e) ↦
            let n : SegmentName = record { kind = kind; date = date; seq = seq } in
            let same : move_closed o n kind info s ≡ r = ground (arith, e, h) in
            subst (λ (z : Store × Option StoreError). HasDistinctNames z.0.closed) same
              (move_closed-HasDistinctNames o n kind info s d (
                free_seq-unused (suc (seq_bound s.closed)) 0 kind date s.closed
                  (search_seq-unused_seq o kind date s.closed e)))
      ]

  retire-ne-none :
      (now : Time) (co : CloseOutcome) (kind : String) (a : ActiveSeg) (s : Store)
      → co ≢ stat_denied
      → retire utc_date now co kind a s ≢ none
  unfolding retire
  retire-ne-none now co kind a s n h =
      let s1 = record s { active = remove kind s.active } in
      ground (arith, h, close_file-ne-none now co kind (info_of utc_date kind a) s1 n)

  pub rotate_locked-ne-none :
      (now : Time) (fo : FlushOutcome) (co : CloseOutcome) (kind : String) (s : Store)
      → co ≢ stat_denied
      → rotate_locked utc_date now fo co kind s ≢ none
  unfolding rotate_locked
  rotate_locked-ne-none now fo co kind s n h = elim (Option-cases (lookup kind s.active)) [
    | inl e ↦ ground (arith, e, h)
    | inr (a, e) ↦ ground (arith, e, h, retire-ne-none now co kind a (flush_locked fo kind s).0 n)
  ]

  retire-HasDistinctNames :
      (now : Time) (co : CloseOutcome) (kind : String) (a : ActiveSeg) (s : Store)
      {r : Store × Option StoreError}
      → HasDistinctNames s.closed
      → retire utc_date now co kind a s ≡ some r
      → HasDistinctNames r.0.closed
  unfolding retire
  retire-HasDistinctNames now co kind a s {r = r} d h = elim (Bool-cases (a.records == 0)) [
    | inl empty ↦
        let t = record s { active = remove kind s.active } in
        let kept = discard-closed co kind t in
        let same : s.closed ≡ r.0.closed = ground (arith, empty, kept, h) in
        subst HasDistinctNames same d
    | inr some_records ↦
        close_file-HasDistinctNames now co kind (info_of utc_date kind a)
          (record s { active = remove kind s.active }) {r = r} d (else_of_false _ _ some_records h)
  ]

  pub rotate_locked-HasDistinctNames :
      (now : Time) (fo : FlushOutcome) (co : CloseOutcome) (kind : String) (s : Store)
      {r : Store × Option StoreError}
      → HasDistinctNames s.closed
      → rotate_locked utc_date now fo co kind s ≡ some r
      → HasDistinctNames r.0.closed
  unfolding rotate_locked
  rotate_locked-HasDistinctNames now fo co kind s {r = r} d h =
      let flushed_closed = flush_locked-closed fo kind s in
      elim (Option-cases (lookup kind s.active)) [
        | inl e ↦
            let same : s.closed ≡ r.0.closed = ground (arith, e, h) in subst HasDistinctNames same d
        | inr (a, e) ↦ elim (Option-cases (flush_locked fo kind s).1) [
          | inr (x, failed) ↦
              let same : s.closed ≡ r.0.closed = ground (arith, e, failed, flushed_closed, h) in
              subst HasDistinctNames same d
          | inl ok ↦
              retire-HasDistinctNames now co kind a (flush_locked fo kind s).0 {r = r}
                (subst HasDistinctNames (sym flushed_closed) d) (ground (arith, e, ok, h))
        ]
      ]

  append_rotated-closed :
      (fo : FlushOutcome) (kind : String) (rec : Record) (r : Store × Option StoreError)
      → (append_rotated utc_date fo kind rec r).0.closed ≡ r.0.closed
  append_rotated-closed fo kind rec (s, some e) = refl
  append_rotated-closed fo kind rec (s, none) =
      append_to-closed fo kind rec (new_seg (utc_date rec.ts)) s

  pub append-rotates :
      (now : Time) (o : AppendOutcomes) (kind : String) (rec : Record) (s : Store) (a : ActiveSeg)
      (r : Store × Option StoreError)
      → is_zero rec.ts ≡ false
      → lookup kind s.active ≡ some a
      → must_rotate utc_date a rec ≡ true
      → append utc_date now o kind rec s ≡ some r
      → (rotate_locked utc_date now o.rotate_flush o.rotate_close kind s
          >>= (λ q. some (append_rotated utc_date o.own_flush kind rec q)))
        ≡ some r
  unfolding append
  append-rotates now o kind rec s a r timed e rotates h = ground (arith, timed, e, rotates, h)

  -- Where `Append` returns, it has kept the names of closed segments distinct: a rotation
  -- never moves a segment over another.
  pub append-HasDistinctNames :
      (now : Time) (o : AppendOutcomes) (kind : String) (rec : Record) (s : Store)
      (r : Store × Option StoreError)
      → HasDistinctNames s.closed
      → append utc_date now o kind rec s ≡ some r
      → HasDistinctNames r.0.closed
  unfolding append
  append-HasDistinctNames now o kind rec s r d h = elim (Bool-cases (is_zero rec.ts)) [
    | inl zero_time ↦
        let same : s.closed ≡ r.0.closed = ground (arith, zero_time, h) in
        subst HasDistinctNames same d
    | inr timed ↦ elim (Option-cases (lookup kind s.active)) [
      | inl e ↦
          let kept = append_to-closed o.own_flush kind rec (new_seg (utc_date rec.ts)) s in
          let same : s.closed ≡ r.0.closed = ground (arith, timed, e, kept, h) in
          subst HasDistinctNames same d
      | inr (a, e) ↦ elim (Bool-cases (must_rotate utc_date a rec)) [
        | inr stays ↦
            let kept = append_to-closed o.own_flush kind rec a s in
            let same : s.closed ≡ r.0.closed = ground (arith, timed, e, stays, kept, h) in
            subst HasDistinctNames same d
        | inl rotates ↦
            let whole = append-rotates now o kind rec s a r timed e rotates h in
            let (q, e1, e2) =
              >>=-eq-some (rotate_locked utc_date now o.rotate_flush o.rotate_close kind s) _
                whole in
            let kept = append_rotated-closed o.own_flush kind rec q in
            let same : q.0.closed ≡ r.0.closed = ground (arith, kept, e2) in
            subst HasDistinctNames same
              (rotate_locked-HasDistinctNames now o.rotate_flush o.rotate_close kind s {r = q} d e1)
      ]
    ]
  ]
