-- ===== src/Store/Elsewhere.antt =====
-- What `Append` and a rotation leave of the other kinds.
use cost_optimization.Prelude.{
  ℕ, ◌≡◌, refl, sym, ◌∙◌, subst, inl, inr, String, false, Option, none, some, List, [], ◌∷◌, ◌++◌,
  if◌then◌else◌, ◌==◌, arith, Bool-cases, Option-cases, >>=-eq-some, length, leb, sum_of,
  sum_of-append, else_of_false,
}
use cost_optimization.Prelude.Assoc.{
  string_eq, lookup, insert, remove, lookup-insert, lookup-remove,
}
use cost_optimization.Model.{Time, is_zero}
use cost_optimization.Store.{
  Record, SegmentName, SegmentInfo, ActiveSeg, ClosedFile, Store, FlushOutcome, flushed,
  failed_before, torn_member, failed_after, CloseOutcome, closed_with, not_moved, no_sidecar,
  stat_denied, StoreError, auto_flush_records,
}
use cost_optimization.Store.Segments.{
  flush_member, flush_locked, file_of, is_torn, search_seq, move_closed, discard, close_file,
  retire, rotate_locked, info_of,
}
use cost_optimization.Store.Appending.{
  AppendOutcomes, append_to, must_rotate, append_rotated, append, new_seg, buffer, settle,
}
use cost_optimization.Store.Spooling.{flush_locked-buffered, append_to-short, append_to-full}
use cost_optimization.Store.Naming.{append-rotates}
use cost_optimization.Store.Tally.{count_of}
use text.Mathlib.Text.{◌==◌ as str_eq}

-- What a store counts in the sidecars of a kind.
abbrev pub closed_count : String → Store → ℕ
closed_count j s = sum_of (λ (c : ClosedFile). count_of j c.sidecar) s.closed

-- The kind has the active segment, the active file and the counts that it had.
pub record IsUntouched (j : String) (s t : Store) : Type 0 where
  pub same_segment : lookup j t.active ≡ lookup j s.active
  pub same_file : lookup j t.files ≡ lookup j s.files
  pub same_count : closed_count j t ≡ closed_count j s

untouched : (j : String) (s : Store) → IsUntouched j s s
untouched j s = record { same_segment = refl; same_file = refl; same_count = refl }

IsUntouched-trans :
    (j : String) (s t u : Store) → IsUntouched j s t → IsUntouched j t u → IsUntouched j s u
IsUntouched-trans j s t u a b = record {
  same_segment = b.same_segment ∙ a.same_segment;
  same_file = b.same_file ∙ a.same_file;
  same_count = b.same_count ∙ a.same_count;
}

module _ (kind j : String) (other : str_eq kind j ≡ false) where
  kept_by_insert {ℓ} :
      {V : Type ℓ} (v : V) (m : List (String × V)) → lookup j (insert kind v m) ≡ lookup j m
  kept_by_insert v m = lookup-insert kind j v m ∙ rw other refl

  kept_by_remove {ℓ} : {V : Type ℓ} (m : List (String × V)) → lookup j (remove kind m) ≡ lookup j m
  kept_by_remove m = lookup-remove kind j m ∙ rw other refl

  flush_member-IsUntouched :
      (o : FlushOutcome) (a : ActiveSeg) (s : Store) → IsUntouched j s (flush_member o kind a s).0
  unfolding flush_member
  flush_member-IsUntouched (flushed len) a s = record {
    same_segment = kept_by_insert _ s.active;
    same_file = kept_by_insert _ s.files;
    same_count = refl;
  }
  flush_member-IsUntouched failed_before a s = untouched j s
  flush_member-IsUntouched torn_member a s = record {
    same_segment = refl;
    same_file = refl;
    same_count = refl;
  }
  flush_member-IsUntouched failed_after a s = record {
    same_segment = refl;
    same_file = kept_by_insert _ s.files;
    same_count = refl;
  }

  flush_locked-IsUntouched :
      (o : FlushOutcome) (s : Store) → IsUntouched j s (flush_locked o kind s).0
  unfolding flush_locked
  flush_locked-IsUntouched o s = elim (Option-cases (lookup kind s.active)) [
    | inl e ↦
        let same : s ≡ (flush_locked o kind s).0 = ground (arith, e) in
        subst (IsUntouched j s) same (untouched j s)
    | inr (a, e) ↦ elim (Bool-cases (length a.buf == 0)) [
      | inl empty ↦
          let same : s ≡ (flush_locked o kind s).0 = ground (arith, e, empty) in
          subst (IsUntouched j s) same (untouched j s)
      | inr buffered ↦
          subst (λ (z : Store × Option StoreError). IsUntouched j s z.0)
            (sym (flush_locked-buffered o kind a s e buffered)) (flush_member-IsUntouched o a s)
    ]
  ]

  settle-IsUntouched :
      (a : ActiveSeg) (s : Store) (r : Store × Option StoreError)
      → IsUntouched j s r.0
      → IsUntouched j s (settle kind a r).0
  settle-IsUntouched a s (t, none) k = k
  settle-IsUntouched a s (t, some x) k = record {
    same_segment = kept_by_insert _ t.active ∙ k.same_segment;
    same_file = k.same_file;
    same_count = k.same_count;
  }

  append_to-IsUntouched :
      (fo : FlushOutcome) (rec : Record) (a : ActiveSeg) (s : Store)
      → IsUntouched j s (append_to fo kind rec a s).0
  append_to-IsUntouched fo rec a s =
      let a1 = buffer rec a in
      let s1 : Store = record s { active = insert kind a1 s.active } in
      let buffered : IsUntouched j s s1 = record {
        same_segment = kept_by_insert a1 s.active;
        same_file = refl;
        same_count = refl;
      } in
      elim (Bool-cases (leb auto_flush_records (length a1.buf))) [
        | inr short ↦
            subst (λ (z : Store × Option StoreError). IsUntouched j s z.0)
              (sym (append_to-short fo kind rec a s short)) buffered
        | inl full ↦
            subst (λ (z : Store × Option StoreError). IsUntouched j s z.0)
              (sym (append_to-full fo kind rec a s full))
              (settle-IsUntouched a1 s (flush_member fo kind a1 s1) (
                IsUntouched-trans j s s1 (flush_member fo kind a1 s1).0 buffered
                  (flush_member-IsUntouched fo a1 s1)))
      ]

  moved-IsUntouched :
      (c : ClosedFile) (s : Store)
      → count_of j c.sidecar ≡ 0
      → IsUntouched j s (record s {
        files = remove kind s.files;
        torn_files = remove kind s.torn_files;
        closed = s.closed ++ (c ∷ []);
      })
  moved-IsUntouched c s h = record {
    same_segment = refl;
    same_file = kept_by_remove s.files;
    same_count =
        let a = sum_of-append (λ (c : ClosedFile). count_of j c.sidecar) s.closed (c ∷ []) in
        omega (arith, a, h);
  }

  move_closed-IsUntouched :
      (o : CloseOutcome) (n : SegmentName) (info : SegmentInfo) (s : Store)
      → info.kind ≡ kind
      → IsUntouched j s (move_closed o n kind info s).0
  unfolding move_closed
  move_closed-IsUntouched (closed_with size) n info s k =
      let c : ClosedFile = record {
        name = n;
        content = file_of s kind;
        torn = is_torn (lookup kind s.torn_files);
        sidecar = some (record info { name = n; size_bytes = size });
      } in
      let differs : str_eq info.kind j ≡ false = rw k other in
      moved-IsUntouched c s (rw differs refl)
  move_closed-IsUntouched not_moved n info s k = untouched j s
  move_closed-IsUntouched no_sidecar n info s k = moved-IsUntouched _ s refl
  move_closed-IsUntouched stat_denied n info s k = untouched j s

  emptied-IsUntouched :
      (s : Store)
      → IsUntouched j s
          (record s { files = remove kind s.files; torn_files = remove kind s.torn_files })
  emptied-IsUntouched s = record {
    same_segment = refl;
    same_file = kept_by_remove s.files;
    same_count = refl;
  }

  discard-IsUntouched : (co : CloseOutcome) (s : Store) → IsUntouched j s (discard co kind s)
  unfolding discard
  discard-IsUntouched (closed_with size) s = emptied-IsUntouched s
  discard-IsUntouched not_moved s = untouched j s
  discard-IsUntouched no_sidecar s = emptied-IsUntouched s
  discard-IsUntouched stat_denied s = emptied-IsUntouched s

  retired-IsUntouched : (s : Store) → IsUntouched j s (record s { active = remove kind s.active })
  retired-IsUntouched s = record {
    same_segment = kept_by_remove s.active;
    same_file = refl;
    same_count = refl;
  }

  module _ (utc_date : Time → String) where
    close_file-IsUntouched :
        (now : Time) (o : CloseOutcome) (info : SegmentInfo) (s : Store)
        {r : Store × Option StoreError}
        → info.kind ≡ kind
        → close_file utc_date now o kind info s ≡ some r
        → IsUntouched j s r.0
    unfolding close_file
    close_file-IsUntouched now o info s {r = r} k h =
        let date = if is_zero info.min_ts then utc_date now else utc_date info.min_ts in
        elim (Option-cases (search_seq o kind date s.closed)) [
          | inl e ↦ absurd (ground (arith, e, h))
          | inr (seq, e) ↦
              let n : SegmentName = record { kind = kind; date = date; seq = seq } in
              let same : move_closed o n kind info s ≡ r = ground (arith, e, h) in
              subst (λ (z : Store × Option StoreError). IsUntouched j s z.0) same
                (move_closed-IsUntouched o n info s k)
        ]

    retire-IsUntouched :
        (now : Time) (co : CloseOutcome) (a : ActiveSeg) (s : Store) {r : Store × Option StoreError}
        → retire utc_date now co kind a s ≡ some r
        → IsUntouched j s r.0
    unfolding retire
    retire-IsUntouched now co a s {r = r} h =
        let t : Store = record s { active = remove kind s.active } in
        IsUntouched-trans j s t r.0 (retired-IsUntouched s) (elim (Bool-cases (a.records == 0)) [
          | inl empty ↦
              let same : discard co kind t ≡ r.0 = ground (arith, empty, h) in
              subst (IsUntouched j t) same (discard-IsUntouched co t)
          | inr some_records ↦
              close_file-IsUntouched now co (info_of utc_date kind a) t {r = r} refl
                (else_of_false _ _ some_records h)
        ])

    rotate_locked-IsUntouched :
        (now : Time) (fo : FlushOutcome) (co : CloseOutcome) (s : Store)
        {r : Store × Option StoreError}
        → rotate_locked utc_date now fo co kind s ≡ some r
        → IsUntouched j s r.0
    unfolding rotate_locked
    rotate_locked-IsUntouched now fo co s {r = r} h =
        let t = (flush_locked fo kind s).0 in
        let after = flush_locked-IsUntouched fo s in
        elim (Option-cases (lookup kind s.active)) [
          | inl e ↦
              let same : s ≡ r.0 = ground (arith, e, h) in
              subst (IsUntouched j s) same (untouched j s)
          | inr (a, e) ↦ elim (Option-cases (flush_locked fo kind s).1) [
            | inr (x, failed) ↦
                let same : t ≡ r.0 = ground (arith, e, failed, h) in
                subst (IsUntouched j s) same after
            | inl ok ↦
                IsUntouched-trans j s t r.0 after
                  (retire-IsUntouched now co a t {r = r} (ground (arith, e, ok, h)))
          ]
        ]

    append_rotated-IsUntouched :
        (fo : FlushOutcome) (rec : Record) (s : Store) (q : Store × Option StoreError)
        → IsUntouched j s q.0
        → IsUntouched j s (append_rotated utc_date fo kind rec q).0
    append_rotated-IsUntouched fo rec s (t, some x) k = k
    append_rotated-IsUntouched fo rec s (t, none) k =
        IsUntouched-trans j s t _ k (append_to-IsUntouched fo rec (new_seg (utc_date rec.ts)) t)

    -- An `Append` of a record of one kind leaves the others as they are.
    pub append-IsUntouched :
        (now : Time) (o : AppendOutcomes) (rec : Record) (s : Store) (r : Store × Option StoreError)
        → append utc_date now o kind rec s ≡ some r
        → IsUntouched j s r.0
    unfolding append
    append-IsUntouched now o rec s r h = elim (Bool-cases (is_zero rec.ts)) [
      | inl zero_time ↦
          let same : s ≡ r.0 = ground (arith, zero_time, h) in
          subst (IsUntouched j s) same (untouched j s)
      | inr timed ↦ elim (Option-cases (lookup kind s.active)) [
        | inl e ↦
            let new = new_seg (utc_date rec.ts) in
            let same : (append_to o.own_flush kind rec new s).0 ≡ r.0 =
              ground (arith, timed, e, h) in
            subst (IsUntouched j s) same (append_to-IsUntouched o.own_flush rec new s)
        | inr (a, e) ↦ elim (Bool-cases (must_rotate utc_date a rec)) [
          | inr stays ↦
              let same : (append_to o.own_flush kind rec a s).0 ≡ r.0 =
                ground (arith, timed, e, stays, h) in
              subst (IsUntouched j s) same (append_to-IsUntouched o.own_flush rec a s)
          | inl rotates ↦
              let whole = append-rotates utc_date now o kind rec s a r timed e rotates h in
              let (q, e1, e2) =
                >>=-eq-some (rotate_locked utc_date now o.rotate_flush o.rotate_close kind s) _
                  whole in
              let same : (append_rotated utc_date o.own_flush kind rec q).0 ≡ r.0 =
                ground (arith, e2) in
              subst (IsUntouched j s) same (
                append_rotated-IsUntouched o.own_flush rec s q
                  (rotate_locked-IsUntouched now o.rotate_flush o.rotate_close s {r = q} e1))
        ]
      ]
    ]
