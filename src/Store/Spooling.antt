-- ===== src/Store/Spooling.antt =====
-- What the store's counts promise: the bounded buffer, and no count above what the files hold.
use cost_optimization.Prelude.{
  ℕ, ◌+◌, ◌-◌, ◌<◌, ◌≤◌, ◌≡◌, refl, sym, ap, ◌∙◌, subst, inl, inr, String, true, false, Option,
  none, some, List, [], ◌∷◌, ◌++◌, if◌then◌else◌, ◌==◌, arith, Bool-cases, length, length-append,
  leb,
}
use cost_optimization.Prelude.Assoc.{string_eq, lookup, insert, lookup-insert, beq_refl}
use cost_optimization.Store.{
  Record, ActiveSeg, Store, FlushOutcome, flushed, failed_before, torn_member, failed_after,
  StoreError, auto_flush_records,
}
use cost_optimization.Store.Segments.{flush_member, flush_locked, contents, file_of}
use cost_optimization.Store.Appending.{append_to, buffer, settle}
use text.Mathlib.Text.{◌==◌ as str_eq}
use text.Mathlib.TextEquality.{eq_iff}

-- A segment beside the number of records in its file.
pub record IsCounted (a : ActiveSeg) (held : ℕ) : Type 0 where
  pub bounded : length a.buf < auto_flush_records
  pub counted : length a.buf ≤ a.records
  pub held_or_buffered : a.records ≤ held + length a.buf

abbrev pub Counted : Option ActiveSeg → ℕ → Type 0
Counted none held = Unit {0}
Counted (some a) held = IsCounted a held

-- Every segment is counted.
abbrev pub AllCounted : Store → Type 0
AllCounted s = (j : String) → Counted (lookup j s.active) (length (file_of s j))

-- A step that changes the segment and the file of one kind alone.
pub record Changes (s t : Store) (kind : String) (v : Option ActiveSeg) (f : Option (List Record))
    : Type 0 where
  pub active_at :
      (j : String) → lookup j t.active ≡ (if str_eq kind j then v else lookup j s.active)
  pub file_at : (j : String) → lookup j t.files ≡ (if str_eq kind j then f else lookup j s.files)

pub same_at {ℓ} :
    {V : Type ℓ} (kind j : String) (m : List (String × V))
    → lookup j m ≡ (if str_eq kind j then lookup kind m else lookup j m)
same_at kind j m = elim (Bool-cases (str_eq kind j)) [
  | inl hit ↦ let same : kind ≡ j = (eq_iff kind j).0 hit in rw (hit, same) refl
  | inr miss ↦ rw miss refl
]

pub Changes-AllCounted :
    (s t : Store) (kind : String) (v : Option ActiveSeg) (f : Option (List Record))
    → Changes s t kind v f
    → Counted v (length (contents f))
    → AllCounted s
    → AllCounted t
Changes-AllCounted s t kind v f c new all j =
    subst (λ (z : Option ActiveSeg × Option (List Record)). Counted z.0 (length (contents z.1)))
      {x = (
        if str_eq kind j then v else lookup j s.active,
        if str_eq kind j then f else lookup j s.files,
      )}
      {y = (lookup j t.active, lookup j t.files)}
      (λ i. (sym (c.active_at j) i, sym (c.file_at j) i))
      (elim (Bool-cases (str_eq kind j)) [ inl hit ↦ rw hit new | inr miss ↦ rw miss (all j) ])

pub flush_locked-buffered :
    (o : FlushOutcome) (kind : String) (a : ActiveSeg) (s : Store)
    → lookup kind s.active ≡ some a
    → (length a.buf == 0) ≡ false
    → flush_locked o kind s ≡ flush_member o kind a s
unfolding flush_locked
flush_locked-buffered o kind a s e h = ground (arith, e, h)

insert_twice :
    {V : Type 0} (kind j : String) (v w : V) (m : List (String × V))
    → lookup j (insert kind w (insert kind v m)) ≡ (if str_eq kind j then some w else lookup j m)
insert_twice kind j v w m =
    ground (arith, lookup-insert kind j w (insert kind v m), lookup-insert kind j v m)

-- The segment once a batch that would not flush is dropped.
abbrev without_batch : ActiveSeg → ActiveSeg
without_batch a = record a { records = a.records - length a.buf; buf = [] }

abbrev once_flushed : ActiveSeg → ℕ → ActiveSeg
once_flushed a len = record a { size = a.size + len; buf = []; raw_buffered = 0 }

-- The record fits into the buffer.
pub append_to-short :
    (fo : FlushOutcome) (kind : String) (rec : Record) (a : ActiveSeg) (s : Store)
    → leb auto_flush_records (length (buffer rec a).buf) ≡ false
    → append_to fo kind rec a s ≡ (record s { active = insert kind (buffer rec a) s.active }, none)
unfolding append_to
append_to-short fo kind rec a s h = ground (arith, h)

-- It fills the buffer.
pub append_to-full :
    (fo : FlushOutcome) (kind : String) (rec : Record) (a : ActiveSeg) (s : Store)
    → leb auto_flush_records (length (buffer rec a).buf) ≡ true
    → append_to fo kind rec a s
      ≡ settle kind (buffer rec a) (
          flush_member fo kind
            (buffer rec a)
            (record s { active = insert kind (buffer rec a) s.active }))
unfolding append_to
append_to-full fo kind rec a s h =
    let a1 = buffer rec a in
    let s1 = record s { active = insert kind a1 s.active } in
    let filled : (length a1.buf == 0) ≡ false = ground (arith, h) in
    let same =
      flush_locked-buffered fo kind a1 s1
        (lookup-insert kind kind a1 s.active ∙ rw (beq_refl kind) refl) filled in
    rw h (ap (settle kind a1) same)

-- What a flush of a full buffer leaves.
settle-AllCounted :
    (fo : FlushOutcome) (kind : String) (a : ActiveSeg) (s : Store)
    → length a.buf ≤ a.records
    → a.records ≤ length (file_of s kind) + length a.buf
    → AllCounted s
    → AllCounted
        (settle kind a (flush_member fo kind a (record s { active = insert kind a s.active }))).0
unfolding flush_member
settle-AllCounted (flushed len) kind a s lo hi all =
    let t = record s { active = insert kind a s.active } in
    let recs = file_of s kind ++ a.buf in
    Changes-AllCounted s (settle kind a (flush_member (flushed len) kind a t)).0 kind
      (some (once_flushed a len)) (some recs)
      (record {
        active_at = λ j. insert_twice kind j a (once_flushed a len) s.active;
        file_at = λ j. lookup-insert kind j recs s.files;
      })
      (record {
        bounded = omega arith;
        counted = omega arith;
        held_or_buffered = omega (arith, hi, length-append (file_of s kind) a.buf);
      })
      all
settle-AllCounted failed_before kind a s lo hi all =
    let t = record s { active = insert kind a s.active } in
    Changes-AllCounted s (settle kind a (flush_member failed_before kind a t)).0 kind
      (some (without_batch a)) (lookup kind s.files)
      (record {
        active_at = λ j. insert_twice kind j a (without_batch a) s.active;
        file_at = λ j. same_at kind j s.files;
      })
      (record {
        bounded = omega arith;
        counted = omega arith;
        held_or_buffered = omega (arith, hi);
      })
      all
settle-AllCounted torn_member kind a s lo hi all =
    let t = record s { active = insert kind a s.active } in
    Changes-AllCounted s (settle kind a (flush_member torn_member kind a t)).0 kind
      (some (without_batch a)) (lookup kind s.files)
      (record {
        active_at = λ j. insert_twice kind j a (without_batch a) s.active;
        file_at = λ j. same_at kind j s.files;
      })
      (record {
        bounded = omega arith;
        counted = omega arith;
        held_or_buffered = omega (arith, hi);
      })
      all
settle-AllCounted failed_after kind a s lo hi all =
    let t = record s { active = insert kind a s.active } in
    let recs = file_of s kind ++ a.buf in
    Changes-AllCounted s (settle kind a (flush_member failed_after kind a t)).0 kind
      (some (without_batch a)) (some recs)
      (record {
        active_at = λ j. insert_twice kind j a (without_batch a) s.active;
        file_at = λ j. lookup-insert kind j recs s.files;
      })
      (record {
        bounded = omega arith;
        counted = omega arith;
        held_or_buffered = omega (arith, hi, length-append (file_of s kind) a.buf);
      })
      all

pub append_to-AllCounted :
    (fo : FlushOutcome) (kind : String) (rec : Record) (a : ActiveSeg) (s : Store)
    → IsCounted a (length (file_of s kind))
    → AllCounted s
    → AllCounted (append_to fo kind rec a s).0
append_to-AllCounted fo kind rec a s c all =
    let a1 = buffer rec a in
    let longer = length-append a.buf (rec ∷ []) in
    let lo : length a1.buf ≤ a1.records = omega (arith, c.counted, longer) in
    let hi : a1.records ≤ length (file_of s kind) + length a1.buf =
      omega (arith, c.held_or_buffered, longer) in
    elim (Bool-cases (leb auto_flush_records (length a1.buf))) [
      | inr short ↦
          subst (λ (z : Store × Option StoreError). AllCounted z.0)
            (sym (append_to-short fo kind rec a s short))
            (Changes-AllCounted s (record s { active = insert kind a1 s.active }) kind (some a1)
              (lookup kind s.files)
              (record {
                active_at = λ j. lookup-insert kind j a1 s.active;
                file_at = λ j. same_at kind j s.files;
              })
              (record { bounded = ground (arith, short); counted = lo; held_or_buffered = hi }) all)
      | inl full ↦
          subst (λ (z : Store × Option StoreError). AllCounted z.0)
            (sym (append_to-full fo kind rec a s full)) (settle-AllCounted fo kind a1 s lo hi all)
    ]
