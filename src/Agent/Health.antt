-- ===== src/Agent/Health.antt =====
-- internal/agent/health.go: the health of the collectors. A text is the list of its bytes, as a Go
-- string is. The mutex makes every method one step. The agent's own process, whose use of memory and
-- CPU `Snapshot` reads, is left out, and so is the record that it builds. Bytes are below 256, which no lemma
-- needs.
mod Reports
mod Folding
mod Tests
use cost_optimization.Prelude.{
  ℕ, zero, suc, ◌+◌, ◌%◌, ◌^◌, ◌≡◌, ◌↔◌, refl, Bool, true, false, ◌&&◌, ◌||◌, Option, none, some,
  List, [], ◌∷◌, ◌++◌, length, take, if◌then◌else◌, ltb, leb, ◌==◌, arith,
}
use cost_optimization.Prelude.Assoc.{Eq, Map, lookup, insert}
use cost_optimization.Model.{Time}

abbrev pub Text : Type 0
Text = List ℕ

abbrev pub bytes_beq : Text → Text → Bool
bytes_beq [] [] = true
bytes_beq [] (b ∷ ys) = false
bytes_beq (a ∷ xs) [] = false
bytes_beq (a ∷ xs) (b ∷ ys) = a == b && bytes_beq xs ys

pub bytes_beq_iff : (a b : Text) → (bytes_beq a b ≡ true) ↔ (a ≡ b)
bytes_beq_iff [] [] = ground arith
bytes_beq_iff [] (b ∷ ys) = ground arith
bytes_beq_iff (a ∷ xs) [] = ground arith
bytes_beq_iff (a ∷ xs) (b ∷ ys) = ground (arith, bytes_beq_iff xs ys)

instance abbrev pub bytes_eq : Eq Text
bytes_eq = record { beq = bytes_beq; beq_iff = bytes_beq_iff }

abbrev pub max_recent_errors : ℕ
max_recent_errors = 50

pub record CollectorError : Type 0 where
  pub ts : Time
  pub collector : Text
  pub error : Text

-- The sets are maps to Unit.
pub record HealthTracker : Type 0 where
  pub start : Time
  pub collected : ℕ
  pub statuses : Map Text Text
  pub perm_issues : Map Text (Unit {0})
  pub errs : List CollectorError
  pub err_seen : Map Text (Unit {0})

abbrev pub fold_byte : ℕ → ℕ
fold_byte a = if leb 65 a && leb a 90 then a + 32 else a

-- Whether a text begins with another, but for the case of ASCII letters.
unfoldable pub matches_fold : Text → Text → Bool
matches_fold s [] = true
matches_fold [] (b ∷ sub) = false
matches_fold (a ∷ s) (b ∷ sub) = fold_byte a == fold_byte b && matches_fold s sub

-- `none` for the result -1.
unfoldable pub index_fold : Text → Text → Option ℕ
unfolding matches_fold
index_fold [] sub = if matches_fold [] sub then some 0 else none
index_fold (a ∷ s) sub =
    let rest = index_fold s sub in
    if matches_fold (a ∷ s) sub then some 0 else elim rest [ none ↦ none | some i ↦ some (suc i) ]

abbrev pub contains_fold : Text → Text → Bool
contains_fold s sub =
    leb (length sub) (length s) && (elim (index_fold s sub) [ none ↦ false | some i ↦ true ])

-- "permission", "denied", "access is denied", "VIEW SERVER STATE" and "privilege".
abbrev pub permission_words : List Text
permission_words =
    (112 ∷ 101 ∷ 114 ∷ 109 ∷ 105 ∷ 115 ∷ 115 ∷ 105 ∷ 111 ∷ 110 ∷ [])
    ∷ (100 ∷ 101 ∷ 110 ∷ 105 ∷ 101 ∷ 100 ∷ [])
    ∷ (97 ∷ 99 ∷ 99 ∷ 101 ∷ 115 ∷ 115 ∷ 32 ∷ 105 ∷ 115 ∷ 32 ∷ 100 ∷ 101 ∷ 110 ∷ 105 ∷ 101 ∷ 100
        ∷ [])
    ∷ (86 ∷ 73 ∷ 69 ∷ 87 ∷ 32 ∷ 83 ∷ 69 ∷ 82 ∷ 86 ∷ 69 ∷ 82 ∷ 32 ∷ 83 ∷ 84 ∷ 65 ∷ 84 ∷ 69 ∷ [])
    ∷ (112 ∷ 114 ∷ 105 ∷ 118 ∷ 105 ∷ 108 ∷ 101 ∷ 103 ∷ 101 ∷ [])
    ∷ []

unfoldable pub any_word : Text → List Text → Bool
unfolding index_fold
any_word s [] = false
any_word s (w ∷ words) = contains_fold s w || any_word s words

unfoldable pub is_permission_error : Text → Bool
unfolding any_word
is_permission_error s = any_word s permission_words

-- The bytes of the ellipsis follow what is kept.
abbrev pub truncate : Text → ℕ → Text
truncate s n = if leb (length s) n then s else take n s ++ (226 ∷ 128 ∷ 166 ∷ [])

-- "degraded:", "permission", "ok", "unavailable:", "|" and ": ".
abbrev pub degraded : Text
degraded = 100 ∷ 101 ∷ 103 ∷ 114 ∷ 97 ∷ 100 ∷ 101 ∷ 100 ∷ 58 ∷ []

abbrev pub permission : Text
permission = 112 ∷ 101 ∷ 114 ∷ 109 ∷ 105 ∷ 115 ∷ 115 ∷ 105 ∷ 111 ∷ 110 ∷ []

abbrev pub status_ok : Text
status_ok = 111 ∷ 107 ∷ []

abbrev pub unavailable : Text
unavailable = 117 ∷ 110 ∷ 97 ∷ 118 ∷ 97 ∷ 105 ∷ 108 ∷ 97 ∷ 98 ∷ 108 ∷ 101 ∷ 58 ∷ []

abbrev pub error_key : Text → Text → Text
error_key collector err = collector ++ (124 ∷ []) ++ err

-- What an issue that has not been seen changes.
unfoldable pub new_issue : Time → Text → Text → HealthTracker → HealthTracker
unfolding is_permission_error
new_issue now collector err h = record h {
  err_seen = insert (error_key collector err) tt h.err_seen;
  perm_issues =
      if is_permission_error err
      then insert (collector ++ (58 ∷ 32 ∷ []) ++ err) tt h.perm_issues
      else h.perm_issues;
  statuses =
      insert collector
        (if is_permission_error err then degraded ++ permission else degraded ++ truncate err 120)
        h.statuses;
  errs =
      if ltb (length h.errs) max_recent_errors
      then h.errs ++ (record { ts = now; collector = collector; error = truncate err 300 } ∷ [])
      else h.errs;
}

unfoldable pub issue : Time → Text → Text → HealthTracker → HealthTracker
unfolding new_issue
issue now collector err h = elim (lookup (error_key collector err) h.err_seen) [
  | none ↦ new_issue now collector err h
  | some u ↦ h
]

-- `OK`: a status that is there stays.
unfoldable pub ok : Text → HealthTracker → HealthTracker
ok collector h = elim (lookup collector h.statuses) [
  | none ↦ record h { statuses = insert collector status_ok h.statuses }
  | some status ↦ h
]

unfoldable pub mark_unavailable : Text → Text → HealthTracker → HealthTracker
mark_unavailable collector why h = record h {
  statuses = insert collector (unavailable ++ why) h.statuses;
}

-- `newHealthTracker`, less the handle of the agent's own process.
abbrev pub new_health_tracker : Time → HealthTracker
new_health_tracker now = record {
  start = now;
  collected = 0;
  statuses = [];
  perm_issues = [];
  errs = [];
  err_seen = [];
}

-- `AddSamples`, on a uint64.
abbrev pub add_samples : ℕ → HealthTracker → HealthTracker
add_samples n h = record h { collected = (h.collected + n) % 2 ^ 64 }
