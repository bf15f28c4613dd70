-- ===== src/Sched.antt =====
-- internal/sched/sched.go: whether a cron expression fires near a time. A text is read as the list of its
-- characters' codes. What a time is in minutes, hours and days, which package time computes in the
-- time's own zone, is a parameter. `Snapshot`, which reads the platform's schedules, is left out.
mod Fields
mod Firing
mod Tests
use cost_optimization.Prelude.{
  ℕ, zero, suc, ◌+◌, ◌-◌, ◌*◌, ◌/◌, ◌%◌, ◌^◌, String, Bool, true, false, not, ◌&&◌, ◌||◌, Option,
  none, some, List, [], ◌∷◌, ◌++◌, length, ltb, leb, ◌==◌, if◌then◌else◌,
}
use cost_optimization.Prelude.Int.{ℤ, pos, negsuc, pos_part, ◌-ℤ◌, ltb_ℤ}
use cost_optimization.Model.{Time, minute}
use Prim.Native.Char.{Char, code}
use Prim.Native.String.{[] as no_text, ◌∷◌ as ◌▹◌}

pub record Calendar : Type 0 where
  pub minute_of : Time → ℕ
  pub hour_of : Time → ℕ
  pub day_of : Time → ℕ
  pub month_of : Time → ℕ
  pub weekday_of : Time → ℕ

unfoldable pub codes : String → List ℕ
codes no_text = []
codes (c ▹ s) = code c ∷ codes s

abbrev pub comma : ℕ
comma = 44

abbrev pub slash : ℕ
slash = 47

abbrev pub hyphen : ℕ
hyphen = 45

abbrev pub push_code : ℕ → List (List ℕ) → List (List ℕ)
push_code x [] = (x ∷ []) ∷ []
push_code x (p ∷ ps) = (x ∷ p) ∷ ps

-- strings.Split by one character.
unfoldable pub split_on : ℕ → List ℕ → List (List ℕ)
split_on c [] = [] ∷ []
split_on c (x ∷ xs) = let rest = split_on c xs in if x == c then [] ∷ rest else push_code x rest

abbrev pub prepend : ℕ → Option (List ℕ × List ℕ) → Option (List ℕ × List ℕ)
prepend x none = none
prepend x (some (a, b)) = some (x ∷ a, b)

-- What stands before and after the first occurrence of a character.
unfoldable pub cut : ℕ → List ℕ → Option (List ℕ × List ℕ)
cut c [] = none
cut c (x ∷ xs) = let rest = cut c xs in if x == c then some ([], xs) else prepend x rest

-- unicode.IsSpace
abbrev pub is_space : ℕ → Bool
is_space x =
    leb 9 x && leb x 13
    || x == 32
    || x == 133
    || x == 160
    || x == 5760
    || leb 8192 x && leb x 8202
    || x == 8232
    || x == 8233
    || x == 8239
    || x == 8287
    || x == 12288

abbrev pub with_word : List ℕ → List (List ℕ) → List (List ℕ)
with_word [] words = words
with_word (x ∷ xs) words = (x ∷ xs) ∷ words

-- strings.Fields, with the word that has begun.
unfoldable pub fields_from : List ℕ → List ℕ → List (List ℕ)
fields_from word [] = with_word word []
fields_from word (x ∷ xs) =
    let closed = with_word word (fields_from [] xs) in
    let longer = fields_from (word ++ x ∷ []) xs in if is_space x then closed else longer

unfoldable pub digits : ℕ → List ℕ → Option ℕ
digits acc [] = some acc
digits acc (x ∷ xs) =
    let rest = digits (acc * 10 + (x - 48)) xs in if leb 48 x && leb x 57 then rest else none

abbrev pub number : List ℕ → Option ℕ
number [] = none
number (x ∷ xs) = digits 0 (x ∷ xs)

-- An int64 of the given size, if there is one.
abbrev pub positive : Option ℕ → Option ℤ
positive none = none
positive (some n) = if ltb n (2 ^ 63) then some (pos n) else none

abbrev pub negative : Option ℕ → Option ℤ
negative none = none
negative (some n) = if leb n (2 ^ 63) then some (pos 0 -ℤ pos n) else none

-- strconv.Atoi
unfoldable pub atoi : List ℕ → Option ℤ
unfolding digits ◌-ℤ◌
atoi [] = none
atoi (x ∷ xs) =
    if x == 43
    then positive (number xs)
    else if x == hyphen
    then negative (number xs)
    else positive (number (x ∷ xs))

abbrev pub step_value : Option ℤ → ℕ
step_value none = 1
step_value (some (pos n)) = if ltb 0 n then n else 1
step_value (some (negsuc n)) = 1

-- The expression of a part and its step.
abbrev pub with_step : List ℕ → Option (List ℕ × List ℕ) → List ℕ × ℕ
with_step part none = (part, 1)
with_step part (some (expr, step)) = (expr, step_value (atoi step))

abbrev pub pair : Option ℤ → Option ℤ → Option (ℤ × ℤ)
pair none b = none
pair (some a) none = none
pair (some a) (some b) = some (a, b)

abbrev pub range_of : List ℕ → Option (List ℕ × List ℕ) → Option (ℤ × ℤ)
range_of expr none = pair (atoi expr) (atoi expr)
range_of expr (some (a, b)) = pair (atoi a) (atoi b)

-- The bounds of an expression; `none` where the source goes on with the next part.
abbrev pub bounds_of : ℕ → ℕ → List ℕ → Option (ℤ × ℤ)
bounds_of min max [] = some (pos min, pos max)
bounds_of min max (x ∷ xs) =
    if x == 42 && length xs == 0
    then some (pos min, pos max)
    else range_of (x ∷ xs) (cut hyphen (x ∷ xs))

abbrev pub hits : ℕ → ℕ → Option (ℤ × ℤ) → Bool
hits v step none = false
hits v step (some (lo, hi)) =
    not (ltb_ℤ (pos v) lo) && not (ltb_ℤ hi (pos v)) && pos_part (pos v -ℤ lo) % step == 0

unfoldable pub part_match : ℕ → ℕ → ℕ → List ℕ → Bool
unfolding cut atoi ◌-ℤ◌
part_match v min max part =
    let stepped = with_step part (cut slash part) in hits v stepped.1 (bounds_of min max stepped.0)

-- The loop over the parts.
unfoldable pub any_part : ℕ → ℕ → ℕ → List (List ℕ) → Bool
unfolding part_match
any_part v min max [] = false
any_part v min max (part ∷ parts) = part_match v min max part || any_part v min max parts

unfoldable pub cron_field_match : List ℕ → ℕ → ℕ → ℕ → Bool
unfolding split_on any_part
cron_field_match field v min max = any_part v min max (split_on comma field)

-- Whether the five fields fire at a time; an expression with fewer fields fires never.
unfoldable pub fires : Calendar → List (List ℕ) → Time → Bool
unfolding cron_field_match
fires cal (m ∷ h ∷ d ∷ mon ∷ wd ∷ rest) t =
    cron_field_match m (cal.minute_of t) 0 59
    && cron_field_match h (cal.hour_of t) 0 23
    && cron_field_match d (cal.day_of t) 1 31
    && cron_field_match mon (cal.month_of t) 1 12
    && cron_field_match wd (cal.weekday_of t) 0 6
fires cal fields t = false

-- The loop over the offsets: `passed` is the offset above the least one. The tolerance, which the
-- callers give, is not negative, and the time lies above it.
unfoldable pub fires_from : Calendar → List (List ℕ) → Time → ℕ → ℕ → ℕ → Bool
unfolding fires
fires_from cal fields t tolerance passed zero = false
fires_from cal fields t tolerance passed (suc rounds) =
    let rest = fires_from cal fields t tolerance (passed + minute) rounds in
    if not (leb passed (2 * tolerance))
    then false
    else fires cal fields (t + passed - tolerance) || rest

unfoldable pub matches_time : Calendar → String → Time → ℕ → Bool
unfolding codes fields_from fires_from
matches_time cal expr t tolerance =
    fires_from cal (fields_from [] (codes expr)) t tolerance 0 (2 * tolerance / minute + 1)
