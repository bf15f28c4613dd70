-- ===== src/Float64.antt =====
-- Go's float64, which no file of the repository implements: the type and the operations that the
-- code uses are a parameter of the model. `of_nat` is the conversion of an integer that is not
-- negative, `lit n d` the literal n / d, `trunc` the conversion `int(v)` of a value that is not
-- negative, and `floor`, `ceil`, `round`, `max` and `min` are those of package math.
use cost_optimization.Prelude.{
  ℕ, ◌+◌, ◌-◌, ◌*◌, ◌/◌, ◌%◌, ◌≡◌, Bool, true, false, not, ◌&&◌, ◌||◌, arith, ltb, leb, ◌==◌,
  if◌then◌else◌,
}
use cost_optimization.Prelude.Int.{ℤ, pos, negsuc, ◌-ℤ◌}
use Prim.Native.Nat.{min, max}

pub record Float64 (F : Type 0) : Type 0 where
  pub add : F → F → F
  pub sub : F → F → F
  pub mul : F → F → F
  pub div : F → F → F
  pub lt : F → F → Bool
  pub le : F → F → Bool
  pub eq : F → F → Bool
  pub of_nat : ℕ → F
  pub lit : ℕ → ℕ → F
  pub trunc : F → ℕ
  pub floor : F → F
  pub ceil : F → F
  pub round : F → F
  pub fabs : F → F
  pub fmax : F → F → F
  pub fmin : F → F → F

module _ {F : Type 0} ⦃f : Float64 F⦄ where
  infixl 65 ◌+F◌ ◌-F◌
  infixl 70 ◌*F◌ ◌/F◌
  infix 50 ◌<F◌ ◌≤F◌
  abbrev pub ◌+F◌ : F → F → F
  ◌+F◌ = f.add

  abbrev pub ◌-F◌ : F → F → F
  ◌-F◌ = f.sub

  abbrev pub ◌*F◌ : F → F → F
  ◌*F◌ = f.mul

  abbrev pub ◌/F◌ : F → F → F
  ◌/F◌ = f.div

  abbrev pub ◌<F◌ : F → F → Bool
  ◌<F◌ = f.lt

  abbrev pub ◌≤F◌ : F → F → Bool
  ◌≤F◌ = f.le

  abbrev pub of_nat : ℕ → F
  of_nat = f.of_nat

  abbrev pub lit : ℕ → ℕ → F
  lit = f.lit

  -- The order of sort.Float64s: NaN, which is not equal to itself, stands first.
  abbrev pub float_less : F → F → Bool
  float_less a b = f.lt a b || not (f.eq a a) && f.eq b b

  -- math.Round(v*100) / 100
  abbrev pub round2 : F → F
  round2 v = f.round (v *F lit 100 1) /F lit 100 1

  -- math.Round(v*10) / 10
  abbrev pub round1 : F → F
  round1 v = f.round (v *F lit 10 1) /F lit 10 1

  -- float64(n), and int64(v), which cuts the fraction off.
  abbrev pub of_int : ℤ → F
  of_int (pos n) = of_nat n
  of_int (negsuc n) = lit 0 1 -F of_nat (n + 1)

  abbrev pub trunc_int : F → ℤ
  trunc_int v = if v <F lit 0 1 then pos 0 -ℤ pos (f.trunc (lit 0 1 -F v)) else pos (f.trunc v)

  -- A duration of n nanoseconds in seconds, as `time.Duration.Seconds` computes it.
  abbrev pub seconds : ℕ → F
  seconds n = of_nat (n / 1000000000) +F of_nat (n % 1000000000) /F lit 1000000000 1

  -- The same in hours and in minutes, as `Hours` and `Minutes` compute them.
  abbrev pub hours : ℕ → F
  hours n = of_nat (n / 3600000000000) +F of_nat (n % 3600000000000) /F lit 3600000000000 1

  abbrev pub minutes : ℕ → F
  minutes n = of_nat (n / 60000000000) +F of_nat (n % 60000000000) /F lit 60000000000 1

  -- t.Sub(u).Seconds(), for times that may stand in either order.
  unfoldable pub seconds_since : ℕ → ℕ → F
  seconds_since t u = if leb u t then seconds (t - u) else lit 0 1 -F seconds (u - t)

-- IEEE comparison: `<` is irreflexive and transitive, also where a side is NaN.
pub record IsStrictOrder (F : Type 0) ⦃f : Float64 F⦄ : Type 0 where
  pub lt_irrefl : (a : F) → (a <F a) ≡ false
  pub lt_trans : (a b c : F) → (a <F b) ≡ true → (b <F c) ≡ true → (a <F c) ≡ true

-- Amounts in ten-thousandths, for runs at concrete inputs.
abbrev pub Fixed : Type 0
Fixed = ℕ

abbrev pub fixed_scale : ℕ
fixed_scale = 10000

instance abbrev pub fixed_float64 : Float64 ℕ
fixed_float64 = record {
  add = λ a b. a + b;
  sub = λ a b. a - b;
  mul = λ a b. a * b / fixed_scale;
  div = λ a b. a * fixed_scale / b;
  lt = ltb;
  le = leb;
  eq = ◌==◌;
  of_nat = λ n. n * fixed_scale;
  lit = λ n d. n * fixed_scale / d;
  trunc = λ a. a / fixed_scale;
  floor = λ a. a / fixed_scale * fixed_scale;
  ceil = λ a. (a + 9999) / fixed_scale * fixed_scale;
  round = λ a. (a + 5000) / fixed_scale * fixed_scale;
  fabs = λ a. a;
  fmax = max;
  fmin = min;
}

pub fixed-IsStrictOrder : IsStrictOrder ℕ
fixed-IsStrictOrder = record { lt_irrefl = λ a. ground arith; lt_trans = λ a b c p q. ground arith }
