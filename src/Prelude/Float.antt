-- ===== src/Prelude/Float.antt =====
-- Python's `float`, which the library does not have: an interface of the operations that the
-- program uses. The laws that a theorem needs of the order stand apart, in `IsOrdered`.
use Prim.Native.Nat.{ℕ, ◌+◌, ◌-◌, ◌*◌, ◌/◌, ◌^◌}
use mathlib.Core.Path.{◌≡◌}
use mathlib.Core.Bool.{Bool, true, false, not}
use native.Mathlib.Omega.{arith}
use aa.Prelude.Tests.{leb, ltb, if◌then◌else◌}

pub record Float (F : Type 0) : Type 0 where
  pub add : F → F → F
  pub sub : F → F → F
  pub mul : F → F → F
  pub div : F → F → F
  -- `float(n)`
  pub of_ℕ : ℕ → F
  -- The literal with the given digits, of which the last `places` stand behind the point.
  pub decimal : ℕ → ℕ → F
  pub lt : F → F → Bool
  pub le : F → F → Bool
  -- `round(x, places)`
  pub round : F → ℕ → F
  -- `int(x)` for an `x` that is not negative
  pub truncate : F → ℕ

-- What holds of the comparisons on floats other than NaN.
pub record IsOrdered {F : Type 0} (fl : Float F) : Type 0 where
  pub le_refl : (a : F) → fl.le a a ≡ true
  pub le_trans : (a b c : F) → fl.le a b ≡ true → fl.le b c ≡ true → fl.le a c ≡ true
  pub lt-not-le : (a b : F) → fl.lt a b ≡ not (fl.le b a)
  pub le_total : (a b : F) → fl.le a b ≡ false → fl.le b a ≡ true

module _ {F : Type 0} ⦃fl : Float F⦄ where
  -- Python's `max(a, b)` and `min(a, b)`: the first argument, unless the second is better.
  abbrev pub max_float : F → F → F
  max_float a b = if fl.lt a b then b else a

  abbrev pub min_float : F → F → F
  min_float a b = if fl.lt b a then b else a

-- Whole numbers serve as the floats of the tests.
instance abbrev pub nat_float : Float ℕ
nat_float = record {
  add = ◌+◌;
  sub = ◌-◌;
  mul = ◌*◌;
  div = ◌/◌;
  of_ℕ = λ n. n;
  decimal = λ digits places. digits / 10 ^ places;
  lt = ltb;
  le = leb;
  round = λ x _. x;
  truncate = λ x. x;
}

pub nat_float-IsOrdered : IsOrdered nat_float
nat_float-IsOrdered = record {
  le_refl = λ a. ground arith;
  le_trans = λ a b c. ground arith;
  lt-not-le = λ a b. ground arith;
  le_total = λ a b. ground arith;
}
