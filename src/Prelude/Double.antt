-- ===== src/Prelude/Double.antt =====
-- The program's `double`: the type and its operations are a parameter of the model.
use Prim.Native.Nat.{ℕ}
use mathlib.Core.Bool.{Bool}
use at_jit.Prelude.Int.{ℤ}

-- `lit m e` is the literal m / 10^e. No law of the arithmetic is assumed.
pub record Double : Type 1 where
  pub D : Type 0
  pub lit : ℕ → ℕ → D
  pub neg_lit : ℕ → ℕ → D
  pub max_value : D
  pub of_int : ℤ → D
  pub add : D → D → D
  pub sub : D → D → D
  pub mul : D → D → D
  pub div : D → D → D
  pub neg : D → D
  -- std::pow with a whole exponent
  pub pow : D → ℕ → D
  pub sqrt : D → D
  pub exp : D → D
  pub log : D → D
  pub le : D → D → Bool
  pub lt : D → D → Bool
  -- conversion to `int`, toward zero; `ceil` and `round` give an integer
  pub trunc : D → ℤ
  pub ceil : D → ℤ
  pub round : D → ℤ
  -- the nearest `float`, as a `double`
  pub narrow : D → D
