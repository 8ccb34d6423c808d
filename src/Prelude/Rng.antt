-- ===== src/Prelude/Rng.antt =====
-- The random number engine and the distributions of the C++ library: a parameter of the model.
use at_jit.Prelude.Int.{ℤ, ◌≤ℤ◌}
use at_jit.Prelude.Double.{Double}

-- `normal` and `exponential` give the drawn value rounded to an integer. The documented behaviour that
-- is relied on: std::uniform_int_distribution stays within its inclusive bounds.
pub record Rng (dbl : Double) : Type 1 where
  pub E : Type 0
  pub uniform : ℤ → ℤ → E → ℤ × E
  pub normal : ℤ → ℤ → E → ℤ × E
  pub exponential : Double.D dbl → E → ℤ × E
  pub canonical : E → Double.D dbl × E
  pub uniform_bounds :
      (lo hi : ℤ) (e : E) → lo ≤ℤ hi → (lo ≤ℤ (uniform lo hi e).0) × ((uniform lo hi e).0 ≤ℤ hi)
