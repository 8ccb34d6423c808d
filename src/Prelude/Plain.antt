-- ===== src/Prelude/Plain.antt =====
-- A random number engine without chance, where a test has to compute: every draw is the lowest value.
use Prim.Native.Nat.{ℕ}
use native.Mathlib.Omega.{arith}
use at_jit.Prelude.Int.{ℤ, pos, ◌≤ℤ◌}
use at_jit.Prelude.Fixed.{fixed}
use at_jit.Prelude.Rng.{Rng}

pub lowest : (lo : ℤ) → lo ≤ℤ lo
lowest lo = omega arith

abbrev pub plain : Rng fixed
plain = record {
  E = ℕ;
  uniform = λ lo hi e. (lo, e);
  normal = λ mean dev e. (mean, e);
  exponential = λ lambda e. (pos 2, e);
  canonical = λ e. (500, e);
  uniform_bounds = λ lo hi e h. (lowest lo, h);
}
