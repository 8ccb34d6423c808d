-- ===== src/Context/Interfaces.antt =====
-- What the context uses of the C++ library: `double` values with their equality, and std::hash of the plain
-- types.
use at_jit.Prelude.{ℕ, Bool, true, ◌≡◌}
use at_jit.Prelude.Int.{ℤ}

-- Documented behaviour that is relied on: the equality of doubles is symmetric and transitive (a NaN
-- is not equal to itself), and equal doubles have equal hashes.
pub record Hashes : Type 1 where
  pub Real : Type 0
  pub eq_real : Real → Real → Bool
  pub hash_real : Real → ℕ
  pub hash_unsigned : ℕ → ℕ
  pub hash_int64 : ℤ → ℕ
  pub hash_ptr : ℕ → ℕ
  pub eq_real_sym : (a b : Real) → eq_real a b ≡ true → eq_real b a ≡ true
  pub eq_real_trans : (a b c : Real) → eq_real a b ≡ true → eq_real b c ≡ true → eq_real a c ≡ true
  pub hash_real_eq : (a b : Real) → eq_real a b ≡ true → hash_real a ≡ hash_real b
