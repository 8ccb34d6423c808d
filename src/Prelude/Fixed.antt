-- ===== src/Prelude/Fixed.antt =====
-- Numbers with three decimals, in place of the `double` operations where a test has to compute.
use Prim.Native.Nat.{ℕ, ◌+◌, ◌-◌, ◌*◌, ◌/◌, ◌^◌}
use at_jit.Prelude.Tests.{leb, ltb}
use at_jit.Prelude.Int.{pos, pos_part}
use at_jit.Prelude.Double.{Double}

abbrev pub fixed : Double
fixed = record {
  D = ℕ;
  lit = λ m e. m * 1000 / 10 ^ e;
  neg_lit = λ m e. 0;
  max_value = 10 ^ 30;
  of_int = λ z. pos_part z * 1000;
  add = λ a b. a + b;
  sub = λ a b. a - b;
  mul = λ a b. a * b / 1000;
  div = λ a b. a * 1000 / b;
  neg = λ a. 0;
  pow = λ a n. a ^ n / 1000 ^ (n - 1);
  sqrt = λ a. a;
  exp = λ a. a;
  log = λ a. a;
  le = leb;
  lt = ltb;
  trunc = λ a. pos (a / 1000);
  ceil = λ a. pos ((a + 999) / 1000);
  round = λ a. pos ((a + 500) / 1000);
  narrow = λ a. a;
}
