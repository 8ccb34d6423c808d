-- ===== src/Tables/Tests.antt =====
-- Tests of the code cache and of the bitcode tracker.
use at_jit.Prelude.{List, ◌∷◌, ℕ, ◌+◌, ◌≡◌, refl, Option, none, some, [], ◌==◌, arith}
use at_jit.Driver.FunctionWrapper.{Wrapper, wrap}
use at_jit.Tables.{find_key}
use at_jit.Tables.Laws.{IsKeyTest}
use at_jit.Tables.Cache.{jit, jit_all, entry_after, jit-compiles_once}
use at_jit.Tables.Bitcode.{FunctionInfo}

==-IsKeyTest : IsKeyTest ◌==◌
==-IsKeyTest = record { eq_flip = λ a b h. ground arith; eq_chain = λ a b c h h'. ground arith }

-- Compilation ends with an exception the first time; the engine counts the calls.
abbrev flaky : ℕ → Option Wrapper × ℕ
flaky calls = (none, calls + 1)

abbrev works : ℕ → Option Wrapper × ℕ
works calls = (some (wrap 7 1), calls + 1)

-- After a call for another key, the next call for the first one returns the empty wrapper, although it could compile.
abbrev between : List (ℕ × (ℕ → Option Wrapper × ℕ))
between = (6, works) ∷ []

jit-compiles_once_example :
    ((jit ◌==◌ [] 5 flaky 0).1 ≡ (flaky 0).0)
    × (jit ◌==◌
          (jit_all ◌==◌ (jit ◌==◌ [] 5 flaky 0).0 between 1).0
          5
          works
          (jit_all ◌==◌ (jit ◌==◌ [] 5 flaky 0).0 between 1).1
        ≡ (
          (jit_all ◌==◌ (jit ◌==◌ [] 5 flaky 0).0 between 1).0,
          some (entry_after (flaky 0).0),
          (jit_all ◌==◌ (jit ◌==◌ [] 5 flaky 0).0 between 1).1,
        ))
    × (find_key ◌==◌ (jit ◌==◌ [] 5 flaky 0).0 6 ≡ find_key ◌==◌ [] 6)
unfolding find_key
jit-compiles_once_example =
    jit-compiles_once ◌==◌ ==-IsKeyTest [] 5 5 flaky works 0 1 between 6 refl refl refl refl

abbrev first_info : FunctionInfo ℕ ◌==◌
first_info = record { name = 1; globals = 40; bitcode = 60; bitcode_len = 3 }

abbrev second_info : FunctionInfo ℕ ◌==◌
second_info = record { name = 2; globals = 50; bitcode = 70; bitcode_len = 4 }
