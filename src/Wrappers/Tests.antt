-- ===== src/Wrappers/Tests.antt =====
-- Tests of the wrapper's types: a context that forwards the placeholders 0 and 2, and no other.
use at_jit.Prelude.{ℕ, true, none, some, List, [], ◌∷◌, ◌≡◌, refl}
use at_jit.Prelude.Int.{pos}
use at_jit.Context.Interfaces.{Hashes}
use at_jit.Context.{Argument, forward, int}
use at_jit.Wrappers.{get_new_arg_count, fill, wrapper_types}

abbrev plain : Hashes
plain = record {
  Real = Unit {0};
  eq_real = λ a b. true;
  hash_real = λ a. 0;
  hash_unsigned = λ a. a;
  hash_int64 = λ z. 1;
  hash_ptr = λ a. a;
  eq_real_sym = λ a b e. refl;
  eq_real_trans = λ a b c e f. refl;
  hash_real_eq = λ a b e. refl;
}

abbrev gap : List (Argument plain)
gap = forward 2 ∷ int (pos 5) ∷ forward 0 ∷ forward 2 ∷ []

-- The types are 10, 11, 12 and 13.
abbrev types : List ℕ
types = 10 ∷ 11 ∷ 12 ∷ 13 ∷ []

-- Placeholder 1 is used nowhere: its slot stays a null pointer.
unused_placeholder : wrapper_types plain gap types ≡ some (some 12 ∷ none ∷ some 10 ∷ [])
unfolding wrapper_types fill get_new_arg_count
unused_placeholder = refl
