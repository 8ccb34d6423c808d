-- ===== src/Call/Tests.antt =====
-- Tests of a call: foo(int, bool, float), whose types are 0, 1 and 2, specialised as foo(int(4), _2, _1) at -O2.
use at_jit.Prelude.{ℕ, zero, suc, true, some, none, List, [], ◌∷◌, map, ◌==◌, ◌≡◌, refl, arith}
use at_jit.Prelude.Int.{pos}
use at_jit.Context.Interfaces.{Hashes}
use at_jit.Context.{Context, forward, int, set_arg, empty_context}
use at_jit.Wrappers.{wrapper_types}
use at_jit.Call.Agree.{new_parameter_list-wrapper_types}
use at_jit.Call.{
  Category, integral, floating, Conversions, Arg, placeholder, value, option, opt_level, handle,
  set_opt_level, set_plain, set_param, set_options, set_parameters, get_context_for,
  discard_options, max_placeholder, has_seen, parse_placeholder, no_void, map_helper,
  new_parameter_list,
}

abbrev plain : Hashes
plain = record {
  Real = Unit {0};
  eq_real = λ a b. true;
  hash_real = λ a. 0;
  hash_unsigned = λ a. a;
  hash_int64 = λ z. 1;
  hash_ptr = λ a. a;
  eq_real_sym = λ a b e. refl;
  eq_real_trans = λ a b c e f. refl;
  hash_real_eq = λ a b e. refl;
}

abbrev number : ℕ → Conversions plain ℕ
number n = record {
  to_int = some (pos n);
  to_real = some tt;
  to_pointer = none;
  address = 0;
  bytes = [];
}

abbrev foo : List ℕ
foo = 0 ∷ 1 ∷ 2 ∷ []

abbrev category_of : ℕ → Category
category_of t = elim t [ zero ↦ integral | suc n ↦ floating ]

abbrev swapped : List (Arg plain ℕ)
swapped =
    value (number 4) ∷ placeholder 1 1 ∷ placeholder 0 0 ∷ option (opt_level 2 0) (number 0) ∷ []

abbrev swapped_context : Context plain
swapped_context = record (empty_context plain) {
  args = int (pos 4) ∷ forward 1 ∷ forward 0 ∷ [];
  opt_level = 2;
}

swapped_compiles :
    get_context_for plain ℕ category_of (λ a b. a == b) (λ t. t == 0) foo swapped
    ≡ some swapped_context
unfolding get_context_for set_parameters set_param set_plain set_options handle set_opt_level
    set_arg
swapped_compiles = refl

swapped_parameters : new_parameter_list plain ℕ foo swapped ≡ some (2 ∷ 1 ∷ [])
unfolding new_parameter_list discard_options max_placeholder map_helper parse_placeholder has_seen
    no_void
swapped_parameters = refl

new_parameter_list-wrapper_types_example :
    wrapper_types plain swapped_context.args foo ≡ some (map some (2 ∷ 1 ∷ []))
new_parameter_list-wrapper_types_example =
    new_parameter_list-wrapper_types plain ℕ category_of (λ a b. a == b) (λ t. t == 0) (λ k. k) foo
      swapped swapped_context (2 ∷ 1 ∷ []) (tt, (omega arith, (omega arith, (tt, tt))))
      (tt, (refl, (refl, (tt, tt)))) (tt, (tt, (tt, tt))) swapped_compiles swapped_parameters
