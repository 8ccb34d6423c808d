-- ===== src/Context/Tests.antt =====
-- Tests of contexts, with whole numbers for doubles and 9 for a NaN.
use at_jit.Prelude.{false, List, ℕ, Bool, true, not, ◌&&◌, [], ◌∷◌, ◌==◌, ◌≡◌, refl, arith}
use at_jit.Prelude.Int.{pos, negsuc, pos_part}
use at_jit.Tables.{find_key, has_key}
use at_jit.Context.Interfaces.{Hashes}
use at_jit.Context.Equality.{same_key-hash, same_key-equivalence, comparable}
use at_jit.Context.{
  Context, float, forward, struct, empty_context, set_arg, same_key, hash_key, same_context,
  same_args, same_arg,
}

abbrev eq_small : ℕ → ℕ → Bool
eq_small a b = a == b && not (a == 9)

eq_small_sym : (a b : ℕ) → eq_small a b ≡ true → eq_small b a ≡ true
eq_small_sym a b e = ground arith

eq_small_trans : (a b c : ℕ) → eq_small a b ≡ true → eq_small b c ≡ true → eq_small a c ≡ true
eq_small_trans a b c e f = ground arith

eq_small-eq : (a b : ℕ) → eq_small a b ≡ true → a ≡ b
eq_small-eq a b e = ground arith

abbrev small : Hashes
small = record {
  Real = ℕ;
  eq_real = eq_small;
  hash_real = λ a. a;
  hash_unsigned = λ a. a;
  hash_int64 = pos_part;
  hash_ptr = λ a. a;
  eq_real_sym = eq_small_sym;
  eq_real_trans = eq_small_trans;
  hash_real_eq = eq_small-eq;
}

abbrev request : ℕ × Context small
request = (
  77,
  set_arg small (set_arg small (empty_context small) (forward 1)) (struct (pos 1 ∷ negsuc 4 ∷ [])),
)

-- The same request with another value for the debug file, which does not count.
abbrev request_debug : ℕ × Context small
request_debug = (77, record request.1 { debug_file = 3 ∷ [] })

same_request : same_key small request request_debug ≡ true
unfolding same_key set_arg same_context same_args same_arg
same_request = refl

request_same : same_key small request_debug request ≡ true
unfolding same_key set_arg same_context same_args same_arg
request_same = refl

same_key-hash_example : hash_key small request ≡ hash_key small request_debug
same_key-hash_example = same_key-hash small request request_debug same_request

-- The number 9 stands for a NaN: the table that was filled under the key does not have it.
abbrev nan_request : ℕ × Context small
nan_request = (1, set_arg small (empty_context small) (float 9))

abbrev nan_table : List ((ℕ × Context small) × ℕ)
nan_table = (nan_request, 5) ∷ []

same_key-equivalence_example :
    (same_key small nan_request nan_request ≡ comparable small nan_request.1.args)
    × (has_key (same_key small) nan_table nan_request
        ≡ (has_key (same_key small) nan_table nan_request && comparable small nan_request.1.args))
    × (same_key small nan_request request ≡ same_key small request nan_request)
    × ((same_key small nan_request request && same_key small request request_debug) ≡ (
        same_key small nan_request request
        && (same_key small request request_debug && same_key small nan_request request_debug)))
same_key-equivalence_example =
    same_key-equivalence small nan_request request request_debug nan_table

nan_is_lost : has_key (same_key small) nan_table nan_request ≡ false
unfolding has_key find_key same_key same_context same_args same_arg set_arg
nan_is_lost = refl
