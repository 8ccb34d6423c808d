-- ===== src/Export/Tests.antt =====
-- Tests of the pass that exports functions.
use at_jit.Tables.{find_key}
use at_jit.Tables.Bitcode.{register_all, empty_tracker}
use at_jit.Export.Register.{
  GlobalVariable, ExportedObject, collect_local_globals, name_globals, get_global_mapping,
  map_globals, embed_bitcode, register_bitcode,
}
use at_jit.Export.Register.Mapping.{LocalsOf, map_globals-collected}
use at_jit.Export.Register.Tracked.{Registers, info_at, register_bitcode-tracked}
use at_jit.Prelude.{
  ◌||◌, All, none, false, ◌+◌, ◌==◌, ℕ, zero, suc, true, some, List, [], ◌∷◌, ◌<◌, ◌≡◌, refl, arith,
}
use at_jit.Prelude.Partial.{Succeeds}
use at_jit.Export.Referenced.{
  mem, inner, Kind, function, variable, other, Values, push_all, visit, get_referenced,
}
use at_jit.Export.Referenced.Pushed.{Uses, Uses-Pushed}
use at_jit.Export.Referenced.Reachable.{Found, get_referenced-Found}

-- Function 0 calls function 1 and reads the variable 2, whose initializer 3 holds function 0; nothing uses function 4.
abbrev kind_of : ℕ → Kind
kind_of zero = function (1 ∷ 2 ∷ [])
kind_of (suc zero) = function []
kind_of (suc (suc zero)) = variable (some 3)
kind_of (suc (suc (suc zero))) = other
kind_of n = function (0 ∷ [])

abbrev operands_of : ℕ → List ℕ
operands_of (suc (suc (suc zero))) = 0 ∷ []
operands_of n = []

abbrev small_module : Values
small_module = record { kind = kind_of; operands = operands_of }

two_functions : get_referenced small_module 5 0 ≡ some (0 ∷ 1 ∷ [])
unfolding get_referenced visit push_all
two_functions = refl

small_module-closed : (u v : ℕ) → u < 5 → Uses small_module u v → v < 5
small_module-closed u v h it = by_value u h (Uses-Pushed small_module u v it)
  where
    by_value :
        (u : ℕ)
        → u < 5
        → (mem v (operands_of u) || mem v (inner small_module (kind_of u))) ≡ true
        → v < 5
    by_value zero h it = ground arith
    by_value (suc zero) h it = ground arith
    by_value (suc (suc zero)) h it = ground arith
    by_value (suc (suc (suc zero))) h it = ground arith
    by_value (suc (suc (suc (suc zero)))) h it = ground arith
    by_value (suc (suc (suc (suc (suc n))))) h it = absurd (omega arith)

get_referenced-Found_example :
    Succeeds (Found small_module 5 0 small_module-closed) (get_referenced small_module 5 0)
get_referenced-Found_example =
    get_referenced-Found small_module 5 0 small_module-closed (omega arith)

-- Two local variables, one without a name, and one that is not local
abbrev variables : List (GlobalVariable ℕ ◌==◌)
variables =
    record { name = some 7; has_local_linkage = true; address = 100 }
    ∷ record { name = none; has_local_linkage = true; address = 200 }
    ∷ record { name = some 8; has_local_linkage = false; address = 300 }
    ∷ []

map_globals-collected_example : Succeeds (LocalsOf ℕ ◌==◌ (λ i. 50 + i) 0 variables) (
    map_globals ℕ ◌==◌ (
      get_global_mapping ℕ ◌==◌ 0
        (name_globals ℕ ◌==◌ (λ i. 50 + i) 0 (collect_local_globals ℕ ◌==◌ variables))))
map_globals-collected_example = map_globals-collected ℕ ◌==◌ 0 (λ i. 50 + i) variables

abbrev two_objects : List (ExportedObject ℕ ◌==◌)
two_objects = record { name = 1; address = 10 } ∷ record { name = 2; address = 20 } ∷ []

abbrev bitcode_of : ExportedObject ℕ ◌==◌ → List ℕ
bitcode_of o = 66 ∷ 67 ∷ o.name ∷ []

register_bitcode-tracked_example :
    Succeeds
      (λ rs.
        Registers ℕ ◌==◌ 900 (λ i. 1000 + i) bitcode_of 0 two_objects rs
        × All
            (λ r. info_at ℕ ◌==◌ (register_all ℕ ◌==◌ (empty_tracker ℕ ◌==◌) rs) r.0 ≡ some r.1)
            rs)
      (register_bitcode ℕ ◌==◌ 900 0 two_objects
        (embed_bitcode ℕ ◌==◌ (λ i. 1000 + i) bitcode_of 0 two_objects))
unfolding find_key
register_bitcode-tracked_example =
    register_bitcode-tracked ℕ ◌==◌ 900 (λ i. 1000 + i) bitcode_of two_objects
      (empty_tracker ℕ ◌==◌) (omega arith, (omega arith, tt)) ((refl, tt), (tt, tt))
      (refl, (refl, tt))
