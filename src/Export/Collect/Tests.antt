-- ===== src/Export/Collect/Tests.antt =====
-- Tests of the collection of objects. Value 3 is a cast of the stack slot 0, into which instruction 1 stores the
-- function 2; function 4 is the interface; 5 is a virtual table that holds function 6, and 7 is a function with the
-- same parameters.
use at_jit.Prelude.{
  ℕ, zero, suc, ◌<◌, true, false, none, some, List, [], ◌∷◌, ◌==◌, ◌≡◌, refl, arith, All,
}
use at_jit.Prelude.Partial.{◌>>=◌, Succeeds}
use at_jit.Export.Trace.{
  Class, alloca, bit_cast, global_variable, global_function, store, Code, TraceCall, loaded, stored,
  traced_value, calls, tracer, trace, trace_each, enter,
}
use at_jit.Export.Trace.Flows.{Flows, Flows-calls}
use at_jit.Export.Trace.Entered.{All-Occurs}
use at_jit.Export.Trace.Found.{Found, tracer-Found}
use at_jit.Export.Collect.{
  no_section, interface_section, call_site, cast_user, load, function, variable, GlobalObject,
  Module, TypeOps, Sections, users_of, entries_of, collect_objects_to_jit, deduce_objects_to_jit,
  deduce_each, deduce_users, deduce_args, compiler_interface, mark_all, regex_functions_to_jit,
  deduce_virtual_methods_to_jit, mark_tables, mark_entries, mark_method, mark_overloads,
  overload_of, may_be_overload, counts_type, collect_marked,
}
use at_jit.Export.Collect.Steps.{ArgsBelow}
use at_jit.Export.Collect.Methods.{EntryHasParam}
use at_jit.Export.Collect.Exported.{Exports, collect_objects_to_jit-Exports}

abbrev class_of : ℕ → Class
class_of zero = alloca
class_of (suc zero) = store 2
class_of (suc (suc zero)) = global_function
class_of (suc (suc (suc zero))) = bit_cast 0
class_of (suc (suc (suc (suc zero)))) = global_function
class_of (suc (suc (suc (suc (suc zero))))) = global_variable none
class_of n = global_function

abbrev users : ℕ → List ℕ
users zero = 1 ∷ []
users n = []

abbrev small_code : Code
small_code = record { class = class_of; users = users }

small_code-closed :
    (c d : TraceCall) → traced_value c < 8 → Flows small_code c d → traced_value d < 8
unfolding calls
small_code-closed c d h o =
    All-Occurs (λ e. traced_value e < 8) (calls small_code c) d (all_below c h)
      (Flows-calls small_code c d o)
  where
    all_below :
        (c : TraceCall) → traced_value c < 8 → All (λ e. traced_value e < 8) (calls small_code c)
    all_below (loaded zero) h = (omega arith, tt)
    all_below (loaded (suc zero)) h = tt
    all_below (loaded (suc (suc zero))) h = tt
    all_below (loaded (suc (suc (suc zero)))) h = (omega arith, tt)
    all_below (loaded (suc (suc (suc (suc zero))))) h = tt
    all_below (loaded (suc (suc (suc (suc (suc zero)))))) h = (omega arith, tt)
    all_below (loaded (suc (suc (suc (suc (suc (suc n))))))) h = tt
    all_below (stored zero) h = (omega arith, tt)
    all_below (stored (suc zero)) h = (omega arith, tt)
    all_below (stored (suc (suc zero))) h = tt
    all_below (stored (suc (suc (suc zero)))) h = tt
    all_below (stored (suc (suc (suc (suc zero))))) h = tt
    all_below (stored (suc (suc (suc (suc (suc zero)))))) h = tt
    all_below (stored (suc (suc (suc (suc (suc (suc n))))))) h = tt

traced_function : (tracer small_code 8 3 >>= λ s. some (s.objects)) ≡ some (2 ∷ [])
unfolding tracer trace trace_each enter calls
traced_function = refl

tracer-Found_example : Succeeds (Found small_code 3) (tracer small_code 8 3)
tracer-Found_example = tracer-Found small_code 8 3 small_code-closed (omega arith)

-- Object 0 loads type 7 from a virtual table, which is the type of object 3, in the table that is object 2.
abbrev object_at : ℕ → GlobalObject ℕ
object_at zero = record { declaration = false; value = 2; shape = function 5 (load true 7 ∷ []) [] }
object_at (suc zero) = record {
  declaration = true;
  value = 4;
  shape = function 6 [] (call_site (3 ∷ []) ∷ []);
}
object_at (suc (suc zero)) = record {
  declaration = false;
  value = 5;
  shape = variable true (some 3 ∷ none ∷ []);
}
object_at (suc (suc (suc zero))) = record {
  declaration = false;
  value = 6;
  shape = function 7 [] (cast_user (true ∷ []) ∷ []);
}
object_at n = record { declaration = false; value = 7; shape = function 8 [] [] }

abbrev small_module : Module ℕ
small_module = record { size = 5; object = object_at; values = 8; code = small_code }

-- A function of type 6 has two parameters, any other one.
abbrev type_ops : TypeOps ℕ
type_ops = record {
  eq_type = ◌==◌;
  is_pointer = λ t. true;
  function_type = λ t. elim (t == 6) [
    | true ↦ record { result = 0; params = 1 ∷ 1 ∷ []; vararg = false }
    | false ↦ record { result = 0; params = 1 ∷ []; vararg = false }
  ];
}

abbrev at_start : Sections ℕ
at_start k = elim (k == 1) [ true ↦ interface_section | false ↦ no_section ]

exported_objects :
    (collect_objects_to_jit ℕ type_ops small_module none at_start >>= λ r. some (r.0))
    ≡ some (0 ∷ 3 ∷ 4 ∷ [])
unfolding collect_objects_to_jit deduce_objects_to_jit deduce_each deduce_users deduce_args
    compiler_interface mark_all regex_functions_to_jit deduce_virtual_methods_to_jit mark_tables
    mark_entries mark_method mark_overloads overload_of may_be_overload counts_type collect_marked
    tracer trace trace_each enter calls
exported_objects = refl

args_below :
    (f : ℕ)
    → All (ArgsBelow ℕ type_ops small_module) (users_of ℕ type_ops small_module (object_at f).shape)
args_below zero = tt
args_below (suc zero) = ((omega arith, tt), tt)
args_below (suc (suc zero)) = tt
args_below (suc (suc (suc zero))) = (tt, tt)
args_below (suc (suc (suc (suc n)))) = tt

entries_have_params :
    (k : ℕ)
    → All
        (EntryHasParam ℕ type_ops small_module)
        (entries_of ℕ type_ops small_module (object_at k).shape)
entries_have_params zero = tt
entries_have_params (suc zero) = tt
entries_have_params (suc (suc zero)) = (omega arith, (tt, tt))
entries_have_params (suc (suc (suc zero))) = tt
entries_have_params (suc (suc (suc (suc n)))) = tt

collect_objects_to_jit-Exports_example :
    Succeeds
      (Exports ℕ type_ops small_module none at_start)
      (collect_objects_to_jit ℕ type_ops small_module none at_start)
collect_objects_to_jit-Exports_example =
    collect_objects_to_jit-Exports ℕ type_ops small_module none at_start small_code-closed
      args_below entries_have_params
