-- ===== src/Export/Trace.antt =====
-- pass/MayAliasTracer.h and MayAliasTracer.cpp: the global objects that a value may alias. LLVM's values are numbers
-- below a bound.
pub mod Flows
pub mod Entered
pub mod Found
use at_jit.Prelude.{
  ℕ, zero, suc, ◌+◌, Bool, true, false, Option, none, some, List, [], ◌∷◌, map, if◌then◌else◌,
}
use at_jit.Prelude.Partial.{◌>>=◌}
use at_jit.Export.Referenced.{mem}

-- What the two functions ask of a value, by its class in LLVM
pub data Class : Type 0 where
  -- with its incoming values
  phi : List ℕ → Class
  -- with the values for true and for false
  select : ℕ → ℕ → Class
  alloca : Class
  -- with the pointer operand
  get_element_ptr : ℕ → Class
  bit_cast : ℕ → Class
  -- an expression that is an address computation or a cast, with its first operand
  constant_cast : ℕ → Class
  -- with the initializer
  global_variable : Option ℕ → Class
  -- another global object: a function
  global_function : Class
  -- with its elements
  constant_array : List ℕ → Class
  -- memcpy, with its source
  memcpy : ℕ → Class
  -- with the value that is stored
  store : ℕ → Class
  other_value : Class

-- The values of a module, with the users of each
pub record Code : Type 0 where
  pub class : ℕ → Class
  pub users : ℕ → List ℕ

-- A call of mayAliasWithLoadedValues or of mayAliasWithStoredValues
pub data TraceCall : Type 0 where
  loaded stored : ℕ → TraceCall

-- Loaded, Stored and GOs_
pub record Sets : Type 0 where
  pub loaded_values : List ℕ
  pub stored_values : List ℕ
  pub objects : List ℕ

abbrev pub empty_sets : Sets
empty_sets = record { loaded_values = []; stored_values = []; objects = [] }

abbrev pub traced_value : TraceCall → ℕ
traced_value (loaded v) = v
traced_value (stored v) = v

abbrev pub has_call : TraceCall → Sets → Bool
has_call (loaded v) s = mem v s.loaded_values
has_call (stored v) s = mem v s.stored_values

-- dyn_cast<GlobalObject>
abbrev pub is_object : Class → Bool
is_object (global_variable init) = true
is_object global_function = true
is_object _ = false

abbrev pub add_object : Class → ℕ → List ℕ → List ℕ
add_object k v objects = if is_object k then v ∷ objects else objects

-- What every call does first
unfoldable pub enter : Code → TraceCall → Sets → Sets
enter g (loaded v) s = record s {
  loaded_values = v ∷ s.loaded_values;
  objects = add_object (g.class v) v s.objects;
}
enter g (stored v) s = record s {
  stored_values = v ∷ s.stored_values;
  objects = add_object (g.class v) v s.objects;
}

-- The calls that mayAliasWithLoadedValues makes, in their order
abbrev pub loaded_calls : Class → ℕ → List TraceCall
loaded_calls (phi vs) v = map loaded vs
loaded_calls (select t f) v = loaded t ∷ loaded f ∷ []
loaded_calls alloca v = stored v ∷ []
loaded_calls (get_element_ptr p) v = loaded p ∷ []
loaded_calls (bit_cast p) v = loaded p ∷ []
loaded_calls (constant_cast p) v = loaded p ∷ []
loaded_calls (global_variable none) v = stored v ∷ []
loaded_calls (global_variable (some init)) v = loaded init ∷ stored v ∷ []
loaded_calls (constant_array vs) v = map loaded vs
loaded_calls _ v = []

-- The calls that mayAliasWithStoredValues makes
abbrev pub stored_calls : Class → List ℕ → List TraceCall
stored_calls (memcpy p) users = loaded p ∷ []
stored_calls (store p) users = loaded p ∷ []
stored_calls alloca users = map stored users
stored_calls (get_element_ptr p) users = map stored users
stored_calls (bit_cast p) users = map stored users
stored_calls _ users = []

unfoldable pub calls : Code → TraceCall → List TraceCall
calls g (loaded v) = loaded_calls (g.class v) v
calls g (stored v) = stored_calls (g.class v) (g.users v)

-- One call after the other
unfoldable pub trace_each : (TraceCall → Sets → Option Sets) → List TraceCall → Sets → Option Sets
trace_each run [] s = some s
trace_each run (c ∷ cs) s = run c s >>= λ s'. trace_each run cs s'

-- The two functions; `none` is a lack of fuel, which bounds the depth of the recursion.
unfoldable pub trace : Code → ℕ → TraceCall → Sets → Option Sets
trace g zero c s = none
trace g (suc fuel) c s =
    let rest = trace_each (λ c' s'. trace g fuel c' s') (calls g c) (enter g c s) in
    if has_call c s then some s else rest

-- MayAliasTracer(V), in a module whose values are the numbers below n; every value can be entered twice.
unfoldable pub tracer : Code → ℕ → ℕ → Option Sets
tracer g n v = trace g (n + n + 1) (loaded v) empty_sets
