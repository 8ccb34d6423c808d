-- ===== src/Export/Collect.antt =====
-- collectObjectsToJIT: which functions and constants of a module are exported. An object is marked by its section: those
-- that a call of easy::jit may alias, those whose name matches the regular expression of the command line, and the
-- methods in virtual tables that a marked function may call. LLVM's types are a parameter.
pub mod Adds
pub mod Steps
pub mod Methods
pub mod Exported
mod Tests
use at_jit.Prelude.{
  ℕ, zero, suc, Bool, true, false, not, ◌&&◌, ◌||◌, Option, none, some, List, [], ◌∷◌, length,
  if◌then◌else◌, ◌==◌,
}
use at_jit.Prelude.Partial.{◌>>=◌, assert}
use at_jit.Export.Referenced.{mem}
use at_jit.Export.Trace.{Code, tracer}

pub data Section : Type 0 where
  no_section jit_section interface_section other_section : Section

abbrev pub is_jit : Section → Bool
is_jit jit_section = true
is_jit _ = false

abbrev pub is_interface : Section → Bool
is_interface interface_section = true
is_interface _ = false

-- A user of a function, as far as the code looks at it
pub data User : Type 0 where
  -- a call or an invocation, with its arguments without their pointer casts
  call_site : List ℕ → User
  -- an expression that is a cast; for each of its users, whether it is a constant aggregate
  cast_user : List Bool → User
  other_user : User

module _ (Ty : Type 0) where
  pub record FunctionType : Type 0 where
    pub result : Ty
    pub params : List Ty
    pub vararg : Bool

  -- An instruction: a load may be of a pointer to a pointer to a type; the flag tells an access to a virtual table.
  pub data Instruction : Type 0 where
    load : Bool → Ty → Instruction
    other_instruction : Instruction

  pub data Shape : Type 0 where
    -- its type, instructions and users
    function : Ty → List Instruction → List User → Shape
    -- whether it is constant, and the elements of its only aggregate, where it has an initializer of that shape: for
    -- each, the function that it is, or is a cast of
    variable : Bool → List (Option ℕ) → Shape

  pub record GlobalObject : Type 0 where
    pub declaration : Bool
    pub value : ℕ
    pub shape : Shape

  -- The global objects are the numbers below `size`, the values of the code those below `values`.
  pub record Module : Type 0 where
    pub size : ℕ
    pub object : ℕ → GlobalObject
    pub values : ℕ
    pub code : Code

  -- The sections of the objects, which is all that changes
  abbrev pub Sections : Type 0
  Sections = ℕ → Section

  abbrev pub set_section : ℕ → Section → Sections → Sections
  set_section k s sec j = if k == j then s else sec j

  abbrev pub range : ℕ → ℕ → List ℕ
  range i zero = []
  range i (suc n) = i ∷ range (suc i) n

  -- setSection(JIT_SECTION) for each object that passes a test
  unfoldable pub mark_all : (ℕ → Bool) → List ℕ → Sections → Sections
  mark_all test [] sec = sec
  mark_all test (k ∷ ks) sec =
      mark_all test ks (if test k then set_section k jit_section sec else sec)

  -- What the code asks of LLVM's types
  pub record TypeOps : Type 0 where
    pub eq_type : Ty → Ty → Bool
    pub is_pointer : Ty → Bool
    pub function_type : Ty → FunctionType

  module _ (ops : TypeOps) (m : Module) where
    abbrev pub all_objects : List ℕ
    all_objects = range 0 m.size

    abbrev pub is_constant : Shape → Bool
    is_constant (function t is us) = true
    is_constant (variable b es) = b

    -- The body of the loop over the arguments of a call
    unfoldable pub deduce_args : List ℕ → Sections → Option Sections
    deduce_args [] sec = some sec
    deduce_args (a ∷ args) sec = do
      s ← tracer m.code m.values a
      deduce_args args (
          mark_all (λ k. is_constant (m.object k).shape && mem (m.object k).value s.objects)
            all_objects sec)

    unfoldable pub deduce_users : List User → Sections → Option Sections
    deduce_users [] sec = some sec
    deduce_users (call_site args ∷ us) sec = deduce_args args sec >>= λ sec'. deduce_users us sec'
    deduce_users (_ ∷ us) sec = deduce_users us sec

    abbrev pub users_of : Shape → List User
    users_of (function t is us) = us
    users_of (variable b es) = []

    -- compilerInterface
    unfoldable pub compiler_interface : Sections → List ℕ → List ℕ
    compiler_interface sec [] = []
    compiler_interface sec (k ∷ ks) =
        let rest = compiler_interface sec ks in
        elim (m.object k).shape [
          | function t is us ↦ if is_interface (sec k) then k ∷ rest else rest
          | variable b es ↦ rest
        ]

    -- The loop of deduceObjectsToJIT
    unfoldable pub deduce_each : List ℕ → Sections → Option Sections
    deduce_each [] sec = some sec
    deduce_each (f ∷ fs) sec =
        deduce_users (users_of (m.object f).shape) sec >>= λ sec'. deduce_each fs sec'

    pub deduce_objects_to_jit : Sections → Option Sections
    deduce_objects_to_jit sec = deduce_each (compiler_interface sec all_objects) sec

    -- regexFunctionsToJIT, with the match of an object's name, where there is a regular expression
    pub regex_functions_to_jit : Option (ℕ → Bool) → Sections → Sections
    regex_functions_to_jit none sec = sec
    regex_functions_to_jit (some match) sec = mark_all match all_objects sec

    -- The types that a function loads from virtual tables
    abbrev pub loaded_types : List Instruction → List Ty
    loaded_types [] = []
    loaded_types (load true t ∷ is) = t ∷ loaded_types is
    loaded_types (_ ∷ is) = loaded_types is

    abbrev pub instructions_of : Shape → List Instruction
    instructions_of (function t is us) = is
    instructions_of (variable b es) = []

    abbrev pub mem_type : Ty → List Ty → Bool
    mem_type t [] = false
    mem_type t (u ∷ us) = ops.eq_type u t || mem_type t us

    -- VirtualMethodTys.count, on the sets of all functions in the section
    unfoldable pub counts_type : Sections → List ℕ → Ty → Bool
    counts_type sec [] t = false
    counts_type sec (k ∷ ks) t =
        is_jit (sec k) && mem_type t (loaded_types (instructions_of (m.object k).shape))
        || counts_type sec ks t

    abbrev pub same_types : List Ty → List Ty → Bool
    same_types [] _ = true
    same_types (t ∷ ts) [] = false
    same_types (t ∷ ts) (u ∷ us) = ops.eq_type t u && same_types ts us

    abbrev pub any_aggregate : List Bool → Bool
    any_aggregate [] = false
    any_aggregate (b ∷ bs) = b || any_aggregate bs

    -- "probably a vtable"
    abbrev pub in_table : List User → Bool
    in_table [] = false
    in_table (cast_user bs ∷ us) = any_aggregate bs || in_table us
    in_table (_ ∷ us) = in_table us

    -- What mayBeOverload does after its first tests, with the parameters of F and of FOverload; `none` reads the first
    -- parameter where there is none.
    abbrev pub overload_params : List Ty → List Ty → List User → Option Bool
    overload_params (t ∷ ts) (u ∷ us) users =
        some (ops.is_pointer u && same_types ts us && in_table users)
    overload_params _ _ users = none

    pub may_be_overload : FunctionType → FunctionType → List User → Option Bool
    may_be_overload o f users =
        if not (ops.eq_type f.result o.result)
        then some false
        else if not (length f.params == length o.params)
        then some false
        else if o.vararg
        then some false
        else overload_params f.params o.params users

    abbrev pub type_of : Shape → Option Ty
    type_of (function t is us) = some t
    type_of (variable b es) = none

    -- Whether the function f, of type t, has the object k as an overload
    unfoldable pub overload_of : ℕ → Ty → List User → ℕ → Option Bool
    overload_of f t users k = elim (type_of (m.object k).shape) [
      | none ↦ some false
      | some u ↦
          if k == f
          then some false
          else may_be_overload (ops.function_type u) (ops.function_type t) users
    ]

    -- The loop over the overloads
    unfoldable pub mark_overloads : ℕ → Ty → List User → List ℕ → Sections → Option Sections
    mark_overloads f t users [] sec = some sec
    mark_overloads f t users (k ∷ ks) sec = overload_of f t users k >>= λ b.
        mark_overloads f t users ks (if b then set_section k jit_section sec else sec)

    -- What becomes of a function in a virtual table
    unfoldable pub mark_method : (Ty → Bool) → ℕ → Sections → Option Sections
    mark_method types f sec = elim (type_of (m.object f).shape) [
      | none ↦ some sec
      | some t ↦
          if types t
          then mark_overloads f t (users_of (m.object f).shape) all_objects
              (set_section f jit_section sec)
          else some sec
    ]

    unfoldable pub mark_entries : (Ty → Bool) → List (Option ℕ) → Sections → Option Sections
    mark_entries types [] sec = some sec
    mark_entries types (none ∷ es) sec = mark_entries types es sec
    mark_entries types (some f ∷ es) sec =
        mark_method types f sec >>= λ sec'. mark_entries types es sec'

    abbrev pub entries_of : Shape → List (Option ℕ)
    entries_of (function t is us) = []
    entries_of (variable b es) = es

    unfoldable pub mark_tables : (Ty → Bool) → List ℕ → Sections → Option Sections
    mark_tables types [] sec = some sec
    mark_tables types (k ∷ ks) sec =
        mark_entries types (entries_of (m.object k).shape) sec >>= λ sec'. mark_tables types ks sec'

    pub deduce_virtual_methods_to_jit : Sections → Option Sections
    deduce_virtual_methods_to_jit sec = mark_tables (counts_type sec all_objects) all_objects sec

    -- The last loop of collectObjectsToJIT: it drops the marks, and collects what is defined.
    unfoldable pub collect_marked : List ℕ → Sections → List ℕ × Sections
    collect_marked [] sec = ([], sec)
    collect_marked (k ∷ ks) sec =
        let (found, after) =
          collect_marked ks (if is_jit (sec k) then set_section k no_section sec else sec) in
        (if is_jit (sec k) && not (m.object k).declaration then k ∷ found else found, after)

    pub collect_objects_to_jit : Option (ℕ → Bool) → Sections → Option (List ℕ × Sections)
    collect_objects_to_jit pattern sec = do
      deduced ← deduce_objects_to_jit sec
      marked ← deduce_virtual_methods_to_jit (regex_functions_to_jit pattern deduced)
      some (collect_marked all_objects marked)
