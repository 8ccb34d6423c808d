-- ===== src/Export/Register.antt =====
-- The rest of the pass: it names the local variables, writes a table of them, embeds the bitcode of the exported objects
-- and registers them when the program starts; and MapGlobals, which reads the table. The addresses that variables
-- have in the running program, LLVM's unique names and the writing of bitcode are parameters.
pub mod Mapping
pub mod Tracked
use at_jit.Prelude.{
  ℕ, zero, suc, ◌+◌, ◌-◌, ◌%◌, ◌^◌, Bool, true, false, Option, none, some, List, [], ◌∷◌, ◌++◌,
  length, if◌then◌else◌, get_elem?,
}
use at_jit.Prelude.Partial.{◌>>=◌}
use at_jit.Tables.Bitcode.{FunctionInfo}

module _ (Name : Type 0) (eq_name : Name → Name → Bool) where
  pub record GlobalVariable : Type 0 where
    pub name : Option Name
    pub has_local_linkage : Bool
    pub address : ℕ

  -- collectLocalGlobals
  pub collect_local_globals : List GlobalVariable → List GlobalVariable
  collect_local_globals [] = []
  collect_local_globals (v ∷ vs) =
      let rest = collect_local_globals vs in if v.has_local_linkage then v ∷ rest else rest

  abbrev pub or_name : Option Name → Name → Name
  or_name none n = n
  or_name (some m) n = m

  -- nameGlobals; `unique i` is what LLVM makes of the name for the i-th of them.
  pub name_globals : (ℕ → Name) → ℕ → List GlobalVariable → List GlobalVariable
  name_globals unique i [] = []
  name_globals unique i (v ∷ vs) =
      record v { name = some (or_name v.name (unique i)) } ∷ name_globals unique (suc i) vs

  -- getGlobalMapping: a name and an address for each, and a null entry. A value without a name has the empty one.
  pub get_global_mapping : Name → List GlobalVariable → List (Option Name × ℕ)
  get_global_mapping empty [] = (none, 0) ∷ []
  get_global_mapping empty (v ∷ vs) =
      (some (or_name v.name empty), v.address) ∷ get_global_mapping empty vs

  -- MapGlobals: what it passes to addGlobalMapping. `none` is a read past the table.
  pub map_globals : List (Option Name × ℕ) → Option (List (Name × ℕ))
  map_globals [] = none
  map_globals ((none, a) ∷ entries) = some []
  map_globals ((some n, a) ∷ entries) = do rest ← map_globals entries; some ((n, a) ∷ rest)

  -- An exported function or variable
  pub record ExportedObject : Type 0 where
    pub name : Name
    pub address : ℕ

  -- A constant array of bytes
  pub record ByteArray : Type 0 where
    pub address : ℕ
    pub init : List ℕ

  -- writeModuleToGlobal: ConstantDataArray::getString adds a zero.
  pub write_module_to_global : ℕ → List ℕ → ByteArray
  write_module_to_global address bytes = record { address = address; init = bytes ++ 0 ∷ [] }

  -- embedBitcode, for the objects from the i-th on; `bitcode` cleans the module for an object and writes it.
  pub embed_bitcode : (ℕ → ℕ) → (ExportedObject → List ℕ) → ℕ → List ExportedObject → List ByteArray
  embed_bitcode place bitcode i [] = []
  embed_bitcode place bitcode i (o ∷ os) =
      write_module_to_global (place i) (bitcode o) ∷ embed_bitcode place bitcode (suc i) os

  -- registerBitcode: the calls of easy_register in the constructor that it makes; `gm` is the table's address.
  pub register_bitcode :
      ℕ → ℕ → List ExportedObject → List ByteArray → Option (List (ℕ × FunctionInfo Name eq_name))
  register_bitcode gm i [] bitcodes = some []
  register_bitcode gm i (o ∷ os) bitcodes = do
    b ← get_elem? bitcodes i
    rest ← register_bitcode gm (suc i) os bitcodes
    some (
        (
          o.address,
          record {
            name = o.name;
            globals = gm;
            bitcode = b.address;
            bitcode_len = (length b.init + 2 ^ 64 - 1) % 2 ^ 64;
          },
        )
        ∷ rest)
