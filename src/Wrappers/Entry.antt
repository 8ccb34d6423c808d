-- ===== src/Wrappers/Entry.antt =====
-- runtime/Utils.cpp: the named metadata that marks the entry function of a module. LLVM's strings are a parameter.
use at_jit.Prelude.{Bool, true, Option, none, some, List, [], ◌∷◌, ◌++◌, if◌then◌else◌, ◌≡◌, refl}

module _ (Str : Type 0) (eq_str : Str → Str → Bool) (entry_tag : Str) where
  pub data MdOperand : Type 0 where
    md_string : Str → MdOperand
    md_other : MdOperand

  -- The operands of the metadata named "easy::jit", where there is such
  abbrev pub EasyJitMd : Type 0
  EasyJitMd = Option (List (List MdOperand))

  -- The name in a node that marks an entry
  pub entry_name : List MdOperand → Option Str
  entry_name (md_string tag ∷ md_string name ∷ []) =
      if eq_str tag entry_tag then some name else none
  entry_name _ = none

  -- The loop of GetEntryFunctionName
  pub find_entry : List (List MdOperand) → Option Str
  find_entry [] = none
  find_entry (node ∷ nodes) = elim (entry_name node) [
    | none ↦ find_entry nodes
    | some name ↦ some name
  ]

  -- GetEntryFunctionName; `none` is report_fatal_error, or a read through a null pointer.
  pub get_entry_function_name : EasyJitMd → Option Str
  get_entry_function_name none = none
  get_entry_function_name (some nodes) = find_entry nodes

  abbrev or_insert : EasyJitMd → List (List MdOperand)
  or_insert none = []
  or_insert (some nodes) = nodes

  pub mark_as_entry : EasyJitMd → Str → EasyJitMd
  mark_as_entry md name = some (or_insert md ++ (md_string entry_tag ∷ md_string name ∷ []) ∷ [])

  pub unmark_entry : EasyJitMd → EasyJitMd
  unmark_entry md = none

  -- The linker appends the named metadata of the linked module.
  pub link_metadata : EasyJitMd → EasyJitMd → EasyJitMd
  link_metadata md none = md
  link_metadata md (some nodes) = some (or_insert md ++ nodes)

  abbrev pub first_name : Option Str → Str → Str
  first_name none name = name
  first_name (some old) name = old

  by_node :
      (o found rest : Option Str) (name : Str)
      → found ≡ some (first_name rest name)
      → (elim o [ none ↦ found | some n ↦ some n ])
        ≡ some (first_name (elim o [ none ↦ rest | some n ↦ some n ]) name)
  by_node none found rest name e = e
  by_node (some n) found rest name e = refl

  find_entry-append :
      (nodes : List (List MdOperand)) (name : Str)
      → eq_str entry_tag entry_tag ≡ true
      → find_entry (nodes ++ (md_string entry_tag ∷ md_string name ∷ []) ∷ [])
        ≡ some (first_name (find_entry nodes) name)
  unfolding find_entry entry_name
  find_entry-append [] name self = rw (self, find_entry, entry_name) refl
  find_entry-append (node ∷ nodes) name self =
      by_node (entry_name node)
        (find_entry (nodes ++ (md_string entry_tag ∷ md_string name ∷ []) ∷ [])) (find_entry nodes)
        name (find_entry-append nodes name self)

  -- After MarkAsEntry, GetEntryFunctionName finds the name, or the one that was marked before it.
  pub get_entry_function_name-mark :
      (md : EasyJitMd) (name : Str)
      → eq_str entry_tag entry_tag ≡ true
      → get_entry_function_name (mark_as_entry md name)
        ≡ some (first_name (get_entry_function_name md) name)
  unfolding get_entry_function_name mark_as_entry find_entry
  get_entry_function_name-mark none name self = find_entry-append [] name self
  get_entry_function_name-mark (some nodes) name self = find_entry-append nodes name self
