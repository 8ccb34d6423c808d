-- ===== src/Loops.antt =====
-- include/tuner/MDUtils.h, pass/LoopNamer.cpp and the metadata part of runtime/tuner/LoopKnob.cpp: the operands of a
-- loop's !llvm.loop node. The node's first operand is the node itself, and every operation puts it back; it is
-- left out here. LLVM's strings and numerals are a parameter.
pub mod Set
pub mod Options
pub mod Setting
pub mod Names
pub mod Sections
pub mod Build
mod Tests
use at_jit.Prelude.{
  ℕ, zero, suc, ◌+◌, ◌-◌, ◌%◌, ◌^◌, ◌<◌, ◌≡◌, ◌↔◌, Bool, true, false, not, ◌&&◌, ◌||◌, Option, none,
  some, List, [], ◌∷◌, ◌++◌, if◌then◌else◌, ◌==◌,
}
use at_jit.Prelude.Partial.{◌>>=◌, ◌>>◌, assert}
use at_jit.LoopSetting.{LoopSetting}

-- The strings of namespace loop_md that the code writes or looks for
pub data MdName : Type 0 where
  tag unroll_disable unroll_count unroll_full vectorize_width licm_ver_disable interleave_count
        distribute section :
      MdName

-- MDString, its equality, std::to_string and StringRef::getAsInteger in base 10. The documented behaviour that is
-- relied on: equal strings are equal, the literals of loop_md differ, and a decimal numeral reads as its number.
pub record MdStrings : Type 1 where
  pub Str : Type 0
  pub eq_str : Str → Str → Bool
  pub name : MdName → Str
  pub to_string : ℕ → Str
  pub as_integer : Str → Option ℕ
  pub eq_str_iff : (a b : Str) → (eq_str a b ≡ true) ↔ (a ≡ b)
  pub name-injective : (a b : MdName) → name a ≡ name b → a ≡ b
  pub as_integer-to_string : (n : ℕ) → n < 2 ^ 32 → as_integer (to_string n) ≡ some n

-- mkMDInt on an unsigned value: its width and its bits
module _ (strs : MdStrings) where
  open strs use {Str, eq_str, name, to_string, as_integer}

  -- An operand of an option's node: a string, a constant of 32 bits or of another width, or other metadata.
  pub data Leaf : Type 0 where
    str : Str → Leaf
    int : ℕ → ℕ → Leaf
    other : ℕ → Leaf

  -- An operand of a loop's node: a node of leaves, or a leaf.
  pub data Operand : Type 0 where
    node : List Leaf → Operand
    leaf : Leaf → Operand

  pub mk_md_int : ℕ → ℕ → Leaf
  mk_md_int width val = int width (val % 2 ^ width)

  -- Equal metadata is one object.
  pub eq_leaf : Leaf → Leaf → Bool
  eq_leaf (str a) (str b) = eq_str a b
  eq_leaf (int w a) (int v b) = w == v && a == b
  eq_leaf (other a) (other b) = a == b
  eq_leaf _ _ = false

  pub eq_leaves : List Leaf → List Leaf → Bool
  eq_leaves [] [] = true
  eq_leaves (a ∷ xs) (b ∷ ys) = eq_leaf a b && eq_leaves xs ys
  eq_leaves _ _ = false

  pub eq_operand : Operand → Operand → Bool
  eq_operand (node xs) (node ys) = eq_leaves xs ys
  eq_operand (leaf a) (leaf b) = eq_leaf a b
  eq_operand _ _ = false

  -- SmallSetVector: contains, insert, and the constructor from a range
  pub contains : Operand → List Operand → Bool
  contains x [] = false
  contains x (y ∷ ys) = eq_operand x y || contains x ys

  pub insert_op : List Operand → Operand → List Operand
  insert_op ops x = if contains x ops then ops else ops ++ x ∷ []

  pub insert_all : List Operand → List Operand → List Operand
  insert_all ops [] = ops
  insert_all ops (x ∷ xs) = insert_all (insert_op ops x) xs

  pub matches_loop_option : Str → Operand → Bool
  matches_loop_option key (node (str k ∷ vals)) = eq_str k key
  matches_loop_option key _ = false

  -- remove_if(matchesLoopOption)
  pub remove_option : Str → List Operand → List Operand
  remove_option key [] = []
  remove_option key (x ∷ xs) =
      let rest = remove_option key xs in if matches_loop_option key x then rest else x ∷ rest

  -- {Key, Val}, or {Key} where Val is null
  abbrev pub option_node : Str → Option Leaf → Operand
  option_node key none = node (str key ∷ [])
  option_node key (some v) = node (str key ∷ v ∷ [])

  abbrev pub is_null : Option Leaf → Bool
  is_null none = true
  is_null (some v) = false

  -- updateLMD
  pub update_lmd : List Operand → Str → Option Leaf → Bool → Option (List Operand)
  update_lmd ops key val delete_only =
      let mds = remove_option key (insert_all [] ops) in
      if delete_only
      then assert (is_null val) >> some mds
      else some (insert_op mds (option_node key val))

  -- setPresenceOption
  pub set_presence_option : List Operand → Option Bool → MdName → Option (List Operand)
  set_presence_option ops none key = some ops
  set_presence_option ops (some true) key = update_lmd ops (name key) none false
  set_presence_option ops (some false) key = update_lmd ops (name key) none true

  -- SET_INT_OPTION; both i32 and i1 are 32 bits wide in the source.
  pub set_int_option : List Operand → Option ℕ → MdName → Option (List Operand)
  set_int_option ops none key = some ops
  set_int_option ops (some n) key = update_lmd ops (name key) (some (mk_md_int 32 n)) false

  abbrev pub of_bool : Option Bool → Option ℕ
  of_bool none = none
  of_bool (some b) = some (if b then 1 else 0)

  -- addToLoopMD
  pub add_to_loop_md : List Operand → LoopSetting → Option (List Operand)
  add_to_loop_md ops ls = do
    a ← set_presence_option ops ls.unroll_disable unroll_disable
    b ← set_presence_option a ls.unroll_full unroll_full
    c ← set_presence_option b ls.licm_ver_disable licm_ver_disable
    d ← set_int_option c ls.unroll_count unroll_count
    e ← set_int_option d ls.vectorize_width vectorize_width
    f ← set_int_option e ls.interleave_count interleave_count
    set_int_option f (of_bool ls.distribute) distribute

  -- createLoopName, with the new LoopIDs
  pub create_loop_name : ℕ → Operand × ℕ
  create_loop_name ids = (node (str (name tag) ∷ str (to_string ids) ∷ []), (ids + 1) % 2 ^ 32)

  -- The number of a tag's string; ~0 stands for a failure. `none` is report_fatal_error.
  unfoldable pub loop_number : Option ℕ → Option ℕ
  loop_number none = none
  loop_number (some n) = if n == 2 ^ 32 - 1 then none else some n

  -- The two strings of an entry that has two operands, both strings
  unfoldable pub two_strings : Operand → Option (Str × Str)
  two_strings (node (str t ∷ str v ∷ [])) = some (t, v)
  two_strings _ = none

  -- getLoopName: the first operand that is a tag with a string
  unfoldable pub get_loop_name : List Operand → Option ℕ
  get_loop_name [] = none
  get_loop_name (x ∷ ops) = elim (two_strings x) [
    | none ↦ get_loop_name ops
    | some p ↦
        (let rest = get_loop_name ops in
          if eq_str p.0 (name tag) then loop_number (as_integer p.1) else rest)
  ]

  -- LoopNamer::runOnLoop, with LoopIDs: MDNode::concatenate drops repeated operands.
  pub name_loop : Option (List Operand) → ℕ → List Operand × ℕ
  name_loop none ids = let (t, ids') = create_loop_name ids in (insert_all [] (t ∷ []), ids')
  name_loop (some ops) ids =
      let (t, ids') = create_loop_name ids in (insert_all [] (ops ++ t ∷ []), ids')

  -- The pass over the loops, in the order that the pass manager visits them
  pub name_loops : List (Option (List Operand)) → ℕ → List (List Operand)
  name_loops [] ids = []
  name_loops (md ∷ mds) ids = let (ops, ids') = name_loop md ids in ops ∷ name_loops mds ids'
