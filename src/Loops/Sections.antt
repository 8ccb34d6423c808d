-- ===== src/Loops/Sections.antt =====
-- runtime/tuner/LoopKnob.cpp (identifyLoops, analyzeSections, LoopKnobAdjustor::runOnLoop) and include/tuner/MDUtils.h
-- (addLoopTransformGroup, createTilingMD): the knobs of a loop nest as a tree, and the groups of loops to tile.
pub mod Groups
pub mod Adjust
use at_jit.Prelude.{
  ℕ, zero, suc, ◌+◌, Bool, true, false, ◌||◌, not, Option, none, some, List, [], ◌∷◌, ◌++◌, length,
  if◌then◌else◌, ltb, ◌==◌,
}
use at_jit.Prelude.Partial.{◌>>=◌}
use at_jit.LoopSetting.{LoopSetting}
use at_jit.Knobs.{lookup, insert}
use at_jit.Loops.{MdStrings, Operand, add_to_loop_md, get_loop_name}

abbrev is_some {ℓ} : {A : Type ℓ} → Option A → Bool
is_some none = false
is_some (some a) = true

-- class LoopKnob: the loop's name, its depth, the setting and the kids
mutual
  pub data LoopKnob : Type 0 where
    knob : ℕ → ℕ → LoopSetting → Kids → LoopKnob

  pub data Kids : Type 0 where
    no_kids : Kids
    kid : LoopKnob → Kids → Kids

abbrev pub loop_name : LoopKnob → ℕ
loop_name (knob name depth ls kids) = name

abbrev pub loop_depth : LoopKnob → ℕ
loop_depth (knob name depth ls kids) = depth

abbrev pub get_val : LoopKnob → LoopSetting
get_val (knob name depth ls kids) = ls

abbrev pub children : LoopKnob → Kids
children (knob name depth ls kids) = kids

-- The dimensions of a transform: loop names and sizes
abbrev pub Dims : Type 0
Dims = List (ℕ × ℕ)

-- if (Dims.size() >= 2) XForms.push_back(...)
pub group : Dims → List Dims
group dims = if ltb 1 (length dims) then dims ∷ [] else []

-- analyzeSections: `section_walk dims k` is its loop with Cur at k, and what follows the loop.
unfoldable mutual
  pub section_walk : Dims → LoopKnob → List Dims
  section_walk dims (knob name depth ls kids) = section_next dims name ls.section kids

  section_next : Dims → ℕ → Option ℕ → Kids → List Dims
  section_next dims name none no_kids = group dims ++ []
  section_next dims name none (kid k ks) = group dims ++ (section_walk [] k ++ section_kids ks)
  section_next dims name (some sz) no_kids = group (dims ++ (name, sz) ∷ []) ++ []
  section_next dims name (some sz) (kid k no_kids) = section_walk (dims ++ (name, sz) ∷ []) k
  section_next dims name (some sz) (kid k (kid k' ks)) =
      group (dims ++ (name, sz) ∷ [])
      ++ (section_walk [] k ++ (section_walk [] k' ++ section_kids ks))

  section_kids : Kids → List Dims
  section_kids no_kids = []
  section_kids (kid k ks) = section_walk [] k ++ section_kids ks

pub analyze_sections : LoopKnob → List Dims
analyze_sections k = section_walk [] k

-- SubLoops, filled by identifyLoops: a later loop with the same name replaces an earlier one.
mutual
  pub identify_loops : Kids → List (ℕ × LoopKnob) → List (ℕ × LoopKnob)
  identify_loops no_kids subs = subs
  identify_loops (kid k ks) subs =
      identify_loops ks (identify_below k (insert subs (loop_name k) k))

  identify_below : LoopKnob → List (ℕ × LoopKnob) → List (ℕ × LoopKnob)
  identify_below (knob name depth ls kids) subs = identify_loops kids subs

module _ (strs : MdStrings) where
  -- createTilingMD: the transform's node holds the names as strings and the sizes as i64.
  pub record Transform : Type 0 where
    pub names : List (MdStrings.Str strs)
    pub sizes : List ℕ

  pub create_tiling_md : Dims → Transform
  create_tiling_md [] = record { names = []; sizes = [] }
  create_tiling_md ((name, sz) ∷ dims) =
      let rest = create_tiling_md dims in
      record { names = MdStrings.to_string strs name ∷ rest.names; sizes = sz ∷ rest.sizes }

  pub create_all : List Dims → List Transform
  create_all [] = []
  create_all (d ∷ ds) = create_tiling_md d ∷ create_all ds

  -- addLoopTransformGroup, on the function's "looptransform" attachment; whether it changed
  pub add_loop_transform_group : List Transform → List Transform → Bool × List Transform
  add_loop_transform_group attached [] = (false, attached)
  add_loop_transform_group attached (x ∷ xs) = (true, attached ++ x ∷ xs)

  -- A loop of the module: its node, and the attachment of its function.
  pub record LoopState : Type 0 where
    pub loop_md : Option (List (Operand strs))
    pub attached : List Transform

  -- Whether addToLoopMD makes a new node
  pub sets_any : LoopSetting → Bool
  sets_any ls =
      is_some ls.unroll_disable
      || is_some ls.unroll_full
      || is_some ls.licm_ver_disable
      || is_some ls.unroll_count
      || is_some ls.vectorize_width
      || is_some ls.interleave_count
      || is_some ls.distribute

  -- addRegularMD: the new operands, and whether the node is another
  pub add_regular_md : List (Operand strs) → LoopKnob → Option (Bool × List (Operand strs))
  add_regular_md md k = do
    md' ← add_to_loop_md strs md (get_val k)
    some (sets_any (get_val k), md')

  -- runOnLoop from the lookup on, which found `sub` or nothing
  pub run_found :
      LoopKnob → List (Operand strs) → ℕ → LoopState → Option LoopKnob → Option (Bool × LoopState)
  run_found main md current s (some sub) = do
    (changed, md') ← add_regular_md md sub
    some (changed, record s { loop_md = some md' })
  run_found main md current s none =
      if current == loop_name main
      then (do
        (changed, md') ← add_regular_md md main
        (xforms, attached') ←
            some (add_loop_transform_group s.attached (create_all (analyze_sections main)))
        some (changed || xforms, record { loop_md = some md'; attached = attached' }))
      else some (false, s)

  -- LoopKnobAdjustor::runOnLoop, with MainLK; `none` is its report_fatal_error.
  pub run_on_loop : LoopKnob → LoopState → Option (Bool × LoopState)
  run_on_loop main s = do
    md ← s.loop_md
    current ← get_loop_name strs md
    run_found main md current s (lookup current (identify_loops (children main) []))
