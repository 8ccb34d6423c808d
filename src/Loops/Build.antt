-- ===== src/Loops/Build.antt =====
-- include/tuner/AnalyzingTuner.h and runtime/tuner/AnalyzingTuner.cpp (analyze, LoopKnobCreator): one knob for each loop.
pub mod Mirror
use at_jit.Prelude.{
  ℕ, zero, suc, ◌+◌, ◌%◌, ◌^◌, Bool, true, false, not, Option, none, some, List, [], ◌∷◌, ◌++◌,
  if◌then◌else◌, ◌==◌,
}
use at_jit.Prelude.Partial.{◌>>=◌, ◌>>◌, assert}
use at_jit.LoopSetting.{LoopSetting, empty_setting}
use at_jit.Knobs.{Map, insert}
use at_jit.Loops.{MdStrings, Operand, get_loop_name}
use at_jit.Loops.Sections.{LoopKnob, Kids, knob, no_kids, kid}

-- What LLVM's loop analysis gives: a loop's node and its sub-loops
mutual
  pub data Loop (strs : MdStrings) : Type 0 where
    loop : Option (List (Operand strs)) → SubLoops strs → Loop strs

  pub data SubLoops (strs : MdStrings) : Type 0 where
    no_loops : SubLoops strs
    sub_loop : Loop strs → SubLoops strs → SubLoops strs

-- KnobTicker, and the loop knobs by id
pub record Created : Type 0 where
  pub ticker : ℕ
  pub loop_knobs : Map LoopKnob

-- Knob(): the next id; 0 fails the assertion.
pub new_id : Created → Option (ℕ × Created)
new_id s = do
  assert (not (s.ticker == 0))
  some (s.ticker, record s { ticker = (s.ticker + 1) % 2 ^ 64 })

module _ (strs : MdStrings) where
  -- buildTree after its recursion: the loop's own knob. `none` is its report_fatal_error.
  pub build_self : Option (List (Operand strs)) → ℕ → Kids → Created → Option (LoopKnob × Created)
  build_self loop_md depth kids s = do
    md ← loop_md
    name ← get_loop_name strs md
    (id, s') ← new_id s
    some (
      knob name depth empty_setting kids,
      record s' { loop_knobs = insert s'.loop_knobs id (knob name depth empty_setting kids) },
    )

  -- buildTree, for a loop at this depth
  unfoldable mutual
    pub build_tree : ℕ → Loop strs → Created → Option (LoopKnob × Created)
    build_tree depth (loop md subs) s =
        build_kids (suc depth) subs s >>= λ (kids, s'). build_self md depth kids s'

    build_kids : ℕ → SubLoops strs → Created → Option (Kids × Created)
    build_kids depth no_loops s = some (no_kids, s)
    build_kids depth (sub_loop l ls) s = build_tree depth l s >>= λ (k, s').
        build_kids depth ls s' >>= λ (ks, s''). some (kid k ks, s'')

  -- The pass over the top-level loops, which have the depth 1
  pub create_knobs : List (Loop strs) → Created → Option Created
  create_knobs [] s = some s
  create_knobs (l ∷ ls) s = build_tree 1 l s >>= λ (k, s'). create_knobs ls s'

  -- AnalyzingTuner::analyze, with alreadyRun
  pub analyze : List (Loop strs) → Bool × Created → Option (Bool × Created)
  analyze loops (true, s) = some (true, s)
  analyze loops (false, s) = create_knobs loops s >>= λ s'. some (true, s')
