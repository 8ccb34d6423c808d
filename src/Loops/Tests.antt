-- ===== src/Loops/Tests.antt =====
-- Tests of the loop metadata.
use mathlib.Core.Bool.{false≢true}
use at_jit.Prelude.{
  ◌⊎◌, true, Bool, ℕ, ◌+◌, ◌-◌, ◌<◌, ◌^◌, ◌≡◌, refl, sym, ap, ◌∙◌, Bool, false, Option, none, some,
  List, [], ◌∷◌, length, map, ◌==◌, ==_iff, leb, if◌then◌else◌, All, arith,
}
use at_jit.Prelude.Partial.{Succeeds, ◌>>=◌}
use at_jit.LoopSetting.{LoopSetting, empty_setting}
use at_jit.Knobs.{lookup}
use at_jit.Loops.{
  MdStrings, MdName, matches_loop_option, Operand, str, int, other, node, leaf, add_to_loop_md,
  get_loop_name, name_loops, two_strings, loop_number,
}
use at_jit.Loops.Set.{find, Apart}
use at_jit.Loops.Options.{code, decode, decode-code, option_of, Foreign}
use at_jit.Loops.Setting.{wanted, add_to_loop_md-wanted, is_name}
use at_jit.Loops.Names.{IsUnnamed, count_from, name_loops-count}
use at_jit.Loops.Sections.{
  LoopKnob, knob, no_kids, kid, analyze_sections, run_on_loop, identify_loops, children, loop_name,
}
use at_jit.Loops.Sections.Groups.{Sublist, joined, preorder, analyze_sections-groups}
use at_jit.Loops.Sections.Adjust.{run_on_loop-Reports}
use at_jit.Loops.Build.{Loop, loop, no_loops, sub_loop, Created, build_tree}
use at_jit.Loops.Build.Mirror.{Mirrors, IsNamed, loops_in, Grown, Given, build_tree-Mirrors}

-- Strings as numbers: the literals below 100, then the numerals.
numeral : ℕ → Option ℕ
numeral s = if leb 100 s then some (s - 100) else none

numeral-lem : (n : ℕ) → n < 2 ^ 32 → numeral (100 + n) ≡ some n
unfolding numeral
numeral-lem n h = ground arith

abbrev numbered : MdStrings
numbered = record {
  Str = ℕ;
  eq_str = λ a b. a == b;
  name = code;
  to_string = λ n. 100 + n;
  as_integer = numeral;
  eq_str_iff = ==_iff;
  name-injective = λ a b e. sym (decode-code a) ∙ ap decode e ∙ decode-code b;
  as_integer-to_string = numeral-lem;
}

-- A loop named 0 with an old unroll count and an operand of its own
abbrev old_md : List (Operand numbered)
old_md = node (str 0 ∷ str 100 ∷ []) ∷ node (str 2 ∷ int 32 4 ∷ []) ∷ leaf (other 7) ∷ []

abbrev setting : LoopSetting
setting = record empty_setting { unroll_count = some 8; section = some 16 }

is_leaf : Operand numbered → Bool
is_leaf (leaf l) = true
is_leaf (node xs) = false

is_leaf-Foreign : Foreign numbered is_leaf
unfolding Foreign Apart is_leaf matches_loop_option
is_leaf-Foreign key w (node xs) h = refl
is_leaf-Foreign key w (leaf l) h = absurd (false≢true h)

add_to_loop_md-wanted_example :
    Succeeds
      (λ ops'.
        ((key : MdName)
          → option_of numbered key ops'
            ≡ wanted numbered setting key (option_of numbered key old_md))
        × (find is_leaf ops' ≡ find is_leaf old_md)
        × (get_loop_name numbered ops' ≡ get_loop_name numbered old_md))
      (add_to_loop_md numbered old_md setting)
add_to_loop_md-wanted_example =
    add_to_loop_md-wanted numbered old_md setting is_leaf is_leaf-Foreign

unnamed : All (IsUnnamed numbered) (none ∷ some (leaf (other 7) ∷ []) ∷ [])
unfolding IsUnnamed find is_name two_strings
unnamed = (tt, (refl, tt))

name_loops-count_example :
    map (get_loop_name numbered) (name_loops numbered (none ∷ some (leaf (other 7) ∷ []) ∷ []) 0)
    ≡ count_from numbered 0 2
name_loops-count_example =
    name_loops-count numbered (none ∷ some (leaf (other 7) ∷ []) ∷ []) 0 unnamed (omega arith)

-- A nest of three loops, one inside the other; the two outer ones have a section size.
abbrev nest : LoopKnob
nest =
    knob 0 1 setting (kid (knob 1 2 setting (kid (knob 2 3 empty_setting no_kids) no_kids)) no_kids)

analyze_sections-groups_example :
    All (λ d. 1 < length d) (analyze_sections nest)
    × Sublist (joined (analyze_sections nest)) (preorder nest)
analyze_sections-groups_example = analyze_sections-groups nest

named : get_loop_name numbered old_md ≡ some 0
unfolding get_loop_name two_strings loop_number numeral code
named = refl

run_on_loop-Reports_example :
    Succeeds
      (λ r.
        ((r.0 ≡ true) ⊎ (r.1 ≡ record { loop_md = some old_md; attached = [] }))
        × ((r.1.loop_md >>= get_loop_name numbered) ≡ some 0)
        × ((r.0 ≡ false)
            ⊎ ((0 == loop_name nest) ≡ true)
            ⊎ ((k : LoopKnob) × (lookup 0 (identify_loops (children nest) []) ≡ some k))))
      (run_on_loop numbered nest (record { loop_md = some old_md; attached = [] }))
run_on_loop-Reports_example = run_on_loop-Reports numbered nest old_md [] 0 named

abbrev two_loops : Loop numbered
two_loops = loop (some old_md) (sub_loop (loop (some old_md) no_loops) no_loops)

abbrev start : Created
start = record { ticker = 3; loop_knobs = [] }

both-IsNamed : IsNamed numbered two_loops
unfolding IsNamed
both-IsNamed = (0, named, ((0, named, tt), tt))

none-Given : Given start
unfolding Given
none-Given = tt

build_tree-Mirrors_example :
    Succeeds
      (λ r.
        Mirrors numbered 1 two_loops r.0 × Grown numbered (loops_in numbered two_loops) start r.1)
      (build_tree numbered 1 two_loops start)
unfolding loops_in
build_tree-Mirrors_example =
    build_tree-Mirrors numbered 1 two_loops start both-IsNamed none-Given (omega arith)
      (omega arith)
