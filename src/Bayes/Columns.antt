-- ===== src/Bayes/Columns.antt =====
-- include/tuner/BayesianTuner.h (AssignToCols, analyze) and runtime/tuner/KnobConfig.cpp (exportConfig): which knob a
-- column of the data set belongs to, and how a configuration is written to a row of a matrix.
pub mod Blocks
pub mod Rows
pub mod Export
pub mod Flat
use at_jit.Prelude.{
  ℕ, zero, suc, ◌+◌, ◌*◌, Bool, Option, none, some, List, [], ◌∷◌, ◌++◌, length, set, replicate,
  if◌then◌else◌, ◌==◌, ltb,
}
use at_jit.Prelude.Int.{ℤ, pos}
use at_jit.Prelude.Partial.{◌>>=◌}
use at_jit.LoopSetting.{LoopSetting, Cell, missing, num, flatten}
use at_jit.LoopSetting
use at_jit.Knobs.{Map, lookup, ScalarInt, KnobSet, KnobConfig}

-- A float of a matrix: memory that malloc left as it was, the NaN, or a whole number.
pub data FloatCell : Type 0 where
  unset : FloatCell
  nan : FloatCell
  whole : ℤ → FloatCell

abbrev pub as_float : Cell → FloatCell
as_float missing = nan
as_float (num n) = whole (pos n)

-- mem[i] = v, for an i inside the allocation
pub store {ℓ} : {A : Type ℓ} → List A → ℕ → A → Option (List A)
store mem i v = if ltb i (length mem) then some (set mem i v) else none

-- The stores of consecutive values from mem[i] on.
pub store_all {ℓ} : {A : Type ℓ} → List A → ℕ → List A → Option (List A)
store_all mem i [] = some mem
store_all mem i (v ∷ vs) = store mem i v >>= λ mem'. store_all mem' (suc i) vs

-- The loop of AssignToCols for one knob; `polly` is POLLY_KNOBS.
abbrev pub int_size : ℕ
int_size = 1

-- KnobSet::size
unfoldable pub set_size : Bool → KnobSet → ℕ
set_size polly ks = length ks.int_knobs * int_size + length ks.loop_knobs * LoopSetting.size polly

-- AssignToCols on the knobs of one map: the memory and the index i.
pub assign {ℓ} : {V : Type ℓ} → ℕ → Map V → List ℕ × ℕ → Option (List ℕ × ℕ)
assign n [] (cols, i) = some (cols, i)
assign n ((id, k) ∷ ks) (cols, i) =
    store_all cols i (replicate n id) >>= λ cols'. assign n ks (cols', i + n)

-- The set-up of the columns in BayesianTuner::analyze
pub assign_to_cols : Bool → KnobSet → Option (List ℕ)
assign_to_cols polly ks = do
  p ← assign int_size ks.int_knobs (replicate (set_size polly ks) 0, 0)
  q ← assign (LoopSetting.size polly) ks.loop_knobs p
  some q.0

-- What KnobConfigExporter writes for a loop's setting: LoopSetting::flatten.
abbrev floats : List Cell → List FloatCell
floats [] = []
floats (c ∷ cs) = as_float c ∷ floats cs

export_loop : Bool → Option LoopSetting → List FloatCell → ℕ → Option (List FloatCell)
export_loop polly none mat at = none
export_loop polly (some s) mat at = flatten polly s >>= λ cs. store_all mat at (floats cs)

-- applyToConfig with a KnobConfigExporter: the first map that has the knob. `none` is its runtime_error.
pub export_knob : Bool → KnobConfig → ℕ → List FloatCell → ℕ → Option (List FloatCell)
unfolding export_loop
export_knob polly c id mat at = elim (lookup id c.int_config) [
  | none ↦ export_loop polly (lookup id c.loop_config) mat at
  | some v ↦ store mat at (whole v)
]

-- The loop of exportConfig over the columns from `at` on; `prev` is the column's knob before.
pub export_cols : Bool → KnobConfig → List ℕ → ℕ → List FloatCell → ℕ → Option (List FloatCell)
export_cols polly c [] prev mat at = some mat
export_cols polly c (cur ∷ cols) prev mat at =
    (if prev == cur then some mat else export_knob polly c cur mat at) >>= λ mat'.
    export_cols polly c cols cur mat' (suc at)

pub export_config : Bool → KnobConfig → List FloatCell → ℕ → List ℕ → Option (List FloatCell)
export_config polly c mat row cols = export_cols polly c cols 0 mat (row * length cols)
