-- ===== src/Bayes/Columns/Export.antt =====
-- exportConfig on the columns that analyze has set up: the flat row of a configuration.
use at_jit.Prelude.{
  ℕ, zero, suc, ◌<◌, ◌≡◌, ◌≢◌, refl, ◌∙◌, sym, Bool, false, Option, none, some, List, [], ◌∷◌, ◌++◌,
  length, ◌==◌, ==_refl, replicate, arith, Option-cases, Bool-cases, inl, inr,
}
use at_jit.Prelude.Int.{ℤ}
use at_jit.Prelude.Partial.{◌>>=◌}
use at_jit.LoopSetting.{LoopSetting, cells}
use at_jit.LoopSetting.Laws.{flatten_total}
use at_jit.Knobs.{lookup, KnobConfig}
use at_jit.Bayes.Columns.{
  FloatCell, whole, floats, store, store_all, export_knob, export_cols, export_loop,
}
use at_jit.Bayes.Columns.Blocks.{
  behind, behind-nil, >>=-behind, behind-behind, store_all-suc, store_all-at_zero,
}

-- The cells of a knob in the row of a configuration, by its scalar value and its loop setting.
unfoldable pub value_cells : Bool → Option ℤ → Option LoopSetting → Option (List FloatCell)
value_cells polly (some v) s = some (whole v ∷ [])
value_cells polly none (some s) = some (floats (cells polly s))
value_cells polly none none = none

unfoldable pub knob_cells : Bool → KnobConfig → ℕ → Option (List FloatCell)
knob_cells polly c id = value_cells polly (lookup id c.int_config) (lookup id c.loop_config)

store_all-one :
    (v : FloatCell) (mem : List FloatCell) (i : ℕ) → store mem i v ≡ store_all mem i (v ∷ [])
unfolding store_all
store_all-one v mem i = elim (Option-cases (store mem i v)) [ inl e ↦ rw e | inr (m, e) ↦ rw e ]

export_knob-cells :
    (polly : Bool) (c : KnobConfig) (id : ℕ) (mem : List FloatCell) (i : ℕ)
    → export_knob polly c id mem i ≡ (knob_cells polly c id >>= λ row. store_all mem i row)
unfolding export_knob export_loop knob_cells value_cells
export_knob-cells polly c id mem i = go (lookup id c.int_config) (lookup id c.loop_config)
  where
    go :
        (v : Option ℤ) (s : Option LoopSetting)
        → elim v as (λ _. Option (List FloatCell)) [
          | none ↦ export_loop polly s mem i
          | some v ↦ store mem i (whole v)
        ]
          ≡ (value_cells polly v s >>= λ row. store_all mem i row)
    go (some v) s = store_all-one (whole v) mem i
    go none none = refl
    go none (some s) = rw (flatten_total polly s).0

export_knob-suc :
    (polly : Bool) (c : KnobConfig) (id : ℕ) (x : FloatCell) (mem : List FloatCell) (i : ℕ)
    → export_knob polly c id (x ∷ mem) (suc i) ≡ behind (x ∷ []) (export_knob polly c id mem i)
export_knob-suc polly c id x mem i =
    let here = export_knob-cells polly c id mem i in
    let there = export_knob-cells polly c id (x ∷ mem) (suc i) in
    elim (Option-cases (knob_cells polly c id)) [
      | inl e ↦ rw (there, here, e)
      | inr (row, e) ↦ rw (there, here, e, store_all-suc x mem i row)
    ]

pub export_cols-suc :
    (polly : Bool) (c : KnobConfig) (cols : List ℕ) (prev : ℕ) (x : FloatCell)
    (mem : List FloatCell) (i : ℕ)
    → export_cols polly c cols prev (x ∷ mem) (suc i)
      ≡ behind (x ∷ []) (export_cols polly c cols prev mem i)
unfolding export_cols
export_cols-suc polly c [] prev x mem i = refl
export_cols-suc polly c (cur ∷ cols) prev x mem i =
    let next = λ (m : List FloatCell). export_cols-suc polly c cols cur x m (suc i) in
    elim (Bool-cases (prev == cur)) [
      | inl e ↦ rw (e, next mem)
      | inr e ↦ rw (
        e,
        export_knob-suc polly c cur x mem i,
        >>=-behind (x ∷ []) (export_knob polly c cur mem i)
            (λ m. export_cols polly c cols cur m (suc (suc i)))
            (λ m. export_cols polly c cols cur m (suc i)) next,
      )
    ]

-- After the first column of its block, a knob is not written again.
skip_block :
    (polly : Bool) (c : KnobConfig) (id : ℕ) (cols : List ℕ) (pre mem : List FloatCell)
    → export_cols polly c (replicate (length pre) id ++ cols) id (pre ++ mem) 0
      ≡ behind pre (export_cols polly c cols id mem 0)
unfolding export_cols
skip_block polly c id cols [] mem = behind-nil (export_cols polly c cols id mem 0)
skip_block polly c id cols (x ∷ pre) mem = rw (
  ==_refl id,
  export_cols-suc polly c (replicate (length pre) id ++ cols) id x (pre ++ mem) 0,
  skip_block polly c id cols pre mem,
  behind-behind x pre (export_cols polly c cols id mem 0),
)

pub write_block :
    (polly : Bool) (c : KnobConfig) (prev id n : ℕ) (cols : List ℕ) (row old mem : List FloatCell)
    → prev ≢ id
    → knob_cells polly c id ≡ some row
    → 0 < n
    → length row ≡ n
    → length old ≡ n
    → export_cols polly c (replicate n id ++ cols) prev (old ++ mem) 0
      ≡ behind row (export_cols polly c cols id mem 0)
unfolding export_cols
write_block polly c prev id zero cols row old mem ne e pos lr lo = absurd (omega arith)
write_block polly c prev id (suc n) cols [] old mem ne e pos lr lo = absurd (omega arith)
write_block polly c prev id (suc n) cols (x ∷ row) old mem ne e pos lr lo =
    let diff : (prev == id) ≡ false = ground arith in
    let l : n ≡ length row = omega arith in
    rw (
      diff,
      export_knob-cells polly c id (old ++ mem) 0,
      e,
      store_all-at_zero old mem (x ∷ row) (lo ∙ sym lr),
      export_cols-suc polly c (replicate n id ++ cols) id x (row ++ mem) 0,
      l,
      skip_block polly c id cols row mem,
      behind-behind x row (export_cols polly c cols id mem 0),
    )
