-- ===== src/Bayes/Tests.antt =====
-- Tests of the Bayesian tuner.
use at_jit.Prelude.{
  ℕ, suc, ◌+◌, ◌-◌, ◌*◌, ◌≡◌, refl, true, false, some, List, [], ◌∷◌, ◌++◌, length, replicate, ltb,
  All, arith,
}
use Prim.Native.Nat.{min}
use at_jit.Prelude.Int.{pos}
use at_jit.Prelude.Fixed.{fixed}
use at_jit.Prelude.Plain.{plain}
use at_jit.Prelude.Partial.{Succeeds, ◌>>=◌}
use at_jit.Context.{fb_total}
use at_jit.LoopSetting.{LoopSetting, empty_setting}
use at_jit.LoopSetting
use at_jit.Feedback.{new_total, update_total}
use at_jit.Feedback.Object.{Object, total, update_stats, expected_value}
use at_jit.Knobs.{KnobSet, KnobConfig, flag_knob, optimizer_opt_lvl, all_ids, lookup}
use at_jit.Bayes.Columns.{FloatCell, unset, nan, assign_to_cols, set_size, export_config}
use at_jit.Bayes.Columns.Rows.{columns, layout, assign_to_cols-layout}
use at_jit.Bayes.Columns.Flat.{IsComplete, Changes, flat_cells, export_config-row}
use at_jit.Bayes.Batch.{batch_sz, choose_batch, choose_from}
use at_jit.Bayes.Batch.Order.{IsOrder, IsSorted, choose_batch-best}
use at_jit.Bayes.Batch.Lowest.{Descends, choose_from-keeps}
use at_jit.Bayes.Learn.{learn_model}
use at_jit.Bayes.Learn.Stops.{Stop, booster, error, learn_model-Stop}
use at_jit.Bayes.Dataset.{DataSet, new_matrix, is_max, validate_rows, update_dataset}
use at_jit.Bayes.Dataset.Filled.{IsReady, IsMatrix, update_dataset-Succeeds}
use at_jit.Bayes.Propose.{BayesianTuner, get_next_config}
use at_jit.Bayes.Propose.Prior.{base, get_next_config-prior}
use at_jit.Tuners

abbrev knobs : KnobSet
knobs = record {
  int_knobs = (1, flag_knob true) ∷ (2, optimizer_opt_lvl (pos 3)) ∷ [];
  loop_knobs = (3, empty_setting) ∷ [];
}

abbrev config : KnobConfig
config = record { int_config = (2, pos 3) ∷ (1, pos 0) ∷ []; loop_config = (3, empty_setting) ∷ [] }

-- Two columns for the scalar knobs, then seven for the loop.
columns_of_knobs : assign_to_cols false knobs ≡ some (1 ∷ 2 ∷ replicate 7 3)
unfolding layout columns LoopSetting.size
columns_of_knobs = (assign_to_cols-layout false knobs).0

config-IsComplete : IsComplete config knobs
unfolding IsComplete lookup
config-IsComplete = (((pos 0, refl), ((pos 3, refl), tt)), ((refl, (empty_setting, refl)), tt))

knobs-Changes : Changes 0 (all_ids knobs)
unfolding Changes all_ids
knobs-Changes = (
  (λ e. absurd (omega (arith, e))),
  ((λ e. absurd (omega (arith, e))), ((λ e. absurd (omega (arith, e))), tt)),
)

-- The second of three rows
export_config-row_example :
    (row : List FloatCell) × (flat_cells false config (all_ids knobs) ≡ some row)
    × (length row ≡ set_size false knobs)
    × ((assign_to_cols false knobs
          >>= export_config false config
              (replicate 9 nan ++ (replicate 9 unset ++ replicate 9 nan))
              1)
        ≡ some (replicate 9 nan ++ (row ++ replicate 9 nan)))
unfolding set_size LoopSetting.size
export_config-row_example =
    export_config-row false config knobs 1 (replicate 9 nan) (replicate 9 unset) (replicate 9 nan)
      config-IsComplete knobs-Changes refl refl

ltb-IsOrder : IsOrder ltb
unfolding IsOrder
ltb-IsOrder = ((λ a b p. ground arith), λ a b c p q. ground arith)

abbrev predicted : List ℕ
predicted = 3 ∷ 9 ∷ 4 ∷ 8 ∷ 5 ∷ 1 ∷ []

choose_batch-best_example :
    (x : ℕ × ℕ) × (xs : List (ℕ × ℕ)) × (choose_batch ltb (7 ∷ predicted) ≡ x ∷ xs)
    × IsSorted ltb (x ∷ xs)
    × (length (x ∷ xs) ≡ min batch_sz (suc (length predicted)))
    × All (λ q. ltb q x.1 ≡ false) (7 ∷ predicted)
choose_batch-best_example = choose_batch-best ltb ltb-IsOrder 7 predicted

abbrev worse : List (ℕ × ℕ)
worse = (3, 16) ∷ (2, 17) ∷ (1, 18) ∷ (0, 19) ∷ []

in_order : IsSorted ltb ((4, 15) ∷ worse)
unfolding IsSorted
in_order = (
  (refl, (refl, (refl, (refl, tt)))),
  ((refl, (refl, (refl, tt))), ((refl, (refl, tt)), ((refl, tt), (tt, tt)))),
)

lower : Descends ltb 15 (8 ∷ 6 ∷ 2 ∷ [])
unfolding Descends
lower = (refl, (refl, (refl, tt)))

-- The times 8 and 6 are lost; 16 to 19 stay.
choose_from-keeps_example :
    (x : ℕ × ℕ) × (choose_from ltb ((4, 15) ∷ worse) 5 (8 ∷ 6 ∷ 2 ∷ []) ≡ x ∷ worse)
choose_from-keeps_example =
    choose_from-keeps ltb ltb-IsOrder (4, 15) worse 5 (8 ∷ 6 ∷ 2 ∷ []) in_order refl lower

-- A booster that is the number of its updates, and predicts nothing but that.
abbrev guess : ℕ → List ℕ
guess b = b * 1000 ∷ []

learn_model-Stop_example :
    (m : ℕ) × Stop fixed (λ i b. b + 1) guess (3000 ∷ []) 0 0 499 m
    × (learn_model fixed (λ i b. b + 1) guess (3000 ∷ []) 0
        ≡ some (record {
          err = error fixed (λ i b. b + 1) guess (3000 ∷ []) 0 m;
          model = some (booster fixed (λ i b. b + 1) guess (3000 ∷ []) 0 (suc m), m);
        }))
learn_model-Stop_example = learn_model-Stop fixed (λ i b. b + 1) guess (3000 ∷ []) (λ c. refl) 0

abbrev measured : KnobConfig × Object fixed
measured = (config, total (new_total fixed 100))

measured-IsReady : IsReady fixed false knobs knobs-Changes measured
unfolding IsReady is_max update_stats update_total new_total expected_value
measured-IsReady = (config-IsComplete, refl)

abbrev nothing : DataSet fixed
nothing = record { test = new_matrix fixed 0 0; training = new_matrix fixed 0 0 }

update_dataset-Succeeds_example :
    Succeeds
      (λ r.
        IsMatrix fixed false knobs knobs-Changes (validate_rows fixed 5) r.1.test
        × IsMatrix fixed false knobs knobs-Changes (5 - validate_rows fixed 5) r.1.training)
      (update_dataset fixed false (layout false knobs) (λ cs. cs) 5 (replicate 5 measured) nothing)
unfolding validate_rows
update_dataset-Succeeds_example =
    update_dataset-Succeeds fixed false knobs knobs-Changes (λ cs. cs) 4 (replicate 5 measured)
      nothing (layout false knobs) (assign_to_cols-layout false knobs).0
      (
        measured-IsReady,
        (measured-IsReady, (measured-IsReady, (measured-IsReady, (measured-IsReady, tt)))),
      )
      refl (omega arith) (omega arith)

abbrev fresh : BayesianTuner fixed plain
fresh = record { configs = []; since = 0; predictions = []; gen = 0; data_set = nothing }

-- A booster that is a number, for any data set.
abbrev boost : DataSet fixed → ℕ → ℕ → ℕ
boost ds i b = b + 1

abbrev guess_rows : ℕ → List FloatCell → List ℕ
guess_rows b mat = []

-- After the first batch
abbrev primed : BayesianTuner fixed plain
primed = record {
  configs = replicate 5 measured;
  since = 5;
  predictions = [];
  gen = 0;
  data_set = nothing;
}

-- Before the first batch
abbrev fresh_tuner : BayesianTuner fixed plain
fresh_tuner = record primed { configs = [] }

get_next_config-prior_example :
    (get_next_config fixed plain
        (λ ds. 0)
        boost
        guess_rows
        (λ cs. cs)
        (λ ids. ids)
        true
        fb_total
        []
        knobs
        fresh_tuner
      >>= λ t'. some (base fixed plain (λ ds. 0) boost guess_rows (λ cs. cs) (λ ids. ids) t'))
    ≡ Tuners.get_next_config fixed plain true fb_total knobs
        (base fixed plain (λ ds. 0) boost guess_rows (λ cs. cs) (λ ids. ids) fresh_tuner)
get_next_config-prior_example =
    get_next_config-prior fixed plain (λ ds. 0) boost guess_rows (λ cs. cs) (λ ids. ids) true
      fb_total [] knobs fresh_tuner (omega arith)
