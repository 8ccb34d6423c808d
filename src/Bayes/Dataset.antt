-- ===== src/Bayes/Dataset.antt =====
-- include/tuner/BayesianTuner.h (updateDataset): the held-out rows and the training rows. std::random_shuffle is a
-- parameter; a matrix is the list of its cells, in row order.
pub mod Filled
use at_jit.Prelude.{
  ℕ, zero, suc, ◌+◌, ◌-◌, ◌*◌, ◌%◌, ◌^◌, Bool, true, false, ◌&&◌, Option, none, some, List, [], ◌∷◌,
  length, replicate, if◌then◌else◌, ◌==◌,
}
use at_jit.Prelude.Int.{ℤ, pos, pos_part, max_ℤ}
use at_jit.Prelude.Double.{Double}
use at_jit.Prelude.Partial.{◌>>=◌, ◌>>◌, assert}
use at_jit.Knobs.{KnobConfig}
use at_jit.Feedback.Object.{Object, update_stats, expected_value}
use at_jit.Bayes.Columns.{FloatCell, unset, store, export_config}

module _ (dbl : Double) where
  open dbl use {D, mul, of_int, lit, round, narrow, le, max_value}

  -- A matrix with the results of its rows; `none` is a result that is not written yet.
  pub record Matrix : Type 0 where
    pub cells : List FloatCell
    pub results : List (Option D)

  -- malloc
  abbrev pub new_matrix : ℕ → ℕ → Matrix
  new_matrix rows ncol = record {
    cells = replicate (rows * ncol) unset;
    results = replicate rows none;
  }

  -- test and cfg
  pub record DataSet : Type 0 where
    pub test : Matrix
    pub training : Matrix

  -- time == std::numeric_limits<double>::max()
  unfoldable pub is_max : D → Bool
  is_max time = le max_value time && le time max_value

  -- resultOut[i] = time, a `float`, after the ABORT_F on code that was not measured
  pub store_result : List (Option D) → ℕ → D → Option (List (Option D))
  store_result results i time = if is_max time then none else store results i (some (narrow time))

  -- One configuration's row and result, and the feedback with its new statistics. `none` where it writes out of
  -- bounds, where a knob is missing, and at the ABORT_F.
  pub write_row :
      Bool → List ℕ → KnobConfig → Object dbl → ℕ → Matrix → Option (Object dbl × Matrix)
  write_row polly cols kc fb i m = do
    cells ← export_config polly kc m.cells i cols
    fb' ← update_stats dbl fb
    results ← store_result m.results i (expected_value dbl fb')
    some (fb', record { cells = cells; results = results })

  -- The loop from `count` on: whether configOut is the training matrix, the row i, and the two matrices. It returns
  -- the entries with their new statistics, the row and the matrices.
  pub fill_rows :
      Bool
      → List ℕ
      → ℕ
      → List (KnobConfig × Object dbl)
      → ℕ
      → ℕ
      → Bool
      → DataSet
      → Option (List (KnobConfig × Object dbl) × ℕ × DataSet)
  fill_rows polly cols validate [] count i switched ds = some ([], i, ds)
  fill_rows polly cols validate ((kc, fb) ∷ cs) count i switched ds =
      let switches = count == validate in
      let row = if switches then 0 else i in
      let training = if switches then true else switched in
      write_row polly cols kc fb row (if training then ds.training else ds.test) >>= λ (fb', m).
      fill_rows polly cols validate cs (suc count) (suc row) training
        (if training then record ds { training = m } else record ds { test = m })
      >>= λ (cs', last, ds'). some ((kc, fb') ∷ cs', last, ds')

  -- validateRows: a tenth of the configurations, and at least one
  unfoldable pub validate_rows : ℕ → ℕ
  validate_rows n = pos_part (max_ℤ (pos 1) (round (mul (lit 1 1) (of_int (pos n)))))

  -- updateDataset; `since` is SinceLastTraining_, and the old data set is kept where there is nothing new.
  pub update_dataset :
      Bool
      → List ℕ
      → (List (KnobConfig × Object dbl) → List (KnobConfig × Object dbl))
      → ℕ
      → List (KnobConfig × Object dbl)
      → DataSet
      → Option (List (KnobConfig × Object dbl) × DataSet)
  update_dataset polly cols shuffle zero configs ds = some (configs, ds)
  update_dataset polly cols shuffle (suc since) configs ds =
      let n = length configs in
      let validate = validate_rows n in
      let training = (n + 2 ^ 64 - validate) % 2 ^ 64 in
      fill_rows polly cols validate (shuffle configs) 0 0 false (record {
        test = new_matrix validate (length cols);
        training = new_matrix training (length cols);
      })
      >>= λ (configs', i, ds'). assert (i == training) >> some (configs', ds')
