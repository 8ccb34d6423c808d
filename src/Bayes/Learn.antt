-- ===== src/Bayes/Learn.antt =====
-- include/tuner/BayesianTuner.h, in createPredictions: the training loop, which keeps the booster with the least error
-- on the held-out rows. The booster, its update and its predictions are XGBoost's, parameters here.
pub mod Stops
use at_jit.Prelude.{
  ℕ, zero, suc, ◌-◌, Bool, true, false, ◌||◌, Option, none, some, List, [], ◌∷◌, length,
  if◌then◌else◌, ltb, ◌==◌,
}
use at_jit.Prelude.Int.{pos}
use at_jit.Prelude.Double.{Double}
use at_jit.Prelude.Partial.{◌>>=◌, ◌>>◌, assert}

-- MaxLearnIters_ and MaxLearnPastBest_
abbrev pub max_learn_iters : ℕ
max_learn_iters = 500

abbrev pub max_learn_past_best : ℕ
max_learn_past_best = 0

module _ (dbl : Double) where
  open dbl use {D, add, sub, div, pow, sqrt, le, max_value, lit, of_int}

  -- The loop over the held-out rows
  pub sum_errors : D → D → List D → List D → D
  sum_errors rows err (actual ∷ actuals) (guess ∷ guesses) =
      sum_errors rows (add err (div (pow (sub actual guess) 2) rows)) actuals guesses
  sum_errors rows err actuals guesses = err

  -- Root mean squared error
  pub rmse : List D → List D → D
  rmse actual guess = sqrt (sum_errors (of_int (pos (length actual))) (lit 0 0) actual guess)

  module _ {B : Type 0} (update : ℕ → B → B) (predict : B → List D) (test_result : List D) where
    -- bestErr, and bestModel with bestIter
    pub record Best : Type 0 where
      pub err : D
      pub model : Option (B × ℕ)

    abbrev pub no_model : Option (B × ℕ) → Bool
    no_model none = true
    no_model (some m) = false

    -- i - bestIter < MaxLearnPastBest_, on unsigned numbers with bestIter ≤ i
    abbrev pub goes_beyond : ℕ → Option (B × ℕ) → Bool
    goes_beyond i none = false
    goes_beyond i (some (m, best_iter)) = ltb (i - best_iter) max_learn_past_best

    -- The loop, from iteration i on, with `fuel` iterations left
    pub learn : ℕ → ℕ → B → Best → Option Best
    learn zero i b best = some best
    learn (suc fuel) i b best =
        let b' = update i b in
        let err = rmse test_result (predict b') in
        let improved = learn fuel (suc i) b' (record { err = err; model = some (b', i) }) in
        let beyond = learn fuel (suc i) b' best in
        assert (length (predict b') == length test_result)
        >> (if le err best.err || no_model best.model
            then improved
            else if goes_beyond i best.model
            then beyond
            else some best)

    -- From the new booster to the assertion that there is a model
    pub learn_model : B → Option Best
    learn_model b = do
      best ← learn max_learn_iters 0 b (record { err = max_value; model = none })
      if no_model best.model then none else some best
