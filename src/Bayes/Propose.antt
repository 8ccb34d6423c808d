-- ===== src/Bayes/Propose.antt =====
-- include/tuner/BayesianTuner.h: createPredictions, shouldCompileNext and getNextConfig. XGBoost is a parameter: the
-- new booster for a training matrix, its update, and its predictions for a matrix.
pub mod Prior
use at_jit.Prelude.{
  ℕ, zero, suc, ◌+◌, ◌%◌, ◌^◌, ◌-◌, ◌*◌, Bool, true, false, ◌&&◌, not, Option, none, some, List, [],
  ◌∷◌, ◌++◌, length, replicate, if◌then◌else◌, ltb, get_elem?,
}
use at_jit.Prelude.Int.{pos, pos_part}
use at_jit.Prelude.Double.{Double}
use at_jit.Prelude.Rng.{Rng}
use at_jit.Prelude.Partial.{◌>>=◌}
use at_jit.Context.{FeedbackKind, fb_total}
use at_jit.Feedback.Object.{Object, create_feedback, better}
use at_jit.Knobs.{KnobSet, KnobConfig, gen_default_config, gen_random_config, perturb_config}
use at_jit.Tuners.{best_seen, default_compile_ahead}
use at_jit.Bayes.Columns.{FloatCell, unset, export_config}
use at_jit.Bayes.Batch.{batch_sz, choose_batch}
use at_jit.Bayes.Learn.{Best, learn_model}
use at_jit.Bayes.Dataset.{DataSet, update_dataset}

-- SurrogateTestSz_
abbrev pub surrogate_test_sz : ℕ
surrogate_test_sz = 200

abbrev pub has_none_left {ℓ} : {A : Type ℓ} → List A → Bool
has_none_left [] = true
has_none_left (x ∷ xs) = false

-- BayesianTuner::shouldCompileNext, on aheadOfTimeCount and Predictions_.size(); BOUND is the lesser of BatchSz_
-- and DEFAULT_COMPILE_AHEAD.
pub should_compile_next : ℕ → ℕ → Bool × ℕ
should_compile_next ahead predictions =
    let bound = if ltb batch_sz default_compile_ahead then batch_sz else default_compile_ahead in
    if ltb ahead bound then (ltb 0 predictions, ahead + 1) else (false, 0)

-- The results that a matrix was filled with; `none` where one was never written.
pub written {ℓ} : {A : Type ℓ} → List (Option A) → Option (List A)
written [] = some []
written (none ∷ rs) = none
written (some r ∷ rs) = written rs >>= λ ws. some (r ∷ ws)

-- Test[Chosen], for each entry of the batch
pub take_chosen {ℓ κ} : {A : Type ℓ} {F : Type κ} → List A → List (ℕ × F) → Option (List A)
take_chosen tests [] = some []
take_chosen tests ((i, time) ∷ chosen) = do
  kc ← get_elem? tests i
  kcs ← take_chosen tests chosen
  some (kc ∷ kcs)

module _ (dbl : Double) (rng : Rng dbl) where
  open dbl use {D, lit, mul, of_int, round, lt}
  open rng use {E}

  -- Configs_, SinceLastTraining_, Predictions_, the engine and the data set
  pub record BayesianTuner : Type 0 where
    pub configs : List (KnobConfig × Object dbl)
    pub since : ℕ
    pub predictions : List KnobConfig
    pub gen : E
    pub data_set : DataSet dbl

  -- A loop that makes test cases: each is exported to its row and put behind the others.
  pub test_cases :
      Bool
      → List ℕ
      → (E → Option (KnobConfig × E))
      → ℕ
      → ℕ
      → List KnobConfig × List FloatCell × E
      → Option (List KnobConfig × List FloatCell × E)
  test_cases polly cols make zero row s = some s
  test_cases polly cols make (suc n) row (tests, mat, e) = do
    (kc, e') ← make e
    mat' ← export_config polly kc mat row cols
    test_cases polly cols make n (suc row) (tests ++ kc ∷ [], mat', e')

  -- ExploreSz
  unfoldable pub explore_sz : ℕ
  explore_sz = pos_part (round (mul (of_int (pos surrogate_test_sz)) (lit 5 1)))

  -- BestKC
  pub best_config : KnobSet → List (KnobConfig × Object dbl) → E → Option (KnobConfig × E)
  best_config ks configs e = elim (best_seen (λ a b. better dbl a.1 b.1) configs none) [
    | none ↦ gen_default_config dbl rng ks e
    | some b ↦ some (b.0, e)
  ]

  -- The test cases: random ones, then neighbours of the best configuration, with the energy 30.
  pub make_tests :
      Bool
      → (List ℕ → List ℕ)
      → List ℕ
      → KnobSet
      → List (KnobConfig × Object dbl)
      → E
      → Option (List KnobConfig × List FloatCell × E)
  make_tests polly shuffle cols ks configs e = do
    explored ←
        test_cases polly cols (gen_random_config dbl rng polly ks) explore_sz 0
          ([], replicate (surrogate_test_sz * length cols) unset, e)
    best ← best_config ks configs explored.2
    test_cases polly cols (λ g. perturb_config dbl rng polly shuffle best.0 ks g (lit 300 1))
        (surrogate_test_sz - explore_sz) explore_sz (explored.0, explored.1, best.1)

  -- GenResult& saveConfig
  pub save_config : FeedbackKind → KnobConfig → E → BayesianTuner → Option BayesianTuner
  save_config kind kc e t = do
    fb ← create_feedback dbl kind (some fb_total)
    some
        (record t { configs = t.configs ++ (kc, fb) ∷ []; since = (t.since + 1) % 2 ^ 32; gen = e })

  module _ {B : Type 0} (init_booster : DataSet dbl → B) (update : DataSet dbl → ℕ → B → B)
      (predict : B → List FloatCell → List D)
      (shuffle_configs : List (KnobConfig × Object dbl) → List (KnobConfig × Object dbl))
      (shuffle : List ℕ → List ℕ) where
    -- What the trained model predicts for the test cases
    pub predict_tests : DataSet dbl → List FloatCell → Option (List D)
    predict_tests ds mat = do
      results ← written ds.test.results
      best ← learn_model dbl (update ds) (λ b. predict b ds.test.cells) results (init_booster ds)
      model ← best.model
      some (predict model.0 mat)

    pub create_predictions : Bool → List ℕ → KnobSet → BayesianTuner → Option (Bool × BayesianTuner)
    create_predictions polly cols ks t = do
      (configs, ds) ← update_dataset dbl polly cols shuffle_configs t.since t.configs t.data_set
      (tests, mat, e) ← make_tests polly shuffle cols ks configs t.gen
      out ← predict_tests ds mat
      chosen ← take_chosen tests (choose_batch lt out)
      some (
        not (has_none_left (t.predictions ++ chosen)),
        record {
          configs = configs;
          since = 0;
          predictions = t.predictions ++ chosen;
          gen = e;
          data_set = ds;
        },
      )

    -- The next of the predictions, and the others
    pub pop_prediction : FeedbackKind → BayesianTuner → Option BayesianTuner
    pop_prediction kind t = elim t.predictions [
      | [] ↦ none
      | kc ∷ rest ↦ save_config kind kc t.gen (record t { predictions = rest })
    ]

    -- BayesianTuner::getNextConfig, which returns the new last entry. `none` is also its logic_error.
    pub get_next_config :
        Bool → FeedbackKind → List ℕ → KnobSet → BayesianTuner → Option BayesianTuner
    get_next_config polly kind cols ks t =
        if ltb (length t.configs) batch_sz
        then (do
          (kc, e) ←
              if has_none_left t.configs
              then gen_default_config dbl rng ks t.gen
              else gen_random_config dbl rng polly ks t.gen
          save_config kind kc e t)
        else if has_none_left t.predictions
        then (do
          (made, t') ← create_predictions polly cols ks t
          if made then pop_prediction kind t' else none)
        else pop_prediction kind t
