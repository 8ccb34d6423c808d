-- ===== src/Tuners/Annealing.antt =====
-- include/tuner/AnnealingTuner.h: the tuner that uses simulated annealing. currentState and trialState share their
-- configuration and feedback with entries of Configs_: they are indices into it here.
pub mod Steps
pub mod Next
use at_jit.Prelude.{
  ℕ, zero, suc, ◌+◌, ◌%◌, ◌^◌, Bool, true, false, ◌&&◌, not, Option, none, some, List, [], ◌∷◌,
  ◌++◌, length, if◌then◌else◌, ltb, ◌==◌, get_elem?,
}
use at_jit.Prelude.Int.{pos}
use at_jit.Prelude.Double.{Double}
use at_jit.Prelude.Rng.{Rng}
use at_jit.Prelude.Partial.{◌>>=◌, ◌>>◌, assert}
use at_jit.Context.{FeedbackKind, fb_total}
use at_jit.Feedback.Object.{Object, create_feedback, update_stats, good_quality, expected_value}
use at_jit.Knobs.{KnobSet, KnobConfig, gen_default_config, gen_random_config, perturb_config}

module _ (dbl : Double) (rng : Rng dbl) where
  open dbl use {D, lit, sub, mul, div, neg, exp, log, le, of_int}
  open rng use {E, canonical}

  pub record AnnealingTuner : Type 0 where
    pub configs : List (KnobConfig × Object dbl)
    pub gen : E
    pub time_step : ℕ
    pub max_temp : D
    pub initialized : Bool
    pub current : ℕ
    pub trial : ℕ

  -- EscapeDifficulty and MaxEnergy
  abbrev escape_difficulty : D
  escape_difficulty = lit 1000000 0

  abbrev pub max_energy : D
  max_energy = lit 1000 1

  unfoldable pub cooling_schedule : ℕ → Option D
  cooling_schedule step =
      assert (ltb 1 step) >> some (div escape_difficulty (log (of_int (pos step))))

  -- The constructor; currentState and trialState hold no entry until `analyze`.
  pub new_annealing : E → Option AnnealingTuner
  new_annealing e = do
    temp ← cooling_schedule 2
    some (record {
      configs = [];
      gen = e;
      time_step = 0;
      max_temp = temp;
      initialized = false;
      current = 0;
      trial = 0;
    })

  -- saveConfig, with the index of the new entry
  pub save_config : FeedbackKind → KnobConfig → AnnealingTuner → Option (ℕ × AnnealingTuner)
  save_config kind kc t = do
    fb ← create_feedback dbl kind (some fb_total)
    some (length t.configs, record t { configs = t.configs ++ (kc, fb) ∷ [] })

  -- updateStats on the feedback of an entry; `none` where the entry does not exist.
  pub refresh :
      List (KnobConfig × Object dbl) → ℕ → Option (Object dbl × List (KnobConfig × Object dbl))
  refresh [] i = none
  refresh ((kc, fb) ∷ cs) zero = do fb' ← update_stats dbl fb; some (fb', (kc, fb') ∷ cs)
  refresh (c ∷ cs) (suc i) = do (fb, cs') ← refresh cs i; some (fb, c ∷ cs')

  pub missing_cost : ℕ → AnnealingTuner → Option (Bool × AnnealingTuner)
  missing_cost i t = do
    (fb, cs) ← refresh t.configs i
    some (not (good_quality dbl fb), record t { configs = cs })

  pub get_cost : ℕ → AnnealingTuner → Option (D × AnnealingTuner)
  get_cost i t = do
    (fb, cs) ← refresh t.configs i
    some (expected_value dbl fb, record t { configs = cs })

  -- perturbEnergy, on timeStep and MaxTemp
  unfoldable pub perturb_energy : ℕ → D → Option D
  perturb_energy step max_temp =
      if ltb step 2
      then some max_energy
      else (do temp ← cooling_schedule step; some (mul (div temp max_temp) max_energy))

  -- The probability of choosing the trial state, from the time step and the two costs
  unfoldable pub probability : ℕ → D → D → Option D
  probability step cur trial =
      if step == 0
      then some (lit 0 1)
      else if step == 1
      then some (lit 10 1)
      else (do temp ← cooling_schedule step; some (exp (neg (div (sub trial cur) temp))))

  -- The draw of chooseNextState
  pub draw_state : D → AnnealingTuner → Option (ℕ × AnnealingTuner)
  draw_state prob t =
      let (dis, e) = canonical t.gen in
      assert (le (lit 0 1) prob && le prob (lit 10 1))
      >> some (if le prob dis then t.current else t.trial, record t { gen = e })

  pub choose_next_state : AnnealingTuner → Option (ℕ × AnnealingTuner)
  choose_next_state t = do
    (cur, t1) ← get_cost t.current t
    (trial, t2) ← get_cost t.trial t1
    if le trial cur
        then some (t2.trial, t2)
        else (do prob ← probability t2.time_step cur trial; draw_state prob t2)

  -- AnnealingTuner::analyze, on the knobs that RandomTuner::analyze leaves. `polly` is POLLY_KNOBS.
  pub analyze : Bool → FeedbackKind → KnobSet → AnnealingTuner → Option AnnealingTuner
  analyze polly kind ks t = if t.initialized then some t else (do
    (kc, e) ← gen_default_config dbl rng ks t.gen
    (current, t1) ← save_config kind kc (record t { gen = e })
    (kc', e') ← gen_random_config dbl rng polly ks t1.gen
    (trial, t2) ← save_config kind kc' (record t1 { gen = e' })
    some (record t2 { current = current; trial = trial; initialized = true }))

  -- From the choice of the next state on
  pub next_trial :
      Bool
      → (List ℕ → List ℕ)
      → FeedbackKind
      → KnobSet
      → AnnealingTuner
      → Option (ℕ × AnnealingTuner)
  next_trial polly shuffle kind ks t = do
    (state, t1) ← choose_next_state t
    t2 ← some (record t1 { current = state; time_step = (t1.time_step + 1) % 2 ^ 64 })
    energy ← perturb_energy t2.time_step t2.max_temp
    cur_conf ← get_elem? t2.configs t2.current
    (kc, e) ← perturb_config dbl rng polly shuffle cur_conf.0 ks t2.gen energy
    (trial, t3) ← save_config kind kc (record t2 { gen = e })
    some (trial, record t3 { trial = trial })

  -- AnnealingTuner::getNextConfig, with the entry that it returns
  pub get_next_config :
      Bool
      → (List ℕ → List ℕ)
      → FeedbackKind
      → KnobSet
      → AnnealingTuner
      → Option (ℕ × AnnealingTuner)
  get_next_config polly shuffle kind ks t = do
    (missing, t1) ← missing_cost t.current t
    if missing then some (t1.current, t1) else (do
      (missing', t2) ← missing_cost t1.trial t1
      if missing' then some (t2.trial, t2) else next_trial polly shuffle kind ks t2)
