-- ===== src/Tuners.antt =====
-- include/tuner/Tuner.h (bestSeen) and include/tuner/RandomTuner.h: the tuner that proposes random configurations.
pub mod Best
pub mod Random
pub mod Annealing
mod Tests
use at_jit.Prelude.{
  ℕ, ◌+◌, Bool, true, false, Option, none, some, List, [], ◌∷◌, ◌++◌, if◌then◌else◌, ltb,
}
use at_jit.Prelude.Double.{Double}
use at_jit.Prelude.Rng.{Rng}
use at_jit.Prelude.Partial.{◌>>=◌}
use at_jit.Context.{FeedbackKind, fb_total}
use at_jit.Feedback.Object.{Object, create_feedback}
use at_jit.Knobs.{KnobSet, KnobConfig, gen_default_config, gen_random_config}

-- The loop of Tuner::bestSeen; `better a b` is a.betterThan(b), on statistics that are up to date.
pub best_seen {ℓ} : {A : Type ℓ} → (A → A → Bool) → List A → Option A → Option A
best_seen better [] best = best
best_seen better (c ∷ cs) none = best_seen better cs (some c)
best_seen better (c ∷ cs) (some b) = best_seen better cs (if better c b then some c else some b)

-- DEFAULT_COMPILE_AHEAD
abbrev pub default_compile_ahead : ℕ
default_compile_ahead = 2

-- RandomTuner::shouldCompileNext, on aheadOfTimeCount
pub should_compile_next : ℕ → Bool × ℕ
should_compile_next ahead =
    if ltb ahead default_compile_ahead then (true, ahead + 1) else (false, 0)

module _ (dbl : Double) (rng : Rng dbl) where
  open rng use {E}

  -- Configs_ and the engine
  pub record RandomTuner : Type 0 where
    pub configs : List (KnobConfig × Object dbl)
    pub gen : E

  -- The first configuration is the default one.
  unfoldable pub next_kc :
      Bool → KnobSet → List (KnobConfig × Object dbl) → E → Option (KnobConfig × E)
  next_kc polly ks [] e = gen_default_config dbl rng ks e
  next_kc polly ks (c ∷ cs) e = gen_random_config dbl rng polly ks e

  -- RandomTuner::getNextConfig, which returns the new last entry. `polly` is POLLY_KNOBS.
  unfoldable pub get_next_config : Bool → FeedbackKind → KnobSet → RandomTuner → Option RandomTuner
  get_next_config polly kind ks t = do
    (kc, gen') ← next_kc polly ks t.configs t.gen
    fb ← create_feedback dbl kind (some fb_total)
    some (record { configs = t.configs ++ (kc, fb) ∷ []; gen = gen' })
