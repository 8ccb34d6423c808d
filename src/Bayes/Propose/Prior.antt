-- ===== src/Bayes/Propose/Prior.antt =====
-- getNextConfig before the first training, and when another job is compiled ahead.
use at_jit.Prelude.{
  ℕ, ◌<◌, ◌≡◌, refl, Bool, true, some, List, [], ◌∷◌, length, if◌then◌else◌, lt→ltb, arith,
  Option-cases, inl, inr, ◌↔◌,
}
use at_jit.Prelude.Double.{Double}
use at_jit.Prelude.Rng.{Rng}
use at_jit.Prelude.Partial.{◌>>=◌}
use at_jit.Context.{FeedbackKind, fb_total}
use at_jit.Feedback.Object.{Object, create_feedback}
use at_jit.Knobs.{KnobSet, KnobConfig, gen_default_config, gen_random_config}
use at_jit.Tuners.{RandomTuner}
use at_jit.Tuners
use at_jit.Bayes.Columns.{FloatCell}
use at_jit.Bayes.Batch.{batch_sz}
use at_jit.Bayes.Dataset.{DataSet}
use at_jit.Bayes.Propose.{
  BayesianTuner, save_config, get_next_config, has_none_left, should_compile_next,
}

-- shouldCompileNext says yes exactly where a prediction is left and fewer than two calls have counted since its
-- counter was last reset.
pub should_compile_next-lem :
    (ahead predictions : ℕ)
    → ((should_compile_next ahead predictions).0 ≡ true) ↔ ((ahead < 2) × (0 < predictions))
unfolding should_compile_next
should_compile_next-lem ahead predictions = ground arith

module _ (dbl : Double) (rng : Rng dbl) where
  open dbl use {D, lit, mul, of_int, round}
  open rng use {E}

  module _ {B : Type 0} (init_booster : DataSet dbl → B) (update : DataSet dbl → ℕ → B → B)
      (predict : B → List FloatCell → List D)
      (shuffle_configs : List (KnobConfig × Object dbl) → List (KnobConfig × Object dbl))
      (shuffle : List ℕ → List ℕ) where
    -- The part of the tuner's state that RandomTuner has.
    abbrev pub base : BayesianTuner dbl rng → RandomTuner dbl rng
    base t = record { configs = t.configs; gen = t.gen }

    next_kc-if :
        (polly : Bool) (ks : KnobSet) (cs : List (KnobConfig × Object dbl)) (e : E)
        → (if has_none_left cs
            then gen_default_config dbl rng ks e
            else gen_random_config dbl rng polly ks e)
          ≡ Tuners.next_kc dbl rng polly ks cs e
    unfolding Tuners.next_kc
    next_kc-if polly ks [] e = refl
    next_kc-if polly ks (c ∷ cs) e = refl

    -- Before it has proposed five configurations, the Bayesian tuner proposes exactly what RandomTuner does
    -- in the same state of the engine.
    pub get_next_config-prior :
        (polly : Bool) (kind : FeedbackKind) (cols : List ℕ) (ks : KnobSet)
        (t : BayesianTuner dbl rng)
        → length t.configs < batch_sz
        → (get_next_config dbl rng init_booster update predict shuffle_configs shuffle polly kind
              cols ks t
            >>= λ t'. some (base t'))
          ≡ Tuners.get_next_config dbl rng polly kind ks (base t)
    unfolding get_next_config save_config Tuners.get_next_config
    get_next_config-prior polly kind cols ks t h =
        let kc = Tuners.next_kc dbl rng polly ks t.configs t.gen in
        let fb = create_feedback dbl kind (some fb_total) in
        elim (Option-cases kc) [
          | inl e ↦
              rw (lt→ltb (length t.configs) batch_sz h, next_kc-if polly ks t.configs t.gen, e)
          | inr (c, e) ↦ elim (Option-cases fb) [
            | inl e' ↦
                rw
                  (lt→ltb (length t.configs) batch_sz h, next_kc-if polly ks t.configs t.gen, e, e')
            | inr (o, e') ↦
                rw
                  (lt→ltb (length t.configs) batch_sz h, next_kc-if polly ks t.configs t.gen, e, e')
          ]
        ]
