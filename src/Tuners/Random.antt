-- ===== src/Tuners/Random.antt =====
-- The random tuner: it bounds the jobs compiled ahead, and its configurations stay in the knobs' domains.
use at_jit.Prelude.{
  ℕ, zero, suc, ◌+◌, ◌*◌, ◌≤◌, ◌<◌, Bool, true, some, List, [], ◌∷◌, ◌++◌, if◌then◌else◌, ltb, ◌≡◌,
  sym, subst, arith, All, ◌⊎◌, inl, inr, length, length-append,
}
use at_jit.Prelude.Double.{Double}
use at_jit.Prelude.Rng.{Rng}
use at_jit.Prelude.Partial.{Succeeds, >>=-Succeeds, Succeeds-mono}
use at_jit.Context.{FeedbackKind, fb_total}
use at_jit.LoopSetting.Domain.{empty_setting-IsSetting}
use at_jit.Feedback.Object.{Object, create_feedback}
use at_jit.Knobs.{KnobSet, KnobConfig, gen_default_config}
use at_jit.Knobs.Visit.{All-zip}
use at_jit.Knobs.Generate.{
  IsKnobSet, IsConfig, IsDefault, HasInt, HasLoop, gen_default_config-IsDefault,
  gen_random_config-IsConfig,
}
use at_jit.Tuners.{should_compile_next, RandomTuner, next_kc, get_next_config}

-- How many of the next n answers of shouldCompileNext are yes.
abbrev one_for : Bool → ℕ
one_for b = if b then 1 else 0

pub yes_answers : ℕ → ℕ → ℕ
yes_answers zero ahead = 0
yes_answers (suc n) ahead =
    let (b, ahead') = should_compile_next ahead in one_for b + yes_answers n ahead'

-- Of any n consecutive answers of shouldCompileNext, from any count it can have, at most (2 n + 2) / 3 are yes:
-- of three in a row, one is no.
pub yes_answers_bound : (n ahead : ℕ) → ahead ≤ 2 → 3 * yes_answers n ahead + ahead ≤ 2 * n + 2
unfolding yes_answers should_compile_next
yes_answers_bound zero ahead h = omega arith
yes_answers_bound (suc n) ahead h = elim (below_or_at ahead h) [
  | inl below ↦
      let yes_now : ltb ahead 2 ≡ true = ground arith in
      rw yes_now (omega (arith, yes_answers_bound n (ahead + 1) (omega arith)))
  | inr full ↦ rw full (omega (arith, yes_answers_bound n 0 (omega arith)))
]
  where
    below_or_at : (a : ℕ) → a ≤ 2 → (a < 2) ⊎ (a ≡ 2)
    below_or_at a h = omega arith

module _ (dbl : Double) (rng : Rng dbl) where
  open rng use {E}

  IsDefault-IsConfig :
      (ks : KnobSet) (c : KnobConfig) → IsKnobSet ks → IsDefault ks c → IsConfig ks c
  IsDefault-IsConfig ks c w (ints, loops) = record {
    ints = All-zip ks.int_knobs (λ p range e. subst (HasInt p.1) (sym e) range) w.ranges ints;
    loops =
        All-zip ks.loop_knobs (λ p e e'. subst HasLoop (sym e) empty_setting-IsSetting) loops loops;
  }

  -- Every configuration proposed so far gives every knob a value of its domain.
  abbrev pub AllConfigs : KnobSet → List (KnobConfig × Object dbl) → Type 0
  AllConfigs ks = All (λ c. IsConfig ks c.0)

  AllConfigs-append :
      (ks : KnobSet) (cs : List (KnobConfig × Object dbl)) (c : KnobConfig × Object dbl)
      → AllConfigs ks cs
      → IsConfig ks c.0
      → AllConfigs ks (cs ++ c ∷ [])
  AllConfigs-append ks [] c h ok = (ok, tt)
  AllConfigs-append ks (d ∷ cs) c (hd, h) ok = (hd, AllConfigs-append ks cs c h ok)

  next_kc-IsConfig :
      (polly : Bool) (ks : KnobSet) (cs : List (KnobConfig × Object dbl)) (e : E)
      → IsKnobSet ks
      → Succeeds (λ r. IsConfig ks r.0) (next_kc dbl rng polly ks cs e)
  unfolding next_kc
  next_kc-IsConfig polly ks [] e w =
      Succeeds-mono _ _ (gen_default_config dbl rng ks e) (λ r h. IsDefault-IsConfig ks r.0 w h)
        (gen_default_config-IsDefault dbl rng ks e w.distinct_ints w.distinct_loops)
  next_kc-IsConfig polly ks (c ∷ cs) e w = gen_random_config-IsConfig dbl rng polly ks e w

  -- One configuration more, and all in the domains.
  abbrev pub Extends : KnobSet → RandomTuner dbl rng → RandomTuner dbl rng → Type 0
  Extends ks t t' = AllConfigs ks t'.configs × (length t'.configs ≡ length t.configs + 1)

  -- On a well-formed set of knobs, and with a kind of feedback that createFeedback accepts, getNextConfig
  -- succeeds; it adds one configuration, and all of them give every knob a value of its domain.
  pub get_next_config-AllConfigs :
      (polly : Bool) (kind : FeedbackKind) (ks : KnobSet) (t : RandomTuner dbl rng)
      → IsKnobSet ks
      → AllConfigs ks t.configs
      → Succeeds (λ fb. Unit {0}) (create_feedback dbl kind (some fb_total))
      → Succeeds (Extends ks t) (get_next_config dbl rng polly kind ks t)
  unfolding get_next_config
  get_next_config-AllConfigs polly kind ks t w all accepted =
      >>=-Succeeds (Extends ks t) (next_kc dbl rng polly ks t.configs t.gen) _
        (next_kc-IsConfig polly ks t.configs t.gen w)
        λ (kc, gen') ok.
          >>=-Succeeds (Extends ks t) (create_feedback dbl kind (some fb_total)) _ accepted λ fb u.
            (
              AllConfigs-append ks t.configs (kc, fb) all ok,
              length-append t.configs ((kc, fb) ∷ []),
            )
