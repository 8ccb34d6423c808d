-- ===== src/Knobs/Generate.antt =====
-- genDefaultConfig and genRandomConfig: they give every knob of the set a value of its domain.
use at_jit.Prelude.{Bool, Option, none, some, List, [], ◌∷◌, ◌≡◌, sym, subst, arith, All}
use at_jit.Prelude.Int.{ℤ, ◌≤ℤ◌}
use at_jit.Prelude.Double.{Double}
use at_jit.Prelude.Rng.{Rng}
use at_jit.Prelude.Partial.{Succeeds, >>=-Succeeds}
use at_jit.LoopSetting.{LoopSetting, empty_setting}
use at_jit.LoopSetting.Domain.{IsSetting}
use at_jit.LoopSetting.Gen.{gen_random}
use at_jit.LoopSetting.Gen.Random.{gen_random-Makes}
use at_jit.Knobs.Visit.{Distinct, StepLaw, visit-Post, lookup-insert_self, lookup-insert_ne}
use at_jit.Knobs.{
  lookup, ScalarInt, KnobSet, KnobConfig, visit, default_int, default_loop, random_int, random_loop,
  make_config, gen_default_config, gen_random_config,
}

abbrev pub IsKnob : ScalarInt → Type 0
IsKnob k = (k.lo ≤ℤ k.dflt) × (k.dflt ≤ℤ k.hi)

-- The ids are distinct, and every default is in its range.
pub record IsKnobSet (ks : KnobSet) : Type 0 where
  pub distinct_ints : Distinct ks.int_knobs
  pub distinct_loops : Distinct ks.loop_knobs
  pub ranges : All (λ p. IsKnob p.1) ks.int_knobs

-- There is a value, and it is in range.
abbrev pub HasInt : ScalarInt → Option ℤ → Type 0
HasInt k none = ⊥
HasInt k (some v) = (k.lo ≤ℤ v) × (v ≤ℤ k.hi)

abbrev pub HasLoop : Option LoopSetting → Type 0
HasLoop none = ⊥
HasLoop (some s) = IsSetting s

-- Every knob of the set has a value of its domain.
pub record IsConfig (ks : KnobSet) (c : KnobConfig) : Type 0 where
  pub ints : All (λ p. HasInt p.1 (lookup p.0 c.int_config)) ks.int_knobs
  pub loops : All (λ p. HasLoop (lookup p.0 c.loop_config)) ks.loop_knobs

abbrev pub IsDefault : KnobSet → KnobConfig → Type 0
IsDefault ks c =
    All (λ p. lookup p.0 c.int_config ≡ some p.1.dflt) ks.int_knobs
    × All (λ p. lookup p.0 c.loop_config ≡ some empty_setting) ks.loop_knobs

pub All-always {ℓ κ} : {A : Type ℓ} {P : A → Type κ} (xs : List A) → ((a : A) → P a) → All P xs
All-always [] h = tt
All-always (x ∷ xs) h = (h x, All-always xs h)

module _ (dbl : Double) (rng : Rng dbl) where
  open rng use {E, uniform_bounds}

  default_int-Law : StepLaw (default_int dbl rng) (λ k o. Unit {0}) (λ id k o o'. o' ≡ some k.dflt)
  unfolding default_int
  default_int-Law id k m e u =
      (lookup-insert_self m id k.dflt, λ j ne. lookup-insert_ne m id j k.dflt ne)

  default_loop-Law :
      StepLaw (default_loop dbl rng) (λ k o. Unit {0}) (λ id k o o'. o' ≡ some empty_setting)
  unfolding default_loop
  default_loop-Law id k m e u =
      (lookup-insert_self m id empty_setting, λ j ne. lookup-insert_ne m id j empty_setting ne)

  -- genDefaultConfig gives every knob of a set with distinct ids its default.
  pub gen_default_config-IsDefault :
      (ks : KnobSet) (e : E)
      → Distinct ks.int_knobs
      → Distinct ks.loop_knobs
      → Succeeds (λ r. IsDefault ks r.0) (gen_default_config dbl rng ks e)
  unfolding gen_default_config make_config
  gen_default_config-IsDefault ks e di dl =
      >>=-Succeeds _ (visit (default_int dbl rng) ks.int_knobs [] e) _
        (visit-Post (default_int dbl rng) (λ k o. Unit {0}) (λ id k o o'. o' ≡ some k.dflt)
          default_int-Law ks.int_knobs [] e di (All-always ks.int_knobs (λ p. tt)))
        λ (ints, e1) (post, _).
          >>=-Succeeds _ (visit (default_loop dbl rng) ks.loop_knobs [] e1) _
            (visit-Post (default_loop dbl rng) (λ k o. Unit {0})
              (λ id k o o'. o' ≡ some empty_setting) default_loop-Law ks.loop_knobs [] e1 dl
              (All-always ks.loop_knobs (λ p. tt)))
            λ (loops, e2) (posts, _). (post, posts)

  pub random_int-Law : StepLaw (random_int dbl rng) (λ k o. IsKnob k) (λ id k o o'. HasInt k o')
  unfolding random_int
  random_int-Law id k m e (lo, hi) =
      let bounds = uniform_bounds k.lo k.hi e (omega arith) in
      (
        subst (HasInt k) (sym (lookup-insert_self m id _)) bounds,
        λ j ne. lookup-insert_ne m id j _ ne,
      )

  pub random_loop-Law :
      (polly : Bool)
      → StepLaw (random_loop dbl rng polly) (λ k o. Unit {0}) (λ id k o o'. HasLoop o')
  unfolding random_loop
  random_loop-Law polly id k m e u =
      >>=-Succeeds _ (gen_random dbl rng polly e) _ (gen_random-Makes rng polly e) λ (s, e') ok.
        (subst HasLoop (sym (lookup-insert_self m id s)) ok, λ j ne. lookup-insert_ne m id j s ne)

  -- genRandomConfig succeeds on a well-formed set, with Polly or without, and gives every knob a value of
  -- its domain.
  pub gen_random_config-IsConfig :
      (polly : Bool) (ks : KnobSet) (e : E)
      → IsKnobSet ks
      → Succeeds (λ r. IsConfig ks r.0) (gen_random_config dbl rng polly ks e)
  unfolding gen_random_config make_config
  gen_random_config-IsConfig polly ks e w =
      >>=-Succeeds _ (visit (random_int dbl rng) ks.int_knobs [] e) _
        (visit-Post (random_int dbl rng) (λ k o. IsKnob k) (λ id k o o'. HasInt k o') random_int-Law
          ks.int_knobs [] e w.distinct_ints w.ranges)
        λ (ints, e1) (post, _).
          >>=-Succeeds _ (visit (random_loop dbl rng polly) ks.loop_knobs [] e1) _
            (visit-Post (random_loop dbl rng polly) (λ k o. Unit {0}) (λ id k o o'. HasLoop o')
              (random_loop-Law polly) ks.loop_knobs [] e1 w.distinct_loops
              (All-always ks.loop_knobs (λ p. tt)))
            λ (loops, e2) (posts, _). record { ints = post; loops = posts }
