-- ===== src/LoopSetting/Gen/Random.antt =====
-- genRandomLoopSetting passes every assertion and stays in the domain of the options.
use at_jit.Prelude.{Bool, true, ◌≡◌, arith}
use at_jit.Prelude.Int.{ℤ, pos, ◌≤ℤ◌, leb_ℤ}
use at_jit.Prelude.Double.{Double}
use at_jit.Prelude.Rng.{Rng}
use at_jit.Prelude.Partial.{Succeeds, >>=-Succeeds, Succeeds-if}
use at_jit.LoopSetting.Domain.{
  IsSetting, empty_setting-IsSetting, set_unroll-IsSetting, set_vec-IsSetting,
  set_interleave-IsSetting, set_section-IsSetting, with_distribute, with_licm,
  set_bool_opt-Succeeds,
}
use at_jit.LoopSetting.{
  LoopSetting, empty_setting, vec_min, vec_max, intrlv_min, intrlv_max, section_missing,
  section_max, flag_false, flag_true, within, set_unroll, set_vec, set_interleave, set_section,
  set_bool_opt,
}
use at_jit.LoopSetting.Gen.{
  Gen, biased_flip, with_bias, random_unroll, random_vec, random_interleave, random_distribute,
  random_licm, random_section, gen_random,
}

module _ {dbl : Double} (rng : Rng dbl) where
  open dbl use {D}
  open rng use {E, uniform, uniform_bounds}

  abbrev pub MakesSetting : Gen dbl rng → Type 0
  MakesSetting = Succeeds (λ r. IsSetting r.0)

  with_bias-Makes :
      (bias : ℤ) (change : E → Gen dbl rng) (ls : LoopSetting) (eng : E)
      → pos 0 ≤ℤ bias
      → bias ≤ℤ pos 100
      → IsSetting ls
      → ((e : E) → MakesSetting (change e))
      → MakesSetting (with_bias dbl rng bias change ls eng)
  unfolding biased_flip
  with_bias-Makes bias change ls eng lo hi s h =
      let passes : within (pos 0) (pos 100) bias ≡ true = ground arith in
      rw passes
        (Succeeds-if _ (leb_ℤ (uniform (pos 1) (pos 99) eng).0 bias) _ _ (λ _. h _) (λ _. s))

  random_unroll-Makes :
      (ls : LoopSetting) (eng : E) → IsSetting ls → MakesSetting (random_unroll dbl rng ls eng)
  unfolding random_unroll
  random_unroll-Makes ls eng s =
      >>=-Succeeds _ (set_unroll ls _) _ (set_unroll-IsSetting s _ (ground arith) (ground arith))
        (λ t ok. ok)

  random_vec-Makes :
      (ls : LoopSetting) (eng : E) → IsSetting ls → MakesSetting (random_vec dbl rng ls eng)
  unfolding random_vec
  random_vec-Makes ls eng s =
      let (lo, hi) = uniform_bounds vec_min vec_max eng (omega arith) in
      >>=-Succeeds _ (set_vec ls _) _ (set_vec-IsSetting s _ lo hi) (λ t ok. ok)

  random_interleave-Makes :
      (ls : LoopSetting) (eng : E) → IsSetting ls → MakesSetting (random_interleave dbl rng ls eng)
  unfolding random_interleave
  random_interleave-Makes ls eng s =
      let (lo, hi) = uniform_bounds intrlv_min intrlv_max eng (omega arith) in
      >>=-Succeeds _ (set_interleave ls _) _ (set_interleave-IsSetting s _ lo hi) (λ t ok. ok)

  random_distribute-Makes :
      (ls : LoopSetting) (eng : E) → IsSetting ls → MakesSetting (random_distribute dbl rng ls eng)
  unfolding random_distribute
  random_distribute-Makes ls eng s =
      let (lo, hi) = uniform_bounds flag_false flag_true eng (omega arith) in
      >>=-Succeeds _ (set_bool_opt _) _ (set_bool_opt-Succeeds _ lo hi) (λ b _. with_distribute s b)

  random_licm-Makes :
      (ls : LoopSetting) (eng : E) → IsSetting ls → MakesSetting (random_licm dbl rng ls eng)
  unfolding random_licm
  random_licm-Makes ls eng s =
      let (lo, hi) = uniform_bounds flag_false flag_true eng (omega arith) in
      >>=-Succeeds _ (set_bool_opt _) _ (set_bool_opt-Succeeds _ lo hi) (λ b _. with_licm s b)

  random_section-Makes :
      (ls : LoopSetting) (eng : E) → IsSetting ls → MakesSetting (random_section dbl rng ls eng)
  unfolding random_section
  random_section-Makes ls eng s =
      let (lo, hi) = uniform_bounds section_missing section_max eng (omega arith) in
      >>=-Succeeds _ (set_section ls _) _ (set_section-IsSetting s _ lo hi) (λ t ok. ok)

  -- Whatever the engine draws, with Polly or without, genRandomLoopSetting passes all assertions and
  -- gives a setting in the domain.
  pub gen_random-Makes : (polly : Bool) (eng : E) → MakesSetting (gen_random dbl rng polly eng)
  unfolding gen_random
  gen_random-Makes polly eng =
      >>=-Succeeds _
        (with_bias dbl rng (pos 80) (random_unroll dbl rng empty_setting) empty_setting eng) _
        (with_bias-Makes (pos 80) _ empty_setting eng (omega arith) (omega arith)
          empty_setting-IsSetting
          (λ e. random_unroll-Makes empty_setting e empty_setting-IsSetting))
        λ (a, e1) sa.
          >>=-Succeeds _ (with_bias dbl rng (pos 80) (random_vec dbl rng a) a e1) _
            (with_bias-Makes (pos 80) _ a e1 (omega arith) (omega arith) sa
              (λ e. random_vec-Makes a e sa))
            λ (b, e2) sb.
              >>=-Succeeds _ (with_bias dbl rng (pos 70) (random_interleave dbl rng b) b e2) _
                (with_bias-Makes (pos 70) _ b e2 (omega arith) (omega arith) sb
                  (λ e. random_interleave-Makes b e sb))
                λ (c, e3) sc.
                  >>=-Succeeds _ (with_bias dbl rng (pos 70) (random_distribute dbl rng c) c e3) _
                    (with_bias-Makes (pos 70) _ c e3 (omega arith) (omega arith) sc
                      (λ e. random_distribute-Makes c e sc))
                    λ (d, e4) sd.
                      >>=-Succeeds _ (with_bias dbl rng (pos 70) (random_licm dbl rng d) d e4) _
                        (with_bias-Makes (pos 70) _ d e4 (omega arith) (omega arith) sd
                          (λ e. random_licm-Makes d e sd))
                        λ (f, e5) sf.
                          Succeeds-if _ polly _ _
                            (λ _.
                              with_bias-Makes (pos 80) _ f e5 (omega arith) (omega arith) sf
                                (λ e. random_section-Makes f e sf))
                            (λ _. sf)
