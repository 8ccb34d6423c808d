-- ===== src/LoopSetting/Gen/Nearby.antt =====
-- genNearbyLoopSetting passes every assertion and stays in the domain of the options.
use at_jit.Prelude.{Bool, arith}
use at_jit.Prelude.Double.{Double}
use at_jit.Prelude.Rng.{Rng}
use at_jit.Prelude.Partial.{Succeeds, >>=-Succeeds, Succeeds-if}
use at_jit.Util.{nearby_int_bounds}
use at_jit.LoopSetting.Domain.{
  IsSetting, set_unroll-IsSetting, set_vec-IsSetting, set_interleave-IsSetting,
  set_section-IsSetting, with_distribute, with_licm, unroll_as_int-Succeeds, set_bool_opt-Succeeds,
}
use at_jit.LoopSetting.{
  LoopSetting, unroll_min, unroll_max, vec_min, vec_max, intrlv_min, intrlv_max, section_missing,
  section_max, flag_false, flag_true, unroll_as_int, set_unroll, vec_as_int, set_vec,
  interleave_as_int, set_interleave, section_as_int, set_section, bool_opt_as_int, set_bool_opt,
}
use at_jit.LoopSetting.Gen.{
  Gen, nearby_unroll, nearby_vec, nearby_interleave, nearby_distribute, nearby_licm, nearby_section,
  gen_nearby,
}

module _ {dbl : Double} (rng : Rng dbl) where
  open dbl use {D}
  open rng use {E, uniform_bounds}

  -- The code does not stop, and makes a setting in the domain.
  abbrev pub GivesSetting : Gen dbl rng → Type 0
  GivesSetting = Succeeds (λ r. IsSetting r.0)

  nearby_unroll-Gives :
      (eng : E) (ls : LoopSetting) (energy : D)
      → IsSetting ls
      → GivesSetting (nearby_unroll dbl rng eng ls energy)
  unfolding nearby_unroll
  nearby_unroll-Gives eng ls energy s =
      >>=-Succeeds _ (unroll_as_int ls) _ (unroll_as_int-Succeeds s) λ code _.
        let (lo, hi) =
          nearby_int_bounds dbl rng eng code unroll_min unroll_max energy (omega arith) in
        >>=-Succeeds _ (set_unroll ls _) _ (set_unroll-IsSetting s _ lo hi) (λ t ok. ok)

  nearby_vec-Gives :
      (eng : E) (ls : LoopSetting) (energy : D)
      → IsSetting ls
      → GivesSetting (nearby_vec dbl rng eng ls energy)
  unfolding nearby_vec
  nearby_vec-Gives eng ls energy s =
      let (lo, hi) =
        nearby_int_bounds dbl rng eng (vec_as_int ls) vec_min vec_max energy (omega arith) in
      >>=-Succeeds _ (set_vec ls _) _ (set_vec-IsSetting s _ lo hi) (λ t ok. ok)

  nearby_interleave-Gives :
      (eng : E) (ls : LoopSetting) (energy : D)
      → IsSetting ls
      → GivesSetting (nearby_interleave dbl rng eng ls energy)
  unfolding nearby_interleave
  nearby_interleave-Gives eng ls energy s =
      let (lo, hi) =
        nearby_int_bounds dbl rng eng (interleave_as_int ls) intrlv_min intrlv_max energy
          (omega arith) in
      >>=-Succeeds _ (set_interleave ls _) _ (set_interleave-IsSetting s _ lo hi) (λ t ok. ok)

  nearby_distribute-Gives :
      (eng : E) (ls : LoopSetting) (energy : D)
      → IsSetting ls
      → GivesSetting (nearby_distribute dbl rng eng ls energy)
  unfolding nearby_distribute
  nearby_distribute-Gives eng ls energy s =
      let (lo, hi) =
        nearby_int_bounds dbl rng eng (bool_opt_as_int ls.distribute) flag_false flag_true energy
          (omega arith) in
      >>=-Succeeds _ (set_bool_opt _) _ (set_bool_opt-Succeeds _ lo hi) (λ b _. with_distribute s b)

  nearby_licm-Gives :
      (eng : E) (ls : LoopSetting) (energy : D)
      → IsSetting ls
      → GivesSetting (nearby_licm dbl rng eng ls energy)
  unfolding nearby_licm
  nearby_licm-Gives eng ls energy s =
      let (lo, hi) =
        nearby_int_bounds dbl rng eng (bool_opt_as_int ls.licm_ver_disable) flag_false flag_true
          energy (omega arith) in
      >>=-Succeeds _ (set_bool_opt _) _ (set_bool_opt-Succeeds _ lo hi) (λ b _. with_licm s b)

  nearby_section-Gives :
      (eng : E) (ls : LoopSetting) (energy : D)
      → IsSetting ls
      → GivesSetting (nearby_section dbl rng eng ls energy)
  unfolding nearby_section
  nearby_section-Gives eng ls energy s =
      let (lo, hi) =
        nearby_int_bounds dbl rng eng (section_as_int ls) section_missing section_max energy
          (omega arith) in
      >>=-Succeeds _ (set_section ls _) _ (set_section-IsSetting s _ lo hi) (λ t ok. ok)

  -- From a setting in the domain, with Polly or without, genNearbyLoopSetting passes all assertions
  -- and gives a setting in the domain.
  pub gen_nearby-Gives :
      (polly : Bool) (eng : E) (ls : LoopSetting) (energy : D)
      → IsSetting ls
      → GivesSetting (gen_nearby dbl rng polly eng ls energy)
  unfolding gen_nearby
  gen_nearby-Gives polly eng ls energy s =
      >>=-Succeeds _ (nearby_unroll dbl rng eng ls energy) _ (nearby_unroll-Gives eng ls energy s)
        λ (a, e1) sa.
          >>=-Succeeds _ (nearby_vec dbl rng e1 a energy) _ (nearby_vec-Gives e1 a energy sa)
            λ (b, e2) sb.
              >>=-Succeeds _ (nearby_interleave dbl rng e2 b energy) _
                (nearby_interleave-Gives e2 b energy sb)
                λ (c, e3) sc.
                  >>=-Succeeds _ (nearby_distribute dbl rng e3 c energy) _
                    (nearby_distribute-Gives e3 c energy sc)
                    λ (d, e4) sd.
                      >>=-Succeeds _ (nearby_licm dbl rng e4 d energy) _
                        (nearby_licm-Gives e4 d energy sd)
                        λ (f, e5) sf.
                          Succeeds-if _ polly _ _ (λ _. nearby_section-Gives e5 f energy sf)
                            (λ _. sf)
