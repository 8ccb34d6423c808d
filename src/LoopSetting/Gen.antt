-- ===== src/LoopSetting/Gen.antt =====
-- runtime/tuner/LoopSettingGen.cpp: the generators of loop settings.
pub mod Nearby
pub mod Random
use at_jit.Prelude.{
  ℕ, zero, suc, ◌+◌, ◌≤◌, ◌^◌, Bool, true, false, ◌&&◌, ◌||◌, Option, none, some, ◌≡◌, refl, arith,
  if◌then◌else◌, leb, ◌==◌, ==_refl, subst, sym,
}
use at_jit.Prelude.Int.{ℤ, pos, negsuc, ◌≤ℤ◌, ◌+ℤ◌, pos_part, neg_part, eq_ℤ, leb_ℤ, max_ℤ, min_ℤ}
use at_jit.Prelude.Double.{Double}
use at_jit.Prelude.Rng.{Rng}
use at_jit.Prelude.Partial.{◌>>=◌, ◌>>◌, assert, Succeeds, >>=-Succeeds, Succeeds-if}
use at_jit.Util.{nearby_int, nearby_int_bounds}
use at_jit.LoopSetting.Domain.{
  IsSetting, empty_setting-IsSetting, set_unroll-IsSetting, set_vec-IsSetting,
  set_interleave-IsSetting, set_section-IsSetting, with_distribute, with_licm,
  unroll_as_int-Succeeds, set_bool_opt-Succeeds,
}
use at_jit.LoopSetting.{
  LoopSetting, empty_setting, unroll_min, unroll_max, vec_min, vec_max, intrlv_min, intrlv_max,
  section_missing, section_max, flag_false, flag_true, within, unroll_as_int, set_unroll,
  vec_as_int, set_vec, interleave_as_int, set_interleave, section_as_int, set_section,
  bool_opt_as_int, set_bool_opt,
}

-- genNearbyLoopSetting and genRandomLoopSetting, an option at a time: the new setting and the engine.
module _ (dbl : Double) (rng : Rng dbl) where
  open dbl use {D, lit, of_int, div}
  open rng use {E, uniform, exponential}

  abbrev pub Gen : Type 0
  Gen = Option (LoopSetting × E)

  pub nearby_unroll : E → LoopSetting → D → Gen
  nearby_unroll eng ls energy = do
    code ← unroll_as_int ls
    let drawn = nearby_int dbl rng eng code unroll_min unroll_max energy
    ls' ← set_unroll ls drawn.0
    some (ls', drawn.1)

  pub nearby_vec : E → LoopSetting → D → Gen
  nearby_vec eng ls energy = do
    let drawn = nearby_int dbl rng eng (vec_as_int ls) vec_min vec_max energy
    ls' ← set_vec ls drawn.0
    some (ls', drawn.1)

  pub nearby_interleave : E → LoopSetting → D → Gen
  nearby_interleave eng ls energy = do
    let drawn = nearby_int dbl rng eng (interleave_as_int ls) intrlv_min intrlv_max energy
    ls' ← set_interleave ls drawn.0
    some (ls', drawn.1)

  pub nearby_distribute : E → LoopSetting → D → Gen
  nearby_distribute eng ls energy = do
    let drawn = nearby_int dbl rng eng (bool_opt_as_int ls.distribute) flag_false flag_true energy
    flag ← set_bool_opt drawn.0
    some (record ls { distribute = flag }, drawn.1)

  pub nearby_licm : E → LoopSetting → D → Gen
  nearby_licm eng ls energy = do
    let drawn =
        nearby_int dbl rng eng (bool_opt_as_int ls.licm_ver_disable) flag_false flag_true energy
    flag ← set_bool_opt drawn.0
    some (record ls { licm_ver_disable = flag }, drawn.1)

  pub nearby_section : E → LoopSetting → D → Gen
  nearby_section eng ls energy = do
    let drawn = nearby_int dbl rng eng (section_as_int ls) section_missing section_max energy
    ls' ← set_section ls drawn.0
    some (ls', drawn.1)

  -- `polly` is POLLY_KNOBS.
  pub gen_nearby : Bool → E → LoopSetting → D → Gen
  gen_nearby polly eng ls energy = do
    (ls1, e1) ← nearby_unroll eng ls energy
    (ls2, e2) ← nearby_vec e1 ls1 energy
    (ls3, e3) ← nearby_interleave e2 ls2 energy
    (ls4, e4) ← nearby_distribute e3 ls3 energy
    (ls5, e5) ← nearby_licm e4 ls4 energy
    if polly then nearby_section e5 ls5 energy else some (ls5, e5)

  pub biased_flip : ℤ → E → Option (Bool × E)
  biased_flip true_bias eng = do
    assert (leb_ℤ (pos 0) true_bias && leb_ℤ true_bias (pos 100))
    let drawn = uniform (pos 1) (pos 99) eng
    some (leb_ℤ drawn.0 true_bias, drawn.1)

  -- With the given bias, set an option.
  abbrev with_bias : ℤ → (E → Gen) → LoopSetting → E → Gen
  with_bias bias change ls eng = do
    (heads, eng') ← biased_flip bias eng
    if heads then change eng' else some (ls, eng')

  pub random_unroll : LoopSetting → E → Gen
  random_unroll ls eng = do
    let lambda = div (lit 1 0) (of_int (pos 2))
    let drawn = exponential lambda eng
    let val = max_ℤ (min_ℤ (unroll_min +ℤ drawn.0) unroll_max) unroll_min
    ls' ← set_unroll ls val
    some (ls', drawn.1)

  pub random_vec : LoopSetting → E → Gen
  random_vec ls eng = do
    let drawn = uniform vec_min vec_max eng
    ls' ← set_vec ls drawn.0
    some (ls', drawn.1)

  pub random_interleave : LoopSetting → E → Gen
  random_interleave ls eng = do
    let drawn = uniform intrlv_min intrlv_max eng
    ls' ← set_interleave ls drawn.0
    some (ls', drawn.1)

  pub random_distribute : LoopSetting → E → Gen
  random_distribute ls eng = do
    let drawn = uniform flag_false flag_true eng
    flag ← set_bool_opt drawn.0
    some (record ls { distribute = flag }, drawn.1)

  pub random_licm : LoopSetting → E → Gen
  random_licm ls eng = do
    let drawn = uniform flag_false flag_true eng
    flag ← set_bool_opt drawn.0
    some (record ls { licm_ver_disable = flag }, drawn.1)

  pub random_section : LoopSetting → E → Gen
  random_section ls eng = do
    let drawn = uniform section_missing section_max eng
    ls' ← set_section ls drawn.0
    some (ls', drawn.1)

  pub gen_random : Bool → E → Gen
  gen_random polly eng = do
    (ls1, e1) ← with_bias (pos 80) (random_unroll empty_setting) empty_setting eng
    (ls2, e2) ← with_bias (pos 80) (random_vec ls1) ls1 e1
    (ls3, e3) ← with_bias (pos 70) (random_interleave ls2) ls2 e2
    (ls4, e4) ← with_bias (pos 70) (random_distribute ls3) ls3 e3
    (ls5, e5) ← with_bias (pos 70) (random_licm ls4) ls4 e4
    if polly then with_bias (pos 80) (random_section ls5) ls5 e5 else some (ls5, e5)
