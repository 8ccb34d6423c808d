-- ===== src/LoopSetting/Tests.antt =====
-- Tests of the loop settings, with an engine that counts the draws and distributions that return the
-- middle of what they are asked for.
use at_jit.Prelude.{ℕ, suc, true, some, ◌≡◌, refl, arith}
use at_jit.Prelude.Int.{ℤ, pos, ◌≤ℤ◌}
use at_jit.Prelude.Partial.{◌>>=◌}
use at_jit.Prelude.Fixed.{fixed}
use at_jit.Prelude.Rng.{Rng}
use at_jit.Util.{nearby_int, nearby_int_bounds}
use at_jit.LoopSetting.Codes.{unroll_round_trip}
use at_jit.LoopSetting.Domain.{empty_setting-IsSetting}
use at_jit.LoopSetting.Gen.{gen_nearby}
use at_jit.LoopSetting.Gen.Nearby.{GivesSetting, gen_nearby-Gives}
use at_jit.LoopSetting.{LoopSetting, empty_setting, set_unroll, unroll_as_int, set_bool_opt}

abbrev low : ℤ → ℤ → ℕ → ℤ × ℕ
low lo hi e = (lo, suc e)

low_bounds : (lo hi : ℤ) (e : ℕ) → lo ≤ℤ hi → (lo ≤ℤ (low lo hi e).0) × ((low lo hi e).0 ≤ℤ hi)
low_bounds lo hi e h = ground arith

abbrev plain : Rng fixed
plain = record {
  E = ℕ;
  uniform = low;
  normal = λ mean dev e. (mean, suc e);
  exponential = λ lambda e. (pos 2, suc e);
  canonical = λ e. (500, suc e);
  uniform_bounds = low_bounds;
}

abbrev vectorized : LoopSetting
vectorized = record empty_setting { vectorize_width = some 4 }

set_unroll_full :
    set_unroll vectorized (pos 7) ≡ some (record vectorized { unroll_full = some true })
unfolding set_unroll
set_unroll_full = refl

-- The generator's code for "false" stores true.
set_bool_opt_false : set_bool_opt (pos 0) ≡ some (some true)
unfolding set_bool_opt
set_bool_opt_false = refl

nearby_int_bounds_example :
    (pos 0 ≤ℤ (nearby_int fixed plain 0 (pos 9) (pos 0) (pos 7) 50000).0)
    × ((nearby_int fixed plain 0 (pos 9) (pos 0) (pos 7) 50000).0 ≤ℤ pos 7)
nearby_int_bounds_example =
    nearby_int_bounds fixed plain 0 (pos 9) (pos 0) (pos 7) 50000 (omega arith)

unroll_round_trip_example : (set_unroll vectorized (pos 7) >>= unroll_as_int) ≡ some (pos 7)
unroll_round_trip_example = unroll_round_trip vectorized (pos 7) (omega arith) (omega arith)

gen_nearby-Gives_example : GivesSetting plain (gen_nearby fixed plain true 0 empty_setting 50000)
gen_nearby-Gives_example = gen_nearby-Gives plain true 0 empty_setting 50000 empty_setting-IsSetting
