-- ===== src/LoopSetting/Domain.antt =====
-- The domain of each option of a loop's setting, and that the setters stay in it.
use at_jit.Prelude.{
  ℕ, zero, suc, Bool, true, false, not, ◌&&◌, ◌||◌, Option, none, some, ◌≡◌, refl, arith, ◌^◌, leb,
  ◌==◌,
}
use at_jit.Prelude.Int.{ℤ, ◌≤ℤ◌}
use at_jit.Prelude.Partial.{Succeeds}
use at_jit.LoopSetting.Codes.{Cases-apply}
use at_jit.LoopSetting.{
  LoopSetting, empty_setting, unroll_min, unroll_max, vec_min, vec_max, intrlv_min, intrlv_max,
  section_missing, section_max, flag_false, flag_true, unroll_as_int, set_unroll, set_vec,
  set_interleave, set_section, set_bool_opt,
}

-- A power of two up to 2^hi.
abbrev pub is_power : ℕ → ℕ → Bool
is_power zero n = n == 1
is_power (suc hi) n = n == 2 ^ suc hi || is_power hi n

abbrev pub power_or_missing : ℕ → Option ℕ → Bool
power_or_missing hi none = true
power_or_missing hi (some n) = is_power hi n

-- At most one of the two is set, and a count is at least 2.
abbrev pub unroll_ok : Option ℕ → Option Bool → Bool
unroll_ok none full = true
unroll_ok (some n) none = is_power 6 n && not (n == 1)
unroll_ok (some n) (some b) = false

abbrev pub section_ok : Option ℕ → Bool
section_ok none = true
section_ok (some n) = leb 2 n && leb n 128

-- Widths are powers of two up to 32, interleave counts up to 64, unroll counts from 2 to 64, sections
-- from 2 to 128; unrolling is never disabled, and not full and counted at once.
pub record IsSetting (ls : LoopSetting) : Type 0 where
  pub widths : power_or_missing 5 ls.vectorize_width ≡ true
  pub interleaves : power_or_missing 6 ls.interleave_count ≡ true
  pub unrolls : unroll_ok ls.unroll_count ls.unroll_full ≡ true
  pub enabled : ls.unroll_disable ≡ none
  pub sections : section_ok ls.section ≡ true

pub empty_setting-IsSetting : IsSetting empty_setting
empty_setting-IsSetting = record {
  widths = refl;
  interleaves = refl;
  unrolls = refl;
  enabled = refl;
  sections = refl;
}

module _ {ls : LoopSetting} (s : IsSetting ls) where
  with_unroll :
      (count : Option ℕ) (full : Option Bool)
      → unroll_ok count full ≡ true
      → IsSetting (record ls { unroll_count = count; unroll_full = full; unroll_disable = none })
  with_unroll count full h = record {
    widths = s.widths;
    interleaves = s.interleaves;
    unrolls = h;
    enabled = refl;
    sections = s.sections;
  }

  with_width :
      (w : Option ℕ) → power_or_missing 5 w ≡ true → IsSetting (record ls { vectorize_width = w })
  with_width w h = record {
    widths = h;
    interleaves = s.interleaves;
    unrolls = s.unrolls;
    enabled = s.enabled;
    sections = s.sections;
  }

  with_interleave :
      (c : Option ℕ) → power_or_missing 6 c ≡ true → IsSetting (record ls { interleave_count = c })
  with_interleave c h = record {
    widths = s.widths;
    interleaves = h;
    unrolls = s.unrolls;
    enabled = s.enabled;
    sections = s.sections;
  }

  pub set_unroll-IsSetting :
      (v : ℤ) → unroll_min ≤ℤ v → v ≤ℤ unroll_max → Succeeds IsSetting (set_unroll ls v)
  unfolding set_unroll
  set_unroll-IsSetting v lo hi =
      Cases-apply (λ v. Succeeds IsSetting (set_unroll ls v)) 7 v
        (
          (
            (
              (
                (
                  ((with_unroll _ _ refl, with_unroll _ _ refl), with_unroll _ _ refl),
                  with_unroll _ _ refl,
                ),
                with_unroll _ _ refl,
              ),
              with_unroll _ _ refl,
            ),
            with_unroll _ _ refl,
          ),
          with_unroll _ _ refl,
        )
        lo hi

  pub set_vec-IsSetting : (v : ℤ) → vec_min ≤ℤ v → v ≤ℤ vec_max → Succeeds IsSetting (set_vec ls v)
  unfolding set_vec
  set_vec-IsSetting v lo hi =
      Cases-apply (λ v. Succeeds IsSetting (set_vec ls v)) 6 v
        (
          (
            (
              (((with_width _ refl, with_width _ refl), with_width _ refl), with_width _ refl),
              with_width _ refl,
            ),
            with_width _ refl,
          ),
          with_width _ refl,
        )
        lo hi

  pub set_interleave-IsSetting :
      (v : ℤ) → intrlv_min ≤ℤ v → v ≤ℤ intrlv_max → Succeeds IsSetting (set_interleave ls v)
  unfolding set_interleave
  set_interleave-IsSetting v lo hi =
      Cases-apply (λ v. Succeeds IsSetting (set_interleave ls v)) 7 v
        (
          (
            (
              (
                (
                  ((with_interleave _ refl, with_interleave _ refl), with_interleave _ refl),
                  with_interleave _ refl,
                ),
                with_interleave _ refl,
              ),
              with_interleave _ refl,
            ),
            with_interleave _ refl,
          ),
          with_interleave _ refl,
        )
        lo hi

  pub set_section-IsSetting :
      (v : ℤ) → section_missing ≤ℤ v → v ≤ℤ section_max → Succeeds IsSetting (set_section ls v)
  unfolding set_section
  set_section-IsSetting v lo hi = ground arith

  -- A flag may be set to anything.
  pub with_distribute : (b : Option Bool) → IsSetting (record ls { distribute = b })
  with_distribute b = record {
    widths = s.widths;
    interleaves = s.interleaves;
    unrolls = s.unrolls;
    enabled = s.enabled;
    sections = s.sections;
  }

  pub with_licm : (b : Option Bool) → IsSetting (record ls { licm_ver_disable = b })
  with_licm b = record {
    widths = s.widths;
    interleaves = s.interleaves;
    unrolls = s.unrolls;
    enabled = s.enabled;
    sections = s.sections;
  }

  -- The assertion of unrollAsInt passes.
  pub unroll_as_int-Succeeds : Succeeds (λ v. Unit {0}) (unroll_as_int ls)
  unfolding unroll_as_int
  unroll_as_int-Succeeds = ground arith

pub set_bool_opt-Succeeds :
    (v : ℤ) → flag_false ≤ℤ v → v ≤ℤ flag_true → Succeeds (λ b. Unit {0}) (set_bool_opt v)
unfolding set_bool_opt
set_bool_opt-Succeeds v lo hi = ground arith
