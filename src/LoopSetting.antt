-- ===== src/LoopSetting.antt =====
-- include/tuner/LoopKnob.h and the first half of runtime/tuner/LoopSettingGen.cpp: a loop's setting, its
-- flat form, and the integer coding of its options. `none` as a result is a failed `assert`.
pub mod Laws
pub mod Codes
pub mod Domain
pub mod Gen
mod Tests
use at_jit.Prelude.{
  ℕ, ◌+◌, ◌%◌, ◌^◌, Bool, true, false, not, ◌&&◌, Option, none, some, List, [], ◌∷◌, length,
  if◌then◌else◌, ◌==◌, leb,
}
use at_jit.Prelude.Int.{ℤ, pos, negsuc, leb_ℤ, eq_ℤ, pos_part}
use at_jit.Prelude.Partial.{◌>>◌, assert}
use at_jit.Util.{pow2_bit}

-- struct LoopSetting; the counts are uint16_t
pub record LoopSetting : Type 0 where
  pub vectorize_width : Option ℕ
  pub interleave_count : Option ℕ
  pub unroll_disable : Option Bool
  pub unroll_full : Option Bool
  pub unroll_count : Option ℕ
  pub licm_ver_disable : Option Bool
  pub distribute : Option Bool
  pub section : Option ℕ

-- LoopKnob::getDefault
abbrev pub empty_setting : LoopSetting
empty_setting = record {
  vectorize_width = none;
  interleave_count = none;
  unroll_disable = none;
  unroll_full = none;
  unroll_count = none;
  licm_ver_disable = none;
  distribute = none;
  section = none;
}

-- A float of the flat form: the NaN that stands for a missing value, or a whole number.
pub data Cell : Type 0 where
  missing : Cell
  num : ℕ → Cell

abbrev pub flatten_bool : Option Bool → Cell
flatten_bool none = missing
flatten_bool (some b) = if b then num 1 else num 0

abbrev pub flatten_u16 : Option ℕ → Cell
flatten_u16 none = missing
flatten_u16 (some n) = num n

-- `polly` is POLLY_KNOBS.
unfoldable pub size : Bool → ℕ
size polly = 7 + (if polly then 1 else 0)

pub cells : Bool → LoopSetting → List Cell
cells polly ls =
    flatten_u16 ls.vectorize_width
    ∷ flatten_u16 ls.interleave_count
    ∷ flatten_bool ls.unroll_disable
    ∷ flatten_bool ls.unroll_full
    ∷ flatten_u16 ls.unroll_count
    ∷ flatten_bool ls.licm_ver_disable
    ∷ flatten_bool ls.distribute
    ∷ (if polly then flatten_u16 ls.section ∷ [] else [])

-- What LoopSetting::flatten writes from `slice` on; `none` is its logic_error.
pub flatten : Bool → LoopSetting → Option (List Cell)
unfolding cells size
flatten polly ls = if length (cells polly ls) == size polly then some (cells polly ls) else none

abbrev pub eq_bool : Bool → Bool → Bool
eq_bool true b = b
eq_bool false b = not b

pub eq_opt_bool : Option Bool → Option Bool → Bool
eq_opt_bool none none = true
eq_opt_bool (some a) (some b) = eq_bool a b
eq_opt_bool _ _ = false

pub eq_opt_u16 : Option ℕ → Option ℕ → Bool
eq_opt_u16 none none = true
eq_opt_u16 (some a) (some b) = a == b
eq_opt_u16 _ _ = false

-- operator==(LoopSetting, LoopSetting)
pub same_setting : LoopSetting → LoopSetting → Bool
same_setting a b =
    eq_opt_bool a.unroll_disable b.unroll_disable
    && (eq_opt_bool a.unroll_full b.unroll_full
        && (eq_opt_u16 a.unroll_count b.unroll_count
            && (eq_opt_u16 a.vectorize_width b.vectorize_width
                && (eq_opt_bool a.licm_ver_disable b.licm_ver_disable
                    && (eq_opt_u16 a.interleave_count b.interleave_count
                        && (eq_opt_bool a.distribute b.distribute
                            && eq_opt_u16 a.section b.section))))))

abbrev pub within : ℤ → ℤ → ℤ → Bool
within lo hi v = leb_ℤ lo v && leb_ℤ v hi

-- ((uint16_t) 1) << v, as a uint16_t
abbrev pub shift_u16 : ℤ → ℕ
shift_u16 v = 2 ^ pos_part v % 2 ^ 16

abbrev pub unroll_cnt_min : ℤ
unroll_cnt_min = pos 1

abbrev pub unroll_cnt_max : ℤ
unroll_cnt_max = pos 6

abbrev pub unroll_disable_code : ℤ
unroll_disable_code = negsuc 0

abbrev pub unroll_missing : ℤ
unroll_missing = pos 0

abbrev pub unroll_full_code : ℤ
unroll_full_code = pos 7

abbrev pub unroll_max : ℤ
unroll_max = unroll_full_code

abbrev pub unroll_min : ℤ
unroll_min = unroll_missing

abbrev pub has_value {ℓ} : {A : Type ℓ} → Option A → Bool
has_value none = false
has_value (some a) = true

abbrev pub one_if : Bool → ℕ
one_if b = if b then 1 else 0

abbrev pub u16_or_zero : Option ℕ → ℕ
u16_or_zero none = 0
u16_or_zero (some n) = n

-- unrollAsInt
pub unroll_as_int : LoopSetting → Option ℤ
unfolding pow2_bit
unroll_as_int ls = do
  let count = has_value ls.unroll_count
  let disable = has_value ls.unroll_disable
  let full = has_value ls.unroll_full
  assert (leb (one_if count + one_if disable + one_if full) 1)
  some (
      if disable
      then unroll_disable_code
      else if full
      then unroll_full_code
      else if count
      then pos (pow2_bit (u16_or_zero ls.unroll_count))
      else unroll_missing)

-- setUnroll
pub set_unroll : LoopSetting → ℤ → Option LoopSetting
set_unroll ls v = do
  assert (within unroll_min unroll_max v)
  let reset = record ls { unroll_count = none; unroll_disable = none; unroll_full = none }
  if eq_ℤ v unroll_missing
      then some reset
      else if eq_ℤ v unroll_disable_code
      then some (record reset { unroll_disable = some true })
      else if eq_ℤ v unroll_full_code
      then some (record reset { unroll_full = some true })
      else (assert (within unroll_cnt_min unroll_cnt_max v)
          >> some (record reset { unroll_count = some (shift_u16 v) }))

abbrev pub vec_min : ℤ
vec_min = pos 0

abbrev pub vec_missing : ℤ
vec_missing = pos 6

abbrev pub vec_max : ℤ
vec_max = vec_missing

-- vecAsInt
pub vec_as_int : LoopSetting → ℤ
unfolding pow2_bit
vec_as_int ls = elim ls.vectorize_width [ none ↦ vec_missing | some w ↦ pos (pow2_bit w) ]

-- setVec
pub set_vec : LoopSetting → ℤ → Option LoopSetting
set_vec ls v =
    assert (within vec_min vec_max v)
    >> some (
        if eq_ℤ v vec_missing
        then record ls { vectorize_width = none }
        else record ls { vectorize_width = some (shift_u16 v) })

abbrev pub intrlv_min : ℤ
intrlv_min = pos 0

abbrev pub intrlv_missing : ℤ
intrlv_missing = pos 7

abbrev pub intrlv_max : ℤ
intrlv_max = intrlv_missing

-- interleaveAsInt
pub interleave_as_int : LoopSetting → ℤ
unfolding pow2_bit
interleave_as_int ls = elim ls.interleave_count [
  | none ↦ intrlv_missing
  | some c ↦ pos (pow2_bit c)
]

-- setInterleave
pub set_interleave : LoopSetting → ℤ → Option LoopSetting
set_interleave ls v =
    assert (within intrlv_min intrlv_max v)
    >> some (
        if eq_ℤ v intrlv_missing
        then record ls { interleave_count = none }
        else record ls { interleave_count = some (shift_u16 v) })

abbrev pub flag_true : ℤ
flag_true = pos 2

abbrev pub flag_missing : ℤ
flag_missing = pos 1

abbrev pub flag_false : ℤ
flag_false = pos 0

-- boolOptAsInt
pub bool_opt_as_int : Option Bool → ℤ
bool_opt_as_int none = flag_missing
bool_opt_as_int (some b) = if b then flag_true else flag_false

-- setBoolOpt. The source assigns `FLAG_TRUE ? true : false`, a test of the constant 2 and not of `v`.
pub set_bool_opt : ℤ → Option (Option Bool)
set_bool_opt v =
    assert (within flag_false flag_true v)
    >> some (
        if eq_ℤ v flag_missing
        then none
        else some (if not (eq_ℤ flag_true (pos 0)) then true else false))

abbrev pub section_missing : ℤ
section_missing = pos 1

abbrev pub section_max : ℤ
section_max = pos 128

-- sectionAsInt
pub section_as_int : LoopSetting → ℤ
section_as_int ls = elim ls.section [ none ↦ section_missing | some s ↦ pos s ]

-- setSection
pub set_section : LoopSetting → ℤ → Option LoopSetting
set_section ls v =
    assert (within section_missing section_max v)
    >> some (
        if eq_ℤ v section_missing
        then record ls { section = none }
        else record ls { section = some (pos_part v % 2 ^ 16) })
