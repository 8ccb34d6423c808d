-- ===== src/LoopSetting/Codes.antt =====
-- The integer coding of the options: what a setter stores is what the reader gives back.
use native.Mathlib.Decide.{ℕ_discrete}
use at_jit.Prelude.{subst, sym, ℕ, zero, suc, false, some, ◌≡◌, ◌≢◌, refl, arith, if◌then◌else◌}
use at_jit.Prelude.Int.{ℤ, pos, negsuc, ◌≤ℤ◌, eq_ℤ}
use at_jit.Prelude.Partial.{◌>>=◌, Succeeds}
use at_jit.LoopSetting.{
  LoopSetting, unroll_min, unroll_max, vec_min, vec_max, intrlv_min, intrlv_max, section_missing,
  section_max, flag_false, flag_missing, flag_true, unroll_as_int, set_unroll, vec_as_int, set_vec,
  interleave_as_int, set_interleave, section_as_int, set_section, bool_opt_as_int, set_bool_opt,
}

-- A fact about every code from 0 to n is checked code by code.
abbrev pub Cases : (ℤ → Type 0) → ℕ → Type 0
Cases P zero = P (pos zero)
Cases P (suc n) = Cases P n × P (pos (suc n))

pub Cases-apply : (P : ℤ → Type 0) (n : ℕ) (v : ℤ) → Cases P n → pos 0 ≤ℤ v → v ≤ℤ pos n → P v
Cases-apply P zero (pos zero) c lo hi = c
Cases-apply P zero (pos (suc k)) c lo hi = absurd (omega arith)
Cases-apply P n (negsuc k) c lo hi = absurd (omega arith)
Cases-apply P (suc n) (pos k) c lo hi = elim (ℕ_discrete k (suc n)) [
  | yes e ↦ subst (λ j. P (pos j)) (sym e) c.1
  | no below ↦ Cases-apply P n (pos k) c.0 lo (omega arith)
]

-- For every code in range, setUnroll passes its assertions and unrollAsInt gives the code back.
pub unroll_round_trip :
    (ls : LoopSetting) (v : ℤ)
    → unroll_min ≤ℤ v
    → v ≤ℤ unroll_max
    → (set_unroll ls v >>= unroll_as_int) ≡ some v
unfolding set_unroll unroll_as_int
unroll_round_trip ls v lo hi =
    Cases-apply (λ v. (set_unroll ls v >>= unroll_as_int) ≡ some v) 7 v
      (((((((refl, refl), refl), refl), refl), refl), refl), refl) lo hi

-- For every code in range, setVec passes its assertion and vecAsInt gives the code back.
vec_round_trip :
    (ls : LoopSetting) (v : ℤ)
    → vec_min ≤ℤ v
    → v ≤ℤ vec_max
    → Succeeds (λ s. vec_as_int s ≡ v) (set_vec ls v)
unfolding set_vec vec_as_int
vec_round_trip ls v lo hi =
    Cases-apply (λ v. Succeeds (λ s. vec_as_int s ≡ v) (set_vec ls v)) 6 v
      ((((((refl, refl), refl), refl), refl), refl), refl) lo hi

-- For every code in range, setInterleave passes its assertion and interleaveAsInt gives the code back.
interleave_round_trip :
    (ls : LoopSetting) (v : ℤ)
    → intrlv_min ≤ℤ v
    → v ≤ℤ intrlv_max
    → Succeeds (λ s. interleave_as_int s ≡ v) (set_interleave ls v)
unfolding set_interleave interleave_as_int
interleave_round_trip ls v lo hi =
    Cases-apply (λ v. Succeeds (λ s. interleave_as_int s ≡ v) (set_interleave ls v)) 7 v
      (((((((refl, refl), refl), refl), refl), refl), refl), refl) lo hi

-- For every code in range, setSection passes its assertion and sectionAsInt gives the code back.
section_round_trip :
    (ls : LoopSetting) (v : ℤ)
    → section_missing ≤ℤ v
    → v ≤ℤ section_max
    → Succeeds (λ s. section_as_int s ≡ v) (set_section ls v)
unfolding set_section section_as_int
section_round_trip ls v lo hi = ground arith

-- For every code in range, setBoolOpt passes its assertion and stores the missing value for the code
-- of "missing" and true for the two others, that of "false" included: it never stores false.
pub set_bool_opt_lem :
    (v : ℤ)
    → flag_false ≤ℤ v
    → v ≤ℤ flag_true
    → Succeeds
        (λ o.
          (o ≢ some false)
          × (bool_opt_as_int o ≡ (if eq_ℤ v flag_missing then flag_missing else flag_true)))
        (set_bool_opt v)
unfolding set_bool_opt bool_opt_as_int
set_bool_opt_lem v lo hi = ground arith

-- For all codes in range, setVec, setInterleave and setSection pass their assertions, and vecAsInt, interleaveAsInt
-- and sectionAsInt give the codes back.
pub count_round_trips :
    (ls : LoopSetting) (v i s : ℤ)
    → vec_min ≤ℤ v
    → v ≤ℤ vec_max
    → intrlv_min ≤ℤ i
    → i ≤ℤ intrlv_max
    → section_missing ≤ℤ s
    → s ≤ℤ section_max
    → Succeeds (λ r. vec_as_int r ≡ v) (set_vec ls v)
      × Succeeds (λ r. interleave_as_int r ≡ i) (set_interleave ls i)
      × Succeeds (λ r. section_as_int r ≡ s) (set_section ls s)
count_round_trips ls v i s v_lo v_hi i_lo i_hi s_lo s_hi = (
  vec_round_trip ls v v_lo v_hi,
  interleave_round_trip ls i i_lo i_hi,
  section_round_trip ls s s_lo s_hi,
)
