-- ===== src/Knobs/Apply.antt =====
-- Tuner::applyConfig: every knob that the configuration names takes its value.
use at_jit.Prelude.{ℕ, Option, none, some, ◌≡◌, ◌≢◌, refl, arith, All}
use at_jit.Prelude.Int.{ℤ, pos, ◌≤ℤ◌}
use at_jit.Prelude.Partial.{Succeeds, >>=-Succeeds}
use at_jit.LoopSetting.{LoopSetting}
use at_jit.Knobs.Visit.{Distinct, StepLaw, visit-Post, lookup-insert_self, lookup-insert_ne}
use at_jit.Knobs.{
  Map, lookup, ScalarInt, Check, flag, range, unchecked, KnobSet, KnobConfig, set_scalar, visit,
  set_int, set_loop, apply_config,
}

-- A flag's range is from 0 to 1.
abbrev pub Shape : Check → ℤ → ℤ → Type 0
Shape flag lo hi = (lo ≡ pos 0) × (hi ≡ pos 1)
Shape range lo hi = Unit
Shape unchecked lo hi = Unit

-- The knob is there, and the value is in its range.
abbrev pub Accepts : ℤ → Option ScalarInt → Type 0
Accepts v none = ⊥
Accepts v (some k) = Shape k.check k.lo k.hi × (k.lo ≤ℤ v) × (v ≤ℤ k.hi)

-- The same knob, with the value.
abbrev pub SetTo : ℤ → Option ScalarInt → Option ScalarInt → Type 0
SetTo v (some k) o' = o' ≡ some (record k { val = v })
SetTo v none o' = ⊥

abbrev pub Present : Option LoopSetting → Type 0
Present none = ⊥
Present (some s) = Unit

set_scalar_lem :
    (k : ScalarInt) (v : ℤ) → Accepts v (some k) → set_scalar k v ≡ some (record k { val = v })
unfolding set_scalar
set_scalar_lem k v h = ground arith

set_int-at :
    (id : ℕ) (v : ℤ) (ks : Map ScalarInt) (u : Unit {0}) (o : Option ScalarInt)
    → lookup id ks ≡ o
    → Accepts v o
    → Succeeds
        (λ r. SetTo v o (lookup id r.0) × ((j : ℕ) → j ≢ id → lookup j r.0 ≡ lookup j ks))
        (set_int id v ks u)
unfolding set_int
set_int-at id v ks u (some k) found ok =
    rw (found, set_scalar_lem k v ok)
      (lookup-insert_self ks id _, λ j ne. lookup-insert_ne ks id j _ ne)
set_int-at id v ks u none found ok = absurd ok

set_int-Law : StepLaw set_int Accepts (λ id v. SetTo v)
set_int-Law id v ks u ok = set_int-at id v ks u (lookup id ks) refl ok

set_loop-at :
    (id : ℕ) (s : LoopSetting) (ks : Map LoopSetting) (u : Unit {0}) (o : Option LoopSetting)
    → lookup id ks ≡ o
    → Present o
    → Succeeds
        (λ r. (lookup id r.0 ≡ some s) × ((j : ℕ) → j ≢ id → lookup j r.0 ≡ lookup j ks))
        (set_loop id s ks u)
unfolding set_loop
set_loop-at id s ks u (some k) found ok =
    rw found (lookup-insert_self ks id s, λ j ne. lookup-insert_ne ks id j s ne)
set_loop-at id s ks u none found ok = absurd ok

set_loop-Law : StepLaw set_loop (λ s. Present) (λ id s o o'. o' ≡ some s)
set_loop-Law id s ks u ok = set_loop-at id s ks u (lookup id ks) refl ok

-- For a configuration with distinct ids whose knobs are all in the set, with the values in their ranges,
-- applyConfig gives each of these knobs its value, and leaves the other knobs as they are.
pub apply_config_lem :
    (c : KnobConfig) (ks : KnobSet)
    → Distinct c.int_config
    → Distinct c.loop_config
    → All (λ p. Accepts p.1 (lookup p.0 ks.int_knobs)) c.int_config
    → All (λ p. Present (lookup p.0 ks.loop_knobs)) c.loop_config
    → Succeeds
        (λ r.
          All (λ p. SetTo p.1 (lookup p.0 ks.int_knobs) (lookup p.0 r.int_knobs)) c.int_config
          × All (λ p. lookup p.0 r.loop_knobs ≡ some p.1) c.loop_config
          × ((j : ℕ)
              → All (λ p. p.0 ≢ j) c.int_config
              → lookup j r.int_knobs ≡ lookup j ks.int_knobs)
          × ((j : ℕ)
              → All (λ p. p.0 ≢ j) c.loop_config
              → lookup j r.loop_knobs ≡ lookup j ks.loop_knobs))
        (apply_config c ks)
unfolding apply_config
apply_config_lem c ks di dl ints loops =
    >>=-Succeeds _ (visit set_int c.int_config ks.int_knobs tt) _
      (visit-Post set_int Accepts (λ id v. SetTo v) set_int-Law c.int_config ks.int_knobs tt di
        ints)
      λ (ints', u) (post, frame).
        >>=-Succeeds _ (visit set_loop c.loop_config ks.loop_knobs tt) _
          (visit-Post set_loop (λ s. Present) (λ id s o o'. o' ≡ some s) set_loop-Law c.loop_config
            ks.loop_knobs tt dl loops)
          λ (loops', u') (posts, frames). (post, posts, frame, frames)
