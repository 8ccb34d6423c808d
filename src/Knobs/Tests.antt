-- ===== src/Knobs/Tests.antt =====
-- Tests of the knobs, on a set with one flag, one range and one loop.
use at_jit.Prelude.{ℕ, ◌<◌, true, some, [], ◌∷◌, length, ◌==◌, ◌≡◌, ◌≢◌, refl, arith, All}
use at_jit.Prelude.Int.{ℤ, pos, pos_part, ◌≤ℤ◌}
use at_jit.Prelude.Fixed.{fixed}
use at_jit.Prelude.Rng.{Rng}
use at_jit.Prelude.Partial.{Succeeds}
use at_jit.LoopSetting.{empty_setting}
use at_jit.LoopSetting.Domain.{empty_setting-IsSetting}
use at_jit.Context.Interfaces.{Hashes}
use at_jit.Context.{Context, forward, int_range, empty_context}
use at_jit.Knobs.Collect.{KnobIds, collect_knobs, knob_at, collect_knobs-lookup}
use at_jit.Knobs.Visit.{Distinct}
use at_jit.Knobs.Generate.{IsKnobSet, IsConfig}
use at_jit.Knobs.Perturb.{kept, perturb_config-IsConfig}
use at_jit.Knobs.Apply.{Accepts, Present, SetTo, apply_config_lem}
use at_jit.Knobs.{
  KnobSet, KnobConfig, flag_knob, optimizer_opt_lvl, lookup, all_ids, perturb_config, apply_config,
}

low : ℤ → ℤ → ℕ → ℤ × ℕ
low lo hi e = (lo, e)

low_bounds : (lo hi : ℤ) (e : ℕ) → lo ≤ℤ hi → (lo ≤ℤ (low lo hi e).0) × ((low lo hi e).0 ≤ℤ hi)
unfolding low
low_bounds lo hi e h = ground arith

abbrev plain : Rng fixed
plain = record {
  E = ℕ;
  uniform = low;
  normal = λ mean dev e. (mean, e);
  exponential = λ lambda e. (pos 2, e);
  canonical = λ e. (500, e);
  uniform_bounds = low_bounds;
}

abbrev knobs : KnobSet
knobs = record {
  int_knobs = (1, flag_knob true) ∷ (2, optimizer_opt_lvl (pos 3)) ∷ [];
  loop_knobs = (3, empty_setting) ∷ [];
}

abbrev config : KnobConfig
config = record { int_config = (2, pos 1) ∷ (1, pos 0) ∷ []; loop_config = (3, empty_setting) ∷ [] }

knob_ids_apart : Distinct knobs.int_knobs
knob_ids_apart = (((λ e. absurd (omega (arith, e))), tt), (tt, tt))

config_ids_apart : Distinct config.int_config
config_ids_apart = (((λ e. absurd (omega (arith, e))), tt), (tt, tt))

knobs-IsKnobSet : IsKnobSet knobs
knobs-IsKnobSet = record {
  distinct_ints = knob_ids_apart;
  distinct_loops = (tt, tt);
  ranges = ((omega arith, omega arith), ((omega arith, omega arith), tt));
}

config-IsConfig : IsConfig knobs config
unfolding lookup
config-IsConfig = record {
  ints = ((omega arith, omega arith), ((omega arith, omega arith), tt));
  loops = (empty_setting-IsSetting, tt);
}

-- An energy of 1 keeps all three ids.
kept_all : kept fixed plain 1000 (all_ids knobs) ≡ length (all_ids knobs)
unfolding all_ids
kept_all = refl

perturb_config-IsConfig_example :
    Succeeds
      (λ r. IsConfig knobs r.0)
      (perturb_config fixed plain true (λ ids. ids) config knobs 0 1000)
perturb_config-IsConfig_example =
    perturb_config-IsConfig fixed plain true (λ ids. ids) config knobs 0 1000 knobs-IsKnobSet
      config-IsConfig refl (omega (arith, kept_all))

-- The highest energy of the annealing tuner keeps 300 of three ids.
kept_too_many : length (all_ids knobs) < kept fixed plain 100000 (all_ids knobs)
unfolding all_ids
kept_too_many = omega arith

accepted : All (λ p. Accepts p.1 (lookup p.0 knobs.int_knobs)) config.int_config
unfolding lookup
accepted = ((tt, omega arith, omega arith), (((refl, refl), omega arith, omega arith), tt))

present : All (λ p. Present (lookup p.0 knobs.loop_knobs)) config.loop_config
unfolding lookup
present = (tt, tt)

apply_config_lem_example :
    Succeeds
      (λ r.
        All (λ p. SetTo p.1 (lookup p.0 knobs.int_knobs) (lookup p.0 r.int_knobs)) config.int_config
        × All (λ p. lookup p.0 r.loop_knobs ≡ some p.1) config.loop_config
        × ((j : ℕ)
            → All (λ p. p.0 ≢ j) config.int_config
            → lookup j r.int_knobs ≡ lookup j knobs.int_knobs)
        × ((j : ℕ)
            → All (λ p. p.0 ≢ j) config.loop_config
            → lookup j r.loop_knobs ≡ lookup j knobs.loop_knobs))
      (apply_config config knobs)
apply_config_lem_example = apply_config_lem config knobs config_ids_apart (tt, tt) accepted present

eq_nat_sym : (a b : ℕ) → (a == b) ≡ true → (b == a) ≡ true
eq_nat_sym a b e = ground arith

eq_nat_trans : (a b c : ℕ) → (a == b) ≡ true → (b == c) ≡ true → (a == c) ≡ true
eq_nat_trans a b c e f = ground arith

eq_nat-eq : (a b : ℕ) → (a == b) ≡ true → a ≡ b
eq_nat-eq a b e = ground arith

abbrev whole : Hashes
whole = record {
  Real = ℕ;
  eq_real = ◌==◌;
  hash_real = λ a. a;
  hash_unsigned = λ a. a;
  hash_int64 = pos_part;
  hash_ptr = λ a. a;
  eq_real_sym = eq_nat_sym;
  eq_real_trans = eq_nat_trans;
  hash_real_eq = eq_nat-eq;
}

-- A call with one argument that is free and one that is tuned between 1 and 64, at -O2
abbrev tuned_call : Context whole
tuned_call = record (empty_context whole) {
  args =
      forward 0
      ∷ int_range (record { lo = pos 1; hi = pos 64; cur = pos 8; dflt = pos 8; id = 7 })
      ∷ [];
  opt_level = 2;
}

abbrev four_ids : KnobIds
four_ids = record { opt_lvl_id = 1; opt_sz_id = 2; inline_id = 3; ipra_id = 4 }

collect_knobs-lookup_example :
    Succeeds
      (λ ks.
        ((id : ℕ)
          → lookup id ks.int_knobs ≡ knob_at whole (λ level size. pos 225) four_ids tuned_call id)
        × (ks.loop_knobs ≡ []))
      (collect_knobs whole (λ level size. pos 225) four_ids tuned_call)
collect_knobs-lookup_example =
    collect_knobs-lookup whole (λ level size. pos 225) four_ids tuned_call (omega arith)
      (omega arith)
