-- ===== src/Tuners/Tests.antt =====
-- Tests of the tuners.
use at_jit.Prelude.{
  ℕ, Option, ◌&&◌, leb, ◌==◌, true, false, none, some, [], ◌∷◌, ltb, ◌≡◌, refl, arith,
}
use at_jit.Prelude.Int.{ℤ, pos, ◌≤ℤ◌}
use at_jit.Prelude.Fixed.{fixed}
use at_jit.Prelude.Rng.{Rng}
use at_jit.Prelude.Partial.{Succeeds, if-cases}
use at_jit.Context.{fb_none, fb_total}
use at_jit.LoopSetting.{empty_setting}
use at_jit.LoopSetting.Domain.{empty_setting-IsSetting}
use at_jit.Feedback.{new_total}
use at_jit.Feedback.Object.{Object, total, create_feedback, update_stats}
use at_jit.Knobs.{KnobSet, KnobConfig, optimizer_opt_lvl, lookup}
use at_jit.Knobs.Generate.{IsKnobSet, IsConfig}
use at_jit.Knobs.Perturb.{Percentage}
use at_jit.Tuners.Annealing
use at_jit.Tuners.Annealing.{AnnealingTuner, cooling_schedule, perturb_energy, probability}
use at_jit.Tuners.Annealing.Steps.{Inv, HasCost, Draws, Accepted, EnergyIs}
use at_jit.Tuners.Annealing.Next.{Outcome, get_next_config-Outcome}
use at_jit.Tuners.Random.{Extends, get_next_config-AllConfigs}
use at_jit.Tuners.{best_seen, RandomTuner, get_next_config}

ltb_irrefl : (a : ℕ) → ltb a a ≡ false
ltb_irrefl a = ground arith

ltb_trans : (a b c : ℕ) → ltb a b ≡ true → ltb b c ≡ true → ltb a c ≡ true
ltb_trans a b c p q = ground arith

-- Of the times 7, 3 and 5 the least is the best.
best_of_three : best_seen ltb (7 ∷ 3 ∷ 5 ∷ []) none ≡ some 3
unfolding best_seen
best_of_three = refl

low : ℤ → ℤ → ℕ → ℤ × ℕ
low lo hi e = (lo, e)

low_bounds : (lo hi : ℤ) (e : ℕ) → lo ≤ℤ hi → (lo ≤ℤ (low lo hi e).0) × ((low lo hi e).0 ≤ℤ hi)
unfolding low
low_bounds lo hi e h = ground arith

abbrev plain : Rng fixed
plain = record {
  E = ℕ;
  uniform = low;
  normal = λ mean dev e. (mean, e);
  exponential = λ lambda e. (pos 2, e);
  canonical = λ e. (500, e);
  uniform_bounds = low_bounds;
}

abbrev knobs : KnobSet
knobs = record {
  int_knobs = (2, optimizer_opt_lvl (pos 3)) ∷ [];
  loop_knobs = (3, empty_setting) ∷ [];
}

knobs-IsKnobSet : IsKnobSet knobs
knobs-IsKnobSet = record {
  distinct_ints = (tt, tt);
  distinct_loops = (tt, tt);
  ranges = ((omega arith, omega arith), tt);
}

abbrev fresh : RandomTuner fixed plain
fresh = record { configs = []; gen = 0 }

feedback_made : Succeeds (λ fb. Unit {0}) (create_feedback fixed fb_none (some fb_total))
unfolding create_feedback
feedback_made = tt

get_next_config-AllConfigs_example :
    Succeeds
      (Extends fixed plain knobs fresh)
      (get_next_config fixed plain true fb_none knobs fresh)
get_next_config-AllConfigs_example =
    get_next_config-AllConfigs fixed plain true fb_none knobs fresh knobs-IsKnobSet tt feedback_made

abbrev AnyNumber : ℕ → Type 0
AnyNumber d = Unit

abbrev full_speed : KnobConfig
full_speed = record { int_config = (2, pos 3) ∷ []; loop_config = (3, empty_setting) ∷ [] }

full_speed-IsConfig : IsConfig knobs full_speed
unfolding lookup
full_speed-IsConfig = record {
  ints = ((omega arith, omega arith), tt);
  loops = (empty_setting-IsSetting, tt);
}

abbrev measured : ℕ → Object fixed
measured time = total (record (new_total fixed 10000) { average = time; data_points = 5 })

measured-HasCost : (time : ℕ) → HasCost fixed plain AnyNumber knobs (measured time)
unfolding update_stats
measured-HasCost time = tt

-- After three time steps, with two entries that are measured
abbrev annealing : AnnealingTuner fixed plain
annealing = record {
  configs = (full_speed, measured 4000) ∷ (full_speed, measured 3000) ∷ [];
  gen = 0;
  time_step = 3;
  max_temp = 500000000;
  initialized = true;
  current = 0;
  trial = 1;
}

annealing-Inv : Inv fixed plain AnyNumber knobs annealing
annealing-Inv = record {
  entries = (
    (full_speed-IsConfig, measured-HasCost 4000),
    ((full_speed-IsConfig, measured-HasCost 3000), tt),
  );
  current_there = omega arith;
  trial_there = omega arith;
}

no_chance : Draws fixed plain AnyNumber knobs
unfolding probability cooling_schedule
no_chance step cur trial u v worse =
    if-cases Chance (step == 0) (some 0) _ (λ e. refl)
      λ not_0.
        if-cases Chance (step == 1) (some 1000) _ (λ e. refl)
          λ not_1. let late : ltb 1 step ≡ true = ground arith in rw late refl
  where
    Chance : Option ℕ → Type 0
    Chance = Succeeds (λ p. (leb 0 p && leb p 1000) ≡ true)

accepted_total : Accepted fixed plain AnyNumber knobs false (λ ids. ids) fb_none
unfolding create_feedback update_stats
accepted_total = tt

energy_of_next :
    EnergyIs fixed plain AnyNumber knobs false
      (λ ids. ids)
      fb_none
      (Percentage fixed plain)
      annealing
unfolding perturb_energy cooling_schedule
energy_of_next = refl

get_next_config-Outcome_example :
    Outcome fixed plain AnyNumber knobs false
      (λ ids. ids)
      fb_none
      annealing
      (Annealing.get_next_config fixed plain false (λ ids. ids) fb_none knobs annealing)
get_next_config-Outcome_example =
    get_next_config-Outcome fixed plain AnyNumber knobs false (λ ids. ids) fb_none annealing
      knobs-IsKnobSet no_chance accepted_total energy_of_next annealing-Inv
