-- ===== src/Driver/Tests.antt =====
-- Tests of the driver, over the program's feedback objects and an optimizer that counts.
use mathlib.Core.List.{Perm}
use at_jit.Prelude.{
  List, if◌then◌else◌, ℕ, ◌+◌, ◌*◌, ◌-◌, true, false, none, some, [], ◌∷◌, ltb, ◌==◌, ◌≡◌, refl,
  arith, inr,
}
use at_jit.Prelude.Fixed.{fixed}
use at_jit.Driver.Interfaces.{FeedbackOps, OptimizerOps, working}
use at_jit.Driver.Objects.{object_ops}
use at_jit.Feedback.{new_total}
use at_jit.Feedback.Object.{Object, total}
use at_jit.Driver.FunctionWrapper.{Ends, Returns, null_wrapper, wrap, ready as is_ready}
use at_jit.Driver.Failures.{CheckFrom, RecompileFrom, RecompileAsked}
use at_jit.Driver.Validity.{IsValid, IsSettled, IsGood, AllValid, slot_wrapper, reoptimize-AllValid}
use at_jit.Driver.Counters.{IsCounted, Counts, thresh, reoptimize_entry-IsCounted}
use at_jit.Driver.Policy.{Quiet, reoptimize_entry-Quiet, fast_experiment-perm, find_better_last}
use at_jit.Driver.{Info, reoptimize, reoptimize_entry, fast_experiment, find_better}

-- The n-th version is compiled with feedback that measures nothing yet; the sixtieth compilation fails.
abbrev counting : {F : Type 0} → F → OptimizerOps F
counting unmeasured = record {
  O = ℕ;
  initialize = λ o. 1;
  status = λ o. working;
  is_noop_tuner = λ o. false;
  wait_for_compile = λ o. false;
  recompile = λ o st.
      if o == 60
      then none
      else some (record {
        function = o;
        feedback = o;
        optimizer = o + 1;
        store = λ c. if o == c then unmeasured else st c;
      });
}

-- Feedback that is a running time, without a check.
abbrev times : FeedbackOps
times = record {
  F = ℕ;
  update_stats = λ t. some t;
  good_quality = λ t. true;
  deployed_time = λ t. 70000;
  reset_deployed_time = λ t. t;
  better = ltb;
}

-- The program's own feedback objects.
abbrev objects : FeedbackOps
objects = object_ops fixed

abbrev measured : ℕ → Object fixed
measured c = total (new_total fixed (c * 1000 + 3))

abbrev jit : OptimizerOps (Object fixed)
jit = counting (measured 0)

-- The same for a client that waits.
abbrev patient : OptimizerOps (Object fixed)
patient = record jit { wait_for_compile = λ o. true }

abbrev two_versions : Info ℕ ℕ
two_versions = record {
  opt = 3;
  trial = null_wrapper;
  best = wrap 1 1;
  others = wrap 2 2 ∷ [];
  deployment_thresh = 60000000;
  requests = 5;
  full_experiments = 1;
  fast_experiments = 0;
  best_swaps = 0;
}

abbrev one_entry : List (ℕ × Info ℕ ℕ)
one_entry = (7, two_versions) ∷ []

-- The running times: version n takes 100 - n.
abbrev slow : ℕ → ℕ
slow c = 100 - c

two_versions-IsSettled : IsSettled two_versions
two_versions-IsSettled = record {
  no_trial = refl;
  trial_usable = refl;
  best_ready = refl;
  others_ready = (refl, tt);
}

two_versions-IsValid : IsValid two_versions
two_versions-IsValid = record {
  trial_usable = refl;
  best_usable = refl;
  others_ready = (refl, tt);
  some_version = refl;
}

two_versions-IsCounted : IsCounted fixed 0 two_versions
unfolding thresh
two_versions-IsCounted = record {
  in_range = omega arith;
  swaps_in_fast = omega arith;
  kinds_in_requests = omega arith;
  versions_in_full = omega arith;
  threshold = refl;
}

reoptimize-AllValid_example :
    Ends
      (CheckFrom fixed objects jit measured)
      (RecompileAsked fixed objects jit measured one_entry 1)
      (λ s.
        AllValid fixed objects jit s.entries
        × (is_ready (slot_wrapper fixed objects jit s.reply) ≡ true))
      (reoptimize fixed objects jit ◌==◌ one_entry 7 1 measured)
reoptimize-AllValid_example =
    reoptimize-AllValid fixed objects jit ◌==◌ one_entry 7 1 measured (two_versions-IsValid, tt)

reoptimize_entry-IsCounted_example :
    Ends
      (CheckFrom fixed objects patient measured)
      (RecompileFrom fixed objects patient measured 3)
      (λ r. IsGood fixed objects patient r × Counts fixed objects patient 6 r)
      (reoptimize_entry fixed objects patient false two_versions measured)
reoptimize_entry-IsCounted_example =
    reoptimize_entry-IsCounted fixed objects patient two_versions measured two_versions-IsValid
      two_versions-IsCounted (omega arith)

reoptimize_entry-Quiet_example :
    Ends
      (CheckFrom fixed objects jit measured)
      ⊥
      (λ r. IsGood fixed objects jit r × Quiet fixed objects jit two_versions r.entry)
      (reoptimize_entry fixed objects jit false two_versions measured)
reoptimize_entry-Quiet_example =
    reoptimize_entry-Quiet fixed objects jit two_versions measured two_versions-IsValid
      (inr (refl, refl))

fast_experiment-perm_example :
    Ends
      (CheckFrom fixed objects jit measured)
      ⊥
      (λ r. IsSettled r.0 × Perm (r.0.best ∷ r.0.others) (wrap 1 1 ∷ wrap 2 2 ∷ []))
      (fast_experiment fixed objects jit two_versions measured 1)
fast_experiment-perm_example =
    fast_experiment-perm fixed objects jit two_versions measured 1 two_versions-IsSettled

-- Versions 3 and 2 are both faster than version 1; the measureder of the two is chosen.
find_better_last_example :
    Returns
      (λ r. r.0 ≡ some 1)
      (find_better fixed times (counting 0) (wrap 3 3 ∷ wrap 2 2 ∷ []) 1 0 none slow)
find_better_last_example =
    find_better_last fixed times (counting 0) (λ t. refl) (wrap 3 3 ∷ []) (wrap 2 2) 2 1 slow
      (refl, tt) refl refl refl
