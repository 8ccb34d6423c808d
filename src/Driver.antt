-- ===== src/Driver.antt =====
-- include/tuner/driver.h: OptimizationInfo and the body of ATDriver::reoptimize on one entry of the
-- driver's map. The counters are uint64_t.
pub mod Interfaces
pub mod FunctionWrapper
pub mod Objects
pub mod Failures
pub mod Validity
pub mod Counters
pub mod Policy
mod Tests
use mathlib.Core.Option
use at_jit.Prelude.{
  ℕ, zero, suc, ◌+◌, ◌%◌, ◌^◌, Bool, true, false, not, ◌&&◌, Option, none, some, List, [], ◌∷◌,
  ◌++◌, length, set, get_elem?, if◌then◌else◌, ◌==◌, ltb,
}
use at_jit.Prelude.Int.{pos}
use at_jit.Prelude.Double.{Double}
use at_jit.Driver.Interfaces.{FeedbackOps, OptimizerOps, OptStatus, is_working, Recompiled}
use at_jit.Driver.FunctionWrapper.{
  Wrapper, Outcome, ok, assert_failed, check_failed, recompile_failed, ◌>>=◌, null_wrapper, wrap,
  is_empty, get_feedback,
}

abbrev pub u64 : ℕ → ℕ
u64 n = n % 2 ^ 64

-- struct OptimizationInfo, over the type of the threshold and that of the optimizer's state
pub record Info (D O : Type 0) : Type 0 where
  pub opt : O
  pub trial : Wrapper
  pub best : Wrapper
  pub others : List Wrapper
  pub deployment_thresh : D
  pub requests : ℕ
  pub full_experiments : ℕ
  pub fast_experiments : ℕ
  pub best_swaps : ℕ

-- Which field of the entry the returned reference points to.
pub data Slot : Type 0 where
  trial_slot best_slot : Slot

-- The decision before an experiment: `noop` is isNoopTuner, `impatient` is Impatient.
abbrev pub should_return_best : Bool → Bool → OptStatus → Bool → Bool
should_return_best noop impatient status long_enough =
    if noop
    then true
    else if impatient
    then (if is_working status then true else not long_enough)
    else false

module _ (dbl : Double) (fbk : FeedbackOps) (jit : OptimizerOps (FeedbackOps.F fbk)) where
  open dbl use {D, lit, add, mul, le, of_int}
  open fbk use {F, update_stats, good_quality, deployed_time, reset_deployed_time, better}
  open jit use {O, initialize, status, is_noop_tuner, wait_for_compile, recompile}

  abbrev pub Entry : Type 0
  Entry = Info D O

  abbrev pub Store : Type 0
  Store = ℕ → F

  -- The entry, the feedback objects in memory, and the reference that is returned.
  pub record Reply : Type 0 where
    pub entry : Entry
    pub store : Store
    pub slot : Slot

  abbrev pub write : Store → ℕ → F → Store
  write st b f c = if b == c then f else st c

  -- updateStats of the object at an address
  pub update_at : Store → ℕ → Outcome Store
  update_at st b = elim (update_stats (st b)) [ none ↦ check_failed | some f ↦ ok (write st b f) ]

  -- Feedback::betterThan: both objects are brought up to date first.
  pub better_than : Store → ℕ → ℕ → Outcome (Bool × Store)
  better_than st this other = do
    st1 ← update_at st this
    st2 ← update_at st1 other
    ok (better (st2 this) (st2 other), st2)

  pub new_info : O → Entry
  new_info o = record {
    opt = o;
    trial = null_wrapper;
    best = null_wrapper;
    others = [];
    deployment_thresh = lit 50000 0;
    requests = 0;
    full_experiments = 0;
    fast_experiments = 0;
    best_swaps = 0;
  }

  -- Trial = easy::jit_with_optimizer(OptFromEntry, Fun); return Trial.
  pub compile_trial : Entry → Store → Outcome Reply
  compile_trial e st = elim (recompile e.opt st) [
    | none ↦ recompile_failed
    | some r ↦ ok (record {
      entry = record e { opt = r.optimizer; trial = wrap r.function r.feedback };
      store = r.store;
      slot = trial_slot;
    })
  ]

  -- The trial is done: it becomes the best version, or one of the others. The version that it
  -- replaces is dropped.
  pub settle : Entry → Store → Outcome (Entry × Store)
  settle e st =
      if is_empty e.best then ok (record e { trial = null_wrapper; best = e.trial }, st) else do
        this ← get_feedback e.trial
        other ← get_feedback e.best
        verdict ← better_than st this other
        ok (
          if verdict.0
              then record e { trial = null_wrapper; best = e.trial }
              else record e { trial = null_wrapper; others = e.others ++ e.trial ∷ [] },
          verdict.1,
        )

  -- Check if the trial version is done.
  pub check_trial : Entry → Store → Outcome (Entry × Store)
  check_trial e st = if is_empty e.trial then ok (e, st) else do
    b ← get_feedback e.trial
    updated ← update_at st b
    if good_quality (updated b) then settle e updated else ok (e, updated)

  -- Obtain a totally new version: reset the deployed time, raise the threshold, recompile.
  pub experiment : Entry → Store → ℕ → Outcome Reply
  experiment e st b =
      compile_trial
        (record e {
          full_experiments = u64 (e.full_experiments + 1);
          deployment_thresh = add e.deployment_thresh (mul e.deployment_thresh (lit 2 1));
        })
        (write st b (reset_deployed_time (st b)))

  -- The loop over `Others`: the index of the last version that is better than the best.
  pub find_better : List Wrapper → ℕ → ℕ → Option ℕ → Store → Outcome (Option ℕ × Store)
  find_better [] best i found st = ok (found, st)
  find_better (w ∷ ws) best i found st = do
    old ← get_feedback w
    verdict ← better_than st old best
    find_better ws best (suc i) (if verdict.0 then some i else found) verdict.1

  abbrev or_null : Option Wrapper → Wrapper
  or_null none = null_wrapper
  or_null (some w) = w

  -- Swap the best version with `Others[i]`, and reset the new best's deployed time.
  pub swap : Entry → Store → ℕ → Outcome (Entry × Store)
  swap e st i = do
    let chosen = or_null (get_elem? e.others i)
    b ← get_feedback chosen
    ok (
      record e {
        best_swaps = u64 (e.best_swaps + 1);
        best = chosen;
        others = set e.others i e.best;
      },
      write st b (reset_deployed_time (st b)),
    )

  swap_found : Option ℕ → Entry → Store → Outcome (Entry × Store)
  swap_found none e st = ok (e, st)
  swap_found (some i) e st = swap e st i

  -- The quick recheck whether the best version is still the best.
  pub fast_experiment : Entry → Store → ℕ → Outcome (Entry × Store)
  fast_experiment e st b = do
    let counted = record e { fast_experiments = u64 (e.fast_experiments + 1) }
    (found, st1) ← find_better e.others b 0 none st
    swap_found found counted st1

  abbrev pub has_others : Entry → Bool
  has_others e = ltb 0 (length e.others)

  abbrev pub deployed_long_enough : Entry → Store → ℕ → Bool
  deployed_long_enough e st b = le e.deployment_thresh (of_int (pos (deployed_time (st b))))

  abbrev pub keep_best : Entry → Bool → Bool
  keep_best e =
      should_return_best (is_noop_tuner e.opt) (not (wait_for_compile e.opt)) (status e.opt)

  -- The end of the body, from the lookup of the best version's feedback.
  pub use_best : Entry → Store → Outcome Reply
  use_best e st = do
    b ← get_feedback e.best
    let long_enough = deployed_long_enough e st b
    let stay = keep_best e long_enough
    if not stay
        then experiment e st b
        else if long_enough && has_others e
        then (fast_experiment e st b >>= λ r.
            ok (record { entry = r.0; store = r.1; slot = best_slot }))
        else ok (record { entry = e; store = st; slot = best_slot })

  -- After the trial's check: a trial that is still evaluated is returned.
  pick_slot : Entry × Store → Outcome Reply
  pick_slot (e, st) =
      if not (is_empty e.trial)
      then ok (record { entry = e; store = st; slot = trial_slot })
      else if is_empty e.best
      then assert_failed
      else use_best e st

  -- The body of reoptimize after `Info.Requests += 1`, for an entry that was in the map.
  pub serve : Entry → Store → Outcome Reply
  serve e st = check_trial e st >>= pick_slot

  -- The body of reoptimize from `Info.Requests += 1` on.
  pub reoptimize_entry : Bool → Entry → Store → Outcome Reply
  reoptimize_entry was_not_in_cache e st =
      let counted = record e { requests = u64 (e.requests + 1) } in
      if was_not_in_cache
      then compile_trial (record counted { opt = initialize e.opt }) st
      else serve counted st

  -- The driver's map, with the reference that the last request returned.
  pub record Served (K : Type 0) : Type 0 where
    pub entries : List (K × Entry)
    pub reply : Reply

  module _ {K : Type 0} (same_key : K → K → Bool) where
    -- unordered_map::emplace and the rest of reoptimize: the entry that is there is used, and a
    -- missing one is made of the new optimizer `o`.
    pub reoptimize : List (K × Entry) → K → O → Store → Outcome (Served K)
    reoptimize [] k o st = do
      r ← reoptimize_entry true (new_info o) st
      ok (record { entries = (k, r.entry) ∷ []; reply = r })
    reoptimize ((j, e) ∷ m) k o st =
        let found =
          (reoptimize_entry false e st >>= λ r.
          ok (record { entries = (j, r.entry) ∷ m; reply = r })) in
        let missing =
          (reoptimize m k o st >>= λ s.
          ok (record { entries = (j, e) ∷ s.entries; reply = s.reply })) in
        if same_key j k then found else missing
