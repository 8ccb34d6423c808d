-- ===== src/Driver/Policy.antt =====
-- What a request of ATDriver::reoptimize may and may not do: when it experiments, and what the quick
-- swap of the best version keeps.
use mathlib.Core.List.{Perm}
use mathlib.Core.List.Perm
use at_jit.Prelude.{
  ℕ, zero, suc, ◌+◌, true, false, not, ◌&&◌, Option, none, some, List, [], ◌∷◌, ◌++◌, length, set,
  get_elem?, if◌then◌else◌, ◌≡◌, refl, sym, arith, ◌⊎◌, inl, inr, Option-cases, some-none, ap,
  subst, ◌∙◌,
}
use at_jit.Prelude.Double.{Double}
use at_jit.Driver.Interfaces.{FeedbackOps, OptimizerOps, working}
use at_jit.Driver.FunctionWrapper.{
  Wrapper, Outcome, ok, check_failed, Ends, Returns, Ends-mono, ready, Ends-IfEnds, IfEnds,
  >>=-IfEnds, IfEnds-if, IfEnds-weaken, get_feedback-IfEnds, is_empty, get_feedback,
}
use at_jit.Driver.Failures.{
  Traces, CheckFrom, there, Ends-Traces, reoptimize_entry-ends, fast_experiment-ends,
}
use at_jit.Driver.Validity.{
  IsValid, IsSettled, IsGood, CheckFails, Checks, AllReady, InRange, AllReady-append_one,
  find_better-InRange, fast_experiment-IsSettled, reoptimize_entry-IsGood,
}
use at_jit.Driver.{
  Entry, Store, settle, check_trial, find_better, swap, swap_found, fast_experiment, use_best,
  pick_slot, serve, reoptimize_entry, deployed_long_enough, has_others, keep_best, update_at,
  better_than, write,
}

-- A list with `y` put in the place of `x`.
set-perm {ℓ} :
    {A : Type ℓ} (xs : List A) (i : ℕ) (x y : A)
    → get_elem? xs i ≡ some x
    → Perm (x ∷ set xs i y) (y ∷ xs)
set-perm [] i x y h = cc
set-perm (z ∷ xs) zero x y h =
    let same : z ≡ x = cc in
    subst (λ w. Perm (x ∷ y ∷ xs) (y ∷ w ∷ xs)) (sym same) (Perm.swap y x xs)
set-perm (z ∷ xs) (suc i) x y h =
    Perm.trans (Perm.swap z x _) (Perm.trans (Perm.cons z (set-perm xs i x y h)) (Perm.swap y z xs))

module _ (dbl : Double) (fbk : FeedbackOps) (jit : OptimizerOps (FeedbackOps.F fbk)) where
  open jit use {O, is_noop_tuner, wait_for_compile, status}

  -- The tuner is the no-op one, or the context does not wait and a compile job is running.
  abbrev pub MustNotWait : O → Type 0
  MustNotWait o = (is_noop_tuner o ≡ true) ⊎ ((wait_for_compile o ≡ false) × (status o ≡ working))

  -- What returns or fails in a call, and does not call recompile(), fails in updateStats only.
  without_recompile :
      {A : Type 0} (R : Type 0) (P Q : A → Type 0) (m : Outcome A)
      → Ends (CheckFails dbl fbk jit) R P m
      → IfEnds ⊥ Q m
      → Checks dbl fbk jit (λ a. P a × Q a) m
  without_recompile R P Q m p q =
      Ends-mono _ _ _ _ _ _ m (λ f. f) (λ f. f.1) (λ a x. x) (Ends-IfEnds _ _ ⊥ _ _ m p q)

  -- The object on which a CHECK fails is one of the request.
  because :
      {A : Type 0} (st : Store dbl fbk jit) (S : Type 0) (P Q : A → Type 0) (m : Outcome A)
      → Traces (CheckFrom dbl fbk jit st) S Q m
      → Checks dbl fbk jit P m
      → Ends (CheckFrom dbl fbk jit st) ⊥ P m
  because st S P Q m t h =
      Ends-mono _ _ _ _ _ _ m (λ f. f) (λ r. absurd r.0) (λ a p. p) (Ends-Traces _ _ _ _ _ _ m h t)

  -- Nothing that an experiment changes is changed.
  abbrev pub Quiet : Entry dbl fbk jit → Entry dbl fbk jit → Type 0
  Quiet e f =
      (f.opt ≡ e.opt)
      × (f.full_experiments ≡ e.full_experiments)
      × (f.deployment_thresh ≡ e.deployment_thresh)

  -- Bringing an object up to date, and comparing two, never calls recompile().
  update_at-calm :
      (st : Store dbl fbk jit) (b : ℕ) → IfEnds ⊥ (λ st'. Unit) (update_at dbl fbk jit st b)
  unfolding update_at
  update_at-calm st b = by_result (fbk.update_stats (st b))
    where
      by_result :
          (o : Option fbk.F)
          → IfEnds ⊥
              (λ st'. Unit {0})
              (elim o [ none ↦ check_failed | some f ↦ ok (write dbl fbk jit st b f) ])
      by_result none = tt
      by_result (some f) = tt

  better_than-calm :
      (st : Store dbl fbk jit) (a b : ℕ) → IfEnds ⊥ (λ r. Unit) (better_than dbl fbk jit st a b)
  unfolding better_than
  better_than-calm st a b =
      >>=-IfEnds ⊥ _ (update_at dbl fbk jit st a) _ (update_at-calm st a)
        λ st1 _. >>=-IfEnds ⊥ _ (update_at dbl fbk jit st1 b) _ (update_at-calm st1 b) (λ st2 _. tt)

  find_better-calm :
      (ws : List Wrapper) (best i : ℕ) (found : Option ℕ) (st : Store dbl fbk jit)
      → IfEnds ⊥ (λ r. Unit) (find_better dbl fbk jit ws best i found st)
  unfolding find_better
  find_better-calm [] best i found st = tt
  find_better-calm (w ∷ ws) best i found st =
      >>=-IfEnds ⊥ _ (get_feedback w) _ (get_feedback-IfEnds ⊥ w) λ b _.
        >>=-IfEnds ⊥ _ (better_than dbl fbk jit st b best) _ (better_than-calm st b best)
          λ verdict _.
            find_better-calm ws best (suc i) (if verdict.0 then some i else found) verdict.1

  settle-Quiet :
      (e : Entry dbl fbk jit) (st : Store dbl fbk jit)
      → IfEnds ⊥ (λ r. Quiet e r.0) (settle dbl fbk jit e st)
  unfolding settle
  settle-Quiet e st =
      IfEnds-if ⊥ _ (is_empty e.best) _ _ (λ first. (refl, refl, refl))
        λ later. >>=-IfEnds ⊥ _ (get_feedback e.trial) _ (get_feedback-IfEnds ⊥ e.trial) λ this _.
          >>=-IfEnds ⊥ _ (get_feedback e.best) _ (get_feedback-IfEnds ⊥ e.best) λ other _.
            >>=-IfEnds ⊥ _ (better_than dbl fbk jit st this other) _
              (better_than-calm st this other) (λ verdict _. ground arith)

  check_trial-Quiet :
      (e : Entry dbl fbk jit) (st : Store dbl fbk jit)
      → IfEnds ⊥ (λ r. Quiet e r.0) (check_trial dbl fbk jit e st)
  unfolding check_trial
  check_trial-Quiet e st =
      IfEnds-if ⊥ _ (is_empty e.trial) _ _ (λ _. (refl, refl, refl))
        λ busy. >>=-IfEnds ⊥ _ (get_feedback e.trial) _ (get_feedback-IfEnds ⊥ e.trial) λ b _.
          >>=-IfEnds ⊥ _ (update_at dbl fbk jit st b) _ (update_at-calm st b) λ updated _.
            IfEnds-if ⊥ _ (fbk.good_quality (updated b)) _ _ (λ _. settle-Quiet e updated)
              (λ _. (refl, refl, refl))

  swap_found-Quiet :
      (found : Option ℕ) (e : Entry dbl fbk jit) (st : Store dbl fbk jit)
      → IfEnds ⊥ (λ r. Quiet e r.0) (swap_found dbl fbk jit found e st)
  unfolding swap_found swap
  swap_found-Quiet none e st = (refl, refl, refl)
  swap_found-Quiet (some i) e st = ground arith

  fast_experiment-Quiet :
      (e : Entry dbl fbk jit) (st : Store dbl fbk jit) (b : ℕ)
      → IfEnds ⊥ (λ r. Quiet e r.0) (fast_experiment dbl fbk jit e st b)
  unfolding fast_experiment
  fast_experiment-Quiet e st b =
      >>=-IfEnds ⊥ _ (find_better dbl fbk jit e.others b 0 none st) _
        (find_better-calm e.others b 0 none st) λ r _. swap_found-Quiet r.0 _ r.1

  use_best-Quiet :
      (e : Entry dbl fbk jit) (st : Store dbl fbk jit)
      → MustNotWait e.opt
      → IfEnds ⊥ (λ r. Quiet e r.entry) (use_best dbl fbk jit e st)
  unfolding use_best
  use_best-Quiet e st h =
      >>=-IfEnds ⊥ _ (get_feedback e.best) _ (get_feedback-IfEnds ⊥ e.best) λ b _.
        let long_enough = deployed_long_enough dbl fbk jit e st b in
        IfEnds-if ⊥ _ (not (keep_best dbl fbk jit e long_enough)) _ _
          (λ leave. absurd (ground arith))
          λ _.
            IfEnds-if ⊥ _ (long_enough && has_others dbl fbk jit e) _ _
              (λ _.
                >>=-IfEnds ⊥ _ (fast_experiment dbl fbk jit e st b) _ (fast_experiment-Quiet e st b)
                  (λ r c. c))
              (λ _. (refl, refl, refl))

  pick_slot-Quiet :
      (e : Entry dbl fbk jit) (st : Store dbl fbk jit)
      → MustNotWait e.opt
      → IfEnds ⊥ (λ r. Quiet e r.entry) (pick_slot dbl fbk jit (e, st))
  unfolding pick_slot
  pick_slot-Quiet e st h =
      IfEnds-if ⊥ _ (not (is_empty e.trial)) _ _ (λ _. (refl, refl, refl))
        λ _. IfEnds-if ⊥ _ (is_empty e.best) _ _ (λ _. tt) (λ _. use_best-Quiet e st h)

  -- Where the tuner is the no-op one, or the context does not wait and a compile job is running, a
  -- request for a valid entry returns a callable version, or ends where updateStats of an object of the request fails
  -- a CHECK, and never asks the optimizer for another version:
  -- the optimizer, the number of full experiments and the threshold stay as they were.
  pub reoptimize_entry-Quiet :
      (e : Entry dbl fbk jit) (st : Store dbl fbk jit)
      → IsValid e
      → MustNotWait e.opt
      → Ends
          (CheckFrom dbl fbk jit st)
          ⊥
          (λ r. IsGood dbl fbk jit r × Quiet e r.entry)
          (reoptimize_entry dbl fbk jit false e st)
  unfolding reoptimize_entry serve
  reoptimize_entry-Quiet e st v h =
      let run = reoptimize_entry dbl fbk jit false e st in
      because st _ _ _ run (reoptimize_entry-ends dbl fbk jit st e st there) (
        without_recompile _ _ _ run (reoptimize_entry-IsGood dbl fbk jit e st v) (
          >>=-IfEnds ⊥ _ (check_trial dbl fbk jit _ st) _ (check_trial-Quiet _ st) λ r q.
            IfEnds-weaken ⊥ (λ s. Quiet r.0 s.entry) (λ s. Quiet e s.entry)
              (pick_slot dbl fbk jit r) (λ s c. (c.0 ∙ q.0, c.1 ∙ q.1, c.2 ∙ q.2))
              (pick_slot-Quiet r.0 r.1 (rw q.0 h))))

  swap_found-perm :
      (found : Option ℕ) (e : Entry dbl fbk jit) (st : Store dbl fbk jit)
      → IfEnds ⊥
          (λ r. Perm (r.0.best ∷ r.0.others) (e.best ∷ e.others))
          (swap_found dbl fbk jit found e st)
  unfolding swap_found swap
  swap_found-perm none e st = Perm.refl _
  swap_found-perm (some i) e st = elim (Option-cases (get_elem? e.others i)) [
    | inl missing ↦ rw missing tt
    | inr (w, at) ↦ rw at (
        >>=-IfEnds ⊥ _ (get_feedback w) _ (get_feedback-IfEnds ⊥ w)
          (λ _ _. set-perm e.others i w e.best at))
  ]

  -- The quick recheck of a settled entry ends by leaving a settled entry that keeps the versions: the
  -- best and the others are the same ones, in some order, whether a swap takes place or not; or it ends where
  -- updateStats fails a CHECK on an object that was in memory, as it was or brought up to date.
  pub fast_experiment-perm :
      (e : Entry dbl fbk jit) (st : Store dbl fbk jit) (b : ℕ)
      → IsSettled e
      → Ends
          (CheckFrom dbl fbk jit st)
          ⊥
          (λ r. IsSettled r.0 × Perm (r.0.best ∷ r.0.others) (e.best ∷ e.others))
          (fast_experiment dbl fbk jit e st b)
  unfolding fast_experiment
  fast_experiment-perm e st b v =
      let run = fast_experiment dbl fbk jit e st b in
      because st _ _ _ run (fast_experiment-ends dbl fbk jit st Unit e st b there) (
        without_recompile _ _ _ run (fast_experiment-IsSettled dbl fbk jit e st b v) (
          >>=-IfEnds ⊥ _ (find_better dbl fbk jit e.others b 0 none st) _
            (find_better-calm e.others b 0 none st) λ r _. swap_found-perm r.0 _ r.1))

  module _ (quiet : (x : fbk.F) → fbk.update_stats x ≡ some x) where
    update_at_quiet :
        (st st0 : Store dbl fbk jit) (b : ℕ)
        → ((c : ℕ) → st c ≡ st0 c)
        → (st1 : Store dbl fbk jit) × (update_at dbl fbk jit st b ≡ ok st1)
          × ((c : ℕ) → st1 c ≡ st0 c)
    unfolding update_at
    update_at_quiet st st0 b same = (
      write dbl fbk jit st b (st b),
      ap (λ o. elim o [ none ↦ check_failed | some f ↦ ok (write dbl fbk jit st b f) ])
          (quiet (st b)),
      λ c. ground (arith, same c, same b),
    )

    better_than_quiet :
        (st st0 : Store dbl fbk jit) (a b : ℕ)
        → ((c : ℕ) → st c ≡ st0 c)
        → (st2 : Store dbl fbk jit) × (better_than dbl fbk jit st a b
            ≡ ok (fbk.better (st0 a) (st0 b), st2))
          × ((c : ℕ) → st2 c ≡ st0 c)
    unfolding better_than
    better_than_quiet st st0 a b same =
        let (st1, once, same1) = update_at_quiet st st0 a same in
        let (st2, twice, same2) = update_at_quiet st1 st0 b same1 in
        (st2, rw (once, twice, same2 a, same2 b) refl, same2)

    find_better_reaches_last :
        (ws : List Wrapper) (w : Wrapper) (a b i : ℕ) (found : Option ℕ)
        (st st0 : Store dbl fbk jit)
        → ((c : ℕ) → st c ≡ st0 c)
        → w.fb ≡ some a
        → fbk.better (st0 a) (st0 b) ≡ true
        → IfEnds ⊥
            (λ r. r.0 ≡ some (i + length ws))
            (find_better dbl fbk jit (ws ++ w ∷ []) b i found st)
    unfolding find_better
    find_better_reaches_last [] w a b i found st st0 same at h =
        let (st2, e, same2) = better_than_quiet st st0 a b same in
        rw (at, e, h) (ap some (omega arith))
    find_better_reaches_last (v ∷ ws) w a b i found st st0 same at h =
        >>=-IfEnds ⊥ _ (get_feedback v) _ (get_feedback-IfEnds ⊥ v) λ c _.
          let (st2, e, same2) = better_than_quiet st st0 c b same in
          let next = if fbk.better (st0 c) (st0 b) then some i else found in
          rw e (
            subst
              (λ n.
                IfEnds ⊥ (λ r. r.0 ≡ some n)
                  (find_better dbl fbk jit (ws ++ w ∷ []) b (suc i) next st2))
              (omega arith) (find_better_reaches_last ws w a b (suc i) next st2 st0 same2 at h))

    -- While no measurement comes in (bringing an object up to date changes nothing), the loop over
    -- the other versions ends, and if the last of them is better than the best version it reports
    -- that one, whatever the versions before it are.
    pub find_better_last :
        (ws : List Wrapper) (w : Wrapper) (a b : ℕ) (st : Store dbl fbk jit)
        → AllReady ws
        → ready w ≡ true
        → w.fb ≡ some a
        → fbk.better (st a) (st b) ≡ true
        → Returns (λ r. r.0 ≡ some (length ws)) (find_better dbl fbk jit (ws ++ w ∷ []) b 0 none st)
    find_better_last ws w a b st v r at h =
        Ends-mono _ _ _ _ (λ r. InRange (length (ws ++ w ∷ [])) r.0 × (r.0 ≡ some (0 + length ws)))
          (λ r. r.0 ≡ some (length ws)) (find_better dbl fbk jit (ws ++ w ∷ []) b 0 none st)
          (λ (x, failed). some-none (sym (quiet x) ∙ failed)) (λ e. e)
          (λ r q. q.1 ∙ ap some (omega arith))
          (without_recompile _ _ _ (find_better dbl fbk jit (ws ++ w ∷ []) b 0 none st)
            (find_better-InRange dbl fbk jit (ws ++ w ∷ []) b 0 _ none st
              (AllReady-append_one ws w v r) (omega arith) tt)
            (find_better_reaches_last ws w a b 0 none st st (λ c. refl) at h))
