-- ===== src/Driver/Counters.antt =====
-- The statistics of an entry (OptimizationInfo) and its deployment threshold.
use at_jit.Prelude.{
  ℕ, zero, suc, ◌+◌, ◌≤◌, ◌<◌, ◌^◌, true, false, not, ◌&&◌, Option, none, some, [], ◌∷◌, length,
  length-append, length-set, if◌then◌else◌, ◌≡◌, refl, arith, ap, subst,
}
use at_jit.Prelude.Double.{Double}
use at_jit.Driver.Interfaces.{FeedbackOps, OptimizerOps, Recompiled}
use at_jit.Driver.FunctionWrapper.{
  Ends, Wrapper, ok, recompile_failed, Ends-mono, Ends-IfEnds, IfEnds, >>=-IfEnds, IfEnds-if,
  IfEnds-any, is_empty, get_feedback,
}
use at_jit.Driver.Failures.{CheckFrom, RecompileFrom, there, Ends-Traces, reoptimize_entry-ends}
use at_jit.Driver.Validity.{IsValid, IsGood, reoptimize_entry-IsGood}
use at_jit.Driver.{
  u64, Info, Entry, Reply, Store, update_at, better_than, compile_trial, settle, check_trial,
  experiment, find_better, swap, swap_found, fast_experiment, use_best, pick_slot, serve,
  reoptimize_entry, deployed_long_enough, has_others, keep_best, write,
}

-- Thresh(0) = MinDeploy, Thresh(n + 1) = Thresh(n) + GrowthFactor * Thresh(n)
unfoldable pub thresh : (dbl : Double) → ℕ → Double.D dbl
thresh dbl zero = dbl.lit 50000 0
thresh dbl (suc n) = dbl.add (thresh dbl n) (dbl.mul (thresh dbl n) (dbl.lit 2 1))

abbrev pub count : Wrapper → ℕ
count w = if is_empty w then 0 else 1

-- The versions that the entry holds.
abbrev pub versions : {D O : Type 0} → Info D O → ℕ
versions e = length e.others + count e.best + count e.trial

-- The counters with `slack` requests that are counted and not yet served.
pub record IsCounted {O : Type 0} (dbl : Double) (slack : ℕ) (e : Info (Double.D dbl) O)
    : Type 0 where
  pub in_range : e.requests < 2 ^ 64
  pub swaps_in_fast : e.best_swaps ≤ e.fast_experiments
  pub kinds_in_requests : e.full_experiments + e.fast_experiments + slack ≤ e.requests
  pub versions_in_full : versions e ≤ e.full_experiments + 1
  pub threshold : e.deployment_thresh ≡ thresh dbl e.full_experiments

module _ (dbl : Double) (fbk : FeedbackOps) (jit : OptimizerOps (FeedbackOps.F fbk)) where
  abbrev Keeps : ℕ → ℕ → Entry dbl fbk jit × Store dbl fbk jit → Type 0
  Keeps slack n r = IsCounted dbl slack r.0 × (r.0.requests ≡ n)

  abbrev pub Counts : ℕ → Reply dbl fbk jit → Type 0
  Counts n r = IsCounted dbl 0 r.entry × (r.entry.requests ≡ n)

  settle-IsCounted :
      (e : Entry dbl fbk jit) (st : Store dbl fbk jit)
      → IsCounted dbl 1 e
      → is_empty e.trial ≡ false
      → IfEnds Unit (Keeps 1 e.requests) (settle dbl fbk jit e st)
  unfolding settle
  settle-IsCounted e st v busy =
      IfEnds-if Unit _ (is_empty e.best) _ _ (λ first. ground arith)
        λ later.
          >>=-IfEnds Unit _ (get_feedback e.trial) _ (IfEnds-any (get_feedback e.trial)) λ this _.
            >>=-IfEnds Unit _ (get_feedback e.best) _ (IfEnds-any (get_feedback e.best)) λ other _.
              >>=-IfEnds Unit _ (better_than dbl fbk jit st this other) _
                (IfEnds-any (better_than dbl fbk jit st this other))
                λ verdict _. ground (arith, length-append e.others (e.trial ∷ []))

  check_trial-IsCounted :
      (e : Entry dbl fbk jit) (st : Store dbl fbk jit)
      → IsCounted dbl 1 e
      → IfEnds Unit (Keeps 1 e.requests) (check_trial dbl fbk jit e st)
  unfolding check_trial
  check_trial-IsCounted e st v =
      IfEnds-if Unit _ (is_empty e.trial) _ _ (λ _. (v, refl))
        λ busy.
          >>=-IfEnds Unit _ (get_feedback e.trial) _ (IfEnds-any (get_feedback e.trial)) λ b _.
            >>=-IfEnds Unit _ (update_at dbl fbk jit st b) _
              (IfEnds-any (update_at dbl fbk jit st b))
              λ updated _.
                IfEnds-if Unit _ (fbk.good_quality (updated b)) _ _
                  (λ _. settle-IsCounted e updated v busy) (λ _. (v, refl))

  experiment-IsCounted :
      (e : Entry dbl fbk jit) (st : Store dbl fbk jit) (b : ℕ)
      → IsCounted dbl 1 e
      → is_empty e.trial ≡ true
      → IfEnds Unit (Counts e.requests) (experiment dbl fbk jit e st b)
  unfolding experiment compile_trial thresh
  experiment-IsCounted e st b v idle =
      let one_more : u64 (e.full_experiments + 1) ≡ suc e.full_experiments = ground arith in
      compiled-IsCounted
        (jit.recompile e.opt (write dbl fbk jit st b (fbk.reset_deployed_time (st b)))) _
        (λ r. (
          record {
            in_range = v.in_range;
            swaps_in_fast = v.swaps_in_fast;
            kinds_in_requests = ground arith;
            versions_in_full = ground arith;
            threshold = rw one_more (ap (λ t. dbl.add t (dbl.mul t (dbl.lit 2 1))) v.threshold);
          },
          refl,
        ))
    where
      compiled-IsCounted :
          (o : Option (Recompiled jit.O fbk.F)) (f : Recompiled jit.O fbk.F → Reply dbl fbk jit)
          → ((r : Recompiled jit.O fbk.F) → Counts e.requests (f r))
          → IfEnds Unit (Counts e.requests) (elim o [ none ↦ recompile_failed | some r ↦ ok (f r) ])
      compiled-IsCounted none f h = tt
      compiled-IsCounted (some r) f h = h r

  swap_found-IsCounted :
      (found : Option ℕ) (e : Entry dbl fbk jit) (st : Store dbl fbk jit)
      → IsCounted dbl 0 e
      → e.best_swaps + 1 ≤ e.fast_experiments
      → is_empty e.best ≡ false
      → IfEnds Unit (Keeps 0 e.requests) (swap_found dbl fbk jit found e st)
  unfolding swap_found swap
  swap_found-IsCounted none e st v fast full = (v, refl)
  swap_found-IsCounted (some i) e st v fast full = ground (arith, length-set e.others i e.best)

  fast_experiment-IsCounted :
      (e : Entry dbl fbk jit) (st : Store dbl fbk jit) (b : ℕ)
      → IsCounted dbl 1 e
      → is_empty e.best ≡ false
      → IfEnds Unit (Keeps 0 e.requests) (fast_experiment dbl fbk jit e st b)
  unfolding fast_experiment
  fast_experiment-IsCounted e st b v full =
      >>=-IfEnds Unit _ (find_better dbl fbk jit e.others b 0 none st) _
        (IfEnds-any (find_better dbl fbk jit e.others b 0 none st))
        λ r _. swap_found-IsCounted r.0 _ r.1 (ground arith) (ground arith) full

  use_best-IsCounted :
      (e : Entry dbl fbk jit) (st : Store dbl fbk jit)
      → IsCounted dbl 1 e
      → is_empty e.trial ≡ true
      → is_empty e.best ≡ false
      → IfEnds Unit (Counts e.requests) (use_best dbl fbk jit e st)
  unfolding use_best
  use_best-IsCounted e st v idle full =
      >>=-IfEnds Unit _ (get_feedback e.best) _ (IfEnds-any (get_feedback e.best)) λ b _.
        let long_enough = deployed_long_enough dbl fbk jit e st b in
        IfEnds-if Unit _ (not (keep_best dbl fbk jit e long_enough)) _ _
          (λ _. experiment-IsCounted e st b v idle)
          λ _.
            IfEnds-if Unit _ (long_enough && has_others dbl fbk jit e) _ _
              (λ _.
                >>=-IfEnds Unit _ (fast_experiment dbl fbk jit e st b) _
                  (fast_experiment-IsCounted e st b v full) (λ r c. c))
              (λ _. ground arith)

  pick_slot-IsCounted :
      (e : Entry dbl fbk jit) (st : Store dbl fbk jit)
      → IsCounted dbl 1 e
      → IfEnds Unit (Counts e.requests) (pick_slot dbl fbk jit (e, st))
  unfolding pick_slot
  pick_slot-IsCounted e st v =
      IfEnds-if Unit _ (not (is_empty e.trial)) _ _ (λ _. ground arith)
        λ idle.
          IfEnds-if Unit _ (is_empty e.best) _ _ (λ _. tt)
            λ full. use_best-IsCounted e st v (ground arith) full

  serve-IsCounted :
      (e : Entry dbl fbk jit) (st : Store dbl fbk jit)
      → IsCounted dbl 1 e
      → IfEnds Unit (Counts e.requests) (serve dbl fbk jit e st)
  unfolding serve
  serve-IsCounted e st v =
      >>=-IfEnds Unit _ (check_trial dbl fbk jit e st) _ (check_trial-IsCounted e st v) λ r h.
        subst (λ n. IfEnds Unit (Counts n) (pick_slot dbl fbk jit r)) h.1
          (pick_slot-IsCounted r.0 r.1 h.0)

  counted_request : Entry dbl fbk jit → Entry dbl fbk jit
  counted_request e = record e { requests = u64 (e.requests + 1) }

  -- For an entry in a valid state whose statistics are consistent, and fewer than 2^64 - 1 requests
  -- so far, a request returns with the statistics consistent and one request more, or ends where updateStats of an
  -- object of the request fails a CHECK or recompile() on the entry's optimizer ends the program: the swaps are
  -- at most the fast experiments, the full and the fast experiments together at most the requests,
  -- the versions held at most the full experiments plus one, and the deployment threshold is the
  -- one of the recurrence at the number of full experiments.
  pub reoptimize_entry-IsCounted :
      (e : Entry dbl fbk jit) (st : Store dbl fbk jit)
      → IsValid e
      → IsCounted dbl 0 e
      → e.requests + 1 < 2 ^ 64
      → Ends
          (CheckFrom dbl fbk jit st)
          (RecompileFrom dbl fbk jit st e.opt)
          (λ r. IsGood dbl fbk jit r × Counts (e.requests + 1) r)
          (reoptimize_entry dbl fbk jit false e st)
  unfolding reoptimize_entry counted_request
  reoptimize_entry-IsCounted e st v c few =
      let one_more : u64 (e.requests + 1) ≡ e.requests + 1 = omega arith in
      let run = serve dbl fbk jit (counted_request e) st in
      Ends-mono _ _ _ _ _ _ run (λ f. f) (λ r. r.1) (λ r q. q)
        (Ends-Traces _ _ _ _ _ _ run
          (Ends-IfEnds _ _ Unit _ _ run (reoptimize_entry-IsGood dbl fbk jit e st v) (
            subst (λ n. IfEnds Unit (Counts n) run) one_more
              (serve-IsCounted (counted_request e) st (ground arith))))
          (reoptimize_entry-ends dbl fbk jit st e st there))
