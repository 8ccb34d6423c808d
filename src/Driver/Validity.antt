-- ===== src/Driver/Validity.antt =====
-- Requests of ATDriver::reoptimize: no `assert` of the driver fails and no null pointer is read.
use at_jit.Prelude.{
  ℕ, zero, suc, ◌+◌, ◌<◌, Bool, true, false, not, ◌&&◌, Option, none, some, List, [], ◌∷◌, ◌++◌,
  length, set, get_elem?, All, if◌then◌else◌, ◌≡◌, refl, arith, inl, inr, ◌⊎◌,
}
use at_jit.Prelude.Double.{Double}
use at_jit.Driver.Interfaces.{FeedbackOps, OptimizerOps, Recompiled}
use at_jit.Driver.FunctionWrapper.{
  Wrapper, Outcome, ok, check_failed, recompile_failed, Ends, >>=-Ends, Ends-mono, Ends-if,
  get_feedback-Ends, is_empty, get_feedback, wrap, ready, usable,
}
use at_jit.Driver.Failures.{CheckFrom, RecompileAsked, there, Ends-Traces, reoptimize-ends}
use at_jit.Driver.{
  Info, trial_slot, best_slot, Entry, Reply, Store, update_at, better_than, compile_trial, settle,
  check_trial, experiment, find_better, swap, swap_found, fast_experiment, use_best, pick_slot,
  serve, new_info, reoptimize, reoptimize_entry, write, deployed_long_enough, has_others, keep_best,
}

abbrev pub AllReady : List Wrapper → Type 0
AllReady = All λ w. ready w ≡ true

-- The shape of an entry between two requests, once the first has been served.
pub record IsValid {D O : Type 0} (e : Info D O) : Type 0 where
  pub trial_usable : usable e.trial ≡ true
  pub best_usable : usable e.best ≡ true
  pub others_ready : AllReady e.others
  pub some_version : (is_empty e.trial && is_empty e.best) ≡ false

-- The same where no trial is running.
pub record IsSettled {D O : Type 0} (e : Info D O) : Type 0 where
  pub no_trial : is_empty e.trial ≡ true
  pub trial_usable : usable e.trial ≡ true
  pub best_ready : ready e.best ≡ true
  pub others_ready : AllReady e.others

pub AllReady-append_one :
    (ws : List Wrapper) (w : Wrapper) → AllReady ws → ready w ≡ true → AllReady (ws ++ w ∷ [])
AllReady-append_one [] w h r = (r, tt)
AllReady-append_one (x ∷ ws) w h r = (h.0, AllReady-append_one ws w h.1 r)

AllReady-set :
    (ws : List Wrapper) (i : ℕ) (w : Wrapper) → AllReady ws → ready w ≡ true → AllReady (set ws i w)
AllReady-set [] i w h r = tt
AllReady-set (x ∷ ws) zero w h r = (r, h.1)
AllReady-set (x ∷ ws) (suc i) w h r = (h.0, AllReady-set ws i w h.1 r)

AllReady-get :
    (ws : List Wrapper) (i : ℕ)
    → AllReady ws
    → i < length ws
    → (w : Wrapper) × (get_elem? ws i ≡ some w) × (ready w ≡ true)
AllReady-get [] i h lt = absurd (omega arith)
AllReady-get (x ∷ ws) zero h lt = (x, refl, h.0)
AllReady-get (x ∷ ws) (suc i) h lt = AllReady-get ws i h.1 (omega arith)

-- The index that the loop reports lies in the list.
abbrev pub InRange : ℕ → Option ℕ → Type 0
InRange n none = Unit
InRange n (some i) = i < n

module _ (dbl : Double) (fbk : FeedbackOps) (jit : OptimizerOps (FeedbackOps.F fbk)) where
  -- A CHECK in updateStats of some object fails.
  abbrev pub CheckFails : Type 0
  CheckFails = (f : fbk.F) × (fbk.update_stats f ≡ none)

  -- Some call of recompile() ends the program.
  abbrev pub RecompileFails : Type 0
  RecompileFails = (o : jit.O) × (st : Store dbl fbk jit) × (jit.recompile o st ≡ none)

  -- The run returns a value with the property, or ends where a call that it makes ends the program.
  abbrev pub Serves : {A : Type 0} → (A → Type 0) → Outcome A → Type 0
  Serves P m = Ends CheckFails RecompileFails P m

  -- The same for a run that does not call recompile().
  abbrev pub Checks : {A : Type 0} → (A → Type 0) → Outcome A → Type 0
  Checks P m = Ends CheckFails ⊥ P m

  pub Checks-Serves :
      {A : Type 0} (P Q : A → Type 0) (m : Outcome A)
      → ((a : A) → P a → Q a)
      → Checks P m
      → Serves Q m
  Checks-Serves P Q m h c =
      Ends-mono CheckFails CheckFails ⊥ RecompileFails P Q m (λ f. f) (λ e. absurd e) h c

  pub update_at-Checks :
      (st : Store dbl fbk jit) (b : ℕ) → Checks (λ st'. Unit {0}) (update_at dbl fbk jit st b)
  unfolding update_at
  update_at-Checks st b = by_result (fbk.update_stats (st b)) refl
    where
      by_result :
          (o : Option fbk.F)
          → fbk.update_stats (st b) ≡ o
          → Checks
              (λ st'. Unit {0})
              (elim o [ none ↦ check_failed | some f ↦ ok (write dbl fbk jit st b f) ])
      by_result none e = (st b, e)
      by_result (some f) e = tt

  pub better_than-Checks :
      (st : Store dbl fbk jit) (a b : ℕ) → Checks (λ r. Unit {0}) (better_than dbl fbk jit st a b)
  unfolding better_than
  better_than-Checks st a b =
      >>=-Ends CheckFails ⊥ _ (update_at dbl fbk jit st a) _ (update_at-Checks st a) λ st1 _.
        >>=-Ends CheckFails ⊥ _ (update_at dbl fbk jit st1 b) _ (update_at-Checks st1 b) λ st2 _. tt

  abbrev pub slot_wrapper : Reply dbl fbk jit → Wrapper
  slot_wrapper r = elim r.slot [ trial_slot ↦ r.entry.trial | best_slot ↦ r.entry.best ]

  -- What a request leaves: a valid entry, and a reference to a version that can be called.
  abbrev pub IsGood : Reply dbl fbk jit → Type 0
  IsGood r = IsValid r.entry × (ready (slot_wrapper r) ≡ true)

  compile_trial-IsGood :
      (e : Entry dbl fbk jit) (st : Store dbl fbk jit)
      → usable e.best ≡ true
      → AllReady e.others
      → Serves IsGood (compile_trial dbl fbk jit e st)
  unfolding compile_trial
  compile_trial-IsGood e st b o = by_result (jit.recompile e.opt st) refl
    where
      by_result :
          (r : Option (Recompiled jit.O fbk.F))
          → jit.recompile e.opt st ≡ r
          → Serves IsGood (elim r [
            | none ↦ recompile_failed
            | some r ↦ ok (record {
              entry = record e { opt = r.optimizer; trial = wrap r.function r.feedback };
              store = r.store;
              slot = trial_slot;
            })
          ])
      by_result none f = (e.opt, st, f)
      by_result (some r) f = (
        record { trial_usable = refl; best_usable = b; others_ready = o; some_version = refl },
        refl,
      )

  settle-IsSettled :
      (e : Entry dbl fbk jit) (st : Store dbl fbk jit)
      → IsValid e
      → is_empty e.trial ≡ false
      → Checks (λ r. IsSettled r.0) (settle dbl fbk jit e st)
  unfolding settle
  settle-IsSettled e st v h =
      Ends-if CheckFails ⊥ _ (is_empty e.best) _ _ (λ first. ground arith)
        λ later.
          >>=-Ends CheckFails ⊥ _ (get_feedback e.trial) _
            (get_feedback-Ends CheckFails ⊥ e.trial (ground arith))
            λ this _.
              >>=-Ends CheckFails ⊥ _ (get_feedback e.best) _
                (get_feedback-Ends CheckFails ⊥ e.best (ground arith))
                λ other _.
                  >>=-Ends CheckFails ⊥ _ (better_than dbl fbk jit st this other) _
                    (better_than-Checks st this other)
                    λ verdict _. ground (arith, AllReady-append_one e.others e.trial)

  -- The trial's check leaves a valid entry, or a settled one.
  check_trial-lem :
      (e : Entry dbl fbk jit) (st : Store dbl fbk jit)
      → IsValid e
      → Checks
          (λ r. ((is_empty r.0.trial ≡ false) × IsValid r.0) ⊎ IsSettled r.0)
          (check_trial dbl fbk jit e st)
  unfolding check_trial
  check_trial-lem e st v =
      Ends-if CheckFails ⊥ _ (is_empty e.trial) _ _ (λ idle. inr (ground arith))
        λ busy.
          >>=-Ends CheckFails ⊥ _ (get_feedback e.trial) _
            (get_feedback-Ends CheckFails ⊥ e.trial (ground arith))
            λ b _.
              >>=-Ends CheckFails ⊥ _ (update_at dbl fbk jit st b) _ (update_at-Checks st b)
                λ updated _.
                  Ends-if CheckFails ⊥ _ (fbk.good_quality (updated b)) _ _
                    (λ _.
                      Ends-mono CheckFails CheckFails ⊥ ⊥ _ _ (settle dbl fbk jit e updated)
                        (λ f. f) (λ f. f) (λ r. inr) (settle-IsSettled e updated v busy))
                    (λ _. inl (busy, v))

  experiment-IsGood :
      (e : Entry dbl fbk jit) (st : Store dbl fbk jit) (b : ℕ)
      → usable e.best ≡ true
      → AllReady e.others
      → Serves IsGood (experiment dbl fbk jit e st b)
  unfolding experiment
  experiment-IsGood e st b u o = compile_trial-IsGood _ _ u o

  pub find_better-InRange :
      (ws : List Wrapper) (best i n : ℕ) (found : Option ℕ) (st : Store dbl fbk jit)
      → AllReady ws
      → i + length ws ≡ n
      → InRange i found
      → Checks (λ r. InRange n r.0) (find_better dbl fbk jit ws best i found st)
  unfolding find_better
  find_better-InRange [] best i n none st a e r = tt
  find_better-InRange [] best i n (some k) st a e r = omega arith
  find_better-InRange (w ∷ ws) best i n found st a e r =
      >>=-Ends CheckFails ⊥ _ (get_feedback w) _ (get_feedback-Ends CheckFails ⊥ w a.0) λ b _.
        >>=-Ends CheckFails ⊥ _ (better_than dbl fbk jit st b best) _ (better_than-Checks st b best)
          λ verdict _.
            find_better-InRange ws best (suc i) n (if verdict.0 then some i else found) verdict.1
              a.1 (omega arith) (ground arith)

  swap-IsSettled :
      (e : Entry dbl fbk jit) (st : Store dbl fbk jit) (i : ℕ)
      → IsSettled e
      → i < length e.others
      → Checks (λ r. IsSettled r.0) (swap dbl fbk jit e st i)
  unfolding swap
  swap-IsSettled e st i v lt =
      let (w, at, r) = AllReady-get e.others i v.others_ready lt in
      ground (arith, AllReady-set e.others i e.best)

  swap_found-IsSettled :
      (found : Option ℕ) (e : Entry dbl fbk jit) (st : Store dbl fbk jit)
      → IsSettled e
      → InRange (length e.others) found
      → Checks (λ r. IsSettled r.0) (swap_found dbl fbk jit found e st)
  unfolding swap_found
  swap_found-IsSettled none e st v h = v
  swap_found-IsSettled (some i) e st v h = swap-IsSettled e st i v h

  pub fast_experiment-IsSettled :
      (e : Entry dbl fbk jit) (st : Store dbl fbk jit) (b : ℕ)
      → IsSettled e
      → Checks (λ r. IsSettled r.0) (fast_experiment dbl fbk jit e st b)
  unfolding fast_experiment
  fast_experiment-IsSettled e st b v =
      >>=-Ends CheckFails ⊥ _ (find_better dbl fbk jit e.others b 0 none st) _
        (find_better-InRange e.others b 0 (length e.others) none st v.others_ready (omega arith) tt)
        λ r h. swap_found-IsSettled r.0 _ r.1 (ground arith) h

  use_best-IsGood :
      (e : Entry dbl fbk jit) (st : Store dbl fbk jit)
      → IsSettled e
      → Serves IsGood (use_best dbl fbk jit e st)
  unfolding use_best
  use_best-IsGood e st v =
      >>=-Ends CheckFails RecompileFails _ (get_feedback e.best) _
        (get_feedback-Ends CheckFails RecompileFails e.best v.best_ready)
        λ b _.
          let long_enough = deployed_long_enough dbl fbk jit e st b in
          Ends-if CheckFails RecompileFails _ (not (keep_best dbl fbk jit e long_enough)) _ _
            (λ _. experiment-IsGood e st b (ground arith) v.others_ready)
            λ _.
              Ends-if CheckFails RecompileFails _ (long_enough && has_others dbl fbk jit e) _ _
                (λ _.
                  >>=-Ends CheckFails RecompileFails _ (fast_experiment dbl fbk jit e st b) _
                    (Checks-Serves _ _ (fast_experiment dbl fbk jit e st b) (λ r s. s)
                      (fast_experiment-IsSettled e st b v))
                    λ r w. (ground arith, w.best_ready))
                (λ _. (ground arith, v.best_ready))

  -- After the trial's check: a running trial is returned, else the best version is used.
  pick_slot-IsGood :
      (e : Entry dbl fbk jit) (st : Store dbl fbk jit)
      → ((is_empty e.trial ≡ false) × IsValid e) ⊎ IsSettled e
      → Serves IsGood (pick_slot dbl fbk jit (e, st))
  unfolding pick_slot
  pick_slot-IsGood e st (inl (busy, v)) =
      Ends-if CheckFails RecompileFails _ (not (is_empty e.trial)) _ _ (λ _. (v, ground arith))
        (λ idle. absurd (ground arith))
  pick_slot-IsGood e st (inr v) =
      Ends-if CheckFails RecompileFails _ (not (is_empty e.trial)) _ _
        (λ busy. absurd (ground arith))
        λ _.
          Ends-if CheckFails RecompileFails _ (is_empty e.best) _ _ (λ empty. absurd (ground arith))
            λ _. use_best-IsGood e st v

  serve-IsGood :
      (e : Entry dbl fbk jit) (st : Store dbl fbk jit)
      → IsValid e
      → Serves IsGood (serve dbl fbk jit e st)
  unfolding serve
  serve-IsGood e st v =
      >>=-Ends CheckFails RecompileFails _ (check_trial dbl fbk jit e st) _
        (Checks-Serves _ _ (check_trial dbl fbk jit e st) (λ r s. s) (check_trial-lem e st v))
        (λ r h. pick_slot-IsGood r.0 r.1 h)

  -- A request for an entry in a valid state returns a version that can be called and leaves the entry in a valid state,
  -- or ends where a CHECK in updateStats fails or recompile() ends the program.
  pub reoptimize_entry-IsGood :
      (e : Entry dbl fbk jit) (st : Store dbl fbk jit)
      → IsValid e
      → Serves IsGood (reoptimize_entry dbl fbk jit false e st)
  unfolding reoptimize_entry
  reoptimize_entry-IsGood e st v = serve-IsGood _ st (ground arith)

  first_request-IsGood :
      (o : OptimizerOps.O jit) (st : Store dbl fbk jit)
      → Serves IsGood (reoptimize_entry dbl fbk jit true (new_info dbl fbk jit o) st)
  unfolding reoptimize_entry new_info
  first_request-IsGood o st = compile_trial-IsGood _ st refl tt

  abbrev pub AllValid : {K : Type 0} → List (K × Entry dbl fbk jit) → Type 0
  AllValid = All λ k. IsValid k.1

  reoptimize-Serves :
      {K : Type 0} (same_key : K → K → Bool) (m : List (K × Entry dbl fbk jit)) (k : K)
      (o : OptimizerOps.O jit) (st : Store dbl fbk jit)
      → AllValid m
      → Serves
          (λ s. AllValid s.entries × (ready (slot_wrapper s.reply) ≡ true))
          (reoptimize dbl fbk jit same_key m k o st)
  unfolding reoptimize
  reoptimize-Serves same_key [] k o st v =
      >>=-Ends CheckFails RecompileFails _
        (reoptimize_entry dbl fbk jit true (new_info dbl fbk jit o) st) _
        (first_request-IsGood o st) (λ r g. ((g.0, tt), g.1))
  reoptimize-Serves same_key ((j, e) ∷ m) k o st v =
      Ends-if CheckFails RecompileFails _ (same_key j k) _ _
        (λ _.
          >>=-Ends CheckFails RecompileFails _ (reoptimize_entry dbl fbk jit false e st) _
            (reoptimize_entry-IsGood e st v.0) (λ r g. ((g.0, v.1), g.1)))
        (λ _.
          >>=-Ends CheckFails RecompileFails _ (reoptimize dbl fbk jit same_key m k o st) _
            (reoptimize-Serves same_key m k o st v.1) (λ s g. ((v.0, g.0), g.1)))

  -- Take a driver's map with every entry in a valid state, and a request with any key, old or new. No assertion of the
  -- driver fails, and it reads no null pointer: the request returns a version that can be called and leaves every entry
  -- valid, unless updateStats fails a CHECK on an object that was in memory when the request began (as it was, brought
  -- up to date or reset), or recompile() ends the program on the optimizer of an entry or on the new one.
  pub reoptimize-AllValid :
      {K : Type 0} (same_key : K → K → Bool) (m : List (K × Entry dbl fbk jit)) (k : K)
      (o : OptimizerOps.O jit) (st : Store dbl fbk jit)
      → AllValid m
      → Ends
          (CheckFrom dbl fbk jit st)
          (RecompileAsked dbl fbk jit st m o)
          (λ s. AllValid s.entries × (ready (slot_wrapper s.reply) ≡ true))
          (reoptimize dbl fbk jit same_key m k o st)
  reoptimize-AllValid same_key m k o st v =
      let run = reoptimize dbl fbk jit same_key m k o st in
      Ends-mono _ _ _ _ _ _ run (λ f. f) (λ r. r.1) (λ s g. g)
        (Ends-Traces _ _ _ _ _ _ run (reoptimize-Serves same_key m k o st v)
          (reoptimize-ends dbl fbk jit st same_key m k o st there))
