-- ===== src/Driver/Failures.antt =====
-- Where a request of ATDriver::reoptimize can end the program: which objects updateStats is called on, and with what
-- recompile() is called.
use at_jit.Prelude.{
  arith, ℕ, suc, Bool, true, false, not, ◌&&◌, ◌==◌, Option, none, some, List, [], ◌∷◌,
  if◌then◌else◌, ◌≡◌, refl, subst, ◌⊎◌, inl, inr,
}
use at_jit.Prelude.Double.{Double}
use at_jit.Prelude.Partial.{if-elim}
use at_jit.Driver.Interfaces.{FeedbackOps, OptimizerOps, Recompiled}
use at_jit.Driver.FunctionWrapper.{
  Wrapper, Outcome, ok, assert_failed, null_deref, check_failed, recompile_failed, ◌>>=◌, wrap,
  Ends, is_empty, get_feedback,
}
use at_jit.Driver.{
  Entry, Store, Reply, write, update_at, better_than, settle, check_trial, find_better, swap,
  swap_found, fast_experiment, compile_trial, experiment, use_best, pick_slot, serve,
  reoptimize_entry, reoptimize, deployed_long_enough, has_others, keep_best, new_info, trial_slot,
}

-- If the run ends with a value, then `P`; if a CHECK fails, then `C`; if recompile() ends the program, then `R`.
abbrev pub Traces : (C R : Type 0) → {A : Type 0} → (A → Type 0) → Outcome A → Type 0
Traces C R P (ok a) = P a
Traces C R P assert_failed = Unit
Traces C R P null_deref = Unit
Traces C R P check_failed = C
Traces C R P recompile_failed = R

>>=-Traces :
    (C R : Type 0) {A B : Type 0} {P : A → Type 0} (Q : B → Type 0) (m : Outcome A)
    (f : A → Outcome B)
    → Traces C R P m
    → ((a : A) → P a → Traces C R Q (f a))
    → Traces C R Q (m >>= f)
>>=-Traces C R Q (ok a) f p next = next a p
>>=-Traces C R Q assert_failed f p next = tt
>>=-Traces C R Q null_deref f p next = tt
>>=-Traces C R Q check_failed f p next = p
>>=-Traces C R Q recompile_failed f p next = p

Traces-if :
    (C R : Type 0) {A : Type 0} (P : A → Type 0) (b : Bool) (x y : Outcome A)
    → Traces C R P x
    → Traces C R P y
    → Traces C R P (if b then x else y)
Traces-if C R P true x y hx hy = hx
Traces-if C R P false x y hx hy = hy

get_feedback-Traces : (C R : Type 0) (w : Wrapper) → Traces C R (λ b. Unit {0}) (get_feedback w)
get_feedback-Traces C R w = ground arith

Traces-mono :
    (C C' R R' : Type 0) {A : Type 0} (P Q : A → Type 0) (m : Outcome A)
    → (C → C')
    → (R → R')
    → ((a : A) → P a → Q a)
    → Traces C R P m
    → Traces C' R' Q m
Traces-mono C C' R R' P Q (ok a) c r h p = h a p
Traces-mono C C' R R' P Q assert_failed c r h p = tt
Traces-mono C C' R R' P Q null_deref c r h p = tt
Traces-mono C C' R R' P Q check_failed c r h p = c p
Traces-mono C C' R R' P Q recompile_failed c r h p = r p

-- Where a run can end, and why it ends there; `S` is what is known of an end in recompile().
pub Ends-Traces :
    (C C' R S : Type 0) {A : Type 0} (P Q : A → Type 0) (m : Outcome A)
    → Ends C R P m
    → Traces C' S Q m
    → Ends C' (R × S) P m
Ends-Traces C C' R S P Q (ok a) p q = p
Ends-Traces C C' R S P Q assert_failed p q = absurd p
Ends-Traces C C' R S P Q null_deref p q = absurd p
Ends-Traces C C' R S P Q check_failed p q = q
Ends-Traces C C' R S P Q recompile_failed p q = (p, q)

-- The objects of a request that began with `memory`: those that lay in it, brought up to date or reset.
pub data Made (fbk : FeedbackOps) (memory : ℕ → FeedbackOps.F fbk)
    : FeedbackOps.F fbk → Type 0 where
  there : (b : ℕ) → Made fbk memory (memory b)
  updated :
      {f f' : FeedbackOps.F fbk}
      → Made fbk memory f
      → fbk.update_stats f ≡ some f'
      → Made fbk memory f'
  reset : {f : FeedbackOps.F fbk} → Made fbk memory f → Made fbk memory (fbk.reset_deployed_time f)

module _ (dbl : Double) (fbk : FeedbackOps) (jit : OptimizerOps (FeedbackOps.F fbk))
    (memory : ℕ → FeedbackOps.F fbk) where
  -- Every object in memory is one of the request.
  abbrev pub From : Store dbl fbk jit → Type 0
  From st = (b : ℕ) → Made fbk memory (st b)

  -- A CHECK in updateStats of an object of the request fails.
  abbrev pub CheckFrom : Type 0
  CheckFrom = (f : fbk.F) × Made fbk memory f × (fbk.update_stats f ≡ none)

  -- The call of recompile() on the optimizer `o` ends the program, with objects of the request in memory.
  abbrev pub RecompileFrom : jit.O → Type 0
  RecompileFrom o = (st : Store dbl fbk jit) × From st × (jit.recompile o st ≡ none)

  abbrev Kept : jit.O → Entry dbl fbk jit × Store dbl fbk jit → Type 0
  Kept o r = (r.0.opt ≡ o) × From r.1

  From-write :
      (st : Store dbl fbk jit) (b : ℕ) (f : fbk.F)
      → From st
      → Made fbk memory f
      → From (write dbl fbk jit st b f)
  From-write st b f h g c = if-elim (Made fbk memory) (b == c) f (st c) g (h c)

  module _ (R : Type 0) where
    update_at-From :
        (st : Store dbl fbk jit) (b : ℕ)
        → From st
        → Traces CheckFrom R From (update_at dbl fbk jit st b)
    unfolding update_at
    update_at-From st b h = by_result (fbk.update_stats (st b)) refl
      where
        by_result :
            (o : Option fbk.F)
            → fbk.update_stats (st b) ≡ o
            → Traces CheckFrom R From
                (elim o [ none ↦ check_failed | some f ↦ ok (write dbl fbk jit st b f) ])
        by_result none e = (st b, h b, e)
        by_result (some f) e = From-write st b f h (updated (h b) e)

    better_than-From :
        (st : Store dbl fbk jit) (a b : ℕ)
        → From st
        → Traces CheckFrom R (λ r. From r.1) (better_than dbl fbk jit st a b)
    unfolding better_than
    better_than-From st a b h =
        >>=-Traces CheckFrom R _ (update_at dbl fbk jit st a) _ (update_at-From st a h) λ st1 h1.
          >>=-Traces CheckFrom R _ (update_at dbl fbk jit st1 b) _ (update_at-From st1 b h1)
            (λ st2 h2. h2)

    settle-Kept :
        (e : Entry dbl fbk jit) (st : Store dbl fbk jit)
        → From st
        → Traces CheckFrom R (Kept e.opt) (settle dbl fbk jit e st)
    unfolding settle
    settle-Kept e st h =
        Traces-if CheckFrom R _ (is_empty e.best) _ _ (refl, h)
          (>>=-Traces CheckFrom R _ (get_feedback e.trial) _
            (get_feedback-Traces CheckFrom R e.trial)
            λ this _.
              >>=-Traces CheckFrom R _ (get_feedback e.best) _
                (get_feedback-Traces CheckFrom R e.best)
                λ other _.
                  >>=-Traces CheckFrom R _ (better_than dbl fbk jit st this other) _
                    (better_than-From st this other h)
                    λ verdict h'. (
                      if-elim {A = Entry dbl fbk jit} (λ f. f.opt ≡ e.opt) verdict.0 _ _ refl refl,
                      h',
                    ))

    check_trial-Kept :
        (e : Entry dbl fbk jit) (st : Store dbl fbk jit)
        → From st
        → Traces CheckFrom R (Kept e.opt) (check_trial dbl fbk jit e st)
    unfolding check_trial
    check_trial-Kept e st h =
        Traces-if CheckFrom R _ (is_empty e.trial) _ _ (refl, h)
          (>>=-Traces CheckFrom R _ (get_feedback e.trial) _
            (get_feedback-Traces CheckFrom R e.trial)
            λ b _.
              >>=-Traces CheckFrom R _ (update_at dbl fbk jit st b) _ (update_at-From st b h)
                λ st' h'.
                  Traces-if CheckFrom R _ (fbk.good_quality (st' b)) _ _ (settle-Kept e st' h')
                    (refl, h'))

    find_better-From :
        (ws : List Wrapper) (best i : ℕ) (found : Option ℕ) (st : Store dbl fbk jit)
        → From st
        → Traces CheckFrom R (λ r. From r.1) (find_better dbl fbk jit ws best i found st)
    unfolding find_better
    find_better-From [] best i found st h = h
    find_better-From (w ∷ ws) best i found st h =
        >>=-Traces CheckFrom R _ (get_feedback w) _ (get_feedback-Traces CheckFrom R w) λ b _.
          >>=-Traces CheckFrom R _ (better_than dbl fbk jit st b best) _
            (better_than-From st b best h)
            λ verdict h'.
              find_better-From ws best (suc i) (if verdict.0 then some i else found) verdict.1 h'

    swap_found-ends :
        (found : Option ℕ) (e : Entry dbl fbk jit) (st : Store dbl fbk jit)
        → Traces CheckFrom R (λ r. Unit {0}) (swap_found dbl fbk jit found e st)
    unfolding swap_found swap
    swap_found-ends none e st = tt
    swap_found-ends (some i) e st = ground arith

    pub fast_experiment-ends :
        (e : Entry dbl fbk jit) (st : Store dbl fbk jit) (b : ℕ)
        → From st
        → Traces CheckFrom R (λ r. Unit {0}) (fast_experiment dbl fbk jit e st b)
    unfolding fast_experiment
    fast_experiment-ends e st b h =
        >>=-Traces CheckFrom R _ (find_better dbl fbk jit e.others b 0 none st) _
          (find_better-From e.others b 0 none st h) (λ r _. swap_found-ends r.0 _ r.1)

  compile_trial-ends :
      (e : Entry dbl fbk jit) (st : Store dbl fbk jit)
      → From st
      → Traces CheckFrom (RecompileFrom e.opt) (λ r. Unit {0}) (compile_trial dbl fbk jit e st)
  unfolding compile_trial
  compile_trial-ends e st h = by_result (jit.recompile e.opt st) refl
    where
      by_result :
          (r : Option (Recompiled jit.O fbk.F))
          → jit.recompile e.opt st ≡ r
          → Traces CheckFrom
              (RecompileFrom e.opt)
              {A = Reply dbl fbk jit}
              (λ u. Unit {0})
              (elim r [
                | none ↦ recompile_failed
                | some r ↦ ok (record {
                  entry = record e { opt = r.optimizer; trial = wrap r.function r.feedback };
                  store = r.store;
                  slot = trial_slot;
                })
              ])
      by_result none f = (st, h, f)
      by_result (some r) f = tt

  use_best-ends :
      (e : Entry dbl fbk jit) (st : Store dbl fbk jit)
      → From st
      → Traces CheckFrom (RecompileFrom e.opt) (λ r. Unit {0}) (use_best dbl fbk jit e st)
  unfolding use_best experiment
  use_best-ends e st h =
      let R = RecompileFrom e.opt in
      >>=-Traces CheckFrom R _ (get_feedback e.best) _ (get_feedback-Traces CheckFrom R e.best)
        λ b _.
          let long_enough = deployed_long_enough dbl fbk jit e st b in
          Traces-if CheckFrom R _ (not (keep_best dbl fbk jit e long_enough)) _ _
            (compile_trial-ends _ _ (From-write st b _ h (reset (h b))))
            (Traces-if CheckFrom R _ (long_enough && has_others dbl fbk jit e) _ _
              (>>=-Traces CheckFrom R _ (fast_experiment dbl fbk jit e st b) _
                (fast_experiment-ends R e st b h) (λ r _. tt))
              tt)

  pick_slot-ends :
      (r : Entry dbl fbk jit × Store dbl fbk jit) (o : jit.O)
      → Kept o r
      → Traces CheckFrom (RecompileFrom o) (λ r. Unit {0}) (pick_slot dbl fbk jit r)
  unfolding pick_slot
  pick_slot-ends (e, st) o (same, h) =
      let R = RecompileFrom o in
      Traces-if CheckFrom R _ (not (is_empty e.trial)) _ _ tt (
        Traces-if CheckFrom R _ (is_empty e.best) _ _ tt (
          subst
            (λ x. Traces CheckFrom (RecompileFrom x) (λ r. Unit {0}) (use_best dbl fbk jit e st))
            same (use_best-ends e st h)))

  serve-ends :
      (e : Entry dbl fbk jit) (st : Store dbl fbk jit)
      → From st
      → Traces CheckFrom (RecompileFrom e.opt) (λ r. Unit {0}) (serve dbl fbk jit e st)
  unfolding serve
  serve-ends e st h =
      >>=-Traces CheckFrom (RecompileFrom e.opt) _ (check_trial dbl fbk jit e st) _
        (check_trial-Kept (RecompileFrom e.opt) e st h) (λ r k. pick_slot-ends r e.opt k)

  pub reoptimize_entry-ends :
      (e : Entry dbl fbk jit) (st : Store dbl fbk jit)
      → From st
      → Traces CheckFrom
          (RecompileFrom e.opt)
          (λ r. Unit {0})
          (reoptimize_entry dbl fbk jit false e st)
  unfolding reoptimize_entry
  reoptimize_entry-ends e st h = serve-ends _ st h

  -- The optimizer of a request with an old key, or the new one, initialized.
  abbrev pub Asked : {K : Type 0} → List (K × Entry dbl fbk jit) → jit.O → jit.O → Type 0
  Asked [] o x = x ≡ jit.initialize o
  Asked (p ∷ m) o x = (x ≡ p.1.opt) ⊎ Asked m o x

  abbrev pub RecompileAsked : {K : Type 0} → List (K × Entry dbl fbk jit) → jit.O → Type 0
  RecompileAsked m o = (x : jit.O) × Asked m o x × RecompileFrom x

  pub reoptimize-ends :
      {K : Type 0} (same_key : K → K → Bool) (m : List (K × Entry dbl fbk jit)) (k : K) (o : jit.O)
      (st : Store dbl fbk jit)
      → From st
      → Traces CheckFrom
          (RecompileAsked m o)
          (λ r. Unit {0})
          (reoptimize dbl fbk jit same_key m k o st)
  unfolding reoptimize reoptimize_entry new_info
  reoptimize-ends same_key [] k o st h =
      >>=-Traces CheckFrom _ _ (compile_trial dbl fbk jit _ st) _
        (Traces-mono _ _ _ _ _ _ (compile_trial dbl fbk jit _ st) (λ f. f)
          (λ r. (jit.initialize o, refl, r)) (λ a u. u) (compile_trial-ends _ st h))
        (λ r _. tt)
  reoptimize-ends same_key ((j, e) ∷ m) k o st h =
      Traces-if CheckFrom _ _ (same_key j k) _ _
        (>>=-Traces CheckFrom _ _ (reoptimize_entry dbl fbk jit false e st) _
          (Traces-mono _ _ _ _ _ _ (reoptimize_entry dbl fbk jit false e st) (λ f. f)
            (λ r. (e.opt, inl refl, r)) (λ a u. u) (reoptimize_entry-ends e st h))
          (λ r _. tt))
        (>>=-Traces CheckFrom _ _ (reoptimize dbl fbk jit same_key m k o st) _
          (Traces-mono _ _ _ _ _ _ (reoptimize dbl fbk jit same_key m k o st) (λ f. f)
            (λ (x, asked, r). (x, inr asked, r)) (λ a u. u) (reoptimize-ends same_key m k o st h))
          (λ r _. tt))
