-- ===== src/Pipeline/Tests.antt =====
-- Tests of the pipeline: schedules from the start.
use at_jit.Prelude.{
  true, false, some, List, [], ◌∷◌, ◌≡◌, refl, arith, inl, inr, Option-cases, subst,
}
use at_jit.Pipeline.{
  OptimizeResult, waiting, running, pushed, Pipeline, init, Event, call, first_look, check,
  dispatch, poll, opt_start, opt_decide, opt_submit, cg_start, cg_push, cg_finish, add_to_list,
  obtain, decide, step, run, Reach, start, next,
}
use at_jit.Pipeline.Invariant.{Inv, Reach-Inv}
use at_jit.Pipeline.Order.{trace, upto, Reach-IsOrdered}
use at_jit.Pipeline.Progress.{Delivers, waiting-Delivers}
use at_jit.Pipeline.LostWakeup.{race, IsStalled, polling, lost_wakeup}

run-Reach : (es : List Event) (s t : Pipeline) → Reach s → run es s ≡ some t → Reach t
unfolding run
run-Reach [] s t r h = let e : s ≡ t = cc in subst Reach e r
run-Reach (e ∷ es) s t r h = elim (Option-cases (step e s)) [
  | inl stuck ↦ absurd (ground arith)
  | inr (u, moved) ↦ run-Reach es u t (next e r moved) (ground arith)
]

-- The first call polls while its job is being optimized.
abbrev first_job : List Event
first_job = call ∷ first_look ∷ check ∷ dispatch ∷ opt_start ∷ []

abbrev optimizing : Pipeline
optimizing = record init { main = waiting 0; opt = running; recompile_active = true }

-- The job is compiled, its result is taken, and its codegen job is about to clear the flag.
abbrev first_result : List Event
first_result = opt_decide false ∷ opt_submit ∷ cg_start ∷ cg_push ∷ poll ∷ []

abbrev last_job : OptimizeResult
last_job = record { version = 0; last = true }

abbrev taken : Pipeline
taken = record init {
  cg = pushed last_job;
  recompile_active = true;
  next_version = 1;
  delivered = 0 ∷ [];
}

-- The chain has ended.
abbrev over : Pipeline
over = record init { next_version = 1; delivered = 0 ∷ [] }

optimizing-Reach : Reach optimizing
unfolding run step obtain
optimizing-Reach = run-Reach first_job init optimizing start refl

taken-Reach : Reach taken
unfolding run step obtain decide add_to_list
taken-Reach = run-Reach first_result optimizing taken optimizing-Reach refl

over-Reach : Reach over
unfolding run step
over-Reach = run-Reach (cg_finish ∷ []) taken over taken-Reach refl

Reach-Inv_example : Inv taken
Reach-Inv_example = Reach-Inv taken-Reach

Reach-IsOrdered_example : trace taken ≡ upto 1
Reach-IsOrdered_example = Reach-IsOrdered taken-Reach

waiting-Delivers_example : Delivers optimizing
waiting-Delivers_example =
    waiting-Delivers optimizing 0 optimizing-Reach refl (omega arith) refl refl
      (λ x e. absurd (ground arith))

lost_wakeup_example :
    (t : Pipeline) × (run race taken ≡ some t)
    × IsStalled t
    × (t.delivered ≡ 0 ∷ [])
    × ((es : List Event) (u : Pipeline)
        → run es t ≡ some u
        → (polling u.main ≡ true) × (u.delivered ≡ 0 ∷ []))
lost_wakeup_example = lost_wakeup taken last_job taken-Reach refl refl refl refl
