-- ===== src/Pipeline/LostWakeup.antt =====
-- A race at the end of a chain. codegen_callback() puts the last result on the list before it clears
-- recompileActive_. A client that takes that result and calls recompile() again in between finds the
-- list empty and the flag still set, starts no job, and polls for a result that nobody will make.
use at_jit.Prelude.{
  ℕ, ◌+◌, Bool, true, false, some, List, [], ◌∷◌, ◌++◌, ◌≡◌, refl, arith, inl, inr, Option-cases,
  ◌∙◌,
}
use at_jit.Pipeline.{
  OptimizeResult, MainPc, outside, waiting, aborted, OptPc, CgPc, pushed, Pipeline, obtain, Event,
  call, first_look, check, poll, cg_finish, step, run, Reach,
}
use at_jit.Pipeline.Invariant.{Inv, opt_item, append_nil_parts, Reach-Inv}

-- The client is in the polling loop, or gave up there.
abbrev pub polling : MainPc → Bool
polling (waiting n) = true
polling aborted = true
polling _ = false

-- The client polls, and there is nothing to wait for.
pub record IsStalled (s : Pipeline) : Type 0 where
  pub polls : polling s.main ≡ true
  pub no_job : s.optimize_q ≡ 0
  pub no_opt : s.opt ≡ OptPc.resting
  pub no_queue : s.codegen_q ≡ []
  pub no_codegen : s.cg ≡ CgPc.resting
  pub no_result : s.recompile_done ≡ []

obtain_nothing :
    (done : List ℕ) (s : Pipeline) (m : MainPc)
    → done ≡ []
    → (obtain done s m ≡ record s { done_queue_empty = true; main = m })
unfolding obtain
obtain_nothing [] s m e = refl
obtain_nothing (x ∷ xs) s m e = cc

poll-IsStalled :
    (s t : Pipeline) (m : MainPc)
    → s.main ≡ m
    → IsStalled s
    → step poll s ≡ some t
    → IsStalled t × (t.delivered ≡ s.delivered)
unfolding step
poll-IsStalled s t (waiting n) e v h =
    ground (arith, obtain_nothing s.recompile_done s (waiting (n + 1)))
poll-IsStalled s t m e v h = ground arith

step-IsStalled :
    (e : Event) (s t : Pipeline)
    → IsStalled s
    → step e s ≡ some t
    → IsStalled t × (t.delivered ≡ s.delivered)
unfolding step
step-IsStalled poll s t v h = poll-IsStalled s t s.main refl v h
step-IsStalled e s t v h = ground arith

run-IsStalled :
    (es : List Event) (s u : Pipeline)
    → IsStalled s
    → run es s ≡ some u
    → IsStalled u × (u.delivered ≡ s.delivered)
unfolding run
run-IsStalled [] s u v h = ground arith
run-IsStalled (e ∷ es) s u v h = elim (Option-cases (step e s)) [
  | inl stuck ↦ absurd (ground arith)
  | inr (t, moved) ↦
      let (w, same) = step-IsStalled e s t v moved in
      let (z, same') = run-IsStalled es t u w (ground arith) in (z, same' ∙ same)
]

abbrev pub race : List Event
race = call ∷ first_look ∷ check ∷ cg_finish ∷ []

-- The last job of a chain is alone: nothing waits behind it.
alone :
    (s : Pipeline) (x : OptimizeResult)
    → Inv s
    → s.cg ≡ pushed x
    → x.last ≡ true
    → (s.recompile_active ≡ true)
      × (s.optimize_q ≡ 0)
      × (s.opt ≡ OptPc.resting)
      × (s.codegen_q ≡ [])
alone s x v at last =
    let nothing : s.codegen_q ++ opt_item s.opt ≡ [] = ground arith in
    ground (arith, append_nil_parts s.codegen_q (opt_item s.opt) nothing)

abbrev after_race : Pipeline → Pipeline
after_race s = record s {
  main = waiting 0;
  cg = CgPc.resting;
  recompile_active = false;
  done_queue_empty = true;
}

run-race :
    (s : Pipeline) (x : OptimizeResult)
    → s.main ≡ outside
    → s.cg ≡ pushed x
    → x.last ≡ true
    → s.recompile_done ≡ []
    → s.recompile_active ≡ true
    → run race s ≡ some (after_race s)
unfolding run step obtain
run-race s x out at last empty active = ground arith

-- In any reachable state where the last job of a chain has put its result on the list, that result
-- was taken, and recompileActive_ is not cleared yet: if the client calls recompile() again and reads
-- the flag before it is cleared, then whatever the threads do afterwards the call never returns a
-- version.
pub lost_wakeup :
    (s : Pipeline) (x : OptimizeResult)
    → Reach s
    → s.main ≡ outside
    → s.cg ≡ pushed x
    → x.last ≡ true
    → s.recompile_done ≡ []
    → (t : Pipeline) × (run race s ≡ some t)
      × IsStalled t
      × (t.delivered ≡ s.delivered)
      × ((es : List Event) (u : Pipeline)
          → run es t ≡ some u
          → (polling u.main ≡ true) × (u.delivered ≡ s.delivered))
lost_wakeup s x r out at last empty =
    let (active, no_job, no_opt, no_queue) = alone s x (Reach-Inv r) at last in
    let v : IsStalled (after_race s) = record {
      polls = refl;
      no_job = no_job;
      no_opt = no_opt;
      no_queue = no_queue;
      no_codegen = refl;
      no_result = empty;
    } in
    (
      after_race s,
      run-race s x out at last empty active,
      v,
      refl,
      λ es u h. let (w, same) = run-IsStalled es (after_race s) u v h in (w.polls, same),
    )
