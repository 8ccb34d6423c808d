-- ===== src/Pipeline/Progress.antt =====
-- A client that polls while a chain of compile jobs is under way can be served: no thread is blocked
-- for ever, and the workers' next few steps put a result on the list.
use at_jit.Prelude.{
  ℕ, suc, ◌+◌, ◌-◌, ◌<◌, true, false, some, List, [], ◌∷◌, ◌++◌, ◌≡◌, refl, arith, ◌∙◌, ap,
}
use at_jit.Pipeline.{
  OptimizeResult, outside, waiting, OptPc, running, decided, CgPc, compiling, pushed, Pipeline,
  add_to_list, obtain, Event, poll, opt_start, opt_decide, opt_submit, cg_start, cg_push, cg_finish,
  decide, step, run, Reach, bailout,
}
use at_jit.Pipeline.Invariant.{upstream, ends, items, Reach-Inv}

-- Some schedule makes the client's call return one version.
abbrev pub Delivers : Pipeline → Type 0
Delivers s =
    (es : List Event) × (t : Pipeline) × (v : ℕ) × (run es s ≡ some t)
    × (t.main ≡ outside)
    × (t.delivered ≡ s.delivered ++ v ∷ [])

before :
    (e : Event) (s t : Pipeline)
    → step e s ≡ some t
    → t.delivered ≡ s.delivered
    → Delivers t
    → Delivers s
unfolding run
before e s t moved same (es, u, v, ran, out, got) =
    (e ∷ es, u, v, rw (moved, run) ran, out, got ∙ ap (λ l. l ++ v ∷ []) same)

-- The client polls, below the limit, and the list is empty.
record IsWaiting (n : ℕ) (s : Pipeline) : Type 0 where
  at : s.main ≡ waiting n
  in_time : n < bailout
  nothing : s.recompile_done ≡ []

module _ {n : ℕ} where
  compiling-Delivers :
      (s : Pipeline) (x : OptimizeResult) → IsWaiting n s → s.cg ≡ compiling x → Delivers s
  unfolding run step add_to_list obtain
  compiling-Delivers s x w c = (
    cg_push ∷ poll ∷ [],
    record s {
      cg = pushed x;
      recompile_done = [];
      done_queue_empty = true;
      delivered = s.delivered ++ x.version ∷ [];
      main = outside;
    },
    x.version,
    ground arith,
    refl,
    refl,
  )

  queue-Delivers :
      (s : Pipeline) (x : OptimizeResult) (rest : List OptimizeResult)
      → IsWaiting n s
      → s.cg ≡ CgPc.resting
      → s.codegen_q ≡ x ∷ rest
      → Delivers s
  unfolding step
  queue-Delivers s x rest w c q =
      let t : Pipeline = record s { codegen_q = rest; cg = compiling x } in
      before cg_start s t (ground arith) refl (compiling-Delivers t x (ground arith) refl)

  decided-Delivers :
      (s : Pipeline) (x : OptimizeResult)
      → IsWaiting n s
      → s.cg ≡ CgPc.resting
      → s.codegen_q ≡ []
      → s.opt ≡ decided x
      → Delivers s
  unfolding step
  decided-Delivers s x w c q o =
      let t : Pipeline = record s { opt = OptPc.resting; codegen_q = x ∷ [] } in
      before opt_submit s t (ground arith) refl (queue-Delivers t x [] (ground arith) c refl)

  running-Delivers :
      (s : Pipeline)
      → IsWaiting n s
      → s.cg ≡ CgPc.resting
      → s.codegen_q ≡ []
      → s.opt ≡ running
      → Delivers s
  unfolding step decide
  running-Delivers s w c q o =
      before (opt_decide false) s (decide s false) (ground arith) refl
        (decided-Delivers (decide s false) _ (ground arith) c q refl)

  dispatched-Delivers :
      (s : Pipeline) (k : ℕ)
      → IsWaiting n s
      → s.cg ≡ CgPc.resting
      → s.codegen_q ≡ []
      → s.opt ≡ OptPc.resting
      → s.optimize_q ≡ suc k
      → Delivers s
  unfolding step
  dispatched-Delivers s k w c q o j =
      let t : Pipeline = record s { optimize_q = k; opt = running } in
      before opt_start s t (ground arith) refl (running-Delivers t (ground arith) c q refl)

  -- With the codegen worker at rest.
  resting-Delivers :
      (s : Pipeline) (q : List OptimizeResult) (o : OptPc)
      → IsWaiting n s
      → upstream s + ends (items s) ≡ 1
      → s.cg ≡ CgPc.resting
      → s.codegen_q ≡ q
      → s.opt ≡ o
      → Delivers s
  resting-Delivers s (x ∷ rest) o w chain c q e = queue-Delivers s x rest w c q
  resting-Delivers s [] (decided x) w chain c q e = decided-Delivers s x w c q e
  resting-Delivers s [] running w chain c q e = running-Delivers s w c q e
  resting-Delivers s [] OptPc.resting w chain c q e =
      dispatched-Delivers s (s.optimize_q - 1) w c q e (ground arith)

  codegen-Delivers :
      (s : Pipeline) (c : CgPc)
      → IsWaiting n s
      → upstream s + ends (items s) ≡ 1
      → ((x : OptimizeResult) → s.cg ≡ pushed x → x.last ≡ false)
      → s.cg ≡ c
      → Delivers s
  unfolding step
  codegen-Delivers s CgPc.resting w chain open_end e =
      resting-Delivers s s.codegen_q s.opt w chain e refl refl
  codegen-Delivers s (compiling x) w chain open_end e = compiling-Delivers s x w e
  codegen-Delivers s (pushed x) w chain open_end e =
      let goes_on : x.last ≡ false = open_end x e in
      let t : Pipeline = record s { cg = CgPc.resting } in
      before cg_finish s t (ground arith) refl
        (resting-Delivers t t.codegen_q t.opt (ground arith) (ground arith) refl refl refl)

-- In a reachable state where the client polls below the limit, the list is empty, recompileActive_ is
-- set, and the codegen worker is not just about to clear it, some schedule of the workers and one more
-- poll makes recompile() return a version.
pub waiting-Delivers :
    (s : Pipeline) (n : ℕ)
    → Reach s
    → s.main ≡ waiting n
    → n < bailout
    → s.recompile_done ≡ []
    → s.recompile_active ≡ true
    → ((x : OptimizeResult) → s.cg ≡ pushed x → x.last ≡ false)
    → Delivers s
waiting-Delivers s n r at in_time nothing active open_end =
    let v = Reach-Inv r in
    codegen-Delivers s s.cg (record { at = at; in_time = in_time; nothing = nothing })
      (ground arith) open_end refl
