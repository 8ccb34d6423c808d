-- ===== src/Pipeline/Order.antt =====
-- The pipeline as a queue: recompile() returns the versions in the order in which the optimize jobs
-- made them.
use mathlib.Core.List.{append-nil, append_assoc, map-append}
use native.Mathlib.Numerals.{add-one}
use at_jit.Prelude.{
  ℕ, zero, suc, ◌+◌, Bool, not, some, List, [], ◌∷◌, ◌++◌, map, ◌≡◌, refl, arith, ◌∙◌,
}
use at_jit.Pipeline.{
  OptimizeResult, MainPc, missed, waiting, OptPc, running, decided, CgPc, compiling, pushed,
  Pipeline, add_to_list, obtain, Event, call, first_look, check, dispatch, poll, opt_start,
  opt_decide, opt_submit, cg_start, cg_push, cg_finish, decide, step, Reach, start, next,
}
use at_jit.Pipeline.Invariant.{opt_item}

-- 0, 1, ..., n - 1
abbrev pub upto : ℕ → List ℕ
upto zero = []
upto (suc n) = upto n ++ n ∷ []

abbrev versions : List OptimizeResult → List ℕ
versions = map λ x. x.version

-- The codegen job at work whose result is not on the list yet.
abbrev pub todo : CgPc → List OptimizeResult
todo (compiling x) = x ∷ []
todo _ = []

abbrev pub in_flight : Pipeline → List ℕ
in_flight s = versions (todo s.cg ++ (s.codegen_q ++ opt_item s.opt))

-- Every version that was made, oldest first.
abbrev pub trace : Pipeline → List ℕ
trace s = s.delivered ++ (s.recompile_done ++ in_flight s)

module _ {ℓ} {A : Type ℓ} where
  shift : (x : A) (xs ys : List A) → (xs ++ x ∷ []) ++ ys ≡ xs ++ (x ∷ ys)
  shift x xs ys = simp append_assoc

obtain-trace :
    (done : List ℕ) (s : Pipeline) (m : MainPc)
    → s.recompile_done ≡ done
    → trace (obtain done s m) ≡ trace s
unfolding obtain
obtain-trace [] s m e = refl
obtain-trace (v ∷ rest) s m e = rw e (shift v s.delivered (rest ++ in_flight s))

abbrev job : Pipeline → Bool → OptimizeResult
job s more = record { version = s.next_version; last = not more }

decide-trace :
    (s : Pipeline) (more : Bool)
    → s.opt ≡ running
    → trace (decide s more) ≡ trace s ++ s.next_version ∷ []
unfolding decide
decide-trace s more e = rw e (simp (append-nil, append_assoc, map-append))

decide-next : (s : Pipeline) (more : Bool) → (decide s more).next_version ≡ s.next_version + 1
unfolding decide
decide-next s more = refl

opt_submit-trace :
    (s t : Pipeline) (o : OptPc) → s.opt ≡ o → step opt_submit s ≡ some t → trace t ≡ trace s
unfolding step
opt_submit-trace s t OptPc.resting e h = ground arith
opt_submit-trace s t running e h = ground arith
opt_submit-trace s t (decided x) e h = ground (arith, append-nil (s.codegen_q ++ x ∷ []))

cg_push-trace : (s t : Pipeline) (c : CgPc) → s.cg ≡ c → step cg_push s ≡ some t → trace t ≡ trace s
unfolding step add_to_list
cg_push-trace s t CgPc.resting e h = ground arith
cg_push-trace s t (pushed x) e h = ground arith
cg_push-trace s t (compiling x) e h =
    ground (arith, shift x.version s.recompile_done (versions (s.codegen_q ++ opt_item s.opt)))

abbrev IsOrdered : Pipeline → Type 0
IsOrdered s = trace s ≡ upto s.next_version

obtain-IsOrdered :
    (done : List ℕ) (s : Pipeline) (m : MainPc)
    → s.recompile_done ≡ done
    → IsOrdered s
    → IsOrdered (obtain done s m)
unfolding obtain
obtain-IsOrdered [] s m e v = v
obtain-IsOrdered (x ∷ rest) s m e v = obtain-trace (x ∷ rest) s m e ∙ v

first_look-IsOrdered : (s t : Pipeline) → IsOrdered s → step first_look s ≡ some t → IsOrdered t
unfolding step
first_look-IsOrdered s t v h = ground (arith, obtain-IsOrdered s.recompile_done s missed refl v)

poll-IsOrdered :
    (s t : Pipeline) (m : MainPc) → s.main ≡ m → IsOrdered s → step poll s ≡ some t → IsOrdered t
unfolding step
poll-IsOrdered s t (waiting n) e v h =
    ground (arith, obtain-IsOrdered s.recompile_done s (waiting (n + 1)) refl v)
poll-IsOrdered s t m e v h = ground arith

opt_decide-IsOrdered :
    (s t : Pipeline) (more : Bool) → IsOrdered s → step (opt_decide more) s ≡ some t → IsOrdered t
unfolding step
opt_decide-IsOrdered s t more v h =
    ground (arith, decide-trace s more, add-one s.next_version, decide-next s more)

step-IsOrdered : (e : Event) (s t : Pipeline) → IsOrdered s → step e s ≡ some t → IsOrdered t
unfolding step add_to_list
step-IsOrdered call s t v h = ground arith
step-IsOrdered first_look s t v h = first_look-IsOrdered s t v h
step-IsOrdered check s t v h = ground arith
step-IsOrdered dispatch s t v h = ground arith
step-IsOrdered poll s t v h = poll-IsOrdered s t s.main refl v h
step-IsOrdered opt_start s t v h = ground arith
step-IsOrdered (opt_decide more) s t v h = opt_decide-IsOrdered s t more v h
step-IsOrdered opt_submit s t v h = ground (arith, opt_submit-trace s t s.opt refl h)
step-IsOrdered cg_start s t v h = ground arith
step-IsOrdered cg_push s t v h = ground (arith, cg_push-trace s t s.cg refl h)
step-IsOrdered cg_finish s t v h = ground arith

-- In every reachable state, the versions that recompile() has returned, then those on the list, then
-- those in codegen are 0, 1, 2, ... up to the number of optimize jobs done: none is lost, none is
-- delivered twice, and none overtakes an older one.
pub Reach-IsOrdered : {s : Pipeline} → Reach s → trace s ≡ upto s.next_version
Reach-IsOrdered start = refl
Reach-IsOrdered (next {s} {t} e r h) = step-IsOrdered e s t (Reach-IsOrdered r) h
