-- ===== src/Pipeline/Invariant.antt =====
-- Who carries the chain of compile jobs. While recompileActive_ is set there is exactly one carrier:
-- a job about to be dispatched, waiting or running, or a codegen job marked as the end.
use mathlib.Core.List.{append-nil, append_assoc}
use at_jit.Prelude.{
  ℕ, ◌+◌, Bool, true, false, not, some, List, [], ◌∷◌, ◌++◌, if◌then◌else◌, ◌==◌, ◌≡◌, ◌≢◌, refl,
  arith,
}
use at_jit.Pipeline.{
  OptimizeResult, MainPc, activated, OptPc, running, decided, CgPc, compiling, pushed, Pipeline,
  is_nil, empty, working, ready, status, add_to_list, obtain, Event, call, first_look, check,
  dispatch, poll, opt_start, opt_decide, opt_submit, cg_start, cg_push, cg_finish, decide, step,
  Reach, start, next,
}

abbrev one_if : Bool → ℕ
one_if b = if b then 1 else 0

abbrev main_carries : MainPc → ℕ
main_carries activated = 1
main_carries _ = 0

abbrev opt_carries : OptPc → ℕ
opt_carries running = 1
opt_carries _ = 0

-- Carriers before the codegen queue.
abbrev pub upstream : Pipeline → ℕ
upstream s = s.optimize_q + main_carries s.main + opt_carries s.opt

abbrev pub cg_item : CgPc → List OptimizeResult
cg_item CgPc.resting = []
cg_item (compiling x) = x ∷ []
cg_item (pushed x) = x ∷ []

abbrev pub opt_item : OptPc → List OptimizeResult
opt_item (decided x) = x ∷ []
opt_item _ = []

-- The codegen jobs, in order: the one at work, those in the queue, the one about to be submitted.
abbrev pub items : Pipeline → List OptimizeResult
items s = (cg_item s.cg ++ s.codegen_q) ++ opt_item s.opt

abbrev pub ends : List OptimizeResult → ℕ
ends [] = 0
ends (x ∷ xs) = one_if x.last + ends xs

-- Only the last job may be marked as the end.
abbrev pub EndsLast : List OptimizeResult → Type 0
EndsLast [] = Unit
EndsLast (x ∷ xs) = (x.last ≡ true → xs ≡ []) × EndsLast xs

pub record Inv (s : Pipeline) : Type 0 where
  pub flag : s.done_queue_empty ≡ is_nil s.recompile_done
  pub chain : upstream s + ends (items s) ≡ one_if s.recompile_active
  pub ends_last : EndsLast (items s)
  pub live : s.recompile_active ≡ false → items s ≡ []

ends-append : (xs ys : List OptimizeResult) → ends (xs ++ ys) ≡ ends xs + ends ys
ends-append [] ys = omega arith
ends-append (x ∷ xs) ys = omega (arith, ends-append xs ys)

EndsLast-append_one :
    (xs : List OptimizeResult) (x : OptimizeResult) → ends xs ≡ 0 → EndsLast (xs ++ x ∷ [])
EndsLast-append_one [] x h = (λ _. refl, tt)
EndsLast-append_one (y ∷ xs) x h =
    (λ e. absurd (ground arith), EndsLast-append_one xs x (omega arith))

append_one-items :
    (xs ys : List OptimizeResult) (x : OptimizeResult)
    → (xs ++ (ys ++ x ∷ [])) ++ [] ≡ (xs ++ ys) ++ x ∷ []
append_one-items xs ys x = simp (append-nil, append_assoc)

-- Submitting a job moves it to the end of the queue.
opt_submit-items :
    (s t : Pipeline) (o : OptPc) → s.opt ≡ o → step opt_submit s ≡ some t → items t ≡ items s
unfolding step
opt_submit-items s t OptPc.resting e h = ground arith
opt_submit-items s t running e h = ground arith
opt_submit-items s t (decided x) e h = ground (arith, append_one-items (cg_item s.cg) s.codegen_q x)

pub step-Inv : (e : Event) (s t : Pipeline) → Inv s → step e s ≡ some t → Inv t
unfolding step obtain decide add_to_list
step-Inv call s t v h = ground arith
step-Inv first_look s t v h = ground arith
step-Inv check s t v h = ground arith
step-Inv dispatch s t v h = ground arith
step-Inv poll s t v h = ground arith
step-Inv opt_start s t v h = ground arith
step-Inv (opt_decide more) s t v h = ground (
  arith,
  append-nil (cg_item s.cg ++ s.codegen_q),
  ends-append (cg_item s.cg ++ s.codegen_q)
      (record { version = s.next_version; last = not more } ∷ []),
  EndsLast-append_one (cg_item s.cg ++ s.codegen_q)
      (record { version = s.next_version; last = not more }),
)
step-Inv opt_submit s t v h = ground (arith, opt_submit-items s t s.opt refl h)
step-Inv cg_start s t v h = ground arith
step-Inv cg_push s t v h = ground arith
step-Inv cg_finish s t v h = ground arith

-- In every reachable state the invariant holds: the flag tells whether the list is empty, exactly one
-- carrier exists while recompileActive_ is set and none otherwise, only the last codegen job is marked
-- as the end, and no codegen job is left once recompileActive_ is cleared.
pub Reach-Inv : {s : Pipeline} → Reach s → Inv s
Reach-Inv start = record { flag = refl; chain = omega arith; ends_last = tt; live = λ _. refl }
Reach-Inv (next {s} {t} e r h) = step-Inv e s t (Reach-Inv r) h

pub append_nil_parts {ℓ} : {A : Type ℓ} (xs ys : List A) → xs ++ ys ≡ [] → (xs ≡ []) × (ys ≡ [])
append_nil_parts [] ys h = (refl, h)
append_nil_parts (x ∷ xs) ys h = cc

-- The destructor waits until recompileActive_ is cleared. In a reachable state where it is, no job
-- that refers to the optimizer is waiting or running in either queue, and the client has none to
-- dispatch.
pub destructor_safe :
    {s : Pipeline}
    → Reach s
    → s.recompile_active ≡ false
    → (s.optimize_q ≡ 0)
      × (s.opt ≡ OptPc.resting)
      × (s.codegen_q ≡ [])
      × (s.cg ≡ CgPc.resting)
      × (s.main ≢ activated)
destructor_safe {s} r quiet =
    let v = Reach-Inv r in
    ground (
      arith,
      v.live quiet,
      append_nil_parts (cg_item s.cg ++ s.codegen_q) (opt_item s.opt) (v.live quiet),
      append_nil_parts (cg_item s.cg) s.codegen_q,
    )

-- What status() answers in a reachable state: `empty` exactly where the list is empty and no job is
-- under way, `working` where it is empty and one is, `ready` where the list is not empty.
pub status_lem :
    {s : Pipeline}
    → Reach s
    → status s ≡ (
        if is_nil s.recompile_done
        then (if upstream s + ends (items s) == 0 then empty else working)
        else ready)
unfolding status
status_lem {s} r = let v = Reach-Inv r in ground arith
