-- ===== src/Pipeline.antt =====
-- runtime/tuner/Optimizer.cpp: the recompilation pipeline of the class Optimizer. One client thread
-- calls recompile(); a serial queue runs optimize jobs, a serial queue runs codegen jobs, and a third
-- serial queue guards the list of finished versions. A step is one action that the other threads can
-- see; the steps of the three threads interleave in any order.
pub mod Invariant
pub mod Order
pub mod Progress
pub mod LostWakeup
mod Tests
use at_jit.Prelude.{
  ℕ, zero, suc, ◌+◌, Bool, true, false, not, Option, none, some, List, [], ◌∷◌, ◌++◌, if◌then◌else◌,
  leb, ◌≡◌,
}

-- struct OptimizeResult: the number of the job and the field End
pub record OptimizeResult : Type 0 where
  pub version : ℕ
  pub last : Bool

-- Where the client stands in recompile().
pub data MainPc : Type 0 where
  outside : MainPc
  entered : MainPc  -- before the first look at the list
  missed : MainPc  -- the list was empty
  activated : MainPc  -- recompileActive_ is set, the job is not dispatched yet
  waiting : ℕ → MainPc  -- the polling loop, with waitIters
  aborted : MainPc

-- Where the worker of optimizeQ_ stands in optimize_callback().
pub data OptPc : Type 0 where
  resting : OptPc
  running : OptPc
  decided : OptimizeResult → OptPc  -- the next job is dispatched, this job's codegen is not

-- Where the worker of codegenQ_ stands in codegen_callback().
pub data CgPc : Type 0 where
  resting : CgPc
  compiling : OptimizeResult → CgPc
  pushed : OptimizeResult → CgPc  -- the result is on the list, recompileActive_ not yet updated

pub record Pipeline : Type 0 where
  pub main : MainPc
  pub optimize_q : ℕ  -- jobs waiting in optimizeQ_
  pub opt : OptPc
  pub codegen_q : List OptimizeResult
  pub cg : CgPc
  pub recompile_active : Bool
  pub recompile_done : List ℕ
  pub done_queue_empty : Bool
  pub next_version : ℕ
  pub delivered : List ℕ  -- what recompile() has returned, oldest first

-- enum opt_status::Value
pub data Status : Type 0 where
  empty working ready : Status

abbrev pub init : Pipeline
init = record {
  main = outside;
  optimize_q = 0;
  opt = OptPc.resting;
  codegen_q = [];
  cg = CgPc.resting;
  recompile_active = false;
  recompile_done = [];
  done_queue_empty = true;
  next_version = 0;
  delivered = [];
}

abbrev pub is_nil {ℓ} : {A : Type ℓ} → List A → Bool
is_nil [] = true
is_nil (x ∷ xs) = false

pub status : Pipeline → Status
status s = if s.done_queue_empty then (if s.recompile_active then working else empty) else ready

-- addToList_callback
pub add_to_list : Pipeline → ℕ → Pipeline
add_to_list s v = record s { recompile_done = s.recompile_done ++ v ∷ []; done_queue_empty = false }

-- obtain_callback, with what the client does next on a hit and on a miss
pub obtain : List ℕ → Pipeline → MainPc → Pipeline
obtain [] s next = record s { done_queue_empty = true; main = next }
obtain (v ∷ rest) s next = record s {
  recompile_done = rest;
  done_queue_empty = is_nil rest;
  delivered = s.delivered ++ v ∷ [];
  main = outside;
}

-- COMPILE_JOB_BAILOUT_MS, over a poll each millisecond
abbrev pub bailout : ℕ
bailout = 120000

pub data Event : Type 0 where
  call first_look check dispatch poll : Event  -- the client
  opt_start : Event
  opt_decide : Bool → Event  -- the answer of shouldCompileNext()
  opt_submit : Event
  cg_start cg_push cg_finish : Event

-- The end of optimize_callback(): the chain goes on if the tuner says so.
pub decide : Pipeline → Bool → Pipeline
decide s more = record s {
  opt = decided (record { version = s.next_version; last = not more });
  optimize_q = if more then s.optimize_q + 1 else s.optimize_q;
  next_version = s.next_version + 1;
}

-- `none`: the event's thread is not at that point.
pub step : Event → Pipeline → Option Pipeline
step call s = elim s.main [ outside ↦ some (record s { main = entered }) | _ ↦ none ]
step first_look s = elim s.main [ entered ↦ some (obtain s.recompile_done s missed) | _ ↦ none ]
step check s = elim s.main [
  | missed ↦ some (
      if s.recompile_active
      then record s { main = waiting 0 }
      else record s { main = activated; recompile_active = true })
  | _ ↦ none
]
step dispatch s = elim s.main [
  | activated ↦ some (record s { main = waiting 0; optimize_q = s.optimize_q + 1 })
  | _ ↦ none
]
step poll s = elim s.main [
  | waiting n ↦ some (
      if leb bailout n
      then record s { main = aborted }
      else obtain s.recompile_done s (waiting (n + 1)))
  | _ ↦ none
]
step opt_start s = elim s.opt [
  | resting ↦ elim s.optimize_q [
    | suc n ↦ some (record s { optimize_q = n; opt = running })
    | zero ↦ none
  ]
  | _ ↦ none
]
step (opt_decide more) s = elim s.opt [ running ↦ some (decide s more) | _ ↦ none ]
step opt_submit s = elim s.opt [
  | decided x ↦ some (record s { opt = OptPc.resting; codegen_q = s.codegen_q ++ x ∷ [] })
  | _ ↦ none
]
step cg_start s = elim s.cg [
  | resting ↦ elim s.codegen_q [
    | x ∷ rest ↦ some (record s { codegen_q = rest; cg = compiling x })
    | [] ↦ none
  ]
  | _ ↦ none
]
step cg_push s = elim s.cg [
  | compiling x ↦ some (record (add_to_list s x.version) { cg = pushed x })
  | _ ↦ none
]
step cg_finish s = elim s.cg [
  | pushed x ↦ some (record s {
    cg = CgPc.resting;
    recompile_active = if x.last then false else s.recompile_active;
  })
  | _ ↦ none
]

pub data Reach : Pipeline → Type 0 where
  start : Reach init
  next : {s t : Pipeline} (e : Event) → Reach s → step e s ≡ some t → Reach t

-- A schedule, which fails where an event's thread is not at that point.
pub run : List Event → Pipeline → Option Pipeline
run [] s = some s
run (e ∷ es) s = elim (step e s) [ none ↦ none | some t ↦ run es t ]
