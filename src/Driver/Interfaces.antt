-- ===== src/Driver/Interfaces.antt =====
-- What the driver uses of the other components: the virtual methods of the class Feedback
-- (include/tuner/Feedback.h) and the public methods of Optimizer (include/tuner/optimizer.h).
use at_jit.Prelude.{ℕ, Bool, true, false, Option}

-- The objects behind a `Feedback*`. `better` is the test of `betterThan` on two objects whose
-- statistics are up to date. `none` as the result of `update_stats` is a failed CHECK, which ends the program.
pub record FeedbackOps : Type 1 where
  pub F : Type 0
  pub update_stats : F → Option F
  pub good_quality : F → Bool
  pub deployed_time : F → ℕ
  pub reset_deployed_time : F → F
  pub better : F → F → Bool

-- enum opt_status::Value
pub data OptStatus : Type 0 where
  empty working ready : OptStatus

abbrev pub is_working : OptStatus → Bool
is_working working = true
is_working _ = false

-- A compiled function and its feedback object, each by an address, with what the call left behind:
-- the optimizer's new state and the feedback objects in memory.
pub record Recompiled (O F : Type 0) : Type 0 where
  pub function : ℕ
  pub feedback : ℕ
  pub optimizer : O
  pub store : ℕ → F

-- `none` as the result of `recompile` ends the program: the bailout of its polling loop, or code generation fails.
pub record OptimizerOps (F : Type 0) : Type 1 where
  pub O : Type 0
  pub initialize : O → O
  pub status : O → OptStatus
  pub is_noop_tuner : O → Bool
  pub wait_for_compile : O → Bool
  pub recompile : O → (ℕ → F) → Option (Recompiled O F)
