-- ===== src/Wrappers.antt =====
-- runtime/pass/InlineParameters.cpp (GetNewArgCount, GetWrapperTy): the parameters of the wrapper that forwards
-- the placeholders of a context to the original function.
pub mod Types
pub mod Length
pub mod Entry
mod Tests
use at_jit.Prelude.{
  ℕ, ◌+◌, ◌%◌, ◌^◌, Option, none, some, List, [], ◌∷◌, get_elem?, set, replicate, if◌then◌else◌,
  leb,
}
use at_jit.Context.Interfaces.{Hashes}
use at_jit.Context.{Argument, forward}

module _ (h : Hashes) where
  -- GetNewArgCount; a placeholder's index is an unsigned of 32 bits.
  unfoldable pub get_new_arg_count : List (Argument h) → ℕ → ℕ
  get_new_arg_count [] m = m
  get_new_arg_count (forward k ∷ xs) m =
      let n = (k + 1) % 2 ^ 32 in get_new_arg_count xs (if leb n m then m else n)
  get_new_arg_count (_ ∷ xs) m = get_new_arg_count xs m

  module _ {Ty : Type 0} where
    -- The loop of GetWrapperTy over the arguments and the types of the function's parameters; a missing
    -- type is a null pointer. `none` as a result is an access out of bounds.
    unfoldable pub fill : List (Argument h) → List Ty → List (Option Ty) → Option (List (Option Ty))
    fill [] ts slots = some slots
    fill (x ∷ xs) [] slots = none
    fill (forward k ∷ xs) (t ∷ ts) slots = elim (get_elem? slots k) [
      | none ↦ none
      | some none ↦ fill xs ts (set slots k (some t))
      | some (some u) ↦ fill xs ts slots
    ]
    fill (_ ∷ xs) (t ∷ ts) slots = fill xs ts slots

    -- The parameters that GetWrapperTy passes to FunctionType::get
    unfoldable pub wrapper_types : List (Argument h) → List Ty → Option (List (Option Ty))
    wrapper_types xs ts = fill xs ts (replicate (get_new_arg_count xs 0) none)
