-- ===== src/Wrappers/Length.antt =====
-- How many parameters GetWrapperTy gives.
use at_jit.Prelude.{
  ℕ, Option, none, some, List, [], ◌∷◌, length, length-replicate, get_elem?, replicate, ◌≡◌, refl,
  set, length-set, ◌∙◌,
}
use at_jit.Prelude.Partial.{IfSome, IfSome-mono}
use at_jit.Context.Interfaces.{Hashes}
use at_jit.Context.{Argument, forward}
use at_jit.Wrappers.{get_new_arg_count, fill, wrapper_types}

module _ (h : Hashes) (Ty : Type 0) where
  by_slot :
      (k : ℕ) (o : Option (Option Ty)) (t : Ty) (xs : List (Argument h)) (ts : List Ty)
      (slots : List (Option Ty))
      → IfSome (λ r. length r ≡ length slots) (fill h xs ts slots)
      → IfSome (λ r. length r ≡ length (set slots k (some t))) (fill h xs ts (set slots k (some t)))
      → IfSome
          (λ r. length r ≡ length slots)
          (elim o [
            | none ↦ none
            | some none ↦ fill h xs ts (set slots k (some t))
            | some (some u) ↦ fill h xs ts slots
          ])
  by_slot k none t xs ts slots keep new = tt
  by_slot k (some none) t xs ts slots keep new =
      IfSome-mono _ _ (fill h xs ts (set slots k (some t))) (λ r e. e ∙ length-set slots k (some t))
        new
  by_slot k (some (some u)) t xs ts slots keep new = keep

  fill-length :
      (xs : List (Argument h)) (ts : List Ty) (slots : List (Option Ty))
      → IfSome (λ r. length r ≡ length slots) (fill h xs ts slots)
  unfolding fill
  fill-length [] ts slots = refl
  fill-length (x ∷ xs) [] slots = tt
  fill-length (forward k ∷ xs) (t ∷ ts) slots =
      by_slot k (get_elem? slots k) t xs ts slots (fill-length xs ts slots)
        (fill-length xs ts (set slots k (some t)))
  fill-length (x ∷ xs) (t ∷ ts) slots = fill-length xs ts slots

  pub wrapper_types-length :
      (xs : List (Argument h)) (ts : List Ty)
      → IfSome (λ r. length r ≡ get_new_arg_count h xs 0) (wrapper_types h xs ts)
  unfolding wrapper_types
  wrapper_types-length xs ts =
      IfSome-mono _ _ (fill h xs ts (replicate (get_new_arg_count h xs 0) none))
        (λ r e. e ∙ length-replicate (get_new_arg_count h xs 0) none)
        (fill-length xs ts (replicate (get_new_arg_count h xs 0) none))
