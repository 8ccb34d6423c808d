-- ===== src/Bayes/Batch.antt =====
-- include/tuner/BayesianTuner.h, in createPredictions: the std::multiset that picks the batch of configurations
-- from the predicted times. A set is the list of its elements in order.
pub mod Order
pub mod Lowest
use at_jit.Prelude.{ℕ, suc, Bool, Option, none, some, List, [], ◌∷◌, length, if◌then◌else◌, ltb}
use at_jit.Prelude.Partial.{◌>>=◌}

-- BatchSz_
abbrev pub batch_sz : ℕ
batch_sz = 5

module _ {F : Type 0} (lt : F → F → Bool) where
  -- Best.insert: in front of the first greater key
  pub insert_key : ℕ × F → List (ℕ × F) → List (ℕ × F)
  insert_key cur [] = cur ∷ []
  insert_key cur (x ∷ xs) = if lt cur.1 x.1 then cur ∷ x ∷ xs else x ∷ insert_key cur xs

  -- Best.upper_bound, and Best.erase of what it finds; `none` where it is end().
  pub erase_upper_bound : ℕ × F → List (ℕ × F) → Option (List (ℕ × F))
  erase_upper_bound cur [] = none
  erase_upper_bound cur (x ∷ xs) =
      if lt cur.1 x.1 then some xs else (erase_upper_bound cur xs >>= λ ys. some (x ∷ ys))

  -- The body of the loop over the predictions
  pub consider : List (ℕ × F) → ℕ × F → List (ℕ × F)
  consider best cur =
      if ltb (length best) batch_sz
      then insert_key cur best
      else elim (erase_upper_bound cur best) [ none ↦ best | some rest ↦ insert_key cur rest ]

  -- The loop, from the prediction i on
  pub choose_from : List (ℕ × F) → ℕ → List F → List (ℕ × F)
  choose_from best i [] = best
  choose_from best i (p ∷ out) = choose_from (consider best (i, p)) (suc i) out

  pub choose_batch : List F → List (ℕ × F)
  choose_batch out = choose_from [] 0 out
