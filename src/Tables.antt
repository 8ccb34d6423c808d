-- ===== src/Tables.antt =====
-- std::unordered_map where the code uses emplace and find, and the two components that keep one:
-- include/easy/code_cache.h and include/easy/runtime/BitcodeTracker.h.
pub mod Laws
pub mod Cache
pub mod Bitcode
mod Tests
use at_jit.Prelude.{Bool, true, false, Option, none, some, List, [], ◌∷◌, ◌++◌, if◌then◌else◌}

module _ {ℓ κ} {K : Type ℓ} {V : Type κ} (eq : K → K → Bool) where
  -- find
  unfoldable pub find_key : List (K × V) → K → Option V
  find_key [] k = none
  find_key ((j, v) ∷ m) k = if eq j k then some v else find_key m k

  -- find(k) != end()
  unfoldable pub has_key : List (K × V) → K → Bool
  has_key m k = elim (find_key m k) [ none ↦ false | some v ↦ true ]

  -- emplace: an entry that is there stays. The result tells whether the entry is new.
  unfoldable pub emplace : List (K × V) → K → V → Bool × List (K × V)
  emplace m k v = if has_key m k then (false, m) else (true, m ++ (k, v) ∷ [])

  -- The assignment to the entry that an iterator refers to
  unfoldable pub assign_key : List (K × V) → K → V → List (K × V)
  assign_key [] k v = []
  assign_key ((j, w) ∷ m) k v = if eq j k then (j, v) ∷ m else (j, w) ∷ assign_key m k v
