-- ===== src/Export/Referenced.antt =====
-- getReferencedFromEntry: the functions that a global value needs. LLVM's values are numbers below a bound, and a
-- graph says which other values each of them uses.
pub mod Pushed
pub mod Reachable
use at_jit.Prelude.{
  ℕ, zero, suc, ◌+◌, Bool, true, false, ◌||◌, Option, none, some, List, [], ◌∷◌, ◌++◌, length,
  if◌then◌else◌, ◌==◌,
}

-- What the loop asks of a value: a function has the operands of its instructions, and a variable may have an
-- initializer. Operands that are no users are left out.
pub data Kind : Type 0 where
  function : List ℕ → Kind
  variable : Option ℕ → Kind
  other : Kind

pub record Values : Type 0 where
  pub kind : ℕ → Kind
  pub operands : ℕ → List ℕ

abbrev pub mem : ℕ → List ℕ → Bool
mem u [] = false
mem u (v ∷ vs) = v == u || mem u vs

-- push_back of each; the head of the list is the back of ToVisit.
unfoldable pub push_all : List ℕ → List ℕ → List ℕ
push_all [] stack = stack
push_all (u ∷ us) stack = push_all us (u ∷ stack)

abbrev pub is_function : Kind → Bool
is_function (function ops) = true
is_function _ = false

module _ (g : Values) where
  -- What the body of the loop pushes before U's own operands
  abbrev pub inner : Kind → List ℕ
  inner (function ops) = ops
  inner (variable (some init)) = init ∷ []
  inner _ = []

  abbrev pub push_users : ℕ → List ℕ → List ℕ
  push_users u stack = push_all (g.operands u) (push_all (inner (g.kind u)) stack)

  -- The loop: ToVisit, Visited and Funs; `none` is a lack of fuel.
  unfoldable pub visit : ℕ → List ℕ → List ℕ → List ℕ → Option (List ℕ)
  visit zero stack visited funs = none
  visit (suc fuel) [] visited funs = some funs
  visit (suc fuel) (u ∷ stack) visited funs =
      let again = visit fuel stack visited funs in
      let first =
        visit fuel (push_users u stack) (u ∷ visited)
          (if is_function (g.kind u) then funs ++ u ∷ [] else funs) in
      if mem u visited then again else first

  -- The uses of the values below n
  abbrev pub uses : ℕ → ℕ
  uses zero = 0
  uses (suc n) = length (inner (g.kind n)) + length (g.operands n) + uses n

  -- getReferencedFromEntry, on a module whose values are the numbers below n
  unfoldable pub get_referenced : ℕ → ℕ → Option (List ℕ)
  get_referenced n entry = visit (uses n + 2) (entry ∷ []) [] []
