-- ===== src/Export/Register/Mapping.antt =====
-- The table of the local variables, written by the pass and read by MapGlobals.
use at_jit.Prelude.{ℕ, suc, Bool, true, false, List, [], ◌∷◌, ◌≡◌}
use at_jit.Prelude.Partial.{Succeeds, Succeeds-mono, if-cases, >>=-Succeeds}
use at_jit.Export.Register.{
  GlobalVariable, collect_local_globals, or_name, name_globals, get_global_mapping, map_globals,
}

module _ (Name : Type 0) (eq_name : Name → Name → Bool) where
  -- The names and addresses that belong to a module's variables, from the i-th local one on: a variable with local
  -- linkage has its own name, or the i-th unique one, and its address; a variable with another linkage has no place.
  pub data LocalsOf (unique : ℕ → Name)
      : ℕ → List (GlobalVariable Name eq_name) → List (Name × ℕ) → Type 0 where
    no_more : {i : ℕ} → LocalsOf unique i [] []
    local :
        {i : ℕ} {v : GlobalVariable Name eq_name} {vs : List (GlobalVariable Name eq_name)}
        {ms : List (Name × ℕ)}
        → v.has_local_linkage ≡ true
        → LocalsOf unique (suc i) vs ms
        → LocalsOf unique i (v ∷ vs) ((or_name Name eq_name v.name (unique i), v.address) ∷ ms)
    not_local :
        {i : ℕ} {v : GlobalVariable Name eq_name} {vs : List (GlobalVariable Name eq_name)}
        {ms : List (Name × ℕ)}
        → v.has_local_linkage ≡ false
        → LocalsOf unique i vs ms
        → LocalsOf unique i (v ∷ vs) ms

  map_globals-LocalsOf :
      (empty : Name) (unique : ℕ → Name) (i : ℕ) (vs : List (GlobalVariable Name eq_name))
      → Succeeds (LocalsOf unique i vs) (
          map_globals Name eq_name (
            get_global_mapping Name eq_name empty
              (name_globals Name eq_name unique i (collect_local_globals Name eq_name vs))))
  unfolding map_globals get_global_mapping name_globals collect_local_globals
  map_globals-LocalsOf empty unique i [] = no_more
  map_globals-LocalsOf empty unique i (v ∷ vs) =
      let rest = collect_local_globals Name eq_name vs in
      if-cases
        (λ l. Succeeds (LocalsOf unique i (v ∷ vs)) (
          map_globals Name eq_name
            (get_global_mapping Name eq_name empty (name_globals Name eq_name unique i l))))
        v.has_local_linkage (v ∷ rest) rest
        (λ is_local.
          >>=-Succeeds _
            (map_globals Name eq_name (
              get_global_mapping Name eq_name empty
                (name_globals Name eq_name unique (suc i) rest)))
            _ (map_globals-LocalsOf empty unique (suc i) vs) λ ms others. local is_local others)
        λ is_not.
          Succeeds-mono _ _
            (map_globals Name eq_name
              (get_global_mapping Name eq_name empty (name_globals Name eq_name unique i rest)))
            (λ ms others. not_local is_not others) (map_globals-LocalsOf empty unique i vs)

  -- MapGlobals reads the table that the pass writes, and stops at its null entry: it maps exactly the variables with
  -- local linkage, in their order, each under its own name, or under the unique one where it had none, and no other.
  pub map_globals-collected :
      (empty : Name) (unique : ℕ → Name) (vs : List (GlobalVariable Name eq_name))
      → Succeeds (LocalsOf unique 0 vs) (
          map_globals Name eq_name (
            get_global_mapping Name eq_name empty
              (name_globals Name eq_name unique 0 (collect_local_globals Name eq_name vs))))
  map_globals-collected empty unique vs = map_globals-LocalsOf empty unique 0 vs
