-- ===== src/Loops/Names.antt =====
-- LoopNamer gives every loop a name that getLoopName reads back.
use at_jit.Prelude.{
  ℕ, zero, suc, ◌+◌, ◌-◌, ◌<◌, ◌^◌, ◌≡◌, refl, ap, ap₂, ◌∙◌, false, Option, none, some, List, [],
  ◌∷◌, ◌++◌, map, length, ◌==◌, All, arith,
}
use at_jit.Loops.{
  MdStrings, tag, Operand, insert_all, create_loop_name, loop_number, get_loop_name, two_strings,
  name_loop, name_loops,
}
use at_jit.Loops.Set.{find, or_else, find-append, find-insert_all}
use at_jit.Loops.Setting.{is_name, number_of, get_loop_name-find}

module _ (strs : MdStrings) where
  open strs use {Str, eq_str, eq_str_iff, name, to_string, as_integer, as_integer-to_string}

  -- The loop has no name yet.
  unfoldable pub IsUnnamed : Option (List (Operand strs)) → Type 0
  IsUnnamed none = Unit
  IsUnnamed (some ops) = find (is_name strs) ops ≡ none

  number_of-tag :
      (ids : ℕ) → ids < 2 ^ 32 - 1 → number_of strs (some (create_loop_name strs ids).0) ≡ some ids
  unfolding number_of create_loop_name two_strings loop_number
  number_of-tag ids h =
      let differs : (ids == 2 ^ 32 - 1) ≡ false = ground arith in
      rw (as_integer-to_string ids (omega arith), differs) refl

  find-tag :
      (ids : ℕ)
      → find (is_name strs) ((create_loop_name strs ids).0 ∷ [])
        ≡ some (create_loop_name strs ids).0
  unfolding find is_name create_loop_name two_strings
  find-tag ids = rw ((eq_str_iff (name tag) (name tag)).1 refl) refl

  name_loop-name :
      (md : Option (List (Operand strs))) (ids : ℕ)
      → IsUnnamed md
      → ids < 2 ^ 32 - 1
      → (get_loop_name strs (name_loop strs md ids).0 ≡ some ids)
        × ((name_loop strs md ids).1 ≡ ids + 1)
  unfolding name_loop IsUnnamed create_loop_name find
  name_loop-name none ids u h =
      let t = (create_loop_name strs ids).0 in
      (
        get_loop_name-find strs (insert_all strs [] (t ∷ []))
            ∙ ap (number_of strs) (find-insert_all strs (is_name strs) [] (t ∷ []) ∙ find-tag ids)
            ∙ number_of-tag ids h,
        omega arith,
      )
  name_loop-name (some ops) ids u h =
      let t = (create_loop_name strs ids).0 in
      (
        get_loop_name-find strs (insert_all strs [] (ops ++ t ∷ []))
            ∙ ap (number_of strs) (
                find-insert_all strs (is_name strs) [] (ops ++ t ∷ [])
                ∙ find-append (is_name strs) ops (t ∷ [])
                ∙ ap (λ o. or_else o (find (is_name strs) (t ∷ []))) u
                ∙ find-tag ids)
            ∙ number_of-tag ids h,
        omega arith,
      )

  pub count_from : ℕ → ℕ → List (Option ℕ)
  count_from i zero = []
  count_from i (suc n) = some i ∷ count_from (i + 1) n

  -- Where no loop has a name and there are fewer than 2^32 - 1 loops: after the pass, the loops have the
  -- names 0, 1, 2 and so on in the order of the visits, and getLoopName reads each of them back.
  pub name_loops-count :
      (mds : List (Option (List (Operand strs)))) (ids : ℕ)
      → All IsUnnamed mds
      → ids + length mds < 2 ^ 32
      → map (get_loop_name strs) (name_loops strs mds ids) ≡ count_from ids (length mds)
  unfolding name_loops count_from
  name_loops-count [] ids u h = refl
  name_loops-count (md ∷ mds) ids (u, us) h =
      let (read, next) = name_loop-name md ids u (omega arith) in
      ap₂ (λ x xs. x ∷ xs) read
        (ap (λ i. map (get_loop_name strs) (name_loops strs mds i)) next
          ∙ name_loops-count mds (ids + 1) us (omega arith))
