-- ===== src/Export/Collect/Exported.antt =====
-- Which objects are exported.
use at_jit.Prelude.{
  ℕ, zero, suc, ◌+◌, ◌<◌, ◌≤◌, Bool, true, false, not, ◌&&◌, ◌||◌, Option, none, some, List, ◌∷◌,
  if◌then◌else◌, ◌==◌, ◌≡◌, ◌↔◌, ◌⊎◌, inl, inr, refl, sym, ap, subst, ◌∙◌, arith, All, Bool-cases,
  ==_iff, ==_refl,
}
use at_jit.Prelude.Partial.{Succeeds, >>=-Succeeds}
use at_jit.Export.Referenced.{mem}
use at_jit.Export.Trace.{TraceCall, traced_value}
use at_jit.Export.Trace.Flows.{Flows}
use at_jit.Export.Collect.{
  no_section, is_jit, Module, TypeOps, Sections, set_section, range, all_objects, users_of,
  entries_of, compiler_interface, deduce_objects_to_jit, deduce_each, regex_functions_to_jit,
  deduce_virtual_methods_to_jit, mark_tables, counts_type, collect_marked, collect_objects_to_jit,
}
use at_jit.Export.Collect.Adds.{Any, Adds, Adds-none, Adds-trans, mark_all-Adds}
use at_jit.Export.Collect.Steps.{ArgsBelow, Deduced, deduce_each-Adds}
use at_jit.Export.Collect.Methods.{
  EntryHasParam, LoadedBy, MarkedByTables, mark_tables-Adds, tables_iff,
}

module _ (Ty : Type 0) (ops : TypeOps Ty) (m : Module Ty) where
  -- What the last loop does with the objects from the i-th on
  record Collected (i n : ℕ) (sec : Sections Ty) (found : List ℕ) (after : Sections Ty)
      : Type 0 where
    exact :
        (j : ℕ)
        → (mem j found ≡ true)
          ↔ ((i ≤ j) × (j < i + n) × (is_jit (sec j) ≡ true) × ((m.object j).declaration ≡ false))
    dropped : (j : ℕ) → i ≤ j → j < i + n → is_jit (after j) ≡ false
    kept : (j : ℕ) → j < i → after j ≡ sec j

  -- The sections after the object i
  abbrev drop_mark : ℕ → Sections Ty → Sections Ty
  drop_mark i sec = if is_jit (sec i) then set_section Ty i no_section sec else sec

  drop_mark_off : (i j : ℕ) (sec : Sections Ty) → (i == j) ≡ false → drop_mark i sec j ≡ sec j
  drop_mark_off i j sec other = elim (Bool-cases (is_jit (sec i))) [
    | inl marked ↦ rw (marked, other) refl
    | inr unmarked ↦ rw unmarked refl
  ]

  drop_mark_at : (i : ℕ) (sec : Sections Ty) → is_jit (drop_mark i sec i) ≡ false
  drop_mark_at i sec = elim (Bool-cases (is_jit (sec i))) [
    | inl marked ↦ rw (marked, ==_refl i) refl
    | inr unmarked ↦ rw unmarked unmarked
  ]

  mem_if :
      (b : Bool) (i j : ℕ) (found : List ℕ)
      → mem j (if b then i ∷ found else found) ≡ (b && i == j || mem j found)
  mem_if true i j found = refl
  mem_if false i j found = refl

  both : (a d : Bool) → ((a && not d) ≡ true) ↔ ((a ≡ true) × (d ≡ false))
  both a d = (λ h. ground arith, λ (p, q). ground arith)

  abbrev CollectedAt : ℕ → ℕ → Sections Ty → ℕ → Type 0
  CollectedAt i n sec j =
      (i ≤ j) × (j < i + n) × (is_jit (sec j) ≡ true) × ((m.object j).declaration ≡ false)

  module _ (i n : ℕ) (sec : Sections Ty) (found : List ℕ) where
    abbrev longer : List ℕ
    longer = if is_jit (sec i) && not (m.object i).declaration then i ∷ found else found

    collected_here :
        ((j : ℕ) → (mem j found ≡ true) ↔ CollectedAt (suc i) n (drop_mark i sec) j)
        → (mem i longer ≡ true) ↔ CollectedAt i (suc n) sec i
    collected_here rest =
        let b = both (is_jit (sec i)) (m.object i).declaration in
        let same =
          mem_if (is_jit (sec i) && not (m.object i).declaration) i i found
          ∙ only (is_jit (sec i) && not (m.object i).declaration) (i == i) (mem i found) (==_refl i)
              λ h. absurd (omega (arith, (rest i).0 h)) in
        (
          λ h. let (a, d) = b.0 (sym same ∙ h) in (omega arith, omega arith, a, d),
          λ (l, u, a, d). same ∙ b.1 (a, d),
        )
      where
        only : (b e m : Bool) → e ≡ true → (m ≡ true → ⊥) → (b && e || m) ≡ b
        only b true true p q = absurd (q refl)
        only true true false p q = refl
        only false true false p q = refl
        only b false m p q = absurd (cc)

    collected_later :
        (j : ℕ)
        → (i == j) ≡ false
        → (mem j found ≡ true) ↔ CollectedAt (suc i) n (drop_mark i sec) j
        → (mem j longer ≡ true) ↔ CollectedAt i (suc n) sec j
    collected_later j other rest =
        let same =
          mem_if (is_jit (sec i) && not (m.object i).declaration) i j found
          ∙ skip (is_jit (sec i) && not (m.object i).declaration) (i == j) (mem j found) other in
        let off = ap is_jit (drop_mark_off i j sec other) in
        (
          λ h.
              let (l, u, a, d) = rest.0 (sym same ∙ h) in
              (omega arith, omega arith, sym off ∙ a, d),
          λ (l, u, a, d). same ∙ rest.1 (ground arith, omega arith, off ∙ a, d),
        )
      where
        skip : (b e m : Bool) → e ≡ false → (b && e || m) ≡ m
        skip b e m p = ground arith

  collect_marked-Collected :
      (i n : ℕ) (sec : Sections Ty)
      → Collected i n sec
          (collect_marked Ty ops m (range Ty i n) sec).0
          (collect_marked Ty ops m (range Ty i n) sec).1
  unfolding collect_marked
  collect_marked-Collected i zero sec = record {
    exact = λ j. (λ h. absurd (cc), λ (h, l, r, d). absurd (omega arith));
    dropped = λ j h l. absurd (omega arith);
    kept = λ j h. refl;
  }
  collect_marked-Collected i (suc n) sec =
      let rest = collect_marked-Collected (suc i) n (drop_mark i sec) in
      let found = (collect_marked Ty ops m (range Ty (suc i) n) (drop_mark i sec)).0 in
      record {
        exact = λ j. elim (Bool-cases (i == j)) [
          | inl same ↦
              subst (λ k. (mem k (longer i n sec found) ≡ true) ↔ CollectedAt i (suc n) sec k)
                ((==_iff i j).0 same) (collected_here i n sec found rest.exact)
          | inr other ↦ collected_later i n sec found j other (rest.exact j)
        ];
        dropped = λ j h l. elim (Bool-cases (i == j)) [
          | inl same ↦
              let at : is_jit ((collect_marked Ty ops m (range Ty (suc i) n) (drop_mark i sec)).1 i)
                  ≡ false =
                ap is_jit (rest.kept i (omega arith)) ∙ drop_mark_at i sec in
              subst
                (λ k.
                  is_jit ((collect_marked Ty ops m (range Ty (suc i) n) (drop_mark i sec)).1 k)
                  ≡ false)
                ((==_iff i j).0 same) at
          | inr other ↦ rest.dropped j (ground arith) (omega arith)
        ];
        kept = λ j h. rest.kept j (omega arith) ∙ drop_mark_off i j sec (ground arith);
      }

  -- The regular expression matches the object's name.
  abbrev pub Matches : Option (ℕ → Bool) → ℕ → Type 0
  Matches none j = ⊥
  Matches (some match) j = Any (λ k. (match k ≡ true) × (k ≡ j)) (all_objects Ty ops m)

  regex_functions-Adds :
      (pattern : Option (ℕ → Bool)) (sec : Sections Ty)
      → Adds Ty (Matches pattern) sec (regex_functions_to_jit Ty ops m pattern sec)
  unfolding regex_functions_to_jit
  regex_functions-Adds none sec = Adds-none Ty sec
  regex_functions-Adds (some match) sec = mark_all-Adds Ty match (all_objects Ty ops m) sec

  -- Marked before the virtual tables are looked at
  abbrev pub MarkedFirst : Option (ℕ → Bool) → Sections Ty → ℕ → Type 0
  MarkedFirst pattern start j =
      (is_jit (start j) ≡ true)
      ⊎ (Deduced Ty ops m (compiler_interface Ty ops m start (all_objects Ty ops m)) j
          ⊎ Matches pattern j)

  -- Marked when all is done
  abbrev pub Marked : Option (ℕ → Bool) → Sections Ty → ℕ → Type 0
  Marked pattern start j =
      MarkedFirst pattern start j
      ⊎ MarkedByTables Ty ops m
          (LoadedBy Ty ops m (MarkedFirst pattern start) (all_objects Ty ops m))
          (all_objects Ty ops m) j

  -- The objects of the list are those that are marked and defined, and no mark is left.
  abbrev pub Exports : Option (ℕ → Bool) → Sections Ty → List ℕ × Sections Ty → Type 0
  Exports pattern start r =
      ((j : ℕ)
        → (mem j r.0 ≡ true)
          ↔ ((j < m.size) × ((m.object j).declaration ≡ false) × Marked pattern start j))
      × ((j : ℕ) → j < m.size → is_jit (r.1 j) ≡ false)

  collected_at_end :
      (pattern : Option (ℕ → Bool)) (start sec : Sections Ty)
      → ((j : ℕ) → (is_jit (sec j) ≡ true) ↔ Marked pattern start j)
      → Exports pattern start (collect_marked Ty ops m (all_objects Ty ops m) sec)
  collected_at_end pattern start sec marks =
      let c = collect_marked-Collected 0 m.size sec in
      (
        λ j. (
          λ h. let (l, u, a, d) = (c.exact j).0 h in (omega arith, d, (marks j).0 a),
          λ (u, d, a). (c.exact j).1 (omega arith, omega arith, (marks j).1 a, d),
        ),
        λ j h. c.dropped j (omega arith) (omega arith),
      )

  -- In a module whose values are the numbers below its bound, where the arguments of calls are such values and every
  -- function in a virtual table has a parameter, collectObjectsToJIT ends. It collects exactly the objects that are
  -- defined and marked, and leaves no mark. Marked is what has the section from the start; what is constant and may be
  -- aliased by an argument of a call of a function in the interface's section; what the regular expression matches;
  -- and, for these functions, the methods in virtual tables of a type that one of them loads, with their overloads.
  pub collect_objects_to_jit-Exports :
      (pattern : Option (ℕ → Bool)) (start : Sections Ty)
      → ((c d : TraceCall)
          → traced_value c < m.values
          → Flows m.code c d
          → traced_value d < m.values)
      → ((f : ℕ) → All (ArgsBelow Ty ops m) (users_of Ty ops m (m.object f).shape))
      → ((k : ℕ) → All (EntryHasParam Ty ops m) (entries_of Ty ops m (m.object k).shape))
      → Succeeds (Exports pattern start) (collect_objects_to_jit Ty ops m pattern start)
  unfolding collect_objects_to_jit deduce_objects_to_jit deduce_virtual_methods_to_jit
  collect_objects_to_jit-Exports pattern start closed args params =
      let all = all_objects Ty ops m in
      let fs = compiler_interface Ty ops m start all in
      >>=-Succeeds _ (deduce_each Ty ops m fs start) _
        (deduce_each-Adds Ty ops m closed fs start args)
        λ a deduced.
          let sec = regex_functions_to_jit Ty ops m pattern a in
          let first = Adds-trans Ty _ _ start a sec deduced (regex_functions-Adds pattern a) in
          let types = counts_type Ty ops m sec all in
          >>=-Succeeds _ (mark_tables Ty ops m types all sec) _
            (mark_tables-Adds Ty ops m types all sec params)
            λ b tables. collected_at_end pattern start b λ j.
              let same = tables_iff Ty ops m sec (MarkedFirst pattern start) all j first in
              (
                λ h. elim ((tables j).0 h) [ inl i ↦ inl ((first j).0 i) | inr x ↦ inr (same.0 x) ],
                λ h. elim h [
                  | inl i ↦ (tables j).1 (inl ((first j).1 i))
                  | inr x ↦ (tables j).1 (inr (same.1 x))
                ],
              )
